-- ===== src/Rocksdb/Supersession.antt =====
-- src/rocksdb/supersession-chain.js: where a document stands among the versions of its artifact.
-- The record `View` is the store or snapshot that the walks read. A field of a record read from it that
-- may have any type is an `Option`, which is `none` for a value that is not a string or not a number.
pub mod Bounds
pub mod Exact
use pi_sliding_context_windo.Common.{
  ℕ, zero, suc, ◌+◌, Bool, true, false, not, Option, none, some, List, [], ◌∷◌, ◌++◌, ◌&&◌, ◌||◌,
  Text, units, decimal, if◌then◌else◌, ◌==◌, text_eq, length,
}
use pi_sliding_context_windo.Common.Results.{Result, ok, throw, ◌>>◌, throw_if}

pub data ChainError : Type 0 where
  invalid_manifest : ChainError

abbrev pub max_explicit_supersession_chain_depth : ℕ
max_explicit_supersession_chain_depth = 4096

-- `document.supersedes`, and the replacement that a marker names.
pub record Reference : Type 0 where
  pub document_id : Option Text
  pub version : Option ℕ

pub record Manifest : Type 0 where
  pub document_id : Text
  pub version : ℕ
  pub project : Text
  pub created_at : ℕ
  pub supersedes : Option Reference

pub record Marker : Type 0 where
  pub status : Text
  pub supersession_type : Text
  pub replacement : Reference
  pub recorded_at : ℕ

pub record View : Type 0 where
  pub get_document : Text → ℕ → Option Manifest
  pub first_marker : Text → ℕ → Option Marker

pub record Identity : Type 0 where
  pub document_id : Text
  pub version : ℕ

pub record Neighbour : Type 0 where
  pub document_id : Text
  pub version : ℕ
  pub created_at : ℕ

abbrev pub chain_identity : Identity → Text
chain_identity i = i.document_id ++ 0 ∷ decimal i.version

-- A string that is not empty and a positive number.
unfoldable pub is_identity : Identity → Bool
is_identity i = not (length i.document_id == 0) && not (i.version == 0)

abbrev pub identity_of : Reference → Option Identity
identity_of r = elim r.document_id [
  | none ↦ none
  | some d ↦ elim r.version [
    | none ↦ none
    | some v ↦
        let i : Identity = record { document_id = d; version = v } in
        if is_identity i then some i else none
  ]
]

-- `visited.has(key)`
abbrev pub has : List Text → Text → Bool
has [] key = false
has (k ∷ ks) key = text_eq k key || has ks key

unfoldable pub explicit_successor_marker : View → Identity → Option Marker
explicit_successor_marker view i = elim (view.first_marker i.document_id i.version) [
  | none ↦ none
  | some m ↦
      if text_eq m.status (units "superseded") && text_eq m.supersession_type (units "explicit")
      then some m
      else none
]

-- What a walk has counted, and the neighbour it met first.
pub record Walk : Type 0 where
  pub hops : ℕ
  pub neighbour : Option Neighbour
  pub visited : List Text

-- One hop: the first neighbour stays.
abbrev pub or_first : Option Neighbour → Neighbour → Option Neighbour
or_first none n = some n
or_first (some m) n = some m

abbrev pub hop : Walk → Identity → ℕ → Walk
hop w i created_at = record {
  hops = suc w.hops;
  neighbour =
      or_first w.neighbour
        (record { document_id = i.document_id; version = i.version; created_at = created_at });
  visited = chain_identity i ∷ w.visited;
}

-- A key that was visited before a read that ends the walk.
abbrev pub visit : Walk → Identity → Walk
visit w i = record {
  hops = w.hops;
  neighbour = w.neighbour;
  visited = chain_identity i ∷ w.visited;
}

-- The target of `cursor.supersedes`, if there is one that the walk may go to.
abbrev pub next_target : List Text → Option Reference → Option Identity
next_target visited none = none
next_target visited (some r) = elim (identity_of r) [
  | none ↦ none
  | some i ↦ if has visited (chain_identity i) then none else some i
]

-- The loops, where the number is what is left of the bound on the hops.
unfoldable pub walk_backward : View → Text → ℕ → Manifest → Walk → Walk
walk_backward view project zero cursor w = w
walk_backward view project (suc left) cursor w = elim (next_target w.visited cursor.supersedes) [
  | none ↦ w
  | some i ↦ elim (view.get_document i.document_id i.version) [
    | none ↦ visit w i
    | some m ↦ elim (text_eq m.project project) [
      | false ↦ visit w i
      | true ↦ walk_backward view project left m (hop w i m.created_at)
    ]
  ]
]

abbrev pub replacement_of : Option Marker → Option Reference
replacement_of none = none
replacement_of (some m) = some m.replacement

abbrev pub recorded_of : Option Marker → ℕ
recorded_of none = 0
recorded_of (some m) = m.recorded_at

unfoldable pub walk_forward : View → ℕ → Identity → Walk → Walk
walk_forward view zero cursor w = w
walk_forward view (suc left) cursor w =
    let marker = explicit_successor_marker view cursor in
    elim (next_target w.visited (replacement_of marker)) [
      | none ↦ w
      | some i ↦ walk_forward view left i (hop w i (recorded_of marker))
    ]

pub record ChainView : Type 0 where
  pub position : ℕ
  pub total_versions : ℕ
  pub predecessor : Option Neighbour
  pub successor : Option Neighbour

abbrev pub identity : Manifest → Identity
identity m = record { document_id = m.document_id; version = m.version }

abbrev pub backward_walk : View → Manifest → Walk
backward_walk view m =
    walk_backward view m.project max_explicit_supersession_chain_depth m
      (record { hops = 0; neighbour = none; visited = chain_identity (identity m) ∷ [] })

abbrev pub forward_walk : View → Manifest → List Text → Walk
forward_walk view m visited =
    walk_forward view max_explicit_supersession_chain_depth (identity m)
      (record { hops = 0; neighbour = none; visited = visited })

abbrev pub chain_view : Walk → Walk → Option ChainView
chain_view b f =
    if b.hops == 0 && f.hops == 0
    then none
    else some (record {
      position = b.hops + 1;
      total_versions = b.hops + f.hops + 1;
      predecessor = b.neighbour;
      successor = f.neighbour;
    })

unfoldable pub supersession_chain_view : View → Manifest → Result ChainError (Option ChainView)
supersession_chain_view view m =
    throw_if (not (is_identity (identity m)) || length m.project == 0) invalid_manifest
    >> (let b = backward_walk view m in ok (chain_view b (forward_walk view m b.visited)))
