-- ===== src/Rocksdb/Supersession/Exact.antt =====
-- The place that src/rocksdb/supersession-chain.js gives a document of a chain the store holds whole.
use pi_sliding_context_windo.Common.{
  ℕ, zero, suc, ◌+◌, ◌≤◌, ◌<◌, ◌≡◌, refl, sym, ap, ◌∙◌, subst, true, false, not, Option, none, some,
  List, [], ◌∷◌, ◌&&◌, ◌||◌, Text, arith, ◌==◌, text_eq, text_eq_refl, length, Bool-cases, inl, inr,
}
use pi_sliding_context_windo.Common.Results.{Result, ok, throw}
use pi_sliding_context_windo.Rocksdb.Supersession.{
  ChainError, max_explicit_supersession_chain_depth, Reference, Manifest, Marker, View, Identity,
  Walk, chain_identity, is_identity, has, hop, next_target, explicit_successor_marker,
  walk_backward, replacement_of, recorded_of, walk_forward, ChainView, identity, backward_walk,
  forward_walk, chain_view, supersession_chain_view,
}

abbrev pub reference : Identity → Reference
reference i = record { document_id = some i.document_id; version = some i.version }

-- The manifests that a manifest supersedes, newest first, down to one that supersedes nothing; all are in
-- the store and of the project.
abbrev pub Ancestors : View → Text → Manifest → List Manifest → Type 0
Ancestors view project m [] = m.supersedes ≡ none
Ancestors view project m (n ∷ ns) =
    (m.supersedes ≡ some (reference (identity n)))
    × (is_identity (identity n) ≡ true)
    × (view.get_document n.document_id n.version ≡ some n)
    × (n.project ≡ project)
    × Ancestors view project n ns

-- The versions that replace one, oldest first, up to one without an explicit marker.
abbrev pub Successors : View → Identity → List (Identity × ℕ) → Type 0
Successors view i [] = explicit_successor_marker view i ≡ none
Successors view i (n ∷ ns) =
    (m : Marker) × (explicit_successor_marker view i ≡ some m)
    × (m.replacement ≡ reference n.0)
    × (m.recorded_at ≡ n.1)
    × (is_identity n.0 ≡ true)
    × Successors view n.0 ns

-- No version comes twice.
abbrev pub AreFresh : List Text → List Identity → Type 0
AreFresh visited [] = Unit
AreFresh visited (i ∷ is) =
    (has visited (chain_identity i) ≡ false) × AreFresh (chain_identity i ∷ visited) is

abbrev pub ancestor_ids : List Manifest → List Identity
ancestor_ids [] = []
ancestor_ids (n ∷ ns) = identity n ∷ ancestor_ids ns

abbrev pub successor_ids : List (Identity × ℕ) → List Identity
successor_ids [] = []
successor_ids (n ∷ ns) = n.0 ∷ successor_ids ns

-- The keys that stand visited behind a walk.
abbrev pub visit_all : List Text → List Identity → List Text
visit_all visited [] = visited
visit_all visited (i ∷ is) = visit_all (chain_identity i ∷ visited) is

-- The answer for a document with so many older and newer versions.
abbrev pub IsPlaced : ℕ → ℕ → Result ChainError (Option ChainView) → Type 0
IsPlaced older newer (throw e) = ⊥
IsPlaced older newer (ok none) = (older ≡ 0) × (newer ≡ 0)
IsPlaced older newer (ok (some v)) =
    (v.position ≡ older + 1) × (v.total_versions ≡ older + newer + 1) × (1 ≤ older + newer)

-- The hops of a walk over all of the ancestors or successors.
abbrev hops_back : Walk → List Manifest → Walk
hops_back w [] = w
hops_back w (n ∷ ns) = hops_back (hop w (identity n) n.created_at) ns

abbrev hops_on : Walk → List (Identity × ℕ) → Walk
hops_on w [] = w
hops_on w (n ∷ ns) = hops_on (hop w n.0 n.1) ns

next_target-reference :
    (visited : List Text) (i : Identity)
    → is_identity i ≡ true
    → has visited (chain_identity i) ≡ false
    → next_target visited (some (reference i)) ≡ some i
next_target-reference visited i h k = rw (h, next_target, k) refl

module _ (view : View) where
  walk_backward-Ancestors :
      (project : Text) (left : ℕ) (m : Manifest) (w : Walk) (ns : List Manifest)
      → Ancestors view project m ns
      → AreFresh w.visited (ancestor_ids ns)
      → length ns ≤ left
      → walk_backward view project left m w ≡ hops_back w ns
  unfolding walk_backward
  walk_backward-Ancestors project zero m w [] a f l = refl
  walk_backward-Ancestors project zero m w (n ∷ ns) a f l = absurd (omega arith)
  walk_backward-Ancestors project (suc left) m w [] a f l = rw (a, walk_backward) refl
  walk_backward-Ancestors project (suc left) m w (n ∷ ns) a f l =
      let t : next_target w.visited m.supersedes ≡ some (identity n) =
        ap (next_target w.visited) a.0 ∙ next_target-reference w.visited (identity n) a.1 f.0 in
      let p : text_eq n.project project ≡ true =
        subst (λ x. text_eq n.project x ≡ true) a.3 (text_eq_refl n.project) in
      rw (t, walk_backward, a.2, p)
        (walk_backward-Ancestors project left n (hop w (identity n) n.created_at) ns a.4 f.1
          (omega arith))

  walk_forward-Successors :
      (left : ℕ) (i : Identity) (w : Walk) (ns : List (Identity × ℕ))
      → Successors view i ns
      → AreFresh w.visited (successor_ids ns)
      → length ns ≤ left
      → walk_forward view left i w ≡ hops_on w ns
  unfolding walk_forward
  walk_forward-Successors zero i w [] a f l = refl
  walk_forward-Successors zero i w (n ∷ ns) a f l = absurd (omega arith)
  walk_forward-Successors (suc left) i w [] a f l = rw (a, walk_forward) refl
  walk_forward-Successors (suc left) i w (n ∷ ns) (m, e, r, t, v, s) f l =
      let g : next_target w.visited (replacement_of (explicit_successor_marker view i)) ≡ some n.0 =
        ap (λ o. next_target w.visited (replacement_of o)) e
        ∙ ap (λ x. next_target w.visited (some x)) r
        ∙ next_target-reference w.visited n.0 v f.0 in
      let h : recorded_of (explicit_successor_marker view i) ≡ n.1 = ap recorded_of e ∙ t in
      rw (g, walk_forward, h)
        (walk_forward-Successors left n.0 (hop w n.0 n.1) ns s f.1 (omega arith))

hops_back-hops : (w : Walk) (ns : List Manifest) → (hops_back w ns).hops ≡ w.hops + length ns
hops_back-hops w [] = omega arith
hops_back-hops w (n ∷ ns) = omega (arith, hops_back-hops (hop w (identity n) n.created_at) ns)

hops_on-hops : (w : Walk) (ns : List (Identity × ℕ)) → (hops_on w ns).hops ≡ w.hops + length ns
hops_on-hops w [] = omega arith
hops_on-hops w (n ∷ ns) = omega (arith, hops_on-hops (hop w n.0 n.1) ns)

hops_back-visited :
    (w : Walk) (ns : List Manifest) (visited : List Text)
    → w.visited ≡ visited
    → (hops_back w ns).visited ≡ visit_all visited (ancestor_ids ns)
hops_back-visited w [] visited e = e
hops_back-visited w (n ∷ ns) visited e =
    hops_back-visited (hop w (identity n) n.created_at) ns (chain_identity (identity n) ∷ visited)
      (ap (◌∷◌ (chain_identity (identity n))) e)

chain_view-IsPlaced :
    (b f : Walk) (older newer : ℕ)
    → b.hops ≡ older
    → f.hops ≡ newer
    → IsPlaced older newer (ok (chain_view b f))
chain_view-IsPlaced b f older newer h k = elim (Bool-cases (b.hops == 0 && f.hops == 0)) [
  | inl t ↦ rw (t, chain_view) (ground arith, ground arith)
  | inr n ↦ rw (n, chain_view) (omega arith, omega arith, ground (arith, n))
]

supersession_chain_view-ok :
    (view : View) (m : Manifest)
    → is_identity (identity m) ≡ true
    → 0 < length m.project
    → supersession_chain_view view m
      ≡ ok (chain_view (backward_walk view m) (forward_walk view m (backward_walk view m).visited))
unfolding supersession_chain_view
supersession_chain_view-ok view m v p =
    let q : (length m.project == 0) ≡ false = ground arith in
    let t : (not (is_identity (identity m)) || length m.project == 0) ≡ false = rw (v, q) refl in
    rw t refl

-- If the store holds the whole chain of a document, of at most 4,096 versions on each side and none of
-- them twice, then the document stands in the view at its true place: one behind the number of its
-- ancestors, among all of the versions; a document without a chain has no view.
pub supersession_chain_view-chain :
    (view : View) (m : Manifest) (older : List Manifest) (newer : List (Identity × ℕ))
    → is_identity (identity m) ≡ true
    → 0 < length m.project
    → Ancestors view m.project m older
    → Successors view (identity m) newer
    → AreFresh (chain_identity (identity m) ∷ []) (ancestor_ids older)
    → AreFresh
        (visit_all (chain_identity (identity m) ∷ []) (ancestor_ids older))
        (successor_ids newer)
    → length older ≤ max_explicit_supersession_chain_depth
    → length newer ≤ max_explicit_supersession_chain_depth
    → IsPlaced (length older) (length newer) (supersession_chain_view view m)
supersession_chain_view-chain view m older newer v p a s f g k l =
    let start = chain_identity (identity m) ∷ [] in
    let w : Walk = record { hops = 0; neighbour = none; visited = start } in
    let b : backward_walk view m ≡ hops_back w older =
      walk_backward-Ancestors view m.project max_explicit_supersession_chain_depth m w older a f
        k in
    let e : (backward_walk view m).visited ≡ visit_all start (ancestor_ids older) =
      ap (λ x. x.visited) b ∙ hops_back-visited w older start refl in
    let u : Walk = record {
      hops = 0;
      neighbour = none;
      visited = (backward_walk view m).visited;
    } in
    let c : forward_walk view m u.visited ≡ hops_on u newer =
      walk_forward-Successors view max_explicit_supersession_chain_depth (identity m) u newer s
        (subst (λ x. AreFresh x (successor_ids newer)) (sym e) g) l in
    let x : (backward_walk view m).hops ≡ length older =
      omega (arith, ap (λ z. z.hops) b, hops_back-hops w older) in
    let y : (forward_walk view m u.visited).hops ≡ length newer =
      omega (arith, ap (λ z. z.hops) c, hops_on-hops u newer) in
    subst (IsPlaced (length older) (length newer)) (sym (supersession_chain_view-ok view m v p))
      (chain_view-IsPlaced (backward_walk view m) (forward_walk view m u.visited) _ _ x y)
