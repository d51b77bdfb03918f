-- ===== src/Rocksdb/Supersession/Bounds.antt =====
-- What the walks of src/rocksdb/supersession-chain.js keep to, whatever the store holds.
use pi_sliding_context_windo.Common.{
  ℕ, zero, suc, ◌+◌, ◌≤◌, ◌<◌, ◌≡◌, ◌↔◌, refl, subst, inl, inr, not, Option, none, some, List, ◌&&◌,
  ◌||◌, Text, arith, ◌==◌, text_eq, length, Bool-cases, Option-cases,
}
use pi_sliding_context_windo.Common.Results.{ok, throw_if_chain, ok_eq}
use pi_sliding_context_windo.Rocksdb.Supersession.{
  invalid_manifest, max_explicit_supersession_chain_depth, Manifest, View, Identity, Neighbour,
  Walk, or_first, hop, visit, next_target, explicit_successor_marker, walk_backward, replacement_of,
  recorded_of, walk_forward, ChainView, identity, is_identity, backward_walk, forward_walk,
  chain_view, supersession_chain_view,
}

-- Hops within a limit, and a neighbour exactly when there was a hop.
pub record IsCounted (limit : ℕ) (w : Walk) : Type 0 where
  pub bounded : w.hops ≤ limit
  pub neighbour_none : w.neighbour ≡ none → w.hops ≡ 0
  pub none_neighbour : w.hops ≡ 0 → w.neighbour ≡ none

hop-IsCounted :
    (limit : ℕ) (w : Walk) (i : Identity) (t : ℕ) → w.hops < limit → IsCounted limit (hop w i t)
hop-IsCounted limit w i t h = record {
  bounded = h;
  neighbour_none = λ e. absurd (or_first-some w.neighbour _ e);
  none_neighbour = λ e. absurd (omega arith);
}
  where
    or_first-some : (o : Option Neighbour) (n : Neighbour) → or_first o n ≡ none → ⊥
    or_first-some none n e = cc
    or_first-some (some m) n e = cc

visit-IsCounted :
    (limit : ℕ) (w : Walk) (i : Identity) → IsCounted limit w → IsCounted limit (visit w i)
visit-IsCounted limit w i c = record {
  bounded = c.bounded;
  neighbour_none = c.neighbour_none;
  none_neighbour = c.none_neighbour;
}

module _ (view : View) (limit : ℕ) where
  walk_backward-IsCounted :
      (project : Text) (left : ℕ) (cursor : Manifest) (w : Walk)
      → w.hops + left ≤ limit
      → IsCounted limit w
      → IsCounted limit (walk_backward view project left cursor w)
  unfolding walk_backward
  walk_backward-IsCounted project zero cursor w h c = c
  walk_backward-IsCounted project (suc left) cursor w h c =
      elim (Option-cases (next_target w.visited cursor.supersedes)) [
        | inl e ↦ rw (e, walk_backward) c
        | inr (i, e) ↦ elim (Option-cases (view.get_document i.document_id i.version)) [
          | inl f ↦ rw (e, walk_backward, f) (visit-IsCounted limit w i c)
          | inr (m, f) ↦ elim (Bool-cases (text_eq m.project project)) [
            | inr g ↦ rw (e, walk_backward, f, g) (visit-IsCounted limit w i c)
            | inl g ↦
                rw (e, walk_backward, f, g)
                  (walk_backward-IsCounted project left m (hop w i m.created_at) (omega arith)
                    (hop-IsCounted limit w i m.created_at (omega arith)))
          ]
        ]
      ]

  walk_forward-IsCounted :
      (left : ℕ) (cursor : Identity) (w : Walk)
      → w.hops + left ≤ limit
      → IsCounted limit w
      → IsCounted limit (walk_forward view left cursor w)
  unfolding walk_forward
  walk_forward-IsCounted zero cursor w h c = c
  walk_forward-IsCounted (suc left) cursor w h c =
      let marker = explicit_successor_marker view cursor in
      elim (Option-cases (next_target w.visited (replacement_of marker))) [
        | inl e ↦ rw (e, walk_forward) c
        | inr (i, e) ↦
            rw (e, walk_forward)
              (walk_forward-IsCounted left i (hop w i (recorded_of marker)) (omega arith)
                (hop-IsCounted limit w i (recorded_of marker) (omega arith)))
      ]

start-IsCounted :
    (limit : ℕ) (visited : List Text)
    → IsCounted limit (record { hops = 0; neighbour = none; visited = visited })
start-IsCounted limit visited = record {
  bounded = omega arith;
  neighbour_none = λ e. refl;
  none_neighbour = λ e. refl;
}

-- Where a document stands: from 1 on, within the bound of each walk, at the start of the chain exactly
-- when it has no predecessor, and at its end exactly when it has no successor.
pub record IsChainView (v : ChainView) : Type 0 where
  pub from_one : 1 ≤ v.position
  pub within : v.position ≤ v.total_versions
  pub backward : v.position ≤ max_explicit_supersession_chain_depth + 1
  pub forward : v.total_versions ≤ v.position + max_explicit_supersession_chain_depth
  pub oldest : (v.predecessor ≡ none) ↔ (v.position ≡ 1)
  pub newest : (v.successor ≡ none) ↔ (v.position ≡ v.total_versions)
  pub in_a_chain : 2 ≤ v.total_versions

abbrev place : Walk → Walk → ChainView
place b f = record {
  position = b.hops + 1;
  total_versions = b.hops + f.hops + 1;
  predecessor = b.neighbour;
  successor = f.neighbour;
}

chain_view-place :
    (b f : Walk) (v : ChainView) → chain_view b f ≡ some v → (place b f ≡ v) × (1 ≤ b.hops + f.hops)
chain_view-place b f v h = elim (Bool-cases (b.hops == 0 && f.hops == 0)) [
  | inl t ↦ absurd (some_none (rw t at h))
  | inr n ↦ (some_eq (rw n at h), ground (arith, n))
]
  where
    some_none : ◌≡◌ {A = Option ChainView} none (some v) → ⊥
    some_none e = cc

    some_eq : {x : ChainView} → ◌≡◌ {A = Option ChainView} (some x) (some v) → x ≡ v
    some_eq e = cc

chain_view-IsChainView :
    (b f : Walk) (v : ChainView)
    → IsCounted max_explicit_supersession_chain_depth b
    → IsCounted max_explicit_supersession_chain_depth f
    → chain_view b f ≡ some v
    → IsChainView v
chain_view-IsChainView b f v x y h =
    let (e, n) = chain_view-place b f v h in
    subst IsChainView e (record {
      from_one = omega arith;
      within = omega arith;
      backward = omega (arith, x.bounded);
      forward = omega (arith, y.bounded);
      oldest = ((λ z. omega (arith, x.neighbour_none z)), (λ z. x.none_neighbour (omega arith)));
      newest = ((λ z. omega (arith, y.neighbour_none z)), (λ z. y.none_neighbour (omega arith)));
      in_a_chain = omega arith;
    })

-- Whatever the store holds, a view that is returned is a possible place in a chain within the bounds of
-- the two walks, with a neighbour on each side on which it has one.
pub supersession_chain_view-IsChainView :
    (view : View) (m : Manifest) (v : ChainView)
    → supersession_chain_view view m ≡ ok (some v)
    → IsChainView v
unfolding supersession_chain_view
supersession_chain_view-IsChainView view m v h =
    let b = backward_walk view m in
    let f = forward_walk view m b.visited in
    let (t, e) =
      throw_if_chain (not (is_identity (identity m)) || length m.project == 0) invalid_manifest
        (ok (chain_view b f)) (some v) h in
    chain_view-IsChainView b f v
      (walk_backward-IsCounted view max_explicit_supersession_chain_depth m.project _ m _
        (omega arith) (start-IsCounted _ _))
      (walk_forward-IsCounted view max_explicit_supersession_chain_depth _ (identity m) _
        (omega arith) (start-IsCounted _ _))
      (ok_eq _ _ e)
