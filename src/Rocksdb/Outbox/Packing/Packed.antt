-- ===== src/Rocksdb/Outbox/Packing/Packed.antt =====
-- The tablets that `createTablets` returns.
use pi_sliding_context_windo.Common.{
  ℕ, suc, ◌+◌, ◌≤◌, ◌<◌, ◌≡◌, refl, sym, ap, ◌∙◌, subst, inl, inr, Bool, true, false, ◌||◌, List,
  [], ◌∷◌, ◌++◌, append-nil, append_assoc, text_eq_refl, ltb, leb, le→leb, ◌==◌, ==_iff, length,
  length-append, count_if, All, All-append, Bool-cases, arith,
}
use pi_sliding_context_windo.Common.Results.{ok, ok_chain, throw_if_chain, ok_eq}
use pi_sliding_context_windo.Rocksdb.Outbox.{
  Fault, prepare, publish, cleanup, Mutation, Tablet, Tablets, Claim,
}
use pi_sliding_context_windo.Rocksdb.Outbox.Stages.{Host, in_phase, total_bytes, validate_tablet}
use pi_sliding_context_windo.Rocksdb.Outbox.Packing.{
  Options, Loop, mutation_budget, content, sealed, flush, push, make_room, pack, create_tablets,
}

-- The mutations of the tablets, in order.
abbrev pub all_mutations : List Tablet → List Mutation
all_mutations [] = []
all_mutations (t ∷ ts) = t.mutations ++ all_mutations ts

all_mutations-append :
    (ts us : List Tablet) → all_mutations (ts ++ us) ≡ all_mutations ts ++ all_mutations us
all_mutations-append [] us = refl
all_mutations-append (t ∷ ts) us =
    ap (λ l. t.mutations ++ l) (all_mutations-append ts us)
    ∙ sym (append_assoc t.mutations (all_mutations ts) (all_mutations us))

total_bytes-append :
    (size : Mutation → ℕ) (xs ys : List Mutation)
    → total_bytes size (xs ++ ys) ≡ total_bytes size xs + total_bytes size ys
total_bytes-append size [] ys = omega arith
total_bytes-append size (x ∷ xs) ys = omega (arith, total_bytes-append size xs ys)

-- Each mutation is prepared before the publication or cleans up after it.
abbrev pub IsStaged : Mutation → Type 0
IsStaged m = in_phase publish m ≡ false

counts_staged :
    (ms : List Mutation)
    → All IsStaged ms
    → (count_if (in_phase prepare) ms + count_if (in_phase cleanup) ms ≡ length ms)
      × (count_if (in_phase publish) ms ≡ 0)
counts_staged [] a = (omega arith, refl)
counts_staged (m ∷ ms) a = let (b, c) = counts_staged ms a.1 in ground (arith, a.0, b, c)

no_elements : (ms : List Mutation) → length ms ≡ 0 → ms ≡ []
no_elements [] e = refl
no_elements (m ∷ ms) e = absurd (omega (arith, e))

has_room : (n k : ℕ) (b : Bool) → (leb k n || b) ≡ false → n < k
has_room n k b e = ground (arith, e)

has_bytes : (k n : ℕ) (b : Bool) → (b || ltb k n) ≡ false → n ≤ k
has_bytes k n false e = ground (arith, e)
has_bytes k n true e = cc

not_above : (k n : ℕ) → ltb k n ≡ false → n ≤ k
not_above k n e = ground (arith, e)

module _ (h : Host) (o : Options) (claim : Claim) (plan : Tablets)
    (same_generation : claim.generation ≡ o.generation)
    (same_sequence : claim.sequence ≡ o.outbox_sequence)
    (same_mutations : plan.tablet_max_mutations ≡ o.max_mutations)
    (same_bytes : plan.tablet_max_bytes ≡ o.max_bytes) (some_mutations : 0 < o.max_mutations) where
  -- The tablets pass the checks of `validateTablet` under the ordinals from one on.
  abbrev pub AllValid : ℕ → List Tablet → Type 0
  AllValid ordinal [] = Unit
  AllValid ordinal (t ∷ ts) =
      (validate_tablet h t plan claim ordinal ≡ ok t) × AllValid (ordinal + 1) ts

  AllValid-append :
      (ordinal : ℕ) (ts : List Tablet) (t : Tablet)
      → AllValid ordinal ts
      → validate_tablet h t plan claim (ordinal + length ts) ≡ ok t
      → AllValid ordinal (ts ++ t ∷ [])
  AllValid-append ordinal [] t a v = let e : ordinal + 0 ≡ ordinal = omega arith in (rw e at v, tt)
  AllValid-append ordinal (u ∷ ts) t a v =
      let e : ordinal + suc (length ts) ≡ ordinal + 1 + length ts = omega arith in
      (a.0, AllValid-append (ordinal + 1) ts t a.1 (rw e at v))

  -- A tablet within the bounds passes the checks.
  validate-sealed :
      (ordinal : ℕ) (ms : List Mutation)
      → All IsStaged ms
      → length ms ≤ o.max_mutations
      → total_bytes h.serialized_bytes ms ≤ o.max_bytes
      → validate_tablet h
          (sealed h o ordinal ms (total_bytes h.serialized_bytes ms))
          plan
          claim
          ordinal
        ≡ ok (sealed h o ordinal ms (total_bytes h.serialized_bytes ms))
  unfolding validate_tablet
  validate-sealed ordinal ms a l b =
      let (c, d) = counts_staged ms a in
      let same = λ (n : ℕ). (==_iff n n).1 refl in
      let within : leb (length ms) plan.tablet_max_mutations ≡ true =
        le→leb _ _ (omega (arith, l, same_mutations)) in
      let bounded : leb (total_bytes h.serialized_bytes ms) plan.tablet_max_bytes ≡ true =
        le→leb _ _ (omega (arith, b, same_bytes)) in
      rw
        (
          (==_iff o.generation claim.generation).1 (sym same_generation),
          (==_iff o.outbox_sequence claim.sequence).1 (sym same_sequence),
          same ordinal,
          same (length ms),
          within,
          bounded,
          text_eq_refl
              (h.tablet_digest (content h o ordinal ms (total_bytes h.serialized_bytes ms))),
          same (total_bytes h.serialized_bytes ms),
          same (count_if (in_phase prepare) ms),
          same (count_if (in_phase cleanup) ms),
          (==_iff (count_if (in_phase prepare) ms + count_if (in_phase cleanup) ms) (length ms)).1
              c,
          (==_iff (count_if (in_phase publish) ms) 0).1 d,
        )
        refl

  -- The loop has packed `packed`, in valid tablets and one that is still open.
  record Packs (p : Loop) (packed : List Mutation) : Type 0 where
    same_order : all_mutations p.tablets ++ p.current ≡ packed
    valid : AllValid 0 p.tablets
    staged : All IsStaged p.current
    few : length p.current ≤ o.max_mutations
    counted : p.current_bytes ≡ total_bytes h.serialized_bytes p.current
    small : p.current_bytes ≤ mutation_budget o

  abbrev open_tablet : Loop → Tablet
  open_tablet p = sealed h o (length p.tablets) p.current p.current_bytes

  closed-Packs :
      (p : Loop) (packed : List Mutation)
      → Packs p packed
      → Packs
          (record { tablets = p.tablets ++ open_tablet p ∷ []; current = []; current_bytes = 0 })
          packed
  closed-Packs p packed k = record {
    same_order =
        append-nil (all_mutations (p.tablets ++ open_tablet p ∷ []))
        ∙ all_mutations-append p.tablets (open_tablet p ∷ [])
        ∙ ap (λ l. all_mutations p.tablets ++ l) (append-nil p.current)
        ∙ k.same_order;
    valid = AllValid-append 0 p.tablets (open_tablet p) k.valid (
        let e : 0 + length p.tablets ≡ length p.tablets = omega arith in
        rw (e, k.counted)
          (validate-sealed (length p.tablets) p.current k.staged k.few
            (omega (arith, k.small, k.counted))));
    staged = tt;
    few = omega arith;
    counted = refl;
    small = omega arith;
  }

  flush-Packs :
      (p q : Loop) (packed : List Mutation)
      → Packs p packed
      → flush h o p ≡ ok q
      → Packs q packed × (q.current ≡ []) × (q.current_bytes ≡ 0)
  unfolding flush
  flush-Packs p q packed k f = elim (Bool-cases (length p.current == 0)) [
    | inl e ↦
        let same : p ≡ q = ok_eq {E = Fault} p q (rw e at f) in
        let empty = no_elements p.current ((==_iff (length p.current) 0).0 e) in
        subst (λ x. Packs x packed × (x.current ≡ []) × (x.current_bytes ≡ 0)) same
          (k, empty, k.counted ∙ ap (total_bytes h.serialized_bytes) empty)
    | inr e ↦
        let (a, b) =
          throw_if_chain (ltb o.max_bytes (h.tablet_bytes (open_tablet p))) _ _ _ (rw e at f) in
        subst (λ x. Packs x packed × (x.current ≡ []) × (x.current_bytes ≡ 0))
          (ok_eq {E = Fault} _ q b) (closed-Packs p packed k, refl, refl)
  ]

  push-Packs :
      (m : Mutation) (p : Loop) (packed : List Mutation)
      → Packs p packed
      → IsStaged m
      → length p.current < o.max_mutations
      → p.current_bytes + h.serialized_bytes m ≤ mutation_budget o
      → Packs (push h o m p) (packed ++ m ∷ [])
  push-Packs m p packed k s l b = record {
    same_order =
        sym (append_assoc (all_mutations p.tablets) p.current (m ∷ []))
        ∙ ap (λ l. l ++ m ∷ []) k.same_order;
    valid = k.valid;
    staged = All-append IsStaged p.current (m ∷ []) k.staged (s, tt);
    few = omega (arith, length-append p.current (m ∷ []), l);
    counted = omega (arith, k.counted, total_bytes-append h.serialized_bytes p.current (m ∷ []));
    small = b;
  }

  make_room-Packs :
      (m : Mutation) (p q : Loop) (packed : List Mutation)
      → Packs p packed
      → h.serialized_bytes m ≤ mutation_budget o
      → make_room h o m p ≡ ok q
      → Packs q packed
        × (length q.current < o.max_mutations)
        × (q.current_bytes + h.serialized_bytes m ≤ mutation_budget o)
  unfolding make_room
  make_room-Packs m p q packed k b e =
      elim (Bool-cases (
        leb o.max_mutations (length p.current)
        || ltb (mutation_budget o) (p.current_bytes + h.serialized_bytes m))) [
          | inl full ↦
              let (x, y, z) = flush-Packs p q packed k (rw full at e) in
              (x, omega (arith, ap length y), omega (arith, z, b))
          | inr free ↦
              let same : p ≡ q = ok_eq {E = Fault} p q (rw free at e) in
              subst
                (λ x.
                  Packs x packed
                  × (length x.current < o.max_mutations)
                  × (x.current_bytes + h.serialized_bytes m ≤ mutation_budget o))
                same
                (
                  k,
                  has_room (length p.current) o.max_mutations _ free,
                  has_bytes (mutation_budget o) (p.current_bytes + h.serialized_bytes m) _ free,
                )
        ]

  pack-Packs :
      (ms : List Mutation) (p q : Loop) (packed : List Mutation)
      → Packs p packed
      → All IsStaged ms
      → pack h o p ms ≡ ok q
      → Packs q (packed ++ ms) × (q.current ≡ [])
  unfolding pack
  pack-Packs [] p q packed k a e =
      let (x, y, z) = flush-Packs p q packed k e in (rw (append-nil packed) x, y)
  pack-Packs (m ∷ ms) p q packed k a e =
      let (b, c) = throw_if_chain (ltb (mutation_budget o) (h.serialized_bytes m)) _ _ _ e in
      let (r, d, f) = ok_chain (make_room h o m p) _ _ c in
      let (x, y, z) = make_room-Packs m p r packed k (not_above _ _ b) d in
      let (u, v) =
        pack-Packs ms (push h o m r) q (packed ++ m ∷ []) (push-Packs m r packed x a.0 y z) a.1 f in
      (rw (← append_assoc packed (m ∷ []) ms) u, v)

  -- When the packing returns, its tablets have the mutations in their order and no other, and each of
  -- them passes the checks that staging and applying make of it under its ordinal: it is of the claim's
  -- generation and sequence, within the bounds of the plan, and its counts and digest are its own. The
  -- mutations are not those of the publication itself, and the plan has the bounds of the packing.
  pub create_tablets-AllValid :
      (ms : List Mutation) (ts : List Tablet)
      → All IsStaged ms
      → create_tablets h o ms ≡ ok ts
      → (all_mutations ts ≡ ms) × AllValid 0 ts
  unfolding create_tablets
  create_tablets-AllValid ms ts a e =
      let (b, c) = throw_if_chain (mutation_budget o == 0) _ _ _ e in
      let (q, d, f) =
        ok_chain (pack h o (record { tablets = []; current = []; current_bytes = 0 }) ms) _ _ c in
      let (x, y) =
        pack-Packs ms (record { tablets = []; current = []; current_bytes = 0 }) q []
          (record {
            same_order = refl;
            valid = tt;
            staged = tt;
            few = omega arith;
            counted = refl;
            small = omega arith;
          })
          a d in
      subst (λ l. (all_mutations l ≡ ms) × AllValid 0 l) (ok_eq {E = Fault} q.tablets ts f)
        (
          sym (append-nil (all_mutations q.tablets))
              ∙ ap (λ l. all_mutations q.tablets ++ l) (sym y)
              ∙ x.same_order,
          x.valid,
        )
