-- ===== src/Rocksdb/Outbox/Plans/Staged.antt =====
-- A plan that `createGenerationPlan` returned can be staged by the worker that holds the claim.
use pi_sliding_context_windo.Common.{
  ℕ, ◌+◌, ◌≤◌, ◌<◌, ◌≡◌, refl, sym, ap, ◌∙◌, subst, inl, inr, true, false, not, none, some, List,
  [], ◌∷◌, ◌++◌, append-nil, append_assoc, map, Text, text_eq, text_eq_refl, if◌then◌else◌, ◌==◌,
  ==_iff, length, keep_if, All, Bool-cases, arith,
}
use pi_sliding_context_windo.Common.Results.{ok, throw_if, ok_chain, throw_if_chain, ok_eq}
use pi_sliding_context_windo.Rocksdb.Outbox.{
  Fault, State, publish, Mutation, Tablet, Tablets, Mode, atomic, tablets, Plan, Store, Claim,
  resume, write, ◌>->◌, update,
}
use pi_sliding_context_windo.Rocksdb.Outbox.Claims.{assert_claim_owner}
use pi_sliding_context_windo.Rocksdb.Outbox.Stages.{
  Host, in_phase, validate_stage, put_immutable, stage_tablet, stage_header,
  clear_orphan_stage_records, stage_tablets, stage_mode, find_stage, stage_generation, staged,
}
use pi_sliding_context_windo.Rocksdb.Outbox.Packing.{create_tablets}
use pi_sliding_context_windo.Rocksdb.Outbox.Packing.Packed.{
  IsStaged, AllValid, create_tablets-AllValid,
}
use pi_sliding_context_windo.Rocksdb.Outbox.Plans.{
  HandlerResult, PlanOptions, normalize_mutations, tablet_options, tablets_mode, plan_content,
  digested, is_atomic, publication_too_large, plan_mutations, create_generation_plan,
}

-- Each tablet is stored under its ordinal, counted from the given one on.
abbrev pub AllStored : Store → (generation ordinal : ℕ) → List Tablet → Type 0
AllStored s generation ordinal [] = Unit
AllStored s generation ordinal (x ∷ xs) =
    (s.stage_tablets generation ordinal ≡ some x) × AllStored s generation (ordinal + 1) xs

same-AllStored :
    (s t : Store) (generation ordinal : ℕ) (xs : List Tablet)
    → t.stage_tablets ≡ s.stage_tablets
    → AllStored s generation ordinal xs
    → AllStored t generation ordinal xs
same-AllStored s t generation ordinal [] e a = tt
same-AllStored s t generation ordinal (x ∷ xs) e a =
    (ap (λ f. f generation ordinal) e ∙ a.0, same-AllStored s t generation (ordinal + 1) xs e a.1)

-- What staging tablets leaves of a store.
pub record Kept (s t : Store) : Type 0 where
  pub same_states : t.states ≡ s.states
  pub same_stages : t.stages ≡ s.stages

module _ (h : Host) (claim : Claim) where
  stage_tablet-done :
      (ordinal : ℕ) (x : Tablet) (st : State) (s : Store)
      → assert_claim_owner (s.states claim.sequence) claim ≡ ok st
      → s.stage_tablets claim.generation ordinal ≡ none
      → stage_tablet h claim ordinal x s
        ≡ ok (record s {
          stage_tablets = λ g o.
              if claim.generation == g
              then update (s.stage_tablets claim.generation) ordinal (some x) o
              else s.stage_tablets g o;
        })
  unfolding stage_tablet
  stage_tablet-done ordinal x st s owner free = rw (owner, put_immutable) (rw free refl)

  -- The ordinals after a staged tablet are free as before.
  later_free :
      (s : Store) (ordinal : ℕ) (x : Tablet) (j : ℕ)
      → ordinal + 1 ≤ j
      → s.stage_tablets claim.generation j ≡ none
      → (if claim.generation == claim.generation
          then update (s.stage_tablets claim.generation) ordinal (some x) j
          else s.stage_tablets claim.generation j)
        ≡ none
  later_free s ordinal x j l e =
      let f : (ordinal == j) ≡ false = ground (arith, l) in
      rw ((==_iff claim.generation claim.generation).1 refl, f) e

  own_row :
      (s : Store) (ordinal : ℕ) (x : Tablet)
      → (if claim.generation == claim.generation
          then update (s.stage_tablets claim.generation) ordinal (some x) ordinal
          else s.stage_tablets claim.generation ordinal)
        ≡ some x
  own_row s ordinal x =
      rw ((==_iff claim.generation claim.generation).1 refl, (==_iff ordinal ordinal).1 refl) refl

  earlier_row :
      (s : Store) (ordinal : ℕ) (x : Tablet) (j : ℕ)
      → j < ordinal
      → (if claim.generation == claim.generation
          then update (s.stage_tablets claim.generation) ordinal (some x) j
          else s.stage_tablets claim.generation j)
        ≡ s.stage_tablets claim.generation j
  earlier_row s ordinal x j l =
      let f : (ordinal == j) ≡ false = ground (arith, l) in
      rw ((==_iff claim.generation claim.generation).1 refl, f) refl

  module _ (options : PlanOptions) (plan : Tablets)
      (some_mutations : 0 < options.tablet_max_mutations)
      (same_mutations : plan.tablet_max_mutations ≡ options.tablet_max_mutations)
      (same_bytes : plan.tablet_max_bytes ≡ options.tablet_max_bytes) where
    stage_tablets-done :
        (ts : List Tablet) (ordinal : ℕ) (digests : List Text) (st : State) (s : Store)
        → AllValid h
            (tablet_options h claim options)
            claim
            plan
            refl
            refl
            same_mutations
            same_bytes
            some_mutations
            ordinal
            ts
        → assert_claim_owner (s.states claim.sequence) claim ≡ ok st
        → ((j : ℕ) → ordinal ≤ j → s.stage_tablets claim.generation j ≡ none)
        → (t : Store) × (stage_tablets h claim plan ordinal ts digests s
            ≡ (t, ok (digests ++ map (λ x. x.digest) ts)))
          × Kept s t
          × AllStored t claim.generation ordinal ts
          × ((j : ℕ)
              → j < ordinal
              → t.stage_tablets claim.generation j ≡ s.stage_tablets claim.generation j)
    unfolding stage_tablets
    stage_tablets-done [] ordinal digests st s a owner free = (
      s,
      ap (λ l. (s, ok l)) (sym (append-nil digests)),
      record { same_states = refl; same_stages = refl },
      tt,
      λ j l. refl,
    )
    stage_tablets-done (x ∷ ts) ordinal digests st s a owner free =
        let next : Store = record s {
          stage_tablets = λ g o.
              if claim.generation == g
              then update (s.stage_tablets claim.generation) ordinal (some x) o
              else s.stage_tablets g o;
        } in
        let (t, e, k, a', before) =
          stage_tablets-done ts (ordinal + 1) (digests ++ x.digest ∷ []) st next a.1 owner
            (λ j l. later_free s ordinal x j l (free j (omega (arith, l)))) in
        (
          t,
          rw (a.0, stage_tablets)
                (rw (stage_tablet-done ordinal x st s owner (free ordinal (omega arith))) e)
              ∙ ap (λ l. (t, ok l)) (append_assoc digests (x.digest ∷ []) (map (λ y. y.digest) ts)),
          record { same_states = k.same_states; same_stages = k.same_stages },
          (before ordinal (omega arith) ∙ own_row s ordinal x, a'),
          λ j l. before j (omega (arith, l)) ∙ earlier_row s ordinal x j l,
        )

    stage_mode-done :
        (ts : List Tablet) (st : State) (s : Store)
        → AllValid h
            (tablet_options h claim options)
            claim
            plan
            refl
            refl
            same_mutations
            same_bytes
            some_mutations
            0
            ts
        → length ts ≡ plan.tablet_count
        → h.digest_of_digests (map (λ x. x.digest) ts) ≡ plan.tablets_digest
        → assert_claim_owner (s.states claim.sequence) claim ≡ ok st
        → (t : Store) × (stage_mode h claim (tablets plan) ts s ≡ (t, ok tt))
          × Kept s t
          × AllStored t claim.generation 0 ts
    unfolding stage_mode clear_orphan_stage_records
    stage_mode-done ts st s a counted digested owner =
        let cleared : Store = record s {
          stage_tablets = λ g o. if claim.generation == g then none else s.stage_tablets g o;
          applied = λ g o. if claim.generation == g then none else s.applied g o;
          ready = update s.ready claim.generation none;
        } in
        let (t, e, k, stored, before) =
          stage_tablets-done ts 0 [] st cleared a owner
            (λ j l. rw ((==_iff claim.generation claim.generation).1 refl) refl) in
        let same : text_eq (h.digest_of_digests (map (λ x. x.digest) ts)) plan.tablets_digest
            ≡ true =
          rw digested (text_eq_refl plan.tablets_digest) in
        (
          t,
          rw ((==_iff (length ts) plan.tablet_count).1 counted, owner)
              (ap
                  (λ r. resume r (λ digests u. (
                    u,
                    throw_if (not (text_eq (h.digest_of_digests digests) plan.tablets_digest))
                        Fault.integrity,
                  )))
                  e
                ∙ rw same refl),
          record { same_states = k.same_states; same_stages = k.same_stages },
          stored,
        )

  stage_planned :
      (results : List HandlerResult) (n : ℕ) (mode : Mode) (records : List Tablet) (st : State)
      (s t : Store)
      → s.stages claim.generation ≡ none
      → assert_claim_owner (s.states claim.sequence) claim ≡ ok st
      → stage_mode h claim mode records s ≡ (t, ok tt)
      → Kept s t
      → AllStored t claim.generation 0 records
      → let plan = digested h (plan_content h claim results n mode) in
        (u : Store) × (stage_generation h claim plan records s ≡ (u, ok staged))
        × (u.stages claim.generation ≡ some plan)
        × AllStored u claim.generation 0 records
  unfolding stage_generation find_stage validate_stage stage_header
  stage_planned results n mode records st s t free owner e k stored =
      let plan : Plan = digested h (plan_content h claim results n mode) in
      let still_free = ap (λ f. f claim.generation) k.same_stages ∙ free in
      let still_owner =
        ap (λ f. assert_claim_owner (f claim.sequence) claim) k.same_states ∙ owner in
      (
        record t { stages = update t.stages claim.generation (some plan) },
        rw
            (
              (==_iff claim.generation claim.generation).1 refl,
              (==_iff claim.sequence claim.sequence).1 refl,
              text_eq_refl (h.plan_digest (plan_content h claim results n mode)),
              free,
            )
            (ap
                (λ r.
                  resume r
                    (λ ready. write (stage_header h claim plan) >-> λ last u. (u, ok staged)))
                e
              ∙ rw (still_owner, put_immutable) (rw still_free refl)),
        rw ((==_iff claim.generation claim.generation).1 refl) refl,
        same-AllStored t (record t { stages = update t.stages claim.generation (some plan) })
            claim.generation 0 records refl stored,
      )

All-IsStaged : (ms : List Mutation) → All IsStaged (keep_if (λ m. not (in_phase publish m)) ms)
All-IsStaged [] = tt
All-IsStaged (m ∷ ms) = elim (Bool-cases (in_phase publish m)) [
  | inl e ↦ rw (e, All) (All-IsStaged ms)
  | inr e ↦ rw (e, All) (e, All-IsStaged ms)
]

module _ (h : Host) (claim : Claim) (results : List HandlerResult) (options : PlanOptions)
    (plan : Plan) (records : List Tablet) (st : State) (s : Store) where
  abbrev CanBeStaged : Plan × List Tablet → Type 0
  CanBeStaged x =
      (t : Store) × (stage_generation h claim x.0 x.1 s ≡ (t, ok staged))
      × (t.stages claim.generation ≡ some x.0)
      × AllStored t claim.generation 0 x.1

  plan_mutations-staged :
      (ms : List Mutation)
      → 0 < options.tablet_max_mutations
      → s.stages claim.generation ≡ none
      → assert_claim_owner (s.states claim.sequence) claim ≡ ok st
      → plan_mutations h claim results options ms ≡ ok (plan, records)
      → CanBeStaged (plan, records)
  unfolding plan_mutations stage_mode
  plan_mutations-staged ms positive free owner e = elim (Bool-cases (is_atomic h options ms)) [
    | inl b ↦ subst CanBeStaged (ok_eq {E = Fault} _ (plan, records) (rw b at e)) (
        stage_planned h claim results (length ms) (atomic ms) [] st s s free owner refl
          (record { same_states = refl; same_stages = refl }) tt)
    | inr b ↦
        let publication = keep_if (in_phase publish) ms in
        let rest = keep_if (λ m. not (in_phase publish m)) ms in
        let (c, d) =
          throw_if_chain (publication_too_large h options publication) _ _ _ (rw b at e) in
        let (created, f, g) =
          ok_chain (create_tablets h (tablet_options h claim options) rest) _ _ d in
        let mode = tablets_mode h options publication created in
        let (order, valid) =
          create_tablets-AllValid h (tablet_options h claim options) claim mode refl refl refl refl
            positive rest created (All-IsStaged ms) f in
        let (t, staged_mode, k, stored) =
          stage_mode-done h claim options mode positive refl refl created st s valid refl refl
            owner in
        subst CanBeStaged (ok_eq {E = Fault} _ (plan, records) g) (
          stage_planned h claim results (length ms) (tablets mode) created st s t free owner
            staged_mode k stored)
  ]

  -- A plan that the handlers' mutations lead to is staged by the worker that holds the claim, where no
  -- plan of its generation is staged and a tablet may have a mutation: the store then holds the plan, and
  -- each of its tablets under its ordinal.
  pub create_generation_plan-staged :
      0 < options.tablet_max_mutations
      → s.stages claim.generation ≡ none
      → assert_claim_owner (s.states claim.sequence) claim ≡ ok st
      → create_generation_plan h claim results options ≡ ok (plan, records)
      → (t : Store) × (stage_generation h claim plan records s ≡ (t, ok staged))
        × (t.stages claim.generation ≡ some plan)
        × AllStored t claim.generation 0 records
  unfolding create_generation_plan
  create_generation_plan-staged positive free owner e =
      let (ms, a, b) = ok_chain (normalize_mutations results) _ _ e in
      plan_mutations-staged ms positive free owner b
