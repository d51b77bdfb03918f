-- ===== src/Rocksdb/Outbox/Rounds.antt =====
-- The calls of one round of the worker, each from what the call before it has left.
use pi_sliding_context_windo.Common.{
  ℕ, ◌+◌, ◌≤◌, ◌<◌, ◌≡◌, refl, true, false, Option, none, some, List, [], Text, text_eq,
  text_eq_refl, ltb, ◌==◌, ==_iff, arith,
}
use pi_sliding_context_windo.Common.Results.{ok}
use pi_sliding_context_windo.Rocksdb.Outbox.{
  State, Mutation, Mode, atomic, Plan, Publication, Store, Claim, Payload, update, max_safe_integer,
}
use pi_sliding_context_windo.Rocksdb.Outbox.Claims.{
  cursor_sequence, claim_generation, claimed_state, assert_claim_owner,
}
use pi_sliding_context_windo.Rocksdb.Outbox.Stages.{
  Host, validate_stage, read_staged_generation, apply_mutations, find_stage, stage_header,
  stage_mode, stage_generation, staged, put_immutable,
}
use pi_sliding_context_windo.Rocksdb.Outbox.Apply.{
  apply_mode, apply_generation_tablets, atomic_plan,
}
use pi_sliding_context_windo.Rocksdb.Outbox.Publish.{
  publication_of, published_of, preparation_after, processed_state, write_publication,
  publish_transaction, publish_generation, check_ready, publication_mutations_of,
}
use pi_sliding_context_windo.Rocksdb.Outbox.Cleanup.{
  cleanup_mode, cleanup_published_stage, finish_cleanup, Cleaned, removed, pruned,
}

-- A plan of the claim in one atomic publication.
pub record IsAtomicPlan (h : Host) (claim : Claim) (plan : Plan) : Type 0 where
  pub mutations : List Mutation
  pub mode : plan.mode ≡ atomic mutations
  pub generation : plan.generation ≡ claim.generation
  pub sequence : plan.outbox_sequence ≡ claim.sequence
  pub digest : text_eq (h.plan_digest (record plan { digest = [] })) plan.digest ≡ true

-- The claim's own state passes `assertClaimOwner`.
pub assert-claimed :
    (token worker_id : Text) (now lease_ms : ℕ) (entry : Payload) (st : State) (claim : Claim)
    → claim.claim_token ≡ token
    → assert_claim_owner
        (some (claimed_state token worker_id now lease_ms claim.sequence claim.generation entry st))
        claim
      ≡ ok (claimed_state token worker_id now lease_ms claim.sequence claim.generation entry st)
unfolding assert_claim_owner
assert-claimed token worker_id now lease_ms entry st claim e =
    rw
      (
        (==_iff claim.sequence claim.sequence).1 refl,
        (==_iff claim.generation claim.generation).1 refl,
        e,
        text_eq_refl token,
      )
      refl

pub claim_generation_known :
    (o : Option ℕ) (counter : ℕ)
    → counter < max_safe_integer
    → (g : ℕ) × (after : ℕ) × (claim_generation o counter ≡ ok (g, after)) × (after ≤ counter + 1)
claim_generation_known (some g) counter l = (g, counter, refl, omega arith)
claim_generation_known none counter l =
    let e : ltb max_safe_integer (counter + 1) ≡ false = ground (arith, l) in
    (counter + 1, counter + 1, rw e refl, omega arith)

pub read_staged-none :
    (h : Host) (claim : Claim) (s : Store)
    → s.stages claim.generation ≡ none
    → read_staged_generation h s claim ≡ ok none
unfolding read_staged_generation
read_staged-none h claim s e = rw (e, read_staged_generation) refl

module _ (h : Host) (claim : Claim) (plan : Plan) (p : IsAtomicPlan h claim plan) where
  validate_stage-ok : validate_stage h plan claim ≡ ok plan
  unfolding validate_stage
  validate_stage-ok =
      rw
        (
          (==_iff plan.generation claim.generation).1 p.generation,
          (==_iff plan.outbox_sequence claim.sequence).1 p.sequence,
          p.digest,
        )
        refl

  module _ (s : Store) where
    pub read_staged-plan :
        s.stages claim.generation ≡ some plan → read_staged_generation h s claim ≡ ok (some plan)
    unfolding read_staged_generation
    read_staged-plan e = rw (e, read_staged_generation) (rw validate_stage-ok refl)

    find_stage-none : s.stages claim.generation ≡ none → find_stage h claim plan s ≡ ok staged
    unfolding find_stage
    find_stage-none e = rw (validate_stage-ok, e) refl

    stage_mode-atomic : (m : Mode) → m ≡ atomic p.mutations → stage_mode h claim m [] s ≡ (s, ok tt)
    unfolding stage_mode
    stage_mode-atomic m e = rw e refl

    stage_header-done :
        (st : State)
        → s.stages claim.generation ≡ none
        → assert_claim_owner (s.states claim.sequence) claim ≡ ok st
        → stage_header h claim plan s
          ≡ ok (record s { stages = update s.stages claim.generation (some plan) })
    unfolding stage_header
    stage_header-done st e o = rw (o, put_immutable) (rw e refl)

    pub stage_generation-done :
        (st : State)
        → s.stages claim.generation ≡ none
        → assert_claim_owner (s.states claim.sequence) claim ≡ ok st
        → stage_generation h claim plan [] s
          ≡ (record s { stages = update s.stages claim.generation (some plan) }, ok staged)
    unfolding stage_generation
    stage_generation-done st e o =
        rw (find_stage-none e)
          (rw (stage_mode-atomic plan.mode p.mode) (rw (stage_header-done st e o) refl))

    pub apply_generation_tablets-done :
        s.stages claim.generation ≡ some plan
        → apply_generation_tablets h claim s ≡ (s, ok atomic_plan)
    unfolding apply_generation_tablets apply_mode
    apply_generation_tablets-done e = rw (read_staged-plan e, p.mode, apply_mode) refl

    abbrev pub published_store : ℕ → State → (Text → Option Text) → Store
    published_store now st derived = record s {
      derived = derived;
      generations = update s.generations claim.generation (some (publication_of claim plan now));
      published = some (published_of claim plan now);
      preparation = preparation_after claim plan s.preparation;
      cursor = some (claim.sequence + 1);
      states = update s.states claim.sequence (some (processed_state plan now st));
    }

    pub publish_transaction-done :
        (now : ℕ) (st : State) (derived : Text → Option Text)
        → assert_claim_owner (s.states claim.sequence) claim ≡ ok st
        → cursor_sequence s.cursor ≡ ok claim.sequence
        → s.stages claim.generation ≡ some plan
        → s.generations claim.generation ≡ none
        → apply_mutations h p.mutations s.derived ≡ ok derived
        → publish_transaction h claim now s
          ≡ ok (published_store now st derived, publication_of claim plan now)
    unfolding publish_transaction write_publication
    publish_transaction-done now st derived o c e g a =
        rw
          (
            o,
            c,
            (==_iff claim.sequence claim.sequence).1 refl,
            read_staged-plan e,
            p.mode,
            check_ready,
            publication_mutations_of,
            a,
            g,
            put_immutable,
          )
          refl

    pub publish_generation-done :
        (now : ℕ)
        → s.stages claim.generation ≡ some plan
        → publish_generation h claim now s ≡ publish_transaction h claim now s
    unfolding publish_generation
    publish_generation-done now e = rw (read_staged-plan e) refl

    pub cleanup_published_stage-done :
        (retained : ℕ) (publication : Publication)
        → 0 < claim.generation
        → 0 < retained
        → s.generations claim.generation ≡ some publication
        → s.stages claim.generation ≡ some plan
        → (c : Cleaned) × (cleanup_published_stage h claim.generation retained s
            ≡ (finish_cleanup claim.generation publication.outbox_sequence retained s, ok c))
    unfolding cleanup_published_stage cleanup_mode
    cleanup_published_stage-done retained publication g r e k =
        let z : (claim.generation == 0) ≡ false = ground (arith, g) in
        let y : (retained == 0) ≡ false = ground (arith, r) in
        (
          removed (pruned claim.generation retained) (pruned publication.outbox_sequence retained),
          rw (z, y, e, k, p.mode, cleanup_mode) refl,
        )
