-- ===== src/Rocksdb/Outbox/Chain.antt =====
-- A round of the worker of src/rocksdb/indexer.js whose calls all return.
use pi_sliding_context_windo.Common.{ℕ, ◌≡◌, ap, ◌∙◌, Option, none, List, [], Text}
use pi_sliding_context_windo.Common.Results.{Result, ok}
use pi_sliding_context_windo.Rocksdb.Outbox.{
  Fault, ErrorDetails, State, Tablet, Plan, Publication, Store, Claim, resume, committed,
}
use pi_sliding_context_windo.Rocksdb.Outbox.Claims.{claimed, claim_next_outbox}
use pi_sliding_context_windo.Rocksdb.Outbox.Stages.{
  Host, staged, read_staged_generation, stage_generation,
}
use pi_sliding_context_windo.Rocksdb.Outbox.Apply.{Applying, apply_generation_tablets}
use pi_sliding_context_windo.Rocksdb.Outbox.Publish.{publish_generation}
use pi_sliding_context_windo.Rocksdb.Outbox.Cleanup.{Cleaned, cleanup_published_stage}
use pi_sliding_context_windo.Rocksdb.Outbox.Worker.{
  retain_publications, Round, done, process_claim, released_after, stage_missing, then_stage,
  then_apply, then_publish, then_clean, finish, process_next,
}

module _ (h : Host) (worker_id : Text) (lease_ms : ℕ)
    (prepare : Store → Claim → Result Fault (Plan × List Tablet))
    (error_details : Fault → Option ErrorDetails) where
  pub process_claim-done :
      (round : Round) (claim : Claim) (plan : Plan) (s1 s2 s3 s4 : Store) (a : Applying)
      (p : Publication) (c : Cleaned)
      → read_staged_generation h s1 claim ≡ ok none
      → prepare s1 claim ≡ ok (plan, [])
      → stage_generation h claim plan [] s1 ≡ (s2, ok staged)
      → apply_generation_tablets h claim s2 ≡ (s2, ok a)
      → publish_generation h claim round.publish_at s2 ≡ ok (s3, p)
      → cleanup_published_stage h claim.generation retain_publications s3 ≡ (s4, ok c)
      → process_claim h worker_id lease_ms prepare error_details round claim s1
        ≡ (s4, ok (done claim p))
  unfolding process_claim
  process_claim-done round claim plan s1 s2 s3 s4 a p c e1 e2 e3 e4 e5 e6 =
      let stage_eq : stage_missing h worker_id lease_ms prepare error_details claim none s1
          ≡ (s2, ok staged) =
        rw e2 e3 in
      ap (λ r. resume (s1, r) (then_stage h worker_id lease_ms prepare error_details round claim))
        e1
      ∙ ap (λ r. resume r (λ x. then_apply h worker_id lease_ms prepare error_details round claim))
          stage_eq
      ∙ ap
          (λ r. resume r (λ x. then_publish h worker_id lease_ms prepare error_details round claim))
          e4
      ∙ ap
          (λ r.
            resume (committed s2 r) (then_clean h worker_id lease_ms prepare error_details claim))
          e5
      ∙ ap (λ r. resume r (λ x. finish h worker_id lease_ms prepare error_details claim p)) e6

  pub process_next-done :
      (round : Round) (claim : Claim) (st : State) (s s1 s4 : Store) (p : Publication)
      → claim_next_outbox round.token worker_id round.claim_at lease_ms s
        ≡ ok (s1, claimed claim st)
      → process_claim h worker_id lease_ms prepare error_details round claim s1
        ≡ (s4, ok (done claim p))
      → process_next h worker_id lease_ms prepare error_details round s ≡ (s4, ok (done claim p))
  unfolding process_next
  process_next-done round claim st s s1 s4 p e f =
      rw e (ap (released_after h worker_id lease_ms prepare error_details round claim) f)
