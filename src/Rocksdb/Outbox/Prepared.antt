-- ===== src/Rocksdb/Outbox/Prepared.antt =====
-- A round of a worker whose handlers can prepare each entry that is left.
use pi_sliding_context_windo.Common.{
  ℕ, ◌≤◌, ◌<◌, ◌≡◌, refl, sym, subst, false, ◌&&◌, Option, some, List, [], Text, text_eq, arith,
}
use pi_sliding_context_windo.Common.Results.{Result, ok}
use pi_sliding_context_windo.Rocksdb.Outbox.{
  Fault, ErrorDetails, Payload, processing, Tablet, Plan, Publication, Store, Claim,
  max_safe_integer,
}
use pi_sliding_context_windo.Rocksdb.Outbox.Claims.{status_eq, later}
use pi_sliding_context_windo.Rocksdb.Outbox.Stages.{Host, apply_mutations}
use pi_sliding_context_windo.Rocksdb.Outbox.Worker.{Round, done, process_next}
use pi_sliding_context_windo.Rocksdb.Outbox.Order.{next_sequence}
use pi_sliding_context_windo.Rocksdb.Outbox.Claiming.{head_state}
use pi_sliding_context_windo.Rocksdb.Outbox.Rounds.{IsAtomicPlan, claim_generation_known}
use pi_sliding_context_windo.Rocksdb.Outbox.Progress.{
  IsRested, Rounded, taken, taken_claim, rounded,
}

-- What the handlers do for a claim: they prepare one atomic plan, whose mutations apply to the derived
-- records, and keep what holds of each payload.
pub record IsPrepared (h : Host) (Holds : Payload → (Text → Option Text) → Type 0)
    (prepare : Store → Claim → Result Fault (Plan × List Tablet)) (s : Store) (c : Claim)
    : Type 0 where
  pub plan : Plan
  pub is_atomic : IsAtomicPlan h c plan
  pub derived : Text → Option Text
  pub applies : apply_mutations h is_atomic.mutations s.derived ≡ ok derived
  pub keeps : (p : Payload) → Holds p s.derived → Holds p derived
  pub returned : prepare s c ≡ ok (plan, [])

-- It holds of each entry from the cursor on.
abbrev pub AllHold : (Payload → (Text → Option Text) → Type 0) → Store → Type 0
AllHold Holds s =
    (q : ℕ) (p : Payload) → next_sequence s ≤ q → s.entries q ≡ some p → Holds p s.derived

module _ (h : Host) (worker_id : Text) (lease_ms : ℕ)
    (prepare : Store → Claim → Result Fault (Plan × List Tablet))
    (error_details : Fault → Option ErrorDetails) (Holds : Payload → (Text → Option Text) → Type 0)
    (prepared : (s : Store) (c : Claim)
      → s.entries c.sequence ≡ some c.entry
      → Holds c.entry s.derived
      → IsPrepared h Holds prepare s c)
    (named : text_eq worker_id [] ≡ false) (positive : 0 < lease_ms) where
  pub process_next-Rounded :
      (round : Round) (s : Store)
      → IsRested s
      → next_sequence s ≤ s.outbox_counter
      → s.generation_counter < max_safe_integer
      → AllHold Holds s
      → (t : Store) × (c : Claim) × (p : Publication) × (process_next h worker_id lease_ms prepare
            error_details round s
          ≡ (t, ok (done c p)))
        × Rounded s t p
        × AllHold Holds t
  process_next-Rounded round s r present room holds =
      let (entry, found, same) = r.ordered.entry_at (next_sequence s) (omega arith) present in
      let (g, after, generated, fewer) =
        claim_generation_known (head_state s).generation s.generation_counter room in
      let free : (status_eq (head_state s).status processing
            && later (head_state s).claimed_until round.claim_at)
          ≡ false =
        rw r.unclaimed refl in
      let ready =
        prepared
          (taken h worker_id lease_ms prepare error_details named positive round s r.ordered
            r.unstaged free entry found same g after generated)
          (taken_claim h worker_id lease_ms prepare error_details named positive round s r.ordered
            r.unstaged free entry found same g after generated)
          found (holds (next_sequence s) entry (omega arith) found) in
      let (t, c, p, processed, k, derived_then, kept) =
        rounded h worker_id lease_ms prepare error_details named positive round s r.ordered
          r.unstaged free entry found same g after generated ready.plan ready.is_atomic
          ready.derived ready.applies ready.returned fewer in
      (
        t,
        c,
        p,
        processed,
        k,
        λ q e l f.
            subst (Holds e) (sym derived_then)
              (ready.keeps e (holds q e (omega (arith, l, k.advanced)) (kept q e f))),
      )
