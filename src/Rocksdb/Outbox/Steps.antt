-- ===== src/Rocksdb/Outbox/Steps.antt =====
-- The outbox of src/rocksdb/outbox.js under any number of workers: a step is one transaction of one of
-- them, and a run is any interleaving of such steps. A claim is whatever a worker holds, current or
-- not. The log of a run has the sequence of each publication.
use pi_sliding_context_windo.Common.{
  ℕ, zero, suc, ◌<◌, ◌≡◌, refl, Option, none, some, List, [], ◌∷◌, ◌++◌, Text, arith,
}
use pi_sliding_context_windo.Common.Results.{ok}
use pi_sliding_context_windo.Rocksdb.Outbox.{
  Payload, ErrorDetails, State, Tablet, Tablets, Plan, Publication, Store, Claim,
}
use pi_sliding_context_windo.Rocksdb.Outbox.Claims.{
  Outcome, Released, claim_next_outbox, renew_outbox_claim, release_outbox_claim, recover_claim,
}
use pi_sliding_context_windo.Rocksdb.Outbox.Stages.{
  Host, stage_tablet, stage_header, clear_orphan_stage_records,
}
use pi_sliding_context_windo.Rocksdb.Outbox.Apply.{AppliedOutcome, apply_tablet, mark_ready}
use pi_sliding_context_windo.Rocksdb.Outbox.Publish.{publish_transaction}
use pi_sliding_context_windo.Rocksdb.Outbox.Cleanup.{enqueue, cleanup_tablet, finish_cleanup}
use pi_sliding_context_windo.Rocksdb.Outbox.Order.{IsOrdered}

-- The sequences from one on, as many as the number says.
abbrev pub consecutive : ℕ → ℕ → List ℕ
consecutive first zero = []
consecutive first (suc n) = first ∷ consecutive (suc first) n

-- The outbox of a new store.
abbrev pub new_store : Store
new_store = record {
  entries = λ q. none;
  states = λ q. none;
  cursor = none;
  outbox_counter = 0;
  generation_counter = 0;
  stages = λ g. none;
  stage_tablets = λ g o. none;
  applied = λ g o. none;
  ready = λ g. none;
  generations = λ g. none;
  published = none;
  preparation = none;
  derived = λ k. none;
}

pub new_store-IsOrdered : IsOrdered new_store
new_store-IsOrdered = record {
  positive = omega arith;
  within = omega arith;
  entry_at = λ q l m. absurd (omega (arith, l, m));
  no_entry = λ q l. refl;
  state_at = λ q st e. absurd (cc);
  present = λ st e. absurd (cc);
  published_below = λ g p e. absurd (cc);
  published_in_order = λ g j p r e. absurd (cc);
}

module _ (h : Host) where
  pub data Step (s : Store) : Store → List ℕ → Type 0 where
    enqueued : (p : Payload) (q : ℕ) {t : Store} → enqueue p s ≡ ok (t, q) → Step s t []
    claimed_next :
        (token worker_id : Text) (now lease_ms : ℕ) (o : Outcome) {t : Store}
        → claim_next_outbox token worker_id now lease_ms s ≡ ok (t, o)
        → Step s t []
    renewed :
        (c : Claim) (now lease_ms : ℕ) (st : State) {t : Store}
        → renew_outbox_claim c now lease_ms s ≡ ok (t, st)
        → Step s t []
    released_claim :
        (c : Claim) (error : Option ErrorDetails) (now : ℕ) (r : Released) {t : Store}
        → release_outbox_claim c error now s ≡ ok (t, r)
        → Step s t []
    recovered : (now q : ℕ) → Step s (recover_claim now q s) []
    staged_tablet :
        (c : Claim) (o : ℕ) (x : Tablet) {t : Store} → stage_tablet h c o x s ≡ ok t → Step s t []
    staged_header : (c : Claim) (p : Plan) {t : Store} → stage_header h c p s ≡ ok t → Step s t []
    cleared : (c : Claim) {t : Store} → clear_orphan_stage_records h c s ≡ ok t → Step s t []
    applied_one :
        (c : Claim) (p : Plan) (o : ℕ) (x : Tablet) (r : AppliedOutcome) {t : Store}
        → apply_tablet h c p o x s ≡ ok (t, r)
        → Step s t []
    marked_ready :
        (c : Claim) (p : Plan) (x : Tablets) {t : Store} → mark_ready h c p x s ≡ ok t → Step s t []
    -- The only step that is logged.
    published_one :
        (c : Claim) (now : ℕ) (p : Publication) {t : Store}
        → publish_transaction h c now s ≡ ok (t, p)
        → Step s t (c.sequence ∷ [])
    cleaned_tablet :
        (g : ℕ) (p : Plan) (o : ℕ) (x : Tablet) {t : Store}
        → cleanup_tablet h g p o x s ≡ ok t
        → Step s t []
    cleaned :
        (g retained : ℕ) (p : Publication)
        → s.generations g ≡ some p
        → 0 < retained
        → Step s (finish_cleanup g p.outbox_sequence retained s) []

  pub data Run (s : Store) : Store → List ℕ → Type 0 where
    here : Run s s []
    next : {t u : Store} {log new : List ℕ} → Run s t log → Step t u new → Run s u (log ++ new)
