-- ===== src/Tests/OutboxRuns.antt =====
-- Runs of src/rocksdb/outbox.js and of the worker of src/rocksdb/indexer.js.
use pi_sliding_context_windo.Common.{
  ℕ, subst, inl, inr, ◌+◌, ◌≤◌, ◌<◌, ◌≡◌, ◌↔◌, refl, ap, ◌∙◌, false, Option, none, some, List, [],
  ◌∷◌, ◌++◌, Text, units, text_eq, if◌then◌else◌, ltb, length, arith,
}
use pi_sliding_context_windo.Common.Results.{Result, ok, throw}
use pi_sliding_context_windo.Rocksdb.Outbox.{
  Fault, claim_lost, Payload, cleanup, remove, State, Mutation, Tablet, Tablets, atomic, Plan,
  Publication, Store, Claim, update,
}
use pi_sliding_context_windo.Rocksdb.Outbox.Claims.{
  initial_state, claimed_state, Outcome, claimed, Released, is_outbox_sequence_processed,
  claim_next_outbox, claim_head, recover_claim, recovered_state, renew_outbox_claim,
  release_outbox_claim, assert_claim_owner,
}
use pi_sliding_context_windo.Rocksdb.Outbox.Stages.{
  Host, stage_tablet, stage_header, apply_mutations,
}
use pi_sliding_context_windo.Rocksdb.Outbox.Apply.{apply_tablet, mark_ready}
use pi_sliding_context_windo.Rocksdb.Outbox.Publish.{
  publication_of, publish_transaction, publish_generation,
}
use pi_sliding_context_windo.Rocksdb.Outbox.Cleanup.{enqueue}
use pi_sliding_context_windo.Rocksdb.Outbox.Worker.{Round, drain_rounds}
use pi_sliding_context_windo.Rocksdb.Outbox.Order.{next_sequence, IsOrdered, some_eq, update_found}
use pi_sliding_context_windo.Rocksdb.Outbox.Steps.{
  consecutive, new_store, new_store-IsOrdered, enqueued, claimed_next, recovered, staged_header,
  published_one, Run, here, next,
}
use pi_sliding_context_windo.Rocksdb.Outbox.History.{Passed, Run-Passed}
use pi_sliding_context_windo.Rocksdb.Outbox.Stale.{IsLost, IsLost-Run}
use pi_sliding_context_windo.Rocksdb.Outbox.Outcomes.{IsAnswered, claim_next_outbox-returns}
use pi_sliding_context_windo.Rocksdb.Outbox.Metrics.{
  Metrics, outbox_metrics, is_outbox_sequence_processed_iff, outbox_metrics-counts,
}
use pi_sliding_context_windo.Rocksdb.Outbox.Rounds.{IsAtomicPlan, published_store}
use pi_sliding_context_windo.Rocksdb.Outbox.Progress.{IsRested}
use pi_sliding_context_windo.Rocksdb.Outbox.Prepared.{IsPrepared}
use pi_sliding_context_windo.Rocksdb.Outbox.Staging.{aside}
use pi_sliding_context_windo.Rocksdb.Outbox.Changes.{Aside-IsOrdered}
use pi_sliding_context_windo.Rocksdb.Outbox.Drain.{sequences_of, ended, drain_rounds_complete}

-- A host that tells plans and tablets apart by nothing, and mutations by their keys.
abbrev pub host : Host
host = record {
  plan_digest = λ p. units "p";
  tablet_digest = λ t. units "t";
  digest_of_digests = λ ds. units "d";
  serialized_bytes = λ m. length m.key;
  tablet_bytes = λ t. t.mutation_bytes;
  is_protected = λ k. false;
  encode_plan = λ p. [];
  encode_tablet = λ t. [];
  encode_applied = λ a. [];
  encode_ready = λ r. [];
  encode_publication = λ p. [];
}

abbrev entry : Payload
entry = record {
  sequence = 1;
  document_id = units "d1";
  document_version = 1;
  source_version = 1;
  operation = none;
  admitted_at = some 5;
}

abbrev entered : Store
entered = record new_store { outbox_counter = 1; entries = update (λ q. none) 1 (some entry) }

abbrev pub claim_by : Text → Claim
claim_by token = record {
  sequence = 1;
  generation = 1;
  operation = units "index";
  claim_token = token;
  worker_id = units "w";
  entry = entry;
}

abbrev pub first_state : State
first_state = claimed_state (units "t1") (units "w") 10 30 1 1 entry (initial_state 1)

abbrev pub first_claimed : Store
first_claimed = record entered {
  states = update (λ q. none) 1 (some first_state);
  generation_counter = 1;
}

abbrev pub removal : Mutation
removal = record { key = units "k"; stage_phase = cleanup; action = remove }

abbrev pub plan_for : Claim → Plan
plan_for c = record {
  generation = c.generation;
  outbox_sequence = c.sequence;
  document_id = c.entry.document_id;
  document_version = c.entry.document_version;
  source_version = c.entry.source_version;
  handlers = [];
  mutation_count = 1;
  mode = atomic (removal ∷ []);
  digest = units "p";
}

plan_for-IsAtomicPlan : (c : Claim) → IsAtomicPlan host c (plan_for c)
plan_for-IsAtomicPlan c = record {
  mutations = removal ∷ [];
  mode = refl;
  generation = refl;
  sequence = refl;
  digest = refl;
}

abbrev has_plan : Store
has_plan = record first_claimed {
  stages = update (λ g. none) 1 (some (plan_for (claim_by (units "t1"))));
}

abbrev derived_after : Text → Option Text
derived_after k = if text_eq (units "k") k then none else none

abbrev first_published : Store
first_published =
    published_store host (claim_by (units "t1")) (plan_for (claim_by (units "t1")))
      (plan_for-IsAtomicPlan (claim_by (units "t1"))) has_plan 20 first_state derived_after

entered_run : Run host new_store entered ([] ++ [])
unfolding enqueue
entered_run = next here (enqueued entry 1 refl)

claimed_run : Run host new_store first_claimed (([] ++ []) ++ [])
unfolding claim_next_outbox claim_head
claimed_run =
    next entered_run (
      claimed_next (units "t1") (units "w") 10 30 (claimed (claim_by (units "t1")) first_state)
        refl)

published_run : Run host new_store first_published (((([] ++ []) ++ []) ++ []) ++ 1 ∷ [])
unfolding stage_header assert_claim_owner publish_transaction apply_mutations
published_run =
    next
      (next claimed_run
        (staged_header (claim_by (units "t1")) (plan_for (claim_by (units "t1"))) refl))
      (published_one (claim_by (units "t1")) 20
        (publication_of (claim_by (units "t1")) (plan_for (claim_by (units "t1"))) 20) refl)

Run-Passed_example : Passed new_store first_published (((([] ++ []) ++ []) ++ []) ++ 1 ∷ [])
Run-Passed_example = Run-Passed host published_run new_store-IsOrdered

entered-IsOrdered : IsOrdered entered
entered-IsOrdered = (Run-Passed host entered_run new_store-IsOrdered).ordered

-- The second worker takes the entry over when the first lease is over, and is recovered itself.
abbrev second_state : State
second_state = claimed_state (units "t2") (units "v") 50 30 1 1 entry first_state

abbrev taken_over : Store
taken_over = record first_claimed { states = update first_claimed.states 1 (some second_state) }

abbrev second_claim : Claim
second_claim = record (claim_by (units "t2")) { worker_id = units "v" }

taken_run : Run host new_store taken_over ((([] ++ []) ++ []) ++ [])
unfolding claim_next_outbox claim_head
taken_run =
    next claimed_run
      (claimed_next (units "t2") (units "v") 50 30 (claimed second_claim second_state) refl)

taken_over-IsOrdered : IsOrdered taken_over
taken_over-IsOrdered = (Run-Passed host taken_run new_store-IsOrdered).ordered

abbrev given_back : Store
given_back = record taken_over {
  states = update taken_over.states 1 (some (recovered_state 90 second_state));
}

recovery : Run host taken_over given_back ([] ++ [])
unfolding recover_claim
recovery = next here (recovered 90 1)

abbrev pub tablets_plan : Tablets
tablets_plan = record {
  publication_mutations = [];
  tablet_max_mutations = 2;
  tablet_max_bytes = 40;
  tablet_count = 1;
  tablets_digest = units "d";
}

first_tablet : Tablet
first_tablet = record {
  generation = 1;
  outbox_sequence = 1;
  ordinal = 0;
  mutation_count = 1;
  prepare_count = 0;
  cleanup_count = 1;
  mutation_bytes = 1;
  mutations = removal ∷ [];
  digest = units "t";
}

first-IsLost : IsLost (claim_by (units "t1")) taken_over
first-IsLost st e k =
    let same : ◌≡◌ {A = Option Text} (some (units "t2")) (some (units "t1")) =
      ap (λ (x : State). x.claim_token) (some_eq e) ∙ k in
    ground (arith, same)

IsLost-Run_example :
    (publish_transaction host (claim_by (units "t1")) 95 given_back ≡ throw claim_lost)
    × ((f : Fault) × (publish_generation host (claim_by (units "t1")) 95 given_back ≡ throw f))
    × (stage_header host (claim_by (units "t1")) (plan_for (claim_by (units "t1"))) given_back
        ≡ throw claim_lost)
    × (stage_tablet host (claim_by (units "t1")) 0 first_tablet given_back ≡ throw claim_lost)
    × (apply_tablet host
          (claim_by (units "t1"))
          (plan_for (claim_by (units "t1")))
          0
          first_tablet
          given_back
        ≡ throw claim_lost)
    × (mark_ready host
          (claim_by (units "t1"))
          (plan_for (claim_by (units "t1")))
          tablets_plan
          given_back
        ≡ throw claim_lost)
    × (renew_outbox_claim (claim_by (units "t1")) 95 30 given_back ≡ throw claim_lost)
    × ((y : Released) × (release_outbox_claim (claim_by (units "t1")) none 95 given_back
          ≡ ok (given_back, y)))
unfolding recovery
IsLost-Run_example =
    IsLost-Run host (claim_by (units "t1")) taken_over given_back ([] ++ []) recovery
      (plan_for (claim_by (units "t1"))) tablets_plan 0 first_tablet none 95 30 (tt, tt)
      taken_over-IsOrdered first-IsLost (omega arith)

abbrev round : Round
round = record { token = units "t9"; claim_at = 100; publish_at = 110; release_at = 120 }

-- The handlers need the document of the entry, and remove the record "k".
abbrev load : Store → Claim → Result Fault (Plan × List Tablet)
load s c = elim (s.derived c.entry.document_id) [
  | none ↦ throw Fault.integrity
  | some document ↦ ok (plan_for c, [])
]

abbrev IsLoadable : Payload → (Text → Option Text) → Type 0
IsLoadable p derived =
    (text_eq (units "k") p.document_id ≡ false)
    × ((document : Text) × (derived p.document_id ≡ some document))

load-IsPrepared :
    (s : Store) (c : Claim)
    → s.entries c.sequence ≡ some c.entry
    → IsLoadable c.entry s.derived
    → IsPrepared host IsLoadable load s c
unfolding apply_mutations plan_for-IsAtomicPlan
load-IsPrepared s c e holds = record {
  plan = plan_for c;
  is_atomic = plan_for-IsAtomicPlan c;
  derived = λ k. if text_eq (units "k") k then none else s.derived k;
  applies = refl;
  keeps = λ p h. (h.0, (h.1.0, rw h.0 h.1.1));
  returned = rw (holds.1.1, load) refl;
}

-- The outbox with the document of its entry.
abbrev stored : Store
stored = record entered { derived = λ k. some (units "text") }

stored-IsRested : IsRested stored
stored-IsRested = record {
  ordered = Aside-IsOrdered entered entered-IsOrdered (
      aside entered entered.stages entered.stage_tablets entered.applied entered.ready
        stored.derived stored refl);
  unstaged = λ g. refl;
  unclaimed = refl;
}

stored_entry :
    (q : ℕ) (p : Payload) → 1 ≤ q → stored.entries q ≡ some p → IsLoadable p stored.derived
stored_entry q p l e = elim (update_found (λ (j : ℕ). none) 1 (some entry) q e) [
  | inl (a, b) ↦ subst (λ x. IsLoadable x stored.derived) (some_eq b) (refl, (units "text", refl))
  | inr (a, b) ↦ absurd (cc)
]

drain_rounds_complete_example :
    (t : Store) × (new : List Publication) × (drain_rounds host
        (units "w")
        30
        load
        (λ f. none)
        90
        1000
        ((95, round) ∷ (130, round) ∷ [])
        []
        stored
      ≡ ended t (Outcome.idle (stored.outbox_counter + 1)) ([] ++ new))
    × (sequences_of new ≡ consecutive (next_sequence stored) 1)
    × (next_sequence t ≡ stored.outbox_counter + 1)
    × IsRested t
drain_rounds_complete_example =
    drain_rounds_complete host (units "w") 30 load (λ f. none) IsLoadable load-IsPrepared refl
      (omega arith) 90 1000 ((95, round) ∷ (130, round) ∷ []) 1 stored [] (omega arith)
      (refl, (refl, tt)) stored-IsRested (omega arith) (omega arith) stored_entry

claim_next_outbox-returns_example :
    IsAnswered entered (units "t1") 10 (claim_next_outbox (units "t1") (units "w") 10 30 entered)
claim_next_outbox-returns_example =
    claim_next_outbox-returns entered entered-IsOrdered (units "t1") (units "w") 10 30 refl
      (omega arith) (omega arith)

is_outbox_sequence_processed_iff_example :
    is_outbox_sequence_processed taken_over 1 ≡ ok (ltb 1 (next_sequence taken_over))
is_outbox_sequence_processed_iff_example =
    is_outbox_sequence_processed_iff taken_over taken_over-IsOrdered 1 (omega arith)

outbox_metrics-counts_example :
    (m : Metrics) × (outbox_metrics 60 taken_over ≡ ok m)
    × (m.depth + m.processed ≡ taken_over.outbox_counter)
    × (m.pending + m.processing ≡ m.depth)
    × (m.processing ≤ 1)
    × ((m.scanned ≡ 1) ↔ (0 < m.depth))
outbox_metrics-counts_example = outbox_metrics-counts taken_over taken_over-IsOrdered 60
