-- ===== src/Tests/LeaseRuns.antt =====
-- Runs of src/retrieval/leases.js and src/daemon/watchdog-state.js.
use pi_sliding_context_windo.Common.{
  ℕ, ◌+◌, ◌≤◌, ◌≡◌, ◌↔◌, refl, Bool, true, false, some, [], ◌∷◌, units, arith, All,
}
use pi_sliding_context_windo.Retrieval.Leases.{
  Lease, Store, created, Request, requested, find_lease, put_lease, create_at,
  create_retrieval_lease, document_key, has_active_document_lease, release_found, remove_lease,
  release_lease, released, validate_retrieval_lease, active, missing, max_retrieval_lease_ms,
}
use pi_sliding_context_windo.Retrieval.Leases.Validity.{create-validate}
use pi_sliding_context_windo.Retrieval.Leases.Indexes.{
  IsConsistent, any_lease, covers, has_active-any, transaction-IsConsistent,
}
use pi_sliding_context_windo.Retrieval.Leases.Release.{release-validate}
use pi_sliding_context_windo.Daemon.Watchdog.{
  State, Inspection, stall, inspect_watchdog_state, inspect_all,
}
use pi_sliding_context_windo.Daemon.Watchdog.Stalls.{is_gap, NoneDue, inspect_all-stall}

abbrev any_record : Lease → Bool
any_record l = true

abbrev request : Request
request = record {
  lease_id = units "l1";
  owner_id = units "retrieval";
  document_id = units "d1";
  document_version = 1;
  now = 1000;
  ttl_ms = 500;
}

abbrev lease : Lease
lease = record {
  lease_id = units "l1";
  owner_id = units "retrieval";
  document_id = units "d1";
  document_version = 1;
  issued_at = 1000;
  expires_at = 1500;
}

abbrev empty_store : Store
empty_store = record {
  by_id = [];
  by_expiry = [];
  by_document = [];
  document_expiry = [];
  superseded = [];
}

abbrev store_with_lease : Store
store_with_lease = record {
  by_id = lease ∷ [];
  by_expiry = (1500, units "l1") ∷ [];
  by_document = document_key lease ∷ [];
  document_expiry = (1500, document_key lease) ∷ [];
  superseded = [];
}

ran :
    create_retrieval_lease any_record empty_store request ≡ (store_with_lease, created lease false)
unfolding create_retrieval_lease create_at put_lease find_lease requested
ran = refl

create-validate_example :
    (lease ≡ requested request)
    × (lease.expires_at ≡ 1500)
    × (500 ≤ max_retrieval_lease_ms)
    × (validate_retrieval_lease any_record store_with_lease (units "l1") (units "d1") 1 1200
        ≡ active lease)
create-validate_example =
    create-validate any_record empty_store store_with_lease request lease 1200 ran

store_with_lease-IsConsistent : IsConsistent store_with_lease
store_with_lease-IsConsistent = record {
  distinct = (tt, tt);
  expiries = refl;
  documents = refl;
  document_expiries = refl;
}

has_active-any_example :
    has_active_document_lease store_with_lease (units "d1") 1 1200
    ≡ any_lease (covers (units "d1") 1 1200) (lease ∷ [])
has_active-any_example =
    has_active-any store_with_lease (units "d1") 1 1200 store_with_lease-IsConsistent

transaction-IsConsistent_example :
    IsConsistent (create_retrieval_lease any_record store_with_lease request).0
    × IsConsistent (release_lease any_record store_with_lease (units "l1")).0
transaction-IsConsistent_example =
    transaction-IsConsistent any_record store_with_lease request (units "l1")
      store_with_lease-IsConsistent

released_run : release_lease any_record store_with_lease (units "l1") ≡ (empty_store, released)
unfolding release_lease release_found remove_lease find_lease
released_run = refl

release-validate_example :
    (validate_retrieval_lease any_record empty_store (units "l1") (units "d1") 1 1200 ≡ missing)
    × (validate_retrieval_lease any_record empty_store (units "l2") (units "d1") 1 1200
        ≡ validate_retrieval_lease any_record store_with_lease (units "l2") (units "d1") 1 1200)
release-validate_example =
    release-validate any_record store_with_lease empty_store (units "l1") (units "l2") (units "d1")
      1 1200 released_run refl

-- A heartbeat that stays at 7, seen at 0.
abbrev watched : State
watched = record { heartbeat = 7; heartbeat_at = 0; inspected_at = 100; stall_reported = false }

abbrev inspection : Inspection
inspection = record {
  heartbeat = 7;
  now = 200;
  stall_threshold_ms = 150;
  max_inspection_gap_ms = 1000;
}

abbrev beat : ℕ → Inspection
beat t = record { heartbeat = 8; now = t; stall_threshold_ms = 150; max_inspection_gap_ms = 1000 }

-- The heartbeat 8 is first seen at 200, and is 200 ms old at 400.
inspect_all-stall_example :
    ((inspect_watchdog_state
        (inspect_all (inspect_watchdog_state watched (beat 200)).0 (beat 300 ∷ [])).0
        (beat 400)).1
      ≡ some (stall 200))
    ↔ ((200 + 150 ≤ 400) × NoneDue 200 (beat 300 ∷ []) × (200 + 200 ≡ 400))
inspect_all-stall_example =
    inspect_all-stall watched (beat 200) (beat 300 ∷ []) (beat 400) 200 refl
      (refl, omega arith, omega arith, (refl, omega arith, omega arith, tt))

stalled_run :
    (inspect_watchdog_state
      (inspect_all (inspect_watchdog_state watched (beat 200)).0 (beat 300 ∷ [])).0
      (beat 400)).1
    ≡ some (stall 200)
stalled_run = inspect_all-stall_example.1 (omega arith, (omega arith, tt), omega arith)

no_gaps : All (λ e. is_gap e ≡ false) (inspect_all watched (inspection ∷ inspection ∷ [])).1
unfolding inspect_all inspect_watchdog_state
no_gaps = (refl, (refl, tt))
