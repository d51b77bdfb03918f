-- ===== src/Rocksdb/Outbox/Claims.antt =====
-- The claims of src/rocksdb/outbox.js: the first unprocessed entry is claimed for a lease, the claim is
-- renewed, released for replay, or recovered after a restart. The token that `randomUUID` makes is an
-- argument, and so are the clock's time and the details of an error. The retries of `claimNextOutbox`
-- repeat the same transaction after a fault of the native reads, and are left out.
use pi_sliding_context_windo.Common.{
  ℕ, ◌+◌, Bool, true, false, not, ◌&&◌, Option, none, some, [], Text, text_eq, units, if◌then◌else◌,
  ltb, leb, ◌==◌,
}
use pi_sliding_context_windo.Common.Results.{Result, ok, throw, ◌>>=◌, ◌>>◌, throw_if}
use pi_sliding_context_windo.Rocksdb.Outbox.{
  Fault, invalid_argument, integrity, claim_lost, Payload, Status, pending, processing, processed,
  ErrorDetails, State, Store, Claim, Transaction, update, increment,
}

-- A cursor that was never written stands at the first entry.
unfoldable pub cursor_sequence : Option ℕ → Result Fault ℕ
cursor_sequence none = ok 1
cursor_sequence (some n) = if n == 0 then throw integrity else ok n

abbrev pub status_eq : Status → Status → Bool
status_eq pending pending = true
status_eq processing processing = true
status_eq processed processed = true
status_eq _ _ = false

abbrev pub initial_state : ℕ → State
initial_state sequence = record {
  sequence = sequence;
  status = pending;
  generation = none;
  operation = none;
  worker_id = none;
  claim_token = none;
  attempt = 0;
  first_claimed_at = none;
  claimed_at = none;
  claimed_until = none;
  retry_at = none;
  last_error = none;
  processed_at = none;
  mutation_count = none;
  index_status = none;
  skipped_handlers = [];
  stage_digest = none;
}

unfoldable pub normalize_state : Option State → ℕ → Result Fault State
normalize_state none sequence = ok (initial_state sequence)
normalize_state (some st) sequence = if st.sequence == sequence then ok st else throw integrity

-- `readOutboxEntry`: the sequence of the payload is that of the key.
unfoldable pub read_outbox_entry : (ℕ → Option Payload) → ℕ → Result Fault (Option Payload)
read_outbox_entry entries sequence = elim (entries sequence) [
  | none ↦ ok none
  | some p ↦ if p.sequence == sequence then ok (some p) else throw integrity
]

unfoldable pub is_outbox_sequence_processed : Store → ℕ → Result Fault Bool
is_outbox_sequence_processed s sequence =
    throw_if (sequence == 0) invalid_argument
    >> (normalize_state (s.states sequence) sequence >>= λ st.
        if status_eq st.status processed
        then ok true
        else (cursor_sequence s.cursor >>= λ next. ok (ltb sequence next)))

pub data Outcome : Type 0 where
  idle : (next_sequence : ℕ) → Outcome
  busy : (sequence : ℕ) (worker_id : Option Text) (claimed_until : Option ℕ) → Outcome
  claimed : Claim → State → Outcome

-- `state.claimedUntil > now`
abbrev pub later : Option ℕ → ℕ → Bool
later none now = false
later (some t) now = ltb now t

abbrev pub or_else {ℓ} : {A : Type ℓ} → Option A → A → A
or_else none a = a
or_else (some b) a = b

-- `state.generation ?? await transaction.increment("index-generation")`, with the counter after it.
abbrev pub claim_generation : Option ℕ → ℕ → Result Fault (ℕ × ℕ)
claim_generation (some g) counter = ok (g, counter)
claim_generation none counter = increment counter >>= λ g. ok (g, g)

abbrev pub claimed_state : Text → Text → ℕ → ℕ → ℕ → ℕ → Payload → State → State
claimed_state token worker_id now lease_ms sequence generation entry st = record {
  sequence = sequence;
  status = processing;
  generation = some generation;
  operation = some (or_else entry.operation (units "index"));
  worker_id = some worker_id;
  claim_token = some token;
  attempt = st.attempt + 1;
  first_claimed_at = some (or_else st.first_claimed_at now);
  claimed_at = some now;
  claimed_until = some (now + lease_ms);
  retry_at = none;
  last_error = st.last_error;
  processed_at = none;
  mutation_count = none;
  index_status = none;
  skipped_handlers = [];
  stage_digest = none;
}

-- The claim of an entry that is free.
unfoldable pub take_claim : Text → Text → ℕ → ℕ → ℕ → Payload → State → Transaction Outcome
take_claim token worker_id now lease_ms sequence entry st s =
    claim_generation st.generation s.generation_counter >>= λ (generation, counter).
    let next = claimed_state token worker_id now lease_ms sequence generation entry st in
    let claim : Claim = record {
      sequence = sequence;
      generation = generation;
      operation = or_else entry.operation (units "index");
      claim_token = token;
      worker_id = worker_id;
      entry = entry;
    } in
    ok (
      record s { states = update s.states sequence (some next); generation_counter = counter },
      claimed claim next,
    )

unfoldable pub claim_entry : Text → Text → ℕ → ℕ → ℕ → Payload → State → Transaction Outcome
unfolding take_claim
claim_entry token worker_id now lease_ms sequence entry st s =
    if status_eq st.status processed
    then throw integrity
    else if status_eq st.status processing && later st.claimed_until now
    then ok (s, busy sequence st.worker_id st.claimed_until)
    else take_claim token worker_id now lease_ms sequence entry st s

-- No entry at the cursor: the outbox is empty, unless the counter says otherwise.
abbrev pub claim_missing : ℕ → Transaction Outcome
claim_missing sequence s =
    if leb sequence s.outbox_counter then throw integrity else ok (s, idle sequence)

unfoldable pub claim_head : Text → Text → ℕ → ℕ → Transaction Outcome
unfolding cursor_sequence read_outbox_entry normalize_state claim_entry
claim_head token worker_id now lease_ms s = cursor_sequence s.cursor >>= λ sequence.
    read_outbox_entry s.entries sequence >>= λ found. elim found [
      | none ↦ claim_missing sequence s
      | some entry ↦ normalize_state (s.states sequence) sequence >>= λ st.
          claim_entry token worker_id now lease_ms sequence entry st s
    ]

unfoldable pub claim_next_outbox : Text → Text → ℕ → ℕ → Transaction Outcome
claim_next_outbox token worker_id now lease_ms s =
    throw_if (text_eq worker_id []) invalid_argument
    >> (throw_if (lease_ms == 0) invalid_argument >> claim_head token worker_id now lease_ms s)

-- `===` on values that may be absent.
abbrev pub is_number : Option ℕ → ℕ → Bool
is_number none n = false
is_number (some m) n = m == n

abbrev pub is_text : Option Text → Text → Bool
is_text none t = false
is_text (some u) t = text_eq u t

unfoldable pub owns : State → Claim → Bool
owns st claim =
    status_eq st.status processing
    && st.sequence == claim.sequence
    && is_number st.generation claim.generation
    && is_text st.claim_token claim.claim_token

unfoldable pub assert_claim_owner : Option State → Claim → Result Fault State
unfolding owns
assert_claim_owner none claim = throw claim_lost
assert_claim_owner (some st) claim = if owns st claim then ok st else throw claim_lost

unfoldable pub renew_outbox_claim : Claim → ℕ → ℕ → Transaction State
renew_outbox_claim claim now lease_ms s =
    throw_if (lease_ms == 0) invalid_argument
    >> (assert_claim_owner (s.states claim.sequence) claim >>= λ st.
        let renewed : State = record st { claimed_until = some (now + lease_ms) } in
        ok (record s { states = update s.states claim.sequence (some renewed) }, renewed))

pub data Released : Type 0 where
  already_processed lost : Released
  released : State → Released

abbrev pub released_state : Claim → Option ErrorDetails → ℕ → State → State
released_state claim error now st = record {
  sequence = claim.sequence;
  status = pending;
  generation = some claim.generation;
  operation = st.operation;
  worker_id = none;
  claim_token = none;
  attempt = st.attempt;
  first_claimed_at = st.first_claimed_at;
  claimed_at = none;
  claimed_until = none;
  retry_at = some now;
  last_error = error;
  processed_at = none;
  mutation_count = none;
  index_status = none;
  skipped_handlers = [];
  stage_digest = none;
}

unfoldable pub release_state : Claim → Option ErrorDetails → ℕ → State → Transaction Released
release_state claim error now st s =
    if status_eq st.status processed
    then ok (s, already_processed)
    else if not (is_text st.claim_token claim.claim_token)
    then ok (s, lost)
    else (assert_claim_owner (some st) claim >>= λ owned.
        let next = released_state claim error now owned in
        ok (record s { states = update s.states claim.sequence (some next) }, released next))

unfoldable pub release_outbox_claim : Claim → Option ErrorDetails → ℕ → Transaction Released
unfolding release_state
release_outbox_claim claim error now s = elim (s.states claim.sequence) [
  | none ↦ ok (s, lost)
  | some st ↦ release_state claim error now st s
]

abbrev pub worker_restart : ErrorDetails
worker_restart = record {
  name = units "WorkerRestart";
  code = some (units "ERR_INDEX_WORKER_RESTART");
  message = units "The daemon restarted before this outbox entry was published.";
}

abbrev pub recovered_state : ℕ → State → State
recovered_state now st = record st {
  status = pending;
  retry_at = some now;
  claimed_until = none;
  claim_token = none;
  worker_id = none;
  last_error = some worker_restart;
}

-- The transaction of `recoverOutbox` for one sequence of its scan.
unfoldable pub recover_claim : ℕ → ℕ → Store → Store
recover_claim now sequence s = elim (s.states sequence) [
  | none ↦ s
  | some st ↦
      if status_eq st.status processing
      then record s { states = update s.states sequence (some (recovered_state now st)) }
      else s
]
