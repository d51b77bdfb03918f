-- ===== src/Rocksdb/Outbox/Cleanup.antt =====
-- `cleanupPublishedStage` and `recoverOutbox` of src/rocksdb/outbox.js: the stage of a published
-- generation is removed tablet by tablet, old publications are pruned, and a restarted daemon
-- recovers the claims that it finds. `enqueue` is what an admission adds to the outbox.
use pi_sliding_context_windo.Common.{
  ℕ, zero, suc, ◌+◌, ◌-◌, Bool, true, false, ◌&&◌, ◌||◌, Option, none, some, List, [], ◌∷◌, text_eq,
  if◌then◌else◌, ltb, ◌==◌, keep_if,
}
use pi_sliding_context_windo.Common.Results.{Result, ok, throw, ◌>>=◌, throw_if}
use pi_sliding_context_windo.Rocksdb.Outbox.{
  Fault, invalid_argument, integrity, Payload, processing, cleanup, Tablet, Tablets, Mode, atomic,
  tablets, Plan, Ready, Publication, Store, Claim, Transaction, Sequence, ◌>->◌, write, read, State,
  update, increment,
}
use pi_sliding_context_windo.Rocksdb.Outbox.Claims.{normalize_state, status_eq, recover_claim}
use pi_sliding_context_windo.Rocksdb.Outbox.Stages.{
  Host, in_phase, validate_stage, read_stage_tablet, apply_mutations,
}

-- The counter names the entry, and the entry is written below it.
unfoldable pub enqueue : Payload → Transaction ℕ
enqueue payload s = increment s.outbox_counter >>= λ sequence. ok (
  record s {
    outbox_counter = sequence;
    entries = update s.entries sequence (some (record payload { sequence = sequence }));
  },
  sequence,
)

-- The key that falls out of the bounded history, where there is one.
abbrev pub pruned : ℕ → ℕ → Option ℕ
pruned key retained = if ltb 0 (key - retained) then some (key - retained) else none

abbrev pub remove_at : {V : Type 0} → (ℕ → Option V) → Option ℕ → ℕ → Option V
remove_at f none = f
remove_at f (some k) = update f k none

-- The last transaction of the cleanup.
unfoldable pub finish_cleanup : ℕ → ℕ → ℕ → Store → Store
finish_cleanup generation outbox_sequence retained s = record s {
  stages = update s.stages generation none;
  ready = update s.ready generation none;
  generations = remove_at s.generations (pruned generation retained);
  entries = remove_at s.entries (pruned outbox_sequence retained);
  states = remove_at s.states (pruned outbox_sequence retained);
}

abbrev pub at_ordinal : Option Ready → Plan → ℕ → Result Fault Ready
at_ordinal none plan ordinal = throw integrity
at_ordinal (some r) plan ordinal =
    if text_eq r.stage_digest plan.digest && r.cleanup_ordinal == ordinal
    then ok r
    else throw integrity

abbrev valid_ready : Option Ready → Plan → Result Fault Ready
valid_ready none plan = throw integrity
valid_ready (some r) plan = if text_eq r.stage_digest plan.digest then ok r else throw integrity

abbrev pub stage_claim : ℕ → Publication → Claim
stage_claim generation publication = record {
  sequence = publication.outbox_sequence;
  generation = generation;
  operation = publication.operation;
  claim_token = [];
  worker_id = [];
  entry = record {
    sequence = publication.outbox_sequence;
    document_id = publication.document_id;
    document_version = publication.document_version;
    source_version = publication.source_version;
    operation = some publication.operation;
    admitted_at = none;
  };
}

pub data Cleaned : Type 0 where
  unpublished : Cleaned
  removed : (pruned_generation pruned_sequence : Option ℕ) → Cleaned

pub record Recovered : Type 0 where
  pub recovered_claims : ℕ
  pub cleaned_stages : ℕ

abbrev is_claimed : Option State → Bool
is_claimed none = false
is_claimed (some st) = status_eq st.status processing

abbrev is_published : Option Publication → Bool
is_published none = false
is_published (some p) = true

module _ (h : Host) where
  unfoldable pub cleanup_tablet : ℕ → Plan → ℕ → Tablet → Store → Result Fault Store
  unfolding apply_mutations
  cleanup_tablet generation plan ordinal t s =
      at_ordinal (s.ready generation) plan ordinal >>= λ current.
      apply_mutations h (keep_if (in_phase cleanup) t.mutations) s.derived >>= λ derived.
      ok (record s {
        derived = derived;
        stage_tablets =
            λ g o. if generation == g && ordinal == o then none else s.stage_tablets g o;
        applied = λ g o. if generation == g && ordinal == o then none else s.applied g o;
        ready = update s.ready generation (some (record current { cleanup_ordinal = ordinal + 1 }));
      })

  -- The loop from the ordinal that the marker has reached: `rounds` are left.
  unfoldable pub cleanup_tablets :
      Claim → Plan → Tablets → (rounds ordinal : ℕ) → Sequence (Unit {0})
  unfolding read_stage_tablet cleanup_tablet
  cleanup_tablets claim plan ts zero ordinal s = (s, ok tt)
  cleanup_tablets claim plan ts (suc rounds) ordinal s =
      (read (λ r. read_stage_tablet h r claim ts ordinal) >-> λ t.
      write (cleanup_tablet claim.generation plan ordinal t) >-> λ done.
      cleanup_tablets claim plan ts rounds (ordinal + 1))
        s

  unfoldable pub cleanup_mode : Claim → Plan → Mode → Sequence (Unit {0})
  unfolding validate_stage cleanup_tablets
  cleanup_mode claim plan (atomic mutations) s = (s, ok tt)
  cleanup_mode claim plan (tablets ts) s =
      (read (λ r.
            validate_stage h plan claim >>= λ valid. valid_ready (r.ready claim.generation) plan)
          >-> λ marker.
              cleanup_tablets claim plan ts (ts.tablet_count - marker.cleanup_ordinal)
                marker.cleanup_ordinal)
        s

  abbrev pub cleanup_stage : Claim → Option Plan → Sequence (Unit {0})
  unfolding cleanup_mode
  cleanup_stage claim none s = (s, ok tt)
  cleanup_stage claim (some plan) s = cleanup_mode claim plan plan.mode s

  abbrev pub cleanup_publication : ℕ → ℕ → Option Publication → Sequence Cleaned
  unfolding cleanup_mode finish_cleanup
  cleanup_publication generation retained none s = (s, ok unpublished)
  cleanup_publication generation retained (some publication) s =
      (cleanup_stage (stage_claim generation publication) (s.stages generation) >-> λ done. λ t. (
        finish_cleanup generation publication.outbox_sequence retained t,
        ok (removed (pruned generation retained) (pruned publication.outbox_sequence retained)),
      ))
        s

  unfoldable pub cleanup_published_stage : ℕ → ℕ → Sequence Cleaned
  unfolding cleanup_mode finish_cleanup
  cleanup_published_stage generation retained s =
      (read (λ r. throw_if (generation == 0 || retained == 0) invalid_argument) >-> λ valid.
      cleanup_publication generation retained (s.generations generation))
        s

  -- The scans' keys are arguments: the sequences with a state, the generations with a stage.
  unfoldable pub recover_claims : ℕ → List ℕ → ℕ → Sequence ℕ
  unfolding recover_claim normalize_state
  recover_claims now [] count s = (s, ok count)
  recover_claims now (q ∷ qs) count s =
      (read (λ r. normalize_state (r.states q) q) >-> λ st. λ t.
          recover_claims now qs (if is_claimed (some st) then count + 1 else count)
            (recover_claim now q t))
        s

  unfoldable pub recover_stages : ℕ → List ℕ → ℕ → Sequence ℕ
  unfolding cleanup_published_stage
  recover_stages retained [] count s = (s, ok count)
  recover_stages retained (g ∷ gs) count s = elim (is_published (s.generations g)) [
    | true ↦
        (cleanup_published_stage g retained >-> λ done. recover_stages retained gs (count + 1)) s
    | false ↦ recover_stages retained gs count s
  ]

  unfoldable pub recover_outbox : ℕ → ℕ → (sequences stages : List ℕ) → Sequence Recovered
  unfolding recover_claims recover_stages
  recover_outbox now retained sequences stages = recover_claims now sequences 0 >-> λ claims.
      recover_stages retained stages 0 >-> λ cleaned.
      λ s. (s, ok (record { recovered_claims = claims; cleaned_stages = cleaned }))
