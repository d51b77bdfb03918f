-- ===== src/Rocksdb/Outbox/Apply.antt =====
-- `applyGenerationTablets` of src/rocksdb/outbox.js: the tablets of a staged plan are applied one
-- transaction each, and the plan is marked ready when its last tablet is.
use pi_sliding_context_windo.Common.{
  ℕ, zero, suc, ◌+◌, Bool, false, not, ◌&&◌, Option, none, some, List, [], ◌∷◌, ◌++◌, Text, text_eq,
  if◌then◌else◌, ◌==◌, keep_if,
}
use pi_sliding_context_windo.Common.Results.{Result, ok, ◌>>=◌, ◌>>◌, throw_if}
use pi_sliding_context_windo.Rocksdb.Outbox.{
  Fault, integrity, prepare, Tablet, Tablets, Mode, atomic, tablets, Plan, Applied, Ready, Store,
  Claim, Transaction, Sequence, ◌>->◌, commit, write, read,
}
use pi_sliding_context_windo.Rocksdb.Outbox.Claims.{assert_claim_owner}
use pi_sliding_context_windo.Rocksdb.Outbox.Stages.{
  Host, put_immutable, in_phase, read_staged_generation, read_stage_tablet, apply_mutations,
}
use pi_sliding_context_windo.Rocksdb.Outbox.Publish.{require_plan}

abbrev pub applied_marker : Tablet → Plan → Applied
applied_marker t plan = record {
  tablet_digest = t.digest;
  stage_digest = plan.digest;
  mutation_count = t.prepare_count;
}

pub data AppliedOutcome : Type 0 where
  was_applied was_skipped : AppliedOutcome

abbrev count_applied : AppliedOutcome → ℕ → ℕ
count_applied was_applied n = n + 1
count_applied was_skipped n = n

abbrev count_skipped : AppliedOutcome → ℕ → ℕ
count_skipped was_applied n = n
count_skipped was_skipped n = n + 1

pub record Progress : Type 0 where
  pub digests : List Text
  pub applied_tablets : ℕ
  pub skipped_tablets : ℕ

abbrev advance : Progress → Tablet → AppliedOutcome → Progress
advance p t outcome = record {
  digests = p.digests ++ t.digest ∷ [];
  applied_tablets = count_applied outcome p.applied_tablets;
  skipped_tablets = count_skipped outcome p.skipped_tablets;
}

abbrev is_ready : Option Ready → Text → Bool
is_ready none digest = false
is_ready (some r) digest = text_eq r.stage_digest digest

pub data Applying : Type 0 where
  atomic_plan : Applying
  all_ready : (applied_tablets skipped_tablets : ℕ) → Applying

abbrev no_progress : Progress
no_progress = record { digests = []; applied_tablets = 0; skipped_tablets = 0 }

module _ (h : Host) where
  abbrev pub apply_unmarked : Claim → Plan → ℕ → Tablet → Transaction AppliedOutcome
  apply_unmarked claim plan ordinal t s =
      apply_mutations h (keep_if (in_phase prepare) t.mutations) s.derived >>= λ derived.
      put_immutable h.encode_applied (s.applied claim.generation) ordinal (applied_marker t plan)
      >>= λ row. ok (
        record s {
          derived = derived;
          applied = λ g o. if claim.generation == g then row o else s.applied g o;
        },
        was_applied,
      )

  -- One tablet: its marker makes a second application a no-op.
  unfoldable pub apply_tablet : Claim → Plan → ℕ → Tablet → Transaction AppliedOutcome
  unfolding apply_mutations
  apply_tablet claim plan ordinal t s =
      assert_claim_owner (s.states claim.sequence) claim >>= λ owned.
      elim (s.applied claim.generation ordinal) [
        | none ↦ apply_unmarked claim plan ordinal t s
        | some marker ↦
            throw_if
              (not
                (text_eq marker.tablet_digest t.digest && text_eq marker.stage_digest plan.digest))
              integrity
            >> ok (s, was_skipped)
      ]

  unfoldable pub mark_ready : Claim → Plan → Tablets → Store → Result Fault Store
  mark_ready claim plan t s = assert_claim_owner (s.states claim.sequence) claim >>= λ owned.
      put_immutable h.encode_ready s.ready claim.generation (record {
        stage_digest = plan.digest;
        tablet_count = t.tablet_count;
        tablets_digest = t.tablets_digest;
        cleanup_ordinal = 0;
      })
      >>= λ ready. ok (record s { ready = ready })

  -- The loop over the ordinals below the count of tablets: `rounds` are left.
  unfoldable pub apply_tablets :
      Claim → Plan → Tablets → (rounds ordinal : ℕ) → Progress → Sequence Progress
  unfolding read_stage_tablet apply_tablet
  apply_tablets claim plan ts zero ordinal p s = (s, ok p)
  apply_tablets claim plan ts (suc rounds) ordinal p s =
      (read (λ r. read_stage_tablet h r claim ts ordinal) >-> λ t.
      commit (apply_tablet claim plan ordinal t) >-> λ outcome.
      apply_tablets claim plan ts rounds (ordinal + 1) (advance p t outcome))
        s

  unfoldable pub apply_mode : Claim → Plan → Mode → Sequence Applying
  unfolding apply_tablets mark_ready
  apply_mode claim plan (atomic mutations) s = (s, ok atomic_plan)
  apply_mode claim plan (tablets ts) s =
      if is_ready (s.ready claim.generation) plan.digest
      then (s, ok (all_ready 0 ts.tablet_count))
      else (apply_tablets claim plan ts ts.tablet_count 0 no_progress >-> λ p.
            read (λ r.
              throw_if (not (text_eq (h.digest_of_digests p.digests) ts.tablets_digest)) integrity)
            >-> λ same. write (mark_ready claim plan ts) >-> λ done.
                λ t. (t, ok (all_ready p.applied_tablets p.skipped_tablets)))
          s

  unfoldable pub apply_generation_tablets : Claim → Sequence Applying
  unfolding read_staged_generation apply_mode
  apply_generation_tablets claim =
      read (λ s. read_staged_generation h s claim >>= require_plan) >-> λ plan.
      apply_mode claim plan plan.mode
