-- ===== src/Rocksdb/Outbox/Worker.antt =====
-- `processNext` and `drain` of src/rocksdb/indexer.js: a worker claims, prepares, stages, applies,
-- publishes and cleans up one entry, and releases its claim where any of that throws.
-- What the handlers make of a claim (`loadAndPrepare` and `createGenerationPlan`), the tokens and the
-- clock are arguments. The hooks at the boundaries and the abort signal are left out, and so is
-- `discardLegacyUnpublishedStage`: the stored stages are of the current format, and it changes none.
use pi_sliding_context_windo.Common.{
  ℕ, ◌-◌, true, false, Option, none, some, List, [], ◌∷◌, ◌++◌, Text, leb,
}
use pi_sliding_context_windo.Common.Results.{Result, ok, throw}
use pi_sliding_context_windo.Rocksdb.Outbox.{
  Fault, ErrorDetails, Tablet, Plan, Publication, Store, Claim, Sequence, ◌>->◌, commit, read,
}
use pi_sliding_context_windo.Rocksdb.Outbox.Claims.{
  Outcome, idle, busy, claimed, claim_next_outbox, release_outbox_claim,
}
use pi_sliding_context_windo.Rocksdb.Outbox.Stages.{
  Host, Staged, read_staged_generation, stage_generation,
}
use pi_sliding_context_windo.Rocksdb.Outbox.Apply.{apply_generation_tablets}
use pi_sliding_context_windo.Rocksdb.Outbox.Publish.{publish_generation}
use pi_sliding_context_windo.Rocksdb.Outbox.Cleanup.{cleanup_published_stage}

-- The publications that are kept, `DEFAULT_PUBLICATION_HISTORY`.
abbrev pub retain_publications : ℕ
retain_publications = 1024

-- What a round of the worker is given: its token, and the time at its three readings of the clock.
pub record Round : Type 0 where
  pub token : Text
  pub claim_at : ℕ
  pub publish_at : ℕ
  pub release_at : ℕ

pub data Processed : Type 0 where
  waiting : Outcome → Processed
  done : Claim → Publication → Processed

pub data Terminal : Type 0 where
  limit deadline : Terminal
  stopped : Outcome → Terminal
  failed : Fault → Terminal

pub record Drained : Type 0 where
  pub terminal : Terminal
  pub publications : List Publication

-- What the loop does with the result of a round.
abbrev pub next_round :
    List Publication
    → (Publication → Store → Store × Drained)
    → Store × Result Fault Processed
    → Store × Drained
next_round publications continue (s, throw fault) =
    (s, record { terminal = failed fault; publications = publications })
next_round publications continue (s, ok (waiting outcome)) =
    (s, record { terminal = stopped outcome; publications = publications })
next_round publications continue (s, ok (done claim publication)) = continue publication s

module _ (h : Host) (worker_id : Text) (lease_ms : ℕ)
    (prepare : Store → Claim → Result Fault (Plan × List Tablet))
    (error_details : Fault → Option ErrorDetails) where
  abbrev pub stage_missing : Claim → Option Plan → Sequence Staged
  stage_missing claim (some plan) s = (s, ok Staged.unchanged)
  stage_missing claim none s =
      (read (λ r. prepare r claim) >-> λ (plan, records). stage_generation h claim plan records) s

  abbrev pub finish : Claim → Publication → Sequence Processed
  finish claim publication s = (s, ok (done claim publication))

  abbrev pub then_clean : Claim → Publication → Sequence Processed
  then_clean claim publication =
      cleanup_published_stage h claim.generation retain_publications >-> λ cleaned.
      finish claim publication

  abbrev pub then_publish : Round → Claim → Sequence Processed
  then_publish round claim =
      commit (publish_generation h claim round.publish_at) >-> then_clean claim

  abbrev pub then_apply : Round → Claim → Sequence Processed
  then_apply round claim = apply_generation_tablets h claim >-> λ applied. then_publish round claim

  abbrev pub then_stage : Round → Claim → Option Plan → Sequence Processed
  then_stage round claim found = stage_missing claim found >-> λ staged. then_apply round claim

  unfoldable pub process_claim : Round → Claim → Sequence Processed
  process_claim round claim =
      read (λ s. read_staged_generation h s claim) >-> then_stage round claim

  -- The `catch`: the claim is released, and the error is thrown on, or the one of the release.
  abbrev pub released_after :
      Round → Claim → Store × Result Fault Processed → Store × Result Fault Processed
  released_after round claim (s, ok v) = (s, ok v)
  released_after round claim (s, throw fault) =
      (commit (release_outbox_claim claim (error_details fault) round.release_at) >-> λ released.
      λ t. (t, throw fault))
        s

  abbrev pub process_outcome : Round → Outcome → Sequence Processed
  process_outcome round (claimed claim st) s =
      released_after round claim (process_claim round claim s)
  process_outcome round (idle sequence) s = (s, ok (waiting (idle sequence)))
  process_outcome round (busy sequence worker until) s =
      (s, ok (waiting (busy sequence worker until)))

  unfoldable pub process_next : Round → Sequence Processed
  process_next round =
      commit (claim_next_outbox round.token worker_id round.claim_at lease_ms) >-> λ outcome.
      process_outcome round outcome

  -- The loop of `drain`: the rounds are those that its limit leaves, each with the time at its head.
  unfoldable pub drain_rounds :
      ℕ → ℕ → List (ℕ × Round) → List Publication → Store → Store × Drained
  drain_rounds started_at max_duration_ms [] publications s =
      (s, record { terminal = limit; publications = publications })
  drain_rounds started_at max_duration_ms ((now, round) ∷ rounds) publications s =
      elim (leb max_duration_ms (now - started_at)) [
        | true ↦ (s, record { terminal = deadline; publications = publications })
        | false ↦
            next_round publications
              (λ publication.
                drain_rounds started_at max_duration_ms rounds (publications ++ publication ∷ []))
              (process_next round s)
      ]
