-- ===== src/Session/Epoch/Steps.antt =====
-- The session of src/session/epoch-window.js as steps on its state and the log of its host, which
-- appends what `onRotation` is called with and what `resetAfterCompaction` returns. The hints and the
-- completed checkpoint, which have saves of their own, stay as they are.
use pi_sliding_context_windo.Common.{
  ◌≤◌, ◌<◌, ◌≡◌, refl, sym, ap, ◌∙◌, Bool, true, false, Option, none, some, List, [], ◌∷◌, ◌++◌,
  Text, arith, length, All,
}
use pi_sliding_context_windo.Session.Message.{Message}
use pi_sliding_context_windo.Session.Rotation.{
  Trigger, forced, by_tokens, by_turns, Mode, normal, emergency_retention, Options, Plan,
  below_threshold, native_compaction, rotate, plan_epoch_rotation, Rotation,
}
use pi_sliding_context_windo.Session.Rotation.Choice.{rotate-fits}
use pi_sliding_context_windo.Session.Epoch.{
  toc_max_entries, Checkpoint, Epoch, Entry, rotation, is_reason, is_mode, is_positive, tested,
  rotation_state, request_rotation, reset_after_compaction, apply_plan, apply_rotation, restore,
  trigger_name, mode_name,
}
use pi_sliding_context_windo.Session.Epoch.Fields.{tested-yes}
use pi_sliding_context_windo.Session.Epoch.Restored.{IsEpoch, restore-IsEpoch, restore-idle}
use pi_sliding_context_windo.Session.Epoch.Saved.{kept_checkpoint, restore-rotation_state}

pub record Stored (T : Type 0) : Type 0 where
  pub log : List (Entry T)
  pub epoch : Epoch T

module _ {T : Type 0} where
  abbrev pub save : List (Entry T) → Epoch T → Stored T
  save log e = record { log = log ++ rotation (rotation_state e) ∷ []; epoch = e }

  -- Only a rotation is saved.
  unfoldable pub plan_step : List Text → List T → Plan → Stored T → Stored T
  plan_step keys toc (rotate r) s = save s.log (apply_plan keys toc (rotate r) s.epoch)
  plan_step keys toc p s = record { log = s.log; epoch = apply_plan keys toc p s.epoch }

module _ {T : Type 0} (restored_toc_entry : T → Option T) (sha256 : Text → Text) where
  abbrev pub IsToc : List T → Type 0
  IsToc toc = All (λ t. restored_toc_entry t ≡ some t) toc × (length toc ≤ toc_max_entries)

  pub data Step (s : Stored T) : Stored T → Type 0 where
    -- The process starts again with the log.
    restarted : Step s (record { log = s.log; epoch = restore restored_toc_entry s.log })
    requested : Step s (record { log = s.log; epoch = request_rotation s.epoch })
    compacted : Step s (save s.log (reset_after_compaction s.epoch))
    processed :
        (ms : List Message) (o : Options) (keys : List Text) (toc : List T)
        → IsToc toc
        → Step s (plan_step keys toc (plan_epoch_rotation sha256 ms o) s)

  pub data Reach (s : Stored T) : Stored T → Type 0 where
    here : Reach s s
    next : {t u : Stored T} → Reach s t → Step t u → Reach s u

  abbrev pub idle : Epoch T → Epoch T
  idle e = record e { force_rotation = false; compaction_fallback_reason = none }

  -- The state is valid, and the log has all of it but what is pending.
  pub record IsStored (s : Stored T) : Type 0 where
    pub valid : IsEpoch restored_toc_entry s.epoch
    pub saved : restore restored_toc_entry s.log ≡ idle s.epoch

  kept_same : (c d : Option Checkpoint) → c ≡ d → kept_checkpoint c d ≡ d
  kept_same none d e = refl
  kept_same (some c) d e = e

  save-IsStored :
      (s : Stored T) (e : Epoch T)
      → IsStored s
      → IsEpoch restored_toc_entry e
      → e.completed_archive_checkpoint ≡ s.epoch.completed_archive_checkpoint
      → IsStored (save s.log e)
  save-IsStored s e h v c =
      let k : kept_checkpoint e.completed_archive_checkpoint
            (restore restored_toc_entry s.log).completed_archive_checkpoint
          ≡ e.completed_archive_checkpoint =
        kept_same e.completed_archive_checkpoint _
          (c ∙ sym (ap (λ x. x.completed_archive_checkpoint) h.saved))
        ∙ ap (λ x. x.completed_archive_checkpoint) h.saved
        ∙ sym c in
      record {
        valid = v;
        saved =
            restore-rotation_state restored_toc_entry s.log e v
            ∙ ap (λ x. record (idle e) { completed_archive_checkpoint = x }) k;
      }

  pending-IsEpoch :
      (e : Epoch T) (force : Bool) (reason : Option Text)
      → IsEpoch restored_toc_entry e
      → IsEpoch restored_toc_entry
          (record e { force_rotation = force; compaction_fallback_reason = reason })
  pending-IsEpoch e force reason h = record {
    reason = h.reason;
    mode = h.mode;
    retained = h.retained;
    toc_kept = h.toc_kept;
    toc_bounded = h.toc_bounded;
    checkpoint = h.checkpoint;
    hint_keys_valid = h.hint_keys_valid;
  }

  reset-IsEpoch :
      (e : Epoch T)
      → IsEpoch restored_toc_entry e
      → IsEpoch restored_toc_entry (reset_after_compaction e)
  unfolding reset_after_compaction tested
  reset-IsEpoch e h = record {
    reason = refl;
    mode = refl;
    retained = refl;
    toc_kept = tt;
    toc_bounded = omega arith;
    checkpoint = h.checkpoint;
    hint_keys_valid = h.hint_keys_valid;
  }

  reset-checkpoint :
      (e : Epoch T)
      → (reset_after_compaction e).completed_archive_checkpoint ≡ e.completed_archive_checkpoint
  unfolding reset_after_compaction
  reset-checkpoint e = refl

  trigger_name-is_reason : (t : Trigger) → is_reason (trigger_name t) ≡ true
  trigger_name-is_reason forced = refl
  trigger_name-is_reason by_tokens = refl
  trigger_name-is_reason by_turns = refl

  mode_name-is_mode : (m : Mode) → is_mode (mode_name m) ≡ true
  mode_name-is_mode normal = refl
  mode_name-is_mode emergency_retention = refl

  rotate-IsEpoch :
      (keys : List Text) (toc : List T) (r : Rotation) (e : Epoch T)
      → IsToc toc
      → 0 < r.candidate.retained_turns
      → IsEpoch restored_toc_entry e
      → IsEpoch restored_toc_entry (apply_plan keys toc (rotate r) e)
  unfolding apply_plan apply_rotation
  rotate-IsEpoch keys toc r e t p h = record {
    reason = tested-yes is_reason (trigger_name r.trigger) (trigger_name-is_reason r.trigger);
    mode = tested-yes is_mode (mode_name r.mode) (mode_name-is_mode r.mode);
    retained = tested-yes is_positive r.candidate.retained_turns (ground (arith, p));
    toc_kept = t.0;
    toc_bounded = t.1;
    checkpoint = h.checkpoint;
    hint_keys_valid = h.hint_keys_valid;
  }

  plan_step-IsStored :
      (keys : List Text) (toc : List T) (p : Plan) (s : Stored T)
      → IsToc toc
      → ((r : Rotation) → p ≡ rotate r → 0 < r.candidate.retained_turns)
      → IsStored s
      → IsStored (plan_step keys toc p s)
  unfolding plan_step apply_plan apply_rotation
  plan_step-IsStored keys toc below_threshold s t q h = record {
    valid = pending-IsEpoch s.epoch _ _ h.valid;
    saved = h.saved;
  }
  plan_step-IsStored keys toc (native_compaction forced reason) s t q h = record {
    valid = pending-IsEpoch s.epoch _ _ h.valid;
    saved = h.saved;
  }
  plan_step-IsStored keys toc (native_compaction by_tokens reason) s t q h = record {
    valid = pending-IsEpoch s.epoch _ _ h.valid;
    saved = h.saved;
  }
  plan_step-IsStored keys toc (native_compaction by_turns reason) s t q h = record {
    valid = pending-IsEpoch s.epoch _ _ h.valid;
    saved = h.saved;
  }
  plan_step-IsStored keys toc (rotate r) s t q h =
      save-IsStored s _ h (rotate-IsEpoch keys toc r s.epoch t (q r refl) h.valid) refl

  idle_same :
      (e : Epoch T) → e.force_rotation ≡ false → e.compaction_fallback_reason ≡ none → e ≡ idle e
  idle_same e f c =
      ap (λ x. record e { force_rotation = x }) f
      ∙ ap (λ x. record e { force_rotation = false; compaction_fallback_reason = x }) c

  module _
      (stable : (t u : T) → restored_toc_entry t ≡ some u → restored_toc_entry u ≡ some u) where
    restart-IsStored :
        (log : List (Entry T))
        → IsStored (record { log = log; epoch = restore restored_toc_entry log })
    restart-IsStored log =
        let (f, c) = restore-idle restored_toc_entry log in
        record {
          valid = restore-IsEpoch restored_toc_entry stable log;
          saved = idle_same (restore restored_toc_entry log) f c;
        }

    Step-IsStored : {s u : Stored T} → Step s u → IsStored s → IsStored u
    unfolding request_rotation
    Step-IsStored {s} restarted h = restart-IsStored s.log
    Step-IsStored {s} requested h = record {
      valid = pending-IsEpoch s.epoch _ _ h.valid;
      saved = h.saved;
    }
    Step-IsStored {s} compacted h =
        save-IsStored s (reset_after_compaction s.epoch) h (reset-IsEpoch s.epoch h.valid)
          (reset-checkpoint s.epoch)
    Step-IsStored {s} (processed ms o keys toc t) h =
        plan_step-IsStored keys toc (plan_epoch_rotation sha256 ms o) s t
          (λ r e. (rotate-fits sha256 ms o r e).2) h

    -- A session that starts from any log, and is then in any order restarted, asked for a rotation,
    -- reset after a compaction or given a history to plan over in which its boundary is found, is always
    -- in a valid state, and its log restores that state but for a pending rotation and the reason of a
    -- fallback. A restored entry of the table of contents is to be restored as itself, and archived turns
    -- are to leave a table of such entries within its bound.
    pub Reach-IsStored :
        (log : List (Entry T)) {u : Stored T}
        → Reach (record { log = log; epoch = restore restored_toc_entry log }) u
        → IsStored u
    Reach-IsStored log here = restart-IsStored log
    Reach-IsStored log (next r s) = Step-IsStored s (Reach-IsStored log r)
