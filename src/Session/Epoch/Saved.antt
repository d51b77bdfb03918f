-- ===== src/Session/Epoch/Saved.antt =====
-- A state that src/session/epoch-window.js saves is restored from the log as it was.
use pi_sliding_context_windo.Common.{
  ◌≤◌, ◌≡◌, refl, ap, ◌∙◌, true, false, Option, none, some, List, [], ◌∷◌, ◌++◌, arith, ltb, leb,
  length, All,
}
use pi_sliding_context_windo.Session.Epoch.{
  toc_max_entries, Checkpoint, Epoch, Entry, rotation, last, max_key_length, completed_data,
  checkpoint_of, initial, rotation_state, toc_of, apply_entry, apply_entries, restore,
}
use pi_sliding_context_windo.Session.Epoch.Fields.{last-all, filter_map-same}
use pi_sliding_context_windo.Session.Epoch.Restored.{
  IsCheckpoint, IsEpoch, hint_keys-saved, apply_entries-idle, apply_entries-append,
}

-- What a restart leaves of a state: nothing is pending, and a state without a checkpoint keeps the one
-- that the log had before.
abbrev pub kept_checkpoint : Option Checkpoint → Option Checkpoint → Option Checkpoint
kept_checkpoint none before = before
kept_checkpoint (some c) before = some c

checkpoint_of-saved :
    (c before : Option Checkpoint)
    → IsCheckpoint c
    → checkpoint_of (completed_data c) before ≡ kept_checkpoint c before
unfolding checkpoint_of completed_data
checkpoint_of-saved none before h = refl
checkpoint_of-saved (some c) before h =
    let a : ltb 0 (length c.message_key) ≡ true = ground (arith, h.0) in
    let b : leb (length c.message_key) max_key_length ≡ true = ground (arith, h.1) in rw (a, b) refl

module _ {T : Type 0} (restored_toc_entry : T → Option T) where
  abbrev pub restarted : List (Entry T) → Epoch T → Epoch T
  restarted log e = record e {
    force_rotation = false;
    compaction_fallback_reason = none;
    completed_archive_checkpoint =
        kept_checkpoint e.completed_archive_checkpoint
          (restore restored_toc_entry log).completed_archive_checkpoint;
  }

  toc_of-saved :
      (toc before : List T)
      → All (λ t. restored_toc_entry t ≡ some t) toc
      → length toc ≤ toc_max_entries
      → toc_of restored_toc_entry (some toc) before ≡ toc
  unfolding toc_of
  toc_of-saved toc before h b =
      ap (last toc_max_entries) (filter_map-same restored_toc_entry toc h)
      ∙ last-all toc_max_entries toc b

  apply_entry-saved :
      (e before : Epoch T)
      → IsEpoch restored_toc_entry e
      → before.force_rotation ≡ false
      → before.compaction_fallback_reason ≡ none
      → apply_entry restored_toc_entry (rotation (rotation_state e)) before ≡ record e {
        force_rotation = false;
        compaction_fallback_reason = none;
        completed_archive_checkpoint =
            kept_checkpoint e.completed_archive_checkpoint before.completed_archive_checkpoint;
      }
  unfolding apply_entry rotation_state
  apply_entry-saved e before h f c =
      rw
        (
          f,
          c,
          h.reason,
          h.mode,
          h.retained,
          toc_of-saved e.toc before.toc h.toc_kept h.toc_bounded,
          checkpoint_of-saved e.completed_archive_checkpoint before.completed_archive_checkpoint
              h.checkpoint,
          hint_keys-saved e.reconstruct_only_keys h.hint_keys_valid,
        )
        refl

  -- A valid state that is saved at the end of a log is restored from it, but for what is pending and
  -- for a checkpoint that it does not have.
  pub restore-rotation_state :
      (log : List (Entry T)) (e : Epoch T)
      → IsEpoch restored_toc_entry e
      → restore restored_toc_entry (log ++ rotation (rotation_state e) ∷ []) ≡ restarted log e
  unfolding restore apply_entries
  restore-rotation_state log e h =
      let idle = apply_entries-idle restored_toc_entry log initial in
      apply_entries-append restored_toc_entry log (rotation (rotation_state e) ∷ []) initial
      ∙ apply_entry-saved e (restore restored_toc_entry log) h idle.0 idle.1
