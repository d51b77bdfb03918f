-- ===== src/Tests/EpochRuns.antt =====
-- Runs of the state machine of src/session/epoch-window.js.
use pi_sliding_context_windo.Common.{
  ℕ, ◌≡◌, refl, true, none, some, List, [], ◌∷◌, ◌++◌, Text, units, arith,
}
use pi_sliding_context_windo.Session.Rotation.{plan_epoch_rotation}
use pi_sliding_context_windo.Session.Epoch.{
  Epoch, rotation, restore, request_rotation, rotation_state, tested, set_of,
}
use pi_sliding_context_windo.Session.Epoch.Restored.{IsEpoch}
use pi_sliding_context_windo.Session.Epoch.Saved.{restarted, restore-rotation_state}
use pi_sliding_context_windo.Session.Epoch.Steps.{
  Stored, plan_step, IsStored, here, next, requested, processed, Reach-IsStored,
}
use pi_sliding_context_windo.Tests.{digest, history}
use pi_sliding_context_windo.Tests.SessionRuns.{options}

-- Numbers stand for the entries of the table of contents.
stable : (t u : ℕ) → some t ≡ some u → some u ≡ some u
stable t u e = refl

abbrev asked : Stored ℕ
asked = record { log = []; epoch = request_rotation (restore some []) }

abbrev keys : List Text
keys = units "a" ∷ units "b" ∷ units "c" ∷ units "d" ∷ units "e" ∷ units "f" ∷ []

Reach-IsStored_example :
    IsStored some digest
      (plan_step keys (7 ∷ []) (plan_epoch_rotation digest history (options 1 40)) asked)
Reach-IsStored_example = Reach-IsStored some digest stable [] (
    next (next here requested)
      (processed history (options 1 40) keys (7 ∷ []) ((refl, tt), omega arith)))

abbrev rotated : Epoch ℕ
rotated = record {
  boundary_key = some (units "e");
  rebalance_through_key = some (units "f");
  rotations = 2;
  force_rotation = true;
  last_rotation_reason = some (units "tokens");
  last_rotation_mode = some (units "normal");
  effective_retain_turns = some 1;
  compaction_fallback_reason = none;
  toc = 7 ∷ [];
  completed_archive_checkpoint = some (record { message_key = units "f"; timestamp = some 9 });
  reconstruct_only_keys = units "user:1" ∷ [];
}

rotated-IsEpoch : IsEpoch some rotated
unfolding tested set_of
rotated-IsEpoch = record {
  reason = refl;
  mode = refl;
  retained = refl;
  toc_kept = (refl, tt);
  toc_bounded = omega arith;
  checkpoint = (omega arith, omega arith);
  hint_keys_valid = record { valid = (refl, tt); bounded = omega arith; distinct = refl };
}

restore-rotation_state_example :
    restore some ([] ++ rotation (rotation_state rotated) ∷ []) ≡ restarted some [] rotated
restore-rotation_state_example = restore-rotation_state some [] rotated rotated-IsEpoch
