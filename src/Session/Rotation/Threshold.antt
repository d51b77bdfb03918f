-- ===== src/Session/Rotation/Threshold.antt =====
-- When a plan of src/session/window.js leaves the epoch alone.
use pi_sliding_context_windo.Common.{
  suc, ◌≡◌, ◌↔◌, inl, inr, false, Option, none, some, List, [], ◌∷◌, Text, arith, length,
  Option-cases, ◌≢◌,
}
use pi_sliding_context_windo.Session.Message.{Message}
use pi_sliding_context_windo.Session.Turns.{Turn, complete_user_turns}
use pi_sliding_context_windo.Session.Rotation.{
  Trigger, Load, rotation_trigger, should_rotate_window, Options, Candidate, below_threshold, load,
  candidate_at, choose, plan_turns, plan_epoch_rotation,
}

rotation_trigger-none : (l : Load) → (rotation_trigger l ≡ none) ↔ (should_rotate_window l ≡ false)
unfolding rotation_trigger should_rotate_window
rotation_trigger-none l = ground arith

module _ (sha256 : Text → Text) (ms : List Message) (o : Options) where
  choose-acts :
      (trigger : Trigger) (ts : List Turn) (newest : Option Candidate)
      → choose sha256 ms o trigger ts newest ≢ below_threshold
  unfolding choose
  choose-acts trigger [] newest = λ e. cc
  choose-acts trigger (t ∷ ts) newest = ground (
    arith,
    choose-acts trigger ts newest,
    choose-acts trigger ts (some (candidate_at sha256 ms o t (suc (length ts)))),
  )

  plan_turns-acts :
      (trigger : Trigger) (ts : List Turn) → plan_turns sha256 ms o trigger ts ≢ below_threshold
  unfolding plan_turns
  plan_turns-acts trigger [] = λ e. cc
  plan_turns-acts trigger (t ∷ []) = λ e. cc
  plan_turns-acts trigger (t ∷ u ∷ ts) = choose-acts trigger (u ∷ ts) none

  -- The planner leaves the epoch alone exactly when the window need not rotate, by the test that
  -- the session applies on its own to the same load.
  pub below_threshold_iff :
      (plan_epoch_rotation sha256 ms o ≡ below_threshold)
      ↔ (should_rotate_window (load sha256 ms o) ≡ false)
  unfolding plan_epoch_rotation
  below_threshold_iff = elim (Option-cases (rotation_trigger (load sha256 ms o))) [
    | inl quiet ↦ (
      λ _. (rotation_trigger-none (load sha256 ms o)).0 quiet,
      λ _. rw (quiet, plan_epoch_rotation),
    )
    | inr (trigger, fired) ↦ (
      λ e. absurd (ground (arith, plan_turns-acts trigger (complete_user_turns ms))),
      λ q. absurd (cc (fired, (rotation_trigger-none (load sha256 ms o)).1 q)),
    )
  ]
