-- ===== src/Session/Rotation/Fallback.antt =====
-- When a plan of src/session/window.js falls back to native compaction.
use pi_sliding_context_windo.Common.{
  ℕ, suc, ◌-◌, ◌≤◌, ◌<◌, ◌≡◌, refl, ap, inl, inr, Option, none, some, List, [], ◌∷◌, Text, arith,
  ltb, ltb→lt, length, get_elem?, get_elem?-lt, count_if, Bool-cases, Option-cases,
}
use pi_sliding_context_windo.Session.Message.{Message, is_user}
use pi_sliding_context_windo.Session.Turns.{Turn, complete_user_turns}
use pi_sliding_context_windo.Session.Rotation.{
  Trigger, rotation_trigger, Options, Candidate, oversized_latest_turn, native_compaction,
  retain_limit, token_target, over_hard_limit, load, candidate_at, choose, plan_turns,
  plan_epoch_rotation,
}
use pi_sliding_context_windo.Session.Rotation.Choice.{cost, TooLarge, TooLarge-cons, TooLarge-tail}

module _ (sha256 : Text → Text) (ms : List Message) (o : Options) where
  choose-TooLarge :
      (trigger trigger' : Trigger) (ts : List Turn) (newest last : Option Candidate)
      → choose sha256 ms o trigger ts newest
        ≡ native_compaction trigger' (oversized_latest_turn last)
      → TooLarge sha256 ms o ts (length ts)
  unfolding choose
  choose-TooLarge trigger trigger' [] newest last e = λ j t g l w. absurd (omega arith)
  choose-TooLarge trigger trigger' (t ∷ ts) newest last e =
      elim (Bool-cases (ltb (retain_limit o) (suc (length ts)))) [
        | inl over ↦
            TooLarge-cons sha256 ms o t ts (length ts)
              (λ l. absurd (omega (arith, ltb→lt _ _ over)))
              (choose-TooLarge trigger trigger' ts newest last (ground arith))
        | inr within ↦ elim (Bool-cases (ltb (token_target o) (cost sha256 ms o t))) [
          | inl large ↦
              TooLarge-cons sha256 ms o t ts (length ts) (λ _. ltb→lt _ _ large)
                (choose-TooLarge trigger trigger' ts
                  (some (candidate_at sha256 ms o t (suc (length ts)))) last (ground arith))
          | inr small ↦ absurd (ground arith)
        ]
      ]

  plan_turns-TooLarge :
      (trigger trigger' : Trigger) (ts : List Turn) (last : Option Candidate)
      → plan_turns sha256 ms o trigger ts ≡ native_compaction trigger' (oversized_latest_turn last)
      → (t : Turn) × (us : List Turn) × (ts ≡ t ∷ us) × TooLarge sha256 ms o us (length us)
  unfolding plan_turns
  plan_turns-TooLarge trigger trigger' [] last e = cc
  plan_turns-TooLarge trigger trigger' (t ∷ []) last e = cc
  plan_turns-TooLarge trigger trigger' (t ∷ u ∷ ts) last e =
      (t, u ∷ ts, refl, choose-TooLarge trigger trigger' (u ∷ ts) none last e)

  -- The planner falls back to native compaction for the size of the latest turn only if no suffix
  -- within the retention limit, from a complete turn but the first on, fits the target.
  pub oversized_latest_turn-TooLarge :
      (trigger : Trigger) (last : Option Candidate)
      → plan_epoch_rotation sha256 ms o ≡ native_compaction trigger (oversized_latest_turn last)
      → (j : ℕ) (t : Turn) → get_elem? (complete_user_turns ms) j ≡ some t
      → 0 < j
      → count_if is_user ms - j ≤ retain_limit o
      → token_target o < cost sha256 ms o t
  unfolding plan_epoch_rotation
  oversized_latest_turn-TooLarge trigger last e j t g pos within =
      elim (Option-cases (rotation_trigger (load sha256 ms o))) [
        | inl below ↦ absurd (ground arith)
        | inr (fired, f) ↦
            elim (Option-cases (over_hard_limit o.observed_context_tokens o.hard_limit_tokens)) [
              | inl free ↦
                  let (u, us, s, h) =
                    plan_turns-TooLarge fired trigger (complete_user_turns ms) last
                      (ground arith) in
                  TooLarge-tail sha256 ms o u us (length us) s h j t g pos within
                    (omega (arith, get_elem?-lt (complete_user_turns ms) j g, ap length s))
              | inr (observed, full) ↦ absurd (ground arith)
            ]
      ]
