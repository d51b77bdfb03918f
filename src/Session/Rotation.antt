-- ===== src/Session/Rotation.antt =====
-- src/session/window.js: when an epoch rotates and which suffix of complete turns it keeps.
-- Token and turn counts are natural numbers; `none` is a value that is undefined or not finite,
-- with which every comparison of the code is false.
pub mod Choice
pub mod Fallback
pub mod Threshold
use pi_sliding_context_windo.Common.{
  ℕ, suc, ◌+◌, ◌-◌, max, Bool, true, false, Option, none, some, List, [], ◌∷◌, Text, if◌then◌else◌,
  ltb, leb, ◌==◌, ◌||◌, ◌&&◌, length, drop,
}
use pi_sliding_context_windo.Session.Message.{Message, estimate_tokens}
use pi_sliding_context_windo.Session.Turns.{Turn, complete_user_turns}

-- `a >= b` with an operand that may be undefined.
abbrev pub reaches : ℕ → Option ℕ → Bool
reaches a none = false
reaches a (some b) = leb b a

pub data Trigger : Type 0 where
  forced by_tokens by_turns : Trigger

-- The measured size of the epoch and the limits of the policy.
pub record Load : Type 0 where
  pub force : Bool
  pub tokens : ℕ
  pub turns : ℕ
  pub rotation_tokens : Option ℕ
  pub rotation_turns : Option ℕ

unfoldable pub rotation_trigger : Load → Option Trigger
rotation_trigger l =
    if l.force
    then some forced
    else if reaches l.tokens l.rotation_tokens
    then some by_tokens
    else if reaches l.turns l.rotation_turns
    then some by_turns
    else none

unfoldable pub should_rotate_window : Load → Bool
should_rotate_window l =
    l.force || reaches l.tokens l.rotation_tokens || reaches l.turns l.rotation_turns

-- The named arguments of `planEpochRotation`; `none` takes the default.
pub record Options : Type 0 where
  pub force : Bool
  pub tokens : Option ℕ
  pub turns : Option ℕ
  pub rotation_tokens : Option ℕ
  pub rotation_turns : Option ℕ
  pub retain_turns : Option ℕ
  pub marker_token_reserve : Option ℕ
  pub observed_context_tokens : Option ℕ
  pub hard_limit_tokens : Option ℕ

pub record Candidate : Type 0 where
  pub start : ℕ
  pub retained_turns : ℕ
  pub estimated_tokens : ℕ

pub data Mode : Type 0 where
  normal emergency_retention : Mode

pub record Rotation : Type 0 where
  pub trigger : Trigger
  pub mode : Mode
  pub candidate : Candidate
  pub configured_retain_turns : ℕ
  pub marker_token_reserve : ℕ

pub data Reason : Type 0 where
  provider_hard_limit : ℕ → Reason
  no_user_boundary : Reason
  oversized_latest_turn : Option Candidate → Reason

pub data Plan : Type 0 where
  below_threshold : Plan
  native_compaction : Trigger → Reason → Plan
  rotate : Rotation → Plan

-- `TOC_TOKEN_BUDGET`
abbrev pub toc_token_budget : ℕ
toc_token_budget = 1000

abbrev pub default_to : Option ℕ → ℕ → ℕ
default_to none d = d
default_to (some n) d = n

abbrev pub retain_limit : Options → ℕ
retain_limit o = max 1 (default_to o.retain_turns 1)

abbrev pub marker_reserve : Options → ℕ
marker_reserve o = default_to o.marker_token_reserve toc_token_budget

abbrev pub token_target : Options → ℕ
token_target o = max 1 (default_to o.rotation_tokens 1)

-- Both limits are known and the provider already reports as many tokens as the hard limit.
abbrev pub over_hard_limit : Option ℕ → Option ℕ → Option ℕ
over_hard_limit (some observed) (some limit) = if leb limit observed then some observed else none
over_hard_limit _ _ = none

module _ (sha256 : Text → Text) where
  unfoldable pub load : List Message → Options → Load
  unfolding complete_user_turns
  load ms o = record {
    force = o.force;
    tokens = default_to o.tokens (estimate_tokens sha256 ms);
    turns = default_to o.turns (length (complete_user_turns ms));
    rotation_tokens = o.rotation_tokens;
    rotation_turns = o.rotation_turns;
  }

  abbrev pub candidate_at : List Message → Options → Turn → ℕ → Candidate
  candidate_at ms o t retained = record {
    start = t.start;
    retained_turns = retained;
    estimated_tokens = estimate_tokens sha256 (drop t.start ms) + marker_reserve o;
  }

  -- The loop over the turns from the second on, oldest first. `retained` is the number of turns
  -- from the head of the list on; `newest` is the last candidate within the retention limit.
  unfoldable pub choose : List Message → Options → Trigger → List Turn → Option Candidate → Plan
  choose ms o trigger [] newest = native_compaction trigger (oversized_latest_turn newest)
  choose ms o trigger (t ∷ ts) newest =
      let retained = suc (length ts) in
      let c = candidate_at ms o t retained in
      let skip = choose ms o trigger ts newest in
      let too_large = choose ms o trigger ts (some c) in
      if ltb (retain_limit o) retained
      then skip
      else if ltb (token_target o) c.estimated_tokens
      then too_large
      else rotate (record {
        trigger = trigger;
        mode = if retained == retain_limit o then normal else emergency_retention;
        candidate = c;
        configured_retain_turns = retain_limit o;
        marker_token_reserve = marker_reserve o;
      })

  -- Fewer than two user turns leave no boundary to rotate at.
  unfoldable pub plan_turns : List Message → Options → Trigger → List Turn → Plan
  unfolding choose
  plan_turns ms o trigger [] = native_compaction trigger no_user_boundary
  plan_turns ms o trigger (t ∷ []) = native_compaction trigger no_user_boundary
  plan_turns ms o trigger (t ∷ u ∷ ts) = choose ms o trigger (u ∷ ts) none

  unfoldable pub plan_epoch_rotation : List Message → Options → Plan
  unfolding rotation_trigger load complete_user_turns plan_turns
  plan_epoch_rotation ms o = elim (rotation_trigger (load ms o)) [
    | none ↦ below_threshold
    | some trigger ↦ elim (over_hard_limit o.observed_context_tokens o.hard_limit_tokens) [
      | some observed ↦ native_compaction trigger (provider_hard_limit observed)
      | none ↦ plan_turns ms o trigger (complete_user_turns ms)
    ]
  ]
