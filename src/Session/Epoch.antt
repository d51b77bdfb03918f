-- ===== src/Session/Epoch.antt =====
-- src/session/epoch-window.js: what the session of an epoch keeps across restarts, namely `restore`,
-- `rotationState`, `requestRotation`, `resetAfterCompaction` without its call of the measurement,
-- and the changes that `process` makes for a plan. The log that `restore` is given is an array, and
-- an entry of it is what `restore` can see of it: a field that is missing or has another type is
-- `none`. `restored_toc_entry` is that of src/session/epoch-checkpoint.js, which asks the archive.
-- The sets of archive ids and the host's own fields are left out.
pub mod Fields
pub mod Restored
pub mod Saved
pub mod Steps
use pi_sliding_context_windo.Common.{
  ℕ, zero, suc, ◌+◌, ◌-◌, Bool, true, false, not, Option, none, some, List, [], ◌∷◌, ◌++◌, ◌&&◌,
  ◌||◌, Text, units, if◌then◌else◌, ltb, leb, ◌==◌, text_eq, length, take, drop, map, get_elem?,
}
use pi_sliding_context_windo.Session.Rotation.{
  Trigger, forced, by_tokens, by_turns, Mode, normal, emergency_retention, Reason,
  provider_hard_limit, no_user_boundary, oversized_latest_turn, Plan, below_threshold,
  native_compaction, rotate, Rotation,
}

abbrev pub toc_max_entries : ℕ
toc_max_entries = 64

abbrev pub hint_state_version : ℕ
hint_state_version = 1

abbrev pub completed_archive_state_version : ℕ
completed_archive_state_version = 1

abbrev pub max_reconstruct_only_hint_keys : ℕ
max_reconstruct_only_hint_keys = 1000

abbrev pub max_key_length : ℕ
max_key_length = 2048

pub record Checkpoint : Type 0 where
  pub message_key : Text
  pub timestamp : Option ℕ

-- `T` is an entry of the table of contents.
pub record Epoch (T : Type 0) : Type 0 where
  pub boundary_key : Option Text
  pub rebalance_through_key : Option Text
  pub rotations : ℕ
  pub force_rotation : Bool
  pub last_rotation_reason : Option Text
  pub last_rotation_mode : Option Text
  pub effective_retain_turns : Option ℕ
  pub compaction_fallback_reason : Option Text
  pub toc : List T
  pub completed_archive_checkpoint : Option Checkpoint
  pub reconstruct_only_keys : List Text

pub record CompletedData : Type 0 where
  pub version : ℕ
  pub message_key : Text
  pub timestamp : Option ℕ

-- Keys that are not strings are `none`.
pub record HintData : Type 0 where
  pub version : ℕ
  pub reconstruct_only_message_keys : List (Option Text)

pub record RotationData (T : Type 0) : Type 0 where
  pub boundary_key : Option Text
  pub rebalance_through_key : Option Text
  pub rotations : Option ℕ
  pub reason : Option Text
  pub mode : Option Text
  pub effective_retain_turns : Option ℕ
  pub toc : Option (List T)
  pub completed_archive_state : Option CompletedData
  pub hint_state : Option HintData

-- An entry of another kind, or without data, is `foreign`.
pub data Entry (T : Type 0) : Type 0 where
  foreign : Entry T
  rotation : RotationData T → Entry T

abbrev pub is_reason : Text → Bool
is_reason r = text_eq r (units "forced") || text_eq r (units "tokens") || text_eq r (units "turns")

abbrev pub is_mode : Text → Bool
is_mode m = text_eq m (units "normal") || text_eq m (units "emergency-retention")

abbrev pub is_positive : ℕ → Bool
is_positive n = not (n == 0)

-- A value that passes a test, or undefined.
unfoldable pub tested : {A : Type 0} → (A → Bool) → Option A → Option A
tested p none = none
tested p (some a) = if p a then some a else none

-- `slice(-n)`
unfoldable pub last : {A : Type 0} → ℕ → List A → List A
last n xs = drop (length xs - n) xs

-- `map` and then `filter` of what is not undefined.
unfoldable pub filter_map : {A B : Type 0} → (A → Option B) → List A → List B
filter_map f [] = []
filter_map f (x ∷ xs) = let rest = filter_map f xs in elim (f x) [ none ↦ rest | some y ↦ y ∷ rest ]

abbrev pub has : List Text → Text → Bool
has [] key = false
has (k ∷ ks) key = text_eq k key || has ks key

-- `new Set(array)`, where `seen` is what the set has already.
unfoldable pub set_of : List Text → List Text → List Text
set_of seen [] = []
set_of seen (k ∷ ks) = elim (has seen k) [
  | true ↦ set_of seen ks
  | false ↦ k ∷ set_of (k ∷ seen) ks
]

abbrev pub starts_with_user : Text → Bool
starts_with_user key = text_eq (take 5 key) (units "user:")

abbrev pub is_hint_key : Text → Bool
is_hint_key key = starts_with_user key && leb (length key) max_key_length

unfoldable pub hint_keys : Option HintData → List Text
hint_keys none = []
hint_keys (some h) =
    if h.version == hint_state_version
    then set_of [] (
        last max_reconstruct_only_hint_keys
          (filter_map (tested is_hint_key) h.reconstruct_only_message_keys))
    else []

abbrev pub is_completed : CompletedData → Bool
is_completed c =
    c.version == completed_archive_state_version
    && ltb 0 (length c.message_key)
    && leb (length c.message_key) max_key_length

-- An entry without a valid checkpoint leaves the one before it.
unfoldable pub checkpoint_of : Option CompletedData → Option Checkpoint → Option Checkpoint
checkpoint_of none before = before
checkpoint_of (some c) before =
    if is_completed c
    then some (record { message_key = c.message_key; timestamp = c.timestamp })
    else before

abbrev pub or_before {ℓ} : {A : Type ℓ} → Option A → A → A
or_before none before = before
or_before (some a) before = a

abbrev pub trigger_name : Trigger → Text
trigger_name forced = units "forced"
trigger_name by_tokens = units "tokens"
trigger_name by_turns = units "turns"

abbrev pub mode_name : Mode → Text
mode_name normal = units "normal"
mode_name emergency_retention = units "emergency-retention"

abbrev pub reason_name : Reason → Text
reason_name (provider_hard_limit observed) = units "provider-hard-limit"
reason_name no_user_boundary = units "no-user-boundary"
reason_name (oversized_latest_turn newest) = units "oversized-latest-turn"

-- `array.at(-1)`
abbrev pub last_of {ℓ} : {A : Type ℓ} → List A → Option A
last_of [] = none
last_of (x ∷ []) = some x
last_of (x ∷ y ∷ ys) = last_of (y ∷ ys)

-- `{ version, ...checkpoint }`, if there is one.
unfoldable pub completed_data : Option Checkpoint → Option CompletedData
completed_data none = none
completed_data (some c) = some (record {
  version = completed_archive_state_version;
  message_key = c.message_key;
  timestamp = c.timestamp;
})

module _ {T : Type 0} where
  abbrev pub initial : Epoch T
  initial = record {
    boundary_key = none;
    rebalance_through_key = none;
    rotations = 0;
    force_rotation = false;
    last_rotation_reason = none;
    last_rotation_mode = none;
    effective_retain_turns = none;
    compaction_fallback_reason = none;
    toc = [];
    completed_archive_checkpoint = none;
    reconstruct_only_keys = [];
  }

  unfoldable pub rotation_state : Epoch T → RotationData T
  rotation_state e = record {
    boundary_key = e.boundary_key;
    rebalance_through_key = e.rebalance_through_key;
    rotations = some e.rotations;
    reason = e.last_rotation_reason;
    mode = e.last_rotation_mode;
    effective_retain_turns = e.effective_retain_turns;
    toc = some e.toc;
    completed_archive_state = completed_data e.completed_archive_checkpoint;
    hint_state = some (record {
      version = hint_state_version;
      reconstruct_only_message_keys =
          map some (last max_reconstruct_only_hint_keys e.reconstruct_only_keys);
    });
  }

  unfoldable pub request_rotation : Epoch T → Epoch T
  request_rotation e = record e { force_rotation = true }

  unfoldable pub reset_after_compaction : Epoch T → Epoch T
  reset_after_compaction e = record e {
    boundary_key = none;
    rebalance_through_key = none;
    force_rotation = false;
    last_rotation_reason = none;
    last_rotation_mode = none;
    effective_retain_turns = none;
    compaction_fallback_reason = none;
    toc = [];
  }

  -- A rotation, where `keys` are those of the messages it was planned over and `toc` is the table of
  -- contents that the archived turns leave.
  unfoldable pub apply_rotation : List Text → List T → Rotation → Epoch T → Epoch T
  apply_rotation keys toc r e = record e {
    boundary_key = get_elem? keys r.candidate.start;
    rebalance_through_key = last_of (drop r.candidate.start keys);
    rotations = suc e.rotations;
    last_rotation_reason = some (trigger_name r.trigger);
    last_rotation_mode = some (mode_name r.mode);
    effective_retain_turns = some r.candidate.retained_turns;
    compaction_fallback_reason = none;
    toc = toc;
  }

  -- What `process` does with a plan.
  unfoldable pub apply_plan : List Text → List T → Plan → Epoch T → Epoch T
  apply_plan keys toc below_threshold e = record e {
    compaction_fallback_reason = none;
    force_rotation = false;
  }
  apply_plan keys toc (native_compaction forced reason) e = record e {
    compaction_fallback_reason = none;
    force_rotation = false;
  }
  apply_plan keys toc (native_compaction _ reason) e = record e {
    compaction_fallback_reason = some (reason_name reason);
    force_rotation = false;
  }
  apply_plan keys toc (rotate r) e = record (apply_rotation keys toc r e) { force_rotation = false }

  module _ (restored_toc_entry : T → Option T) where
    unfoldable pub toc_of : Option (List T) → List T → List T
    toc_of none before = before
    toc_of (some values) before = last toc_max_entries (filter_map restored_toc_entry values)

    -- One turn of the loop of `restore`.
    unfoldable pub apply_entry : Entry T → Epoch T → Epoch T
    apply_entry foreign e = e
    apply_entry (rotation d) e = record e {
      boundary_key = d.boundary_key;
      rebalance_through_key = d.rebalance_through_key;
      rotations = or_before d.rotations e.rotations;
      last_rotation_reason = tested is_reason d.reason;
      last_rotation_mode = tested is_mode d.mode;
      effective_retain_turns = tested is_positive d.effective_retain_turns;
      toc = toc_of d.toc e.toc;
      completed_archive_checkpoint =
          checkpoint_of d.completed_archive_state e.completed_archive_checkpoint;
      reconstruct_only_keys = hint_keys d.hint_state;
    }

    unfoldable pub apply_entries : List (Entry T) → Epoch T → Epoch T
    apply_entries [] e = e
    apply_entries (x ∷ xs) e = apply_entries xs (apply_entry x e)

    unfoldable pub restore : List (Entry T) → Epoch T
    restore entries = apply_entries entries initial
