-- ===== src/Tests/SessionRuns.antt =====
-- Runs of src/session/window.js on a short history.
use pi_sliding_context_windo.Common.{
  List, Text, units, Text, units, ℕ, ◌+◌, ◌≤◌, ◌<◌, ◌≡◌, refl, ◌↔◌, ◌⊎◌, true, none, some, [], ◌∷◌,
  ◌++◌, arith, map, concat, All, drop, count_if, get_elem?,
}
use pi_sliding_context_windo.Session.Message.{
  is_user, estimated_message_characters, estimate_tokens, object_to_text,
}
use pi_sliding_context_windo.Session.Turns.{
  Turn, group_complete_turns, complete_user_turns, find_retained_start,
}
use pi_sliding_context_windo.Session.Turns.Layout.{layout, group_complete_turns-layout}
use pi_sliding_context_windo.Session.Turns.Retained.{
  StartsWithUser, IsTurn, group_complete_turns-partition, find_retained_start_lem,
}
use pi_sliding_context_windo.Session.Rotation.{
  forced, Options, Candidate, Rotation, normal, emergency_retention, native_compaction,
  oversized_latest_turn, rotate, retain_limit, marker_reserve, token_target, plan_epoch_rotation,
}
use pi_sliding_context_windo.Session.Rotation.Choice.{cost, rotate-fits, rotate-largest}
use pi_sliding_context_windo.Session.Rotation.Fallback.{oversized_latest_turn-TooLarge}
use pi_sliding_context_windo.Session.Contents.{Entry, build_toc_marker_text}
use pi_sliding_context_windo.Session.Contents.Newest.{Keeps, build_toc_marker_text-Keeps}
use pi_sliding_context_windo.Tests.{digest, question, answer, log, history}

-- A forced rotation that keeps at most `n` turns within `tokens`.
abbrev pub options : ℕ → ℕ → Options
options n tokens = record {
  force = true;
  tokens = none;
  turns = none;
  rotation_tokens = some tokens;
  rotation_turns = none;
  retain_turns = some n;
  marker_token_reserve = some 5;
  observed_context_tokens = none;
  hard_limit_tokens = none;
}

abbrev rotation : Rotation
rotation = record {
  trigger = forced;
  mode = normal;
  candidate = record { start = 4; retained_turns = 1; estimated_tokens = 11 };
  configured_retain_turns = 1;
  marker_token_reserve = 5;
}

planned : plan_epoch_rotation digest history (options 1 40) ≡ rotate rotation
unfolding plan_epoch_rotation estimate_tokens estimated_message_characters object_to_text
planned = refl

group_complete_turns-layout_example : group_complete_turns history ≡ layout history
group_complete_turns-layout_example = group_complete_turns-layout history

group_complete_turns-partition_example :
    (concat (map (λ t. t.messages) (group_complete_turns history)) ≡ history)
    × All (IsTurn history) (group_complete_turns history)
group_complete_turns-partition_example = group_complete_turns-partition history

find_retained_start_lem_example :
    ((count_if is_user history ≤ 1) × (find_retained_start history 1 ≡ some 0))
    ⊎ ((1 < count_if is_user history)
        × ((s : ℕ) × (find_retained_start history 1 ≡ some s)
            × StartsWithUser (drop s history)
            × (count_if is_user (drop s history) ≡ 1)))
find_retained_start_lem_example = find_retained_start_lem history 1 (omega arith)

rotate-fits_example :
    StartsWithUser (drop 4 history)
    × (count_if is_user (drop 4 history) ≡ 1)
    × (0 < 1)
    × (1 < count_if is_user history)
    × (1 ≤ retain_limit (options 1 40))
    × (11 ≡ estimate_tokens digest (drop 4 history) + marker_reserve (options 1 40))
    × (11 ≤ token_target (options 1 40))
    × ((normal ≡ normal) ↔ (1 ≡ retain_limit (options 1 40)))
rotate-fits_example = rotate-fits digest history (options 1 40) rotation planned

-- Three turns are allowed, one fits.
abbrev emergency : Rotation
emergency = record {
  trigger = forced;
  mode = emergency_retention;
  candidate = record { start = 10; retained_turns = 1; estimated_tokens = 11 };
  configured_retain_turns = 3;
  marker_token_reserve = 5;
}

planned_emergency :
    plan_epoch_rotation digest (history ++ history) (options 3 15) ≡ rotate emergency
unfolding plan_epoch_rotation estimate_tokens estimated_message_characters object_to_text
planned_emergency = refl

abbrev third_turn : Turn
third_turn = record {
  start = 7;
  end = 10;
  messages = question ∷ log ∷ answer ∷ [];
  has_user = true;
}

third : get_elem? (complete_user_turns (history ++ history)) 2 ≡ some third_turn
unfolding complete_user_turns
third = refl

rotate-largest_example :
    token_target (options 3 15) < cost digest (history ++ history) (options 3 15) third_turn
rotate-largest_example =
    rotate-largest digest (history ++ history) (options 3 15) emergency planned_emergency 2
      third_turn third (omega arith) (omega arith) (omega arith)

-- Not even the latest turn fits eight tokens.
abbrev latest : Candidate
latest = record { start = 4; retained_turns = 1; estimated_tokens = 11 }

planned_compaction :
    plan_epoch_rotation digest history (options 1 8)
    ≡ native_compaction forced (oversized_latest_turn (some latest))
unfolding plan_epoch_rotation estimate_tokens estimated_message_characters object_to_text
planned_compaction = refl

abbrev second_turn : Turn
second_turn = record { start = 4; end = 6; messages = question ∷ answer ∷ []; has_user = true }

second : get_elem? (complete_user_turns history) 1 ≡ some second_turn
unfolding complete_user_turns
second = refl

oversized_latest_turn-TooLarge_example :
    token_target (options 1 8) < cost digest history (options 1 8) second_turn
oversized_latest_turn-TooLarge_example =
    oversized_latest_turn-TooLarge digest history (options 1 8) forced (some latest)
      planned_compaction 1 second_turn second (omega arith) (omega arith)

abbrev entries : List Entry
entries =
    record { id = units "a1"; topic = units "first"; terms = [] }
    ∷ record { id = units "a2"; topic = []; terms = units "x" ∷ units "y" ∷ [] }
    ∷ []

build_toc_marker_text-Keeps_example :
    (text : Text) × (build_toc_marker_text entries 70 ≡ some text) × Keeps entries 70 text
build_toc_marker_text-Keeps_example = build_toc_marker_text-Keeps entries 70 (omega arith)
