-- ===== src/Session/Turns.antt =====
-- src/session/window.js: `groupCompleteTurns`, `findRetainedStart` and `removeEmptyAssistantErrors`.
pub mod Layout
pub mod Retained
use pi_sliding_context_windo.Common.{
  ℕ, suc, ◌-◌, Bool, true, false, Option, none, some, List, [], ◌∷◌, Text, if◌then◌else◌, leb,
  length, take, drop, get_elem?, keep_if, ltb, not, ◌&&◌,
}
use pi_sliding_context_windo.Session.Message.{
  Message, is_user, is_assistant, is_space, content_to_text,
}

pub record Turn : Type 0 where
  pub start : ℕ
  pub end : ℕ
  pub messages : List Message
  pub has_user : Bool

-- `messages.slice(start, end)`
abbrev pub slice {ℓ} : {A : Type ℓ} → ℕ → ℕ → List A → List A
slice s e xs = take (e - s) (drop s xs)

-- The first loop: the indices of the user messages, from index `i` on.
unfoldable pub user_starts : ℕ → List Message → List ℕ
user_starts i [] = []
user_starts i (m ∷ ms) = let rest = user_starts (suc i) ms in if is_user m then i ∷ rest else rest

-- `starts[index + 1] ?? messages.length`
abbrev pub next_start : List ℕ → List Message → ℕ
next_start [] ms = length ms
next_start (s ∷ ss) ms = s

-- The second loop.
unfoldable pub user_turns : List Message → List ℕ → List Turn
user_turns ms [] = []
user_turns ms (s ∷ ss) =
    record {
      start = s;
      end = next_start ss ms;
      messages = slice s (next_start ss ms) ms;
      has_user = true;
    }
    ∷ user_turns ms ss

-- The turn without a user message.
abbrev pub opening : ℕ → List Message → Turn
opening e ms = record { start = 0; end = e; messages = ms; has_user = false }

unfoldable pub turns_from : List ℕ → List Message → List Turn
unfolding user_turns
turns_from [] [] = []
turns_from [] (m ∷ ms) = opening (length (m ∷ ms)) (m ∷ ms) ∷ []
turns_from (s ∷ ss) ms =
    if ltb 0 s then opening s (slice 0 s ms) ∷ user_turns ms (s ∷ ss) else user_turns ms (s ∷ ss)

unfoldable pub group_complete_turns : List Message → List Turn
unfolding user_starts turns_from
group_complete_turns ms = turns_from (user_starts 0 ms) ms

-- `groupCompleteTurns(messages).filter((turn) => turn.hasUser)`
unfoldable pub complete_user_turns : List Message → List Turn
unfolding group_complete_turns
complete_user_turns ms = keep_if (λ t. t.has_user) (group_complete_turns ms)

-- `none` is the TypeError of reading `start` of no turn, at `retainTurns` 0.
unfoldable pub find_retained_start : List Message → ℕ → Option ℕ
unfolding complete_user_turns
find_retained_start ms retain =
    let turns = complete_user_turns ms in
    if leb (length turns) retain
    then some 0
    else elim (get_elem? turns (length turns - retain)) [ none ↦ none | some t ↦ some t.start ]

module _ (sha256 : Text → Text) where
  -- `contentToText(message.content).trim() === ""`
  abbrev is_blank : Text → Bool
  is_blank [] = true
  is_blank (c ∷ t) = is_space c && is_blank t

  abbrev empty_error : Message → Bool
  empty_error m =
      is_assistant m && m.stopped_on_error && is_blank (content_to_text sha256 m.content)

  -- The filter's result; that the same array is returned when nothing changed is not seen here.
  unfoldable pub remove_empty_assistant_errors : List Message → List Message
  unfolding is_space content_to_text
  remove_empty_assistant_errors ms = keep_if (λ m. not (empty_error m)) ms
