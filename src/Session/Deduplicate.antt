-- ===== src/Session/Deduplicate.antt =====
-- src/session/window.js: `deduplicateToolResults`, with `messageKey` and `toolCallArgumentsIndex`.
-- A Map is the list of its entries, the last one set in front. The archive is the parameter `store`.
pub mod Earlier
pub mod Append
use pi_sliding_context_windo.Common.{
  ℕ, suc, Bool, true, false, not, ◌&&◌, Option, none, some, List, [], ◌∷◌, ◌++◌, Text, units,
  text_eq, if◌then◌else◌, take,
}
use pi_sliding_context_windo.Session.Message.{
  Message, Part, object, Content, parts, tool_call, role_name, or_else, is_assistant,
  is_tool_result, content_to_text, serialize_message, replace_text_content,
}

abbrev pub is_empty : Text → Bool
is_empty [] = true
is_empty (c ∷ t) = false

-- `map.get(key)`
unfoldable pub get : Text → List (Text × Text) → Option Text
get key [] = none
get key (e ∷ entries) = if text_eq e.0 key then some e.1 else get key entries

module _ (sha256 : Text → Text) where
  unfoldable pub message_key : Message → Text
  message_key m =
      role_name m.role
      ++ (units ":"
          ++ (m.timestamp
              ++ (units ":"
                  ++ (or_else m.tool_call_id []
                      ++ (units ":" ++ take 12 (sha256 (serialize_message sha256 m)))))))

-- The inner loop of `toolCallArgumentsIndex`: a call without an id is passed over.
unfoldable pub index_parts : List (Text × Text) → List Part → List (Text × Text)
index_parts calls [] = calls
index_parts calls (p ∷ ps) = elim p [
  | object c ↦ elim c.kind [
    | tool_call ↦
        if is_empty c.call_id
        then index_parts calls ps
        else index_parts ((c.call_id, c.normalized_arguments) ∷ calls) ps
    | _ ↦ index_parts calls ps
  ]
  | _ ↦ index_parts calls ps
]

unfoldable pub index_messages : List (Text × Text) → List Message → List (Text × Text)
index_messages calls [] = calls
index_messages calls (m ∷ ms) = elim m.content [
  | parts ps ↦
      if is_assistant m then index_messages (index_parts calls ps) ms else index_messages calls ms
  | _ ↦ index_messages calls ms
]

unfoldable pub tool_call_arguments_index : List Message → List (Text × Text)
tool_call_arguments_index ms = index_messages [] ms

-- The text that takes the place of a duplicate.
unfoldable pub duplicate_marker : Text → Text → Text
duplicate_marker earlier id =
    units "[Identical to earlier result "
    ++ (earlier
        ++ (units " in this conversation, archived as "
            ++ (id ++ (units "; use context_recall on " ++ (id ++ units " if needed.]")))))

pub record Pass (S : Type 0) : Type 0 where
  pub archive : S
  pub seen : List (Text × Text)
  pub changed : Bool
  pub archive_ids : List Text
  pub externalized_message_indexes : List ℕ

-- The variables before the first message.
abbrev pub start : {S : Type 0} → S → Pass S
start a = record {
  archive = a;
  seen = [];
  changed = false;
  archive_ids = [];
  externalized_message_indexes = [];
}

module _ (sha256 : Text → Text) {S : Type 0} (store : S → Message → Text → S × Option Text) where
  -- `callArguments.get(toolCallId) ?? ""`
  unfoldable pub arguments_of : List (Text × Text) → Message → Text
  arguments_of calls m = or_else (get (or_else m.tool_call_id []) calls) []

  -- The tool's name, the arguments and the digest of the text, joined by NUL.
  unfoldable pub result_key : List (Text × Text) → Message → Text
  result_key calls m =
      or_else m.tool_name []
      ++ (0 ∷ (arguments_of calls m ++ (0 ∷ sha256 (content_to_text sha256 m.content))))

  -- `toolCallId || messageKey(message)`
  unfoldable pub reference : Message → Text
  reference m =
      if is_empty (or_else m.tool_call_id [])
      then message_key sha256 m
      else or_else m.tool_call_id []

  -- The rest of the callback, from what `store` returned on; an empty id is falsy.
  unfoldable pub replace_duplicate : ℕ → Message → Text → Pass S → Option Text → Pass S × Message
  replace_duplicate i m earlier p none = (p, m)
  replace_duplicate i m earlier p (some []) = (p, m)
  replace_duplicate i m earlier p (some (c ∷ id)) = (
    record p {
      changed = true;
      archive_ids = p.archive_ids ++ (c ∷ id) ∷ [];
      externalized_message_indexes = p.externalized_message_indexes ++ i ∷ [];
    },
    record m { content = replace_text_content m.content (duplicate_marker earlier (c ∷ id)) },
  )

  -- The tool result's part of the callback, from `seen.get(key)` on.
  unfoldable pub visit_result : Text → ℕ → Message → Pass S → Option Text → Pass S × Message
  visit_result key i m p none = (record p { seen = (key, reference m) ∷ p.seen }, m)
  visit_result key i m p (some earlier) =
      let (a, id) = store p.archive m (content_to_text sha256 m.content) in
      replace_duplicate i m earlier (record p { archive = a }) id

  unfoldable pub visit : List (Text × Text) → ℕ → Message → Pass S → Pass S × Message
  visit calls i m p =
      let key = result_key calls m in
      if is_tool_result m then visit_result key i m p (get key p.seen) else (p, m)

  unfoldable pub visit_all : List (Text × Text) → ℕ → List Message → Pass S → Pass S × List Message
  visit_all calls i [] p = (p, [])
  visit_all calls i (m ∷ ms) p =
      let (p', m') = visit calls i m p in
      let (q, out) = visit_all calls (suc i) ms p' in (q, m' ∷ out)

  unfoldable pub deduplicate_tool_results : S → List Message → Pass S × List Message
  deduplicate_tool_results a ms =
      let (p, out) = visit_all (tool_call_arguments_index ms) 0 ms (start a) in
      (p, if p.changed then out else ms)
