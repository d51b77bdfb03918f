-- ===== src/Session/Message.antt =====
-- src/session/window.js: the messages of a session, their text and their token estimate.
-- A string is the list of its UTF-16 code units. A value that the code only prints through
-- JSON.stringify or String stands here as the printed text. The SHA-256 of node:crypto is the
-- parameter `sha256` of the definitions that use it.
use pi_sliding_context_windo.Common.{
  ℕ, suc, ◌+◌, ◌-◌, ◌*◌, ◌/◌, Bool, true, false, not, ◌&&◌, ◌||◌, Option, none, some, List, [], ◌∷◌,
  ◌++◌, map, Text, units, decimal, if◌then◌else◌, leb, ◌==◌, length, take, keep_if, sum,
}

pub data Role : Type 0 where
  user assistant tool_result tool bash_execution compaction_summary branch_summary : Role
  other : Text → Role

pub data PartKind : Type 0 where
  text_part tool_call thinking_part image : PartKind
  other_kind : PartKind

-- An object inside a content array.
pub record PartObject : Type 0 where
  -- `part.type`
  pub kind : PartKind
  -- `JSON.stringify(String(part?.type ?? "unknown"))`
  pub type_json : Text
  -- `part.text`, if it is a string
  pub text : Option Text
  -- `part.thinking`, if it is a string
  pub thinking : Option Text
  -- `part.name`
  pub name : Option Text
  -- `JSON.stringify(part.arguments ?? part.input ?? {})`
  pub arguments_json : Text
  -- `String(part.id ?? part.toolCallId ?? part.tool_call_id ?? "")`
  pub call_id : Text
  -- `normalizedToolArguments` of the part: its arguments with sorted keys
  pub normalized_arguments : Text
  -- `JSON.stringify(part) ?? String(part)`
  pub json : Text
  -- `String(part.data ?? "")` and the JSON of `part.mimeType`
  pub bytes64 : Text
  pub mime_json : Text

pub data Part : Type 0 where
  plain : Text → Part
  object : PartObject → Part
  -- null, a number, a Boolean
  scalar : Part

pub data Content : Type 0 where
  string : Text → Content
  parts : List Part → Content
  -- null or undefined
  absent : Content
  -- anything else, by its JSON
  value : Text → Content

-- The native fields of a `bashExecution`, a `compactionSummary` and a `branchSummary`.
pub record Native : Type 0 where
  -- `JSON.stringify(state)` of the five execution fields
  pub state_json : Text
  pub command : Text
  pub output : Text
  -- `Number(message?.tokensBefore) || 0`
  pub tokens_before : ℕ
  pub summary : Text
  -- `JSON.stringify(String(message?.fromId ?? ""))`
  pub from_json : Text

pub record Message : Type 0 where
  pub role : Role
  pub content : Content
  -- `message.toolName ?? message.name`
  pub tool_name : Option Text
  -- `message.toolCallId ?? message.tool_call_id`
  pub tool_call_id : Option Text
  -- `String(message.timestamp ?? "")`
  pub timestamp : Text
  -- `message.stopReason === "error"`
  pub stopped_on_error : Bool
  pub native : Native

abbrev pub or_else : Option Text → Text → Text
or_else none d = d
or_else (some t) d = t

abbrev pub role_name : Role → Text
role_name user = units "user"
role_name assistant = units "assistant"
role_name tool_result = units "toolResult"
role_name tool = units "tool"
role_name bash_execution = units "bashExecution"
role_name compaction_summary = units "compactionSummary"
role_name branch_summary = units "branchSummary"
role_name (other t) = t

-- `message?.role === "user"`, and the test for the two names of a tool's result.
abbrev pub is_user : Message → Bool
is_user m = elim m.role [ user ↦ true | _ ↦ false ]

abbrev pub is_assistant : Message → Bool
is_assistant m = elim m.role [ assistant ↦ true | _ ↦ false ]

abbrev pub is_tool_result : Message → Bool
is_tool_result m = elim m.role [ tool_result ↦ true | tool ↦ true | _ ↦ false ]

-- `ESTIMATED_IMAGE_CHARS`
abbrev pub estimated_image_chars : ℕ
estimated_image_chars = 4800

-- `/\s/` of JavaScript, by code unit.
unfoldable pub is_space : ℕ → Bool
is_space c =
    (leb 9 c && leb c 13)
    || c == 32
    || c == 0xa0
    || c == 0x1680
    || (leb 0x2000 c && leb c 0x200a)
    || c == 0x2028
    || c == 0x2029
    || c == 0x202f
    || c == 0x205f
    || c == 0x3000
    || c == 0xfeff

-- `value.endsWith("==") ? 2 : value.endsWith("=") ? 1 : 0`, on the text read backwards.
abbrev padding_from : Text → ℕ
padding_from [] = 0
padding_from (a ∷ []) = if a == b'=' then 1 else 0
padding_from (a ∷ b ∷ t) = if a == b'=' && b == b'=' then 2 else if a == b'=' then 1 else 0

abbrev reverse_onto : Text → Text → Text
reverse_onto [] acc = acc
reverse_onto (c ∷ t) acc = reverse_onto t (c ∷ acc)

unfoldable pub base64_byte_length : Text → ℕ
unfolding is_space
base64_byte_length t =
    let value = keep_if (λ c. not (is_space c)) t in
    length value * 3 / 4 - padding_from (reverse_onto value [])

-- `parts.filter(Boolean).join(separator)`
unfoldable pub join_nonempty : Text → List Text → Text
join_nonempty sep [] = []
join_nonempty sep ([] ∷ ts) = join_nonempty sep ts
join_nonempty sep ((c ∷ t) ∷ ts) =
    let rest = join_nonempty sep ts in elim rest [ [] ↦ c ∷ t | d ∷ r ↦ (c ∷ t) ++ (sep ++ d ∷ r) ]

abbrev pub newline : Text
newline = 10 ∷ []

module _ (sha256 : Text → Text) where
  unfoldable pub non_text_marker : PartObject → Text
  unfolding decimal base64_byte_length
  non_text_marker p = elim p.kind [
    | image ↦
        units "[image mimeType="
        ++ p.mime_json
        ++ units " bytes="
        ++ decimal (base64_byte_length p.bytes64)
        ++ units " sha256="
        ++ take 16 (sha256 p.bytes64)
        ++ units "]"
    | _ ↦
        units "[content type="
        ++ p.type_json
        ++ units " chars="
        ++ decimal (length p.json)
        ++ units " sha256="
        ++ take 16 (sha256 p.json)
        ++ units "]"
  ]

  unfoldable pub object_to_text : PartObject → Text
  unfolding non_text_marker
  object_to_text p = elim p.text [
    | some t ↦ t
    | none ↦ elim p.kind [
      | tool_call ↦
          units "[tool "
          ++ or_else p.name (units "unknown")
          ++ units " "
          ++ p.arguments_json
          ++ units "]"
      | thinking_part ↦ or_else p.thinking (non_text_marker p)
      | _ ↦ non_text_marker p
    ]
  ]

  unfoldable pub part_to_text : Part → Text
  unfolding object_to_text
  part_to_text (plain t) = t
  part_to_text (object p) = object_to_text p
  part_to_text scalar = []

  unfoldable pub content_to_text : Content → Text
  unfolding part_to_text join_nonempty
  content_to_text (string t) = t
  content_to_text (parts ps) = join_nonempty newline (map part_to_text ps)
  content_to_text absent = []
  content_to_text (value j) = j

-- `syntheticMessageSerialization`: the roles that Pi stores outside `content`.
unfoldable pub synthetic_serialization : Message → Option Text
unfolding decimal
synthetic_serialization m = elim m.role [
  | bash_execution ↦ some (
      units "[bashExecution "
      ++ m.native.state_json
      ++ units "]\n[command] "
      ++ m.native.command
      ++ units "\n[output] "
      ++ m.native.output)
  | compaction_summary ↦ some (
      units "[compactionSummary tokensBefore="
      ++ decimal m.native.tokens_before
      ++ units "] "
      ++ m.native.summary)
  | branch_summary ↦
      some (units "[branchSummary fromId=" ++ m.native.from_json ++ units "] " ++ m.native.summary)
  | _ ↦ none
]

-- The label in front of a serialized message.
unfoldable pub label : Message → Text
label m =
    if is_tool_result m
    then role_name m.role ++ units ":" ++ or_else m.tool_name (units "unknown")
    else role_name m.role

-- `Math.ceil(n / 4)`
abbrev pub ceil_quarter : ℕ → ℕ
ceil_quarter n = (n + 3) / 4

-- `estimateTokens` of a text.
unfoldable pub estimate_text_tokens : Text → ℕ
estimate_text_tokens t = ceil_quarter (length t)

module _ (sha256 : Text → Text) where
  unfoldable pub serialize_message : Message → Text
  unfolding synthetic_serialization label
  serialize_message m = elim (synthetic_serialization m) [
    | some t ↦ t
    | none ↦ units "[" ++ label m ++ units "] " ++ content_to_text sha256 m.content
  ]

  -- `serializeMessages`: the messages joined by an empty line.
  unfoldable pub serialize_messages : List Message → Text
  serialize_messages [] = []
  serialize_messages (m ∷ []) = serialize_message m
  serialize_messages (m ∷ n ∷ ms) =
      serialize_message m ++ (units "\n\n" ++ serialize_messages (n ∷ ms))

  -- The loop of `estimatedContentCharacters`: characters and rendered parts so far.
  unfoldable pub part_characters : Part → ℕ
  part_characters (object p) = elim p.kind [
    | image ↦ estimated_image_chars
    | _ ↦ length (object_to_text sha256 p)
  ]
  part_characters (plain t) = length t
  part_characters scalar = 0

  unfoldable pub sum_parts : ℕ → ℕ → List Part → ℕ
  unfolding part_characters
  sum_parts characters rendered [] = characters + (rendered - 1)
  sum_parts characters rendered (p ∷ ps) =
      let n = part_characters p in
      sum_parts (characters + n) (if n == 0 then rendered else suc rendered) ps

  unfoldable pub estimated_content_characters : Content → ℕ
  unfolding sum_parts
  estimated_content_characters (string t) = length t
  estimated_content_characters (parts ps) = sum_parts 0 0 ps
  estimated_content_characters absent = 0
  estimated_content_characters (value j) = length j

  unfoldable pub estimated_message_characters : Message → ℕ
  unfolding synthetic_serialization label estimated_content_characters
  estimated_message_characters m = elim (synthetic_serialization m) [
    | some t ↦ length t
    | none ↦ length (label m) + 3 + estimated_content_characters m.content
  ]

  unfoldable pub estimate_message_tokens : Message → ℕ
  estimate_message_tokens m = ceil_quarter (estimated_message_characters m)

  -- `estimateTokens` of an array of messages.
  unfoldable pub estimate_tokens : List Message → ℕ
  estimate_tokens ms = ceil_quarter (sum (map estimated_message_characters ms) + (length ms - 1))

-- The text part that takes the place of others. Its JSON is never printed, as it has a text.
abbrev pub text_object : Text → PartObject
text_object t = record {
  kind = text_part;
  type_json = units "\"text\"";
  text = some t;
  thinking = none;
  name = none;
  arguments_json = units "{}";
  call_id = [];
  normalized_arguments = [];
  json = [];
  bytes64 = [];
  mime_json = [];
}

abbrev pub is_text_object : Part → Bool
is_text_object (object p) = elim p.kind [ text_part ↦ true | _ ↦ false ]
is_text_object _ = false

unfoldable pub replace_text_content : Content → Text → Content
replace_text_content (string t) r = string r
replace_text_content (parts ps) r =
    parts (object (text_object r) ∷ keep_if (λ p. not (is_text_object p)) ps)
replace_text_content _ r = string r
