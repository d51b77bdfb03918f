-- ===== src/Tests.antt =====
-- Concrete sessions, framers and texts for the theorems about src/session, src/daemon and src/rocksdb.
pub mod SessionRuns
pub mod ArchiveRuns
pub mod ByteRuns
pub mod ChunkRuns
pub mod LeaseRuns
pub mod EpochRuns
pub mod Serialized
pub mod KeyRuns
pub mod WindowRuns
pub mod RetentionRuns
pub mod OutboxRuns
pub mod PlanRuns
use pi_sliding_context_windo.Common.{
  ℕ, ◌+◌, ◌*◌, ◌/◌, ◌≤◌, Option, none, some, List, [], ◌∷◌, Text, units, arith, Bool, true, false,
}
use pi_sliding_context_windo.Session.Message.{
  Role, user, assistant, tool_result, Native, Message, Content, string, parts, object, text_object,
}
use pi_sliding_context_windo.Session.Externalize.{Shares}

-- The digest of the examples: a text is its own.
abbrev pub digest : Text → Text
digest t = t

abbrev pub no_native : Native
no_native = record {
  state_json = [];
  command = [];
  output = [];
  tokens_before = 0;
  summary = [];
  from_json = [];
}

abbrev pub message : Role → Content → Message
message r c = record {
  role = r;
  content = c;
  tool_name = some (units "read");
  tool_call_id = none;
  timestamp = [];
  stopped_on_error = false;
  native = no_native;
}

abbrev pub question : Message
question = message user (string (units "hi"))

abbrev pub answer : Message
answer = message assistant (parts (object (text_object (units "ok")) ∷ []))

abbrev pub log : Message
log = message tool_result (string (units "0123456789"))

-- An answer before the first question, then two complete turns.
abbrev pub history : List Message
history = answer ∷ question ∷ log ∷ answer ∷ question ∷ answer ∷ []

-- Seven and three tenths.
abbrev pub tenths : Shares
tenths = record { head = λ n. n * 7 / 10; tail = λ n. n * 3 / 10; within = λ n. omega arith }
