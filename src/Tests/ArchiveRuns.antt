-- ===== src/Tests/ArchiveRuns.antt =====
-- A run of externalizeLargeToolResults of src/session/window.js with an archive that counts.
use pi_sliding_context_windo.Common.{
  ◌⊎◌, ℕ, suc, ◌≤◌, ◌≡◌, refl, false, Option, none, some, [], ◌∷◌, ◌++◌, Text, units, arith, length,
  take, All, get_elem?,
}
use pi_sliding_context_windo.Session.Message.{Message, content_to_text, tool_result, string}
use pi_sliding_context_windo.Session.Externalize.{
  max_chars, Options, externalize_large_tool_results, marker, preview,
}
use pi_sliding_context_windo.Session.Externalize.Preview.{preview_lem}
use pi_sliding_context_windo.Session.Externalize.Forward.{externalize-forward}
use pi_sliding_context_windo.Session.Externalize.Outcome.{Outcome, externalize-Outcome}
use pi_sliding_context_windo.Session.Externalize.Bounded.{
  Reliable, length-marker, externalize-Bounded,
}
use pi_sliding_context_windo.Tests.{digest, tenths, message, log, question}
use pi_sliding_context_windo.Session.Deduplicate.{
  arguments_of, index_messages, tool_call_arguments_index, deduplicate_tool_results,
}
use pi_sliding_context_windo.Session.Deduplicate.Earlier.{deduplicate-Outcome}
use pi_sliding_context_windo.Session.Deduplicate.Earlier

-- The state is how many texts were archived; each gets the same id.
abbrev count_and_name : ℕ → Message → Text → ℕ × Option Text
count_and_name n m t = (suc n, some (units "t1"))

-- At most eighty characters inline, of which forty are a preview.
abbrev settings : Options
settings = record {
  max_tokens = 20;
  preview_tokens = some 10;
  budget_tokens = some 50;
  floor_tokens = some 20;
  floor_through_index = none;
  is_protected = λ i. false;
}

abbrev long_text : Text
long_text =
    units
      "0123456789012345678901234567890123456789012345678901234567890123456789012345678901234567890123456789"

abbrev long_log : Message
long_log = message tool_result (string long_text)

-- What the longest string of the platform may need.
answers : Reliable count_and_name settings 536870888
answers n m t l =
    (b't', b'1' ∷ [], refl, omega (arith, length-marker (units "t1") (length t) 8 (omega arith)))

preview_lem_example :
    (front mid back : Text) × (long_text ≡ front ++ (mid ++ back))
    × (preview tenths settings (units "t1") long_text 80
        ≡ front ++ (marker (units "t1") (length mid) ++ back))
    × ((length (preview tenths settings (units "t1") long_text 80) ≤ 80)
        ⊎ (preview tenths settings (units "t1") long_text 80
            ≡ marker (units "t1") (length long_text)))
preview_lem_example = preview_lem tenths settings (units "t1") long_text 80 (omega arith)

externalize-forward_example :
    take 2
      (externalize_large_tool_results digest tenths count_and_name settings 0
        (question ∷ long_log ∷ log ∷ [])).1
    ≡ (externalize_large_tool_results digest tenths count_and_name settings 0
        (question ∷ long_log ∷ [])).1
externalize-forward_example =
    externalize-forward digest tenths count_and_name settings 0 (question ∷ long_log ∷ [])
      (log ∷ [])

externalize-Outcome_example :
    (m' : Message) × (get_elem?
        (externalize_large_tool_results digest tenths count_and_name settings 0
          (question ∷ long_log ∷ [])).1
        1
      ≡ some m')
    × Outcome digest tenths count_and_name settings 1 long_log m'
externalize-Outcome_example =
    externalize-Outcome digest tenths count_and_name settings 0 (question ∷ long_log ∷ []) 1
      long_log refl

long_log-within : length (content_to_text digest long_log.content) ≤ 536870888
unfolding content_to_text
long_log-within = omega arith

externalize-Bounded_example :
    (m' : Message) × (get_elem?
        (externalize_large_tool_results digest tenths count_and_name settings 0
          (question ∷ long_log ∷ [])).1
        1
      ≡ some m')
    × (length (content_to_text digest m'.content) ≤ max_chars settings)
externalize-Bounded_example =
    externalize-Bounded digest tenths count_and_name settings 536870888 answers 0
      (question ∷ long_log ∷ []) 1 long_log refl refl refl tt long_log-within

deduplicate-Outcome_example :
    let out = (deduplicate_tool_results digest count_and_name 0 (log ∷ question ∷ log ∷ [])).1 in
    (m' : Message) × (get_elem? out 2 ≡ some m')
    × Earlier.Outcome digest count_and_name
        (log ∷ question ∷ log ∷ [])
        out
        (tool_call_arguments_index (log ∷ question ∷ log ∷ []))
        2
        log
        m'
deduplicate-Outcome_example =
    deduplicate-Outcome digest count_and_name 0 (log ∷ question ∷ log ∷ []) 2 log refl

same_arguments :
    All
      (λ m.
        arguments_of digest count_and_name (tool_call_arguments_index (log ∷ question ∷ log ∷ [])) m
        ≡ arguments_of digest count_and_name (tool_call_arguments_index (log ∷ question ∷ [])) m)
      (log ∷ question ∷ [])
unfolding tool_call_arguments_index index_messages
same_arguments = (refl, (refl, tt))
