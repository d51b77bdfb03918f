-- ===== src/Session/Externalize/Accounting.antt =====
-- The running total of src/session/window.js against the independent measurement of
-- src/session/epoch-budget.js, and the bound on what stays inline.
use pi_sliding_context_windo.Common.{
  ℕ, suc, ◌+◌, ◌≡◌, refl, ap, ◌∙◌, inl, inr, true, Option, none, some, List, [], ◌∷◌, ◌++◌, Text,
  arith, leb, ◌≤◌, ◌||◌, if◌then◌else◌, length, All, Bool-cases, length-append,
}
use pi_sliding_context_windo.Session.Message.{
  ceil_quarter, Message, Content, string, parts, absent, value, is_tool_result, content_to_text,
  replace_text_content, newline, join_nonempty, object_to_text,
}
use pi_sliding_context_windo.Session.Externalize.{
  Shares, Options, Pass, gate, preview, replace_archived, visit, visit_all,
  externalize_large_tool_results, tool_result_chars, measure_tool_result_tokens, admitted_tokens,
}
use pi_sliding_context_windo.Session.Externalize.Forward.{
  start, externalize-pass, externalize-visit_all,
}

-- A tool result whose content is no array of parts.
abbrev pub NotParts : Content → Type 0
NotParts (parts ps) = ⊥
NotParts _ = Unit

module _ (sha256 : Text → Text) where
  pub content-replace :
      (c : Content) (r : Text) → NotParts c → content_to_text sha256 (replace_text_content c r) ≡ r
  unfolding content_to_text replace_text_content
  content-replace (string t) r h = refl
  content-replace (parts ps) r h = absurd h
  content-replace absent r h = refl
  content-replace (value j) r h = refl

  length-join-le : (t : Text) (ts : List Text) → length t ≤ length (join_nonempty newline (t ∷ ts))
  unfolding join_nonempty
  length-join-le [] ts = omega arith
  length-join-le (c ∷ t) ts = go (join_nonempty newline ts)
    where
      go :
          (r : Text)
          → suc (length t)
            ≤ length (elim r [ [] ↦ c ∷ t | d ∷ r' ↦ (c ∷ t) ++ (newline ++ d ∷ r') ])
      go [] = omega arith
      go (d ∷ r) = omega (arith, length-append t (10 ∷ d ∷ r))

  length-replace-le :
      (c : Content) (r : Text)
      → length r ≤ length (content_to_text sha256 (replace_text_content c r))
  unfolding content_to_text replace_text_content object_to_text
  length-replace-le (string t) r = omega arith
  length-replace-le (parts ps) r = length-join-le r _
  length-replace-le absent r = omega arith
  length-replace-le (value j) r = omega arith

module _ (sha256 : Text → Text) (s : Shares) {S : Type 0}
    (store : S → Message → Text → S × Option Text) (o : Options) where
  -- The characters that a message adds to the measurement.
  abbrev chars : Message → ℕ
  chars m = if is_tool_result m then length (content_to_text sha256 m.content) else 0

  -- What the callback does behind `store`, by the answer of `store`.
  replaced-admitted-le :
      (i : ℕ) (m : Message) (p : Pass S) (id : Option Text)
      → is_tool_result m ≡ true
      → let r = replace_archived sha256 s store o i m (content_to_text sha256 m.content) p id in
        r.0.admitted ≤ p.admitted + chars r.1
  unfolding replace_archived
  replaced-admitted-le i m p none h = rw h (omega arith)
  replaced-admitted-le i m p (some []) h = rw h (omega arith)
  replaced-admitted-le i m p (some (c ∷ id)) h =
      let r = preview s o (c ∷ id) (content_to_text sha256 m.content) (gate o i p.admitted) in
      rw h (omega (arith, length-replace-le sha256 m.content r))

  replaced-admitted :
      (i : ℕ) (m : Message) (p : Pass S) (id : Option Text)
      → is_tool_result m ≡ true
      → NotParts m.content
      → let r = replace_archived sha256 s store o i m (content_to_text sha256 m.content) p id in
        r.0.admitted ≡ p.admitted + chars r.1
  unfolding replace_archived
  replaced-admitted i m p none h k = rw h
  replaced-admitted i m p (some []) h k = rw h
  replaced-admitted i m p (some (c ∷ id)) h k =
      let r = preview s o (c ∷ id) (content_to_text sha256 m.content) (gate o i p.admitted) in
      rw h (omega (arith, ap length (content-replace sha256 m.content r k)))

  visit-admitted-le :
      (i : ℕ) (m : Message) (p : Pass S)
      → (visit sha256 s store o i m p).0.admitted
        ≤ p.admitted + chars (visit sha256 s store o i m p).1
  unfolding visit
  visit-admitted-le i m p =
      let (a, id) = store p.archive m (content_to_text sha256 m.content) in
      elim (Bool-cases (is_tool_result m)) [
        | inl t ↦
            elim (Bool-cases (
              o.is_protected i
              || leb (length (content_to_text sha256 m.content)) (gate o i p.admitted))) [
                | inl small ↦ rw (t, small, visit) (rw t (omega arith))
                | inr large ↦
                    rw (t, large, visit) (replaced-admitted-le i m (record p { archive = a }) id t)
              ]
        | inr f ↦ rw (f, visit) (rw f (omega arith))
      ]

  visit-admitted :
      (i : ℕ) (m : Message) (p : Pass S)
      → NotParts m.content
      → (visit sha256 s store o i m p).0.admitted
        ≡ p.admitted + chars (visit sha256 s store o i m p).1
  unfolding visit
  visit-admitted i m p h =
      let (a, id) = store p.archive m (content_to_text sha256 m.content) in
      elim (Bool-cases (is_tool_result m)) [
        | inl t ↦
            elim (Bool-cases (
              o.is_protected i
              || leb (length (content_to_text sha256 m.content)) (gate o i p.admitted))) [
                | inl small ↦ rw (t, small, visit) (rw t (omega arith))
                | inr large ↦
                    rw (t, large, visit) (replaced-admitted i m (record p { archive = a }) id t h)
              ]
        | inr f ↦ rw (f, visit) (rw f (omega arith))
      ]

  visit_all-admitted-le :
      (i : ℕ) (ms : List Message) (p : Pass S)
      → (visit_all sha256 s store o i ms p).0.admitted
        ≤ p.admitted + tool_result_chars sha256 (visit_all sha256 s store o i ms p).1
  unfolding visit_all tool_result_chars
  visit_all-admitted-le i [] p = omega arith
  visit_all-admitted-le i (m ∷ ms) p =
      let (q, m') = visit sha256 s store o i m p in
      omega (arith, visit-admitted-le i m p, visit_all-admitted-le (suc i) ms q)

  visit_all-admitted :
      (i : ℕ) (ms : List Message) (p : Pass S)
      → All (λ m. NotParts m.content) ms
      → (visit_all sha256 s store o i ms p).0.admitted
        ≡ p.admitted + tool_result_chars sha256 (visit_all sha256 s store o i ms p).1
  unfolding visit_all tool_result_chars
  visit_all-admitted i [] p h = omega arith
  visit_all-admitted i (m ∷ ms) p h =
      let (q, m') = visit sha256 s store o i m p in
      omega (arith, visit-admitted i m p h.0, visit_all-admitted (suc i) ms q h.1)

  -- The running total that a pass reports never exceeds what the measurement of the returned
  -- messages yields.
  pub admitted_tokens-le-measure :
      (a : S) (ms : List Message)
      → let r = externalize_large_tool_results sha256 s store o a ms in
        admitted_tokens r.0 ≤ measure_tool_result_tokens sha256 r.1
  unfolding measure_tool_result_tokens
  admitted_tokens-le-measure a ms =
      rw (externalize-pass sha256 s store o a ms, externalize-visit_all sha256 s store o a ms)
        (omega (arith, visit_all-admitted-le 0 ms (start a)))

  -- Where no content is an array of parts, the running total that a pass reports is what the
  -- measurement of the returned messages yields.
  pub admitted_tokens-measure :
      (a : S) (ms : List Message)
      → All (λ m. NotParts m.content) ms
      → let r = externalize_large_tool_results sha256 s store o a ms in
        admitted_tokens r.0 ≡ measure_tool_result_tokens sha256 r.1
  unfolding measure_tool_result_tokens
  admitted_tokens-measure a ms h =
      rw (externalize-pass sha256 s store o a ms, externalize-visit_all sha256 s store o a ms)
        (ap ceil_quarter (visit_all-admitted 0 ms (start a) h ∙ omega arith))
