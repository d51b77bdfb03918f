-- ===== src/Session/Deduplicate/Append.antt =====
-- What deduplicateToolResults of src/session/window.js does to a history that grows.
use pi_sliding_context_windo.Common.{
  ℕ, suc, ◌+◌, ◌≡◌, refl, sym, ap, ◌∙◌, inl, inr, true, false, Option, List, [], ◌∷◌, ◌++◌, Text,
  arith, length, take, Bool-cases, take-length-append, All, if◌then◌else◌,
}
use pi_sliding_context_windo.Session.Message.{Message, is_tool_result, or_else, content_to_text}
use pi_sliding_context_windo.Session.Deduplicate.{
  Pass, get, start, arguments_of, result_key, replace_duplicate, visit_result, visit, visit_all,
  tool_call_arguments_index, deduplicate_tool_results,
}

module _ (sha256 : Text → Text) {S : Type 0} (store : S → Message → Text → S × Option Text) where
  visit-changed :
      (calls : List (Text × Text)) (i : ℕ) (m : Message) (p : Pass S)
      → p.changed ≡ true
      → (visit sha256 store calls i m p).0.changed ≡ true
  unfolding visit visit_result replace_duplicate
  visit-changed calls i m p h = ground arith

  visit-same :
      (calls : List (Text × Text)) (i : ℕ) (m : Message) (p : Pass S)
      → (visit sha256 store calls i m p).0.changed ≡ false
      → (visit sha256 store calls i m p).1 ≡ m
  unfolding visit visit_result replace_duplicate
  visit-same calls i m p h = ground arith

  visit_all-changed :
      (calls : List (Text × Text)) (i : ℕ) (ms : List Message) (p : Pass S)
      → p.changed ≡ true
      → (visit_all sha256 store calls i ms p).0.changed ≡ true
  unfolding visit_all
  visit_all-changed calls i [] p h = h
  visit_all-changed calls i (m ∷ ms) p h =
      visit_all-changed calls (suc i) ms (visit sha256 store calls i m p).0
        (visit-changed calls i m p h)

  visit_all-same :
      (calls : List (Text × Text)) (i : ℕ) (ms : List Message) (p : Pass S)
      → (visit_all sha256 store calls i ms p).0.changed ≡ false
      → (visit_all sha256 store calls i ms p).1 ≡ ms
  unfolding visit_all
  visit_all-same calls i [] p h = refl
  visit_all-same calls i (m ∷ ms) p h =
      let q = (visit sha256 store calls i m p).0 in
      elim (Bool-cases q.changed) [
        | inl c ↦ absurd (ground (arith, visit_all-changed calls (suc i) ms q c))
        | inr c ↦ rw (visit-same calls i m p c, visit_all-same calls (suc i) ms q h)
      ]

  -- The given array, if nothing changed, is the mapped one.
  pub deduplicate-visit_all :
      (a : S) (ms : List Message)
      → (deduplicate_tool_results sha256 store a ms).1
        ≡ (visit_all sha256 store (tool_call_arguments_index ms) 0 ms (start a)).1
  unfolding deduplicate_tool_results
  deduplicate-visit_all a ms =
      let calls = tool_call_arguments_index ms in
      elim (Bool-cases (visit_all sha256 store calls 0 ms (start a)).0.changed) [
        | inl c ↦ rw c
        | inr c ↦ rw c (sym (visit_all-same calls 0 ms (start a) c))
      ]

  visit-calls :
      (c d : List (Text × Text)) (i : ℕ) (m : Message) (p : Pass S)
      → arguments_of sha256 store c m ≡ arguments_of sha256 store d m
      → visit sha256 store c i m p ≡ visit sha256 store d i m p
  unfolding visit result_key
  visit-calls c d i m p h =
      ap
        (λ x.
          let key =
            or_else m.tool_name []
            ++ (0 ∷ (x ++ (0 ∷ sha256 (content_to_text sha256 m.content)))) in
          if is_tool_result m then visit_result sha256 store key i m p (get key p.seen) else (p, m))
        h

  -- Only the arguments that the index gives to a result matter.
  visit_all-calls :
      (c d : List (Text × Text)) (i : ℕ) (ms : List Message) (p : Pass S)
      → All (λ m. arguments_of sha256 store c m ≡ arguments_of sha256 store d m) ms
      → visit_all sha256 store c i ms p ≡ visit_all sha256 store d i ms p
  unfolding visit_all
  visit_all-calls c d i [] p h = refl
  visit_all-calls c d i (m ∷ ms) p h =
      let e = visit-calls c d i m p h.0 in
      let r = visit_all-calls c d (suc i) ms (visit sha256 store d i m p).0 h.1 in
      rw e (ap (λ x. (x.0, (visit sha256 store d i m p).1 ∷ x.1)) r)

  visit_all-append :
      (calls : List (Text × Text)) (i : ℕ) (ms ns : List Message) (p : Pass S)
      → (visit_all sha256 store calls i (ms ++ ns) p).1
        ≡ (visit_all sha256 store calls i ms p).1
          ++ (visit_all sha256 store calls
              (i + length ms)
              ns
              (visit_all sha256 store calls i ms p).0).1
  unfolding visit_all
  visit_all-append calls i [] ns p = ap (λ k. (visit_all sha256 store calls k ns p).1) (omega arith)
  visit_all-append calls i (m ∷ ms) ns p =
      let (q, m') = visit sha256 store calls i m p in
      let (r, out) = visit_all sha256 store calls (suc i) ms q in
      ap (◌∷◌ m') (
        visit_all-append calls (suc i) ms ns q
        ∙ ap (λ k. out ++ (visit_all sha256 store calls k ns r).1) {x = suc i + length ms}
            (omega arith))

  length-visit_all :
      (calls : List (Text × Text)) (i : ℕ) (ms : List Message) (p : Pass S)
      → length (visit_all sha256 store calls i ms p).1 ≡ length ms
  unfolding visit_all
  length-visit_all calls i [] p = refl
  length-visit_all calls i (m ∷ ms) p =
      ap suc (length-visit_all calls (suc i) ms (visit sha256 store calls i m p).0)

  -- If the appended messages do not change the call arguments that belong to an earlier result,
  -- the result for a history is the beginning of the result for the longer history.
  pub deduplicate-append :
      (a : S) (ms ns : List Message)
      → All
          (λ m.
            arguments_of sha256 store (tool_call_arguments_index (ms ++ ns)) m
            ≡ arguments_of sha256 store (tool_call_arguments_index ms) m)
          ms
      → take (length ms) (deduplicate_tool_results sha256 store a (ms ++ ns)).1
        ≡ (deduplicate_tool_results sha256 store a ms).1
  deduplicate-append a ms ns h =
      let c = tool_call_arguments_index (ms ++ ns) in
      let d = tool_call_arguments_index ms in
      let (p, out) = visit_all sha256 store c 0 ms (start a) in
      let rest = (visit_all sha256 store c (0 + length ms) ns p).1 in
      ap (take (length ms))
        (deduplicate-visit_all a (ms ++ ns) ∙ visit_all-append c 0 ms ns (start a))
      ∙ ap (λ k. take k (out ++ rest)) (sym (length-visit_all c 0 ms (start a)))
      ∙ take-length-append out rest
      ∙ ap (λ x. x.1) (visit_all-calls c d 0 ms (start a) h)
      ∙ sym (deduplicate-visit_all a ms)
