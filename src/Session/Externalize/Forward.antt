-- ===== src/Session/Externalize/Forward.antt =====
-- Earlier decisions of src/session/window.js never change when messages are appended.
use pi_sliding_context_windo.Common.{
  ℕ, suc, ◌+◌, ◌≡◌, refl, sym, ap, ◌∙◌, inl, inr, true, false, Option, List, [], ◌∷◌, ◌++◌, Text,
  arith, length, take, Bool-cases, take-length-append,
}
use pi_sliding_context_windo.Session.Message.{Message}
use pi_sliding_context_windo.Session.Externalize.{
  Shares, Options, Pass, replace_archived, visit, visit_all, externalize_large_tool_results,
}

-- The variables before the first message.
abbrev pub start : {S : Type 0} → S → Pass S
start a = record { archive = a; admitted = 0; changed = false; archive_ids = [] }

module _ (sha256 : Text → Text) (s : Shares) {S : Type 0}
    (store : S → Message → Text → S × Option Text) (o : Options) where
  visit-changed :
      (i : ℕ) (m : Message) (p : Pass S)
      → p.changed ≡ true
      → (visit sha256 s store o i m p).0.changed ≡ true
  unfolding visit replace_archived
  visit-changed i m p h = ground arith

  visit-same :
      (i : ℕ) (m : Message) (p : Pass S)
      → (visit sha256 s store o i m p).0.changed ≡ false
      → (visit sha256 s store o i m p).1 ≡ m
  unfolding visit replace_archived
  visit-same i m p h = ground arith

  visit_all-changed :
      (i : ℕ) (ms : List Message) (p : Pass S)
      → p.changed ≡ true
      → (visit_all sha256 s store o i ms p).0.changed ≡ true
  unfolding visit_all
  visit_all-changed i [] p h = h
  visit_all-changed i (m ∷ ms) p h =
      visit_all-changed (suc i) ms (visit sha256 s store o i m p).0 (visit-changed i m p h)

  visit_all-same :
      (i : ℕ) (ms : List Message) (p : Pass S)
      → (visit_all sha256 s store o i ms p).0.changed ≡ false
      → (visit_all sha256 s store o i ms p).1 ≡ ms
  unfolding visit_all
  visit_all-same i [] p h = refl
  visit_all-same i (m ∷ ms) p h =
      let q = (visit sha256 s store o i m p).0 in
      elim (Bool-cases q.changed) [
        | inl c ↦ absurd (ground (arith, visit_all-changed (suc i) ms q c))
        | inr c ↦ rw (visit-same i m p c, visit_all-same (suc i) ms q h)
      ]

  pub externalize-pass :
      (a : S) (ms : List Message)
      → (externalize_large_tool_results sha256 s store o a ms).0
        ≡ (visit_all sha256 s store o 0 ms (start a)).0
  unfolding externalize_large_tool_results
  externalize-pass a ms = refl

  -- To return the given array when nothing changed is to return the mapped one.
  pub externalize-visit_all :
      (a : S) (ms : List Message)
      → (externalize_large_tool_results sha256 s store o a ms).1
        ≡ (visit_all sha256 s store o 0 ms (start a)).1
  unfolding externalize_large_tool_results
  externalize-visit_all a ms =
      elim (Bool-cases (visit_all sha256 s store o 0 ms (start a)).0.changed) [
        | inl c ↦ rw c
        | inr c ↦ rw c (sym (visit_all-same 0 ms (start a) c))
      ]

  visit_all-append :
      (i : ℕ) (ms ns : List Message) (p : Pass S)
      → (visit_all sha256 s store o i (ms ++ ns) p).1
        ≡ (visit_all sha256 s store o i ms p).1
          ++ (visit_all sha256 s store o (i + length ms) ns (visit_all sha256 s store o i ms p).0).1
  unfolding visit_all
  visit_all-append i [] ns p = ap (λ k. (visit_all sha256 s store o k ns p).1) (omega arith)
  visit_all-append i (m ∷ ms) ns p =
      let (q, m') = visit sha256 s store o i m p in
      let (r, out) = visit_all sha256 s store o (suc i) ms q in
      ap (◌∷◌ m') (
        visit_all-append (suc i) ms ns q
        ∙ ap (λ k. out ++ (visit_all sha256 s store o k ns r).1) {x = suc i + length ms}
            (omega arith))

  length-visit_all :
      (i : ℕ) (ms : List Message) (p : Pass S)
      → length (visit_all sha256 s store o i ms p).1 ≡ length ms
  unfolding visit_all
  length-visit_all i [] p = refl
  length-visit_all i (m ∷ ms) p =
      ap suc (length-visit_all (suc i) ms (visit sha256 s store o i m p).0)

  -- What the provider already saw is never rewritten: the result for a history is the beginning
  -- of the result for every longer history, message by message.
  pub externalize-forward :
      (a : S) (ms ns : List Message)
      → take (length ms) (externalize_large_tool_results sha256 s store o a (ms ++ ns)).1
        ≡ (externalize_large_tool_results sha256 s store o a ms).1
  externalize-forward a ms ns =
      let (p, out) = visit_all sha256 s store o 0 ms (start a) in
      let rest = (visit_all sha256 s store o (0 + length ms) ns p).1 in
      ap (take (length ms))
        (externalize-visit_all a (ms ++ ns) ∙ visit_all-append 0 ms ns (start a))
      ∙ ap (λ k. take k (out ++ rest)) (sym (length-visit_all 0 ms (start a)))
      ∙ take-length-append out rest
      ∙ sym (externalize-visit_all a ms)
