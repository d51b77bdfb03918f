-- ===== src/Session/Externalize/Outcome.antt =====
-- What src/session/window.js does to each message, and how large its tool results can be.
use pi_sliding_context_windo.Common.{
  ℕ, zero, suc, ◌+◌, ◌≡◌, refl, inl, inr, true, false, Option, none, some, List, [], subst, ◌∷◌,
  Text, arith, leb, ◌≤◌, ◌<◌, ◌||◌, length, get_elem?, Bool-cases,
}
use pi_sliding_context_windo.Session.Message.{
  Message, is_tool_result, content_to_text, replace_text_content,
}
use pi_sliding_context_windo.Session.Externalize.{
  Shares, Options, Pass, max_chars, floor_chars, gate, preview, replace_archived, visit, visit_all,
  externalize_large_tool_results,
}
use pi_sliding_context_windo.Session.Externalize.Forward.{start, externalize-visit_all}

pub gate_bounds :
    (o : Options) (i admitted : ℕ)
    → (gate o i admitted ≤ max_chars o) × (floor_chars o ≤ gate o i admitted)
unfolding gate
gate_bounds o i admitted = ground arith

module _ (sha256 : Text → Text) (s : Shares) {S : Type 0}
    (store : S → Message → Text → S × Option Text) (o : Options) where
  -- Message `m` at index `i` became `m'`: it is the same, or it was a tool result above a gate
  -- that is at most the static one, and its text is now the preview under that gate.
  pub data Outcome (i : ℕ) (m m' : Message) : Type 0 where
    kept : m' ≡ m → Outcome i m m'
    archived :
        (g : ℕ) (id : Text)
        → is_tool_result m ≡ true
        → o.is_protected i ≡ false
        → g ≤ max_chars o
        → floor_chars o ≤ g
        → g < length (content_to_text sha256 m.content)
        → m' ≡ record m {
          content =
              replace_text_content m.content (preview s o id (content_to_text sha256 m.content) g);
        }
        → Outcome i m m'

  replaced-Outcome :
      (i : ℕ) (m : Message) (p : Pass S) (id : Option Text)
      → is_tool_result m ≡ true
      → o.is_protected i ≡ false
      → gate o i p.admitted < length (content_to_text sha256 m.content)
      → Outcome i m
          (replace_archived sha256 s store o i m (content_to_text sha256 m.content) p id).1
  unfolding replace_archived
  replaced-Outcome i m p none t u l = kept refl
  replaced-Outcome i m p (some []) t u l = kept refl
  replaced-Outcome i m p (some (c ∷ id)) t u l =
      let b = gate_bounds o i p.admitted in
      archived (gate o i p.admitted) (c ∷ id) t u b.0 b.1 l refl

  visit-Outcome : (i : ℕ) (m : Message) (p : Pass S) → Outcome i m (visit sha256 s store o i m p).1
  unfolding visit
  visit-Outcome i m p =
      let text = content_to_text sha256 m.content in
      let (a, id) = store p.archive m text in
      elim (Bool-cases (is_tool_result m)) [
        | inl t ↦ elim (Bool-cases (o.is_protected i || leb (length text) (gate o i p.admitted))) [
          | inl small ↦ rw (t, small, visit) (kept refl)
          | inr large ↦
              rw (t, large, visit)
                (replaced-Outcome i m (record p { archive = a }) id t (ground arith) (ground arith))
        ]
        | inr f ↦ rw (f, visit) (kept refl)
      ]

  visit_all-Outcome :
      (i k j : ℕ) (ms : List Message) (p : Pass S) (m : Message)
      → i + k ≡ j
      → get_elem? ms k ≡ some m
      → (m' : Message) × (get_elem? (visit_all sha256 s store o i ms p).1 k ≡ some m')
        × Outcome j m m'
  unfolding visit_all
  visit_all-Outcome i k j [] p m e g = absurd (ground arith)
  visit_all-Outcome i zero j (n ∷ ms) p m e g =
      let q : n ≡ m = cc in
      let i' : i ≡ j = omega arith in
      (
        (visit sha256 s store o i n p).1,
        refl,
        subst (λ x. Outcome j x (visit sha256 s store o i n p).1) q
            (subst (λ x. Outcome x n (visit sha256 s store o i n p).1) i' (visit-Outcome i n p)),
      )
  visit_all-Outcome i (suc k) j (n ∷ ms) p m e g =
      visit_all-Outcome (suc i) k j ms (visit sha256 s store o i n p).0 m (omega arith) g

  -- Every message of the history has its counterpart at the same index, and it is the same unless
  -- it was an unprotected tool result longer than a gate between the floor and the static limit.
  -- Then only its text changed, to the preview under that gate.
  pub externalize-Outcome :
      (a : S) (ms : List Message) (k : ℕ) (m : Message)
      → get_elem? ms k ≡ some m
      → (m' : Message) × (get_elem? (externalize_large_tool_results sha256 s store o a ms).1 k
          ≡ some m')
        × Outcome k m m'
  externalize-Outcome a ms k m g =
      rw (externalize-visit_all sha256 s store o a ms)
        (visit_all-Outcome 0 k k ms (start a) m (omega arith) g)
