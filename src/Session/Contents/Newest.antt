-- ===== src/Session/Contents/Newest.antt =====
-- Which entries the table of contents of src/session/window.js keeps.
use pi_sliding_context_windo.Common.{
  ℕ, zero, suc, ◌≡◌, ◌<◌, ◌≤◌, ◌⊎◌, refl, inl, inr, some, List, [], ◌∷◌, Text, arith, ltb, ltb→lt,
  length, drop, Bool-cases,
}
use pi_sliding_context_windo.Session.Message.{estimate_text_tokens}
use pi_sliding_context_windo.Session.Contents.{Entry, render, drop_oldest, build_toc_marker_text}

-- The text is that of the entries from index `k` on; all longer ones exceed the budget, and the
-- text fits unless one entry is left.
pub record Keeps (es : List Entry) (budget : ℕ) (text : Text) : Type 0 where
  pub from : ℕ
  pub inside : from < length es
  pub rendered : text ≡ render (drop from es)
  pub fits : (estimate_text_tokens text ≤ budget) ⊎ (suc from ≡ length es)
  pub largest : (j : ℕ) → j < from → budget < estimate_text_tokens (render (drop j es))

Keeps-cons :
    (e : Entry) (es : List Entry) (budget : ℕ) (text : Text)
    → budget < estimate_text_tokens (render (e ∷ es))
    → Keeps es budget text
    → Keeps (e ∷ es) budget text
Keeps-cons e es budget text h k = record {
  from = suc k.from;
  inside = omega (arith, k.inside);
  rendered = k.rendered;
  fits = elim k.fits [ inl f ↦ inl f | inr l ↦ inr (omega (arith, l)) ];
  largest = earlier;
}
  where
    earlier : (j : ℕ) → j < suc k.from → budget < estimate_text_tokens (render (drop j (e ∷ es)))
    earlier zero l = h
    earlier (suc j) l = k.largest j (omega arith)

drop_oldest-Keeps :
    (e : Entry) (es : List Entry) (budget : ℕ) → Keeps (e ∷ es) budget (drop_oldest (e ∷ es) budget)
unfolding drop_oldest
drop_oldest-Keeps e [] budget = record {
  from = 0;
  inside = omega arith;
  rendered = refl;
  fits = inr refl;
  largest = λ j l. absurd (omega arith);
}
drop_oldest-Keeps e (f ∷ es) budget =
    elim (Bool-cases (ltb budget (estimate_text_tokens (render (e ∷ f ∷ es))))) [
      | inl large ↦
          rw (large, drop_oldest)
            (Keeps-cons e (f ∷ es) budget (drop_oldest (f ∷ es) budget) (ltb→lt _ _ large)
              (drop_oldest-Keeps f es budget))
      | inr small ↦
          rw (small, drop_oldest)
            (record {
              from = 0;
              inside = omega arith;
              rendered = refl;
              fits = inl (ground (arith, small));
              largest = λ j l. absurd (omega arith);
            })
    ]

-- With at least one entry there is a text. It lists the largest number of newest entries whose
-- text is within the budget, and the newest alone if not even that is.
pub build_toc_marker_text-Keeps :
    (es : List Entry) (budget : ℕ)
    → 0 < length es
    → (text : Text) × (build_toc_marker_text es budget ≡ some text) × Keeps es budget text
unfolding build_toc_marker_text
build_toc_marker_text-Keeps [] budget h = absurd (omega arith)
build_toc_marker_text-Keeps (e ∷ es) budget h =
    (drop_oldest (e ∷ es) budget, refl, drop_oldest-Keeps e es budget)
