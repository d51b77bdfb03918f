-- ===== src/Session/Externalize/Bounded.antt =====
-- With an archive that stores what it is given, no tool result of src/session/window.js stays
-- inline above the static limit.
use pi_sliding_context_windo.Common.{
  ap, ℕ, zero, suc, ◌+◌, ◌*◌, ◌/◌, ◌%◌, ◌++◌, ◌==◌, units, decimal, decimal_fuel, length-append,
  ◌≡◌, refl, inl, inr, true, false, Option, some, List, [], subst, ◌∷◌, Text, arith, leb, ◌≤◌, ◌<◌,
  length, get_elem?, Bool-cases,
}
use pi_sliding_context_windo.Session.Message.{Message, is_tool_result, content_to_text}
use pi_sliding_context_windo.Session.Externalize.{
  Shares, Options, Pass, max_chars, floor_chars, gate, marker, preview, replace_archived, visit,
  visit_all, externalize_large_tool_results,
}
use pi_sliding_context_windo.Session.Externalize.Preview.{preview_lem}
use pi_sliding_context_windo.Session.Externalize.Forward.{start, externalize-visit_all}
use pi_sliding_context_windo.Session.Externalize.Accounting.{NotParts, content-replace}
use pi_sliding_context_windo.Session.Externalize.Outcome.{gate_bounds}

abbrev pub ten_to : ℕ → ℕ
ten_to zero = 1
ten_to (suc k) = 10 * ten_to k

length-decimal_fuel : (f k n : ℕ) → n < ten_to (suc k) → length (decimal_fuel f n) ≤ suc k
unfolding decimal_fuel
length-decimal_fuel zero k n h = omega arith
length-decimal_fuel (suc f) zero n h =
    let one : (n / 10 == 0) ≡ true = ground arith in rw one (omega arith)
length-decimal_fuel (suc f) (suc k) n h =
    let i : n / 10 < ten_to (suc k) = omega arith in
    let l = length-decimal_fuel f k (n / 10) i in
    elim (Bool-cases (n / 10 == 0)) [
      | inl one ↦ rw one (omega arith)
      | inr more ↦
          rw more (omega (arith, l, length-append (decimal_fuel f (n / 10)) ((n % 10 + 48) ∷ [])))
    ]

-- The fixed words of a marker, the digits of the number and the id.
pub length-marker :
    (id : Text) (n k : ℕ) → n < ten_to (suc k) → length (marker id n) ≤ 57 + suc k + length id
unfolding marker decimal
length-marker id n k h = omega (
  arith,
  length-append (decimal n)
      (units " characters archived as " ++ (id ++ units "; use context_recall …]\n\n")),
  length-append id (units "; use context_recall …]\n\n"),
  length-decimal_fuel (suc n) k n h,
)

-- Every request for a text within the limit is answered with an id, whose marker fits the lowest
-- gate.
abbrev pub Reliable : {S : Type 0} → (S → Message → Text → S × Option Text) → Options → ℕ → Type 0
Reliable {S} store o limit =
    (a : S) (m : Message) (t : Text)
    → length t ≤ limit
    → (c : ℕ) × (id : Text) × ((store a m t).1 ≡ some (c ∷ id))
      × (length (marker (c ∷ id) (length t)) ≤ floor_chars o)

module _ (sha256 : Text → Text) (s : Shares) {S : Type 0}
    (store : S → Message → Text → S × Option Text) (o : Options) (limit : ℕ)
    (reliable : Reliable store o limit) where
  -- An unprotected tool result within the limit that is no array of parts, and the bound on its
  -- new text.
  abbrev pub Bounded : ℕ → Message → Message → Type 0
  Bounded i m m' =
      is_tool_result m ≡ true
      → o.is_protected i ≡ false
      → NotParts m.content
      → length (content_to_text sha256 m.content) ≤ limit
      → length (content_to_text sha256 m'.content) ≤ max_chars o

  visit-Bounded : (i : ℕ) (m : Message) (p : Pass S) → Bounded i m (visit sha256 s store o i m p).1
  unfolding visit replace_archived
  visit-Bounded i m p t u n w =
      let text = content_to_text sha256 m.content in
      let g = gate o i p.admitted in
      let b = gate_bounds o i p.admitted in
      let (c, id, e, room) = reliable p.archive m text w in
      elim (Bool-cases (leb (length text) g)) [
        | inl small ↦ rw (t, u, small, visit) (ground arith)
        | inr large ↦
            let (_, _, _, _, _, fits) = preview_lem s o (c ∷ id) text g (ground arith) in
            let l : length (preview s o (c ∷ id) text g) ≤ g = elim fits [
              | inl k ↦ k
              | inr e ↦ omega (arith, ap length e)
            ] in
            rw
              (
                t,
                u,
                large,
                visit,
                e,
                content-replace sha256 m.content (preview s o (c ∷ id) text g) n,
              )
              (omega arith)
      ]

  visit_all-Bounded :
      (i k j : ℕ) (ms : List Message) (p : Pass S) (m : Message)
      → i + k ≡ j
      → get_elem? ms k ≡ some m
      → (m' : Message) × (get_elem? (visit_all sha256 s store o i ms p).1 k ≡ some m')
        × Bounded j m m'
  unfolding visit_all
  visit_all-Bounded i k j [] p m e g = absurd (ground arith)
  visit_all-Bounded i zero j (n ∷ ms) p m e g =
      let q : n ≡ m = cc in
      let i' : i ≡ j = omega arith in
      (
        (visit sha256 s store o i n p).1,
        refl,
        subst (λ x. Bounded j x (visit sha256 s store o i n p).1) q
            (subst (λ x. Bounded x n (visit sha256 s store o i n p).1) i' (visit-Bounded i n p)),
      )
  visit_all-Bounded i (suc k) j (n ∷ ms) p m e g =
      visit_all-Bounded (suc i) k j ms (visit sha256 s store o i n p).0 m (omega arith) g

  -- If the archive answers each text of at most `limit` characters with an id whose marker fits
  -- the lower gate, every unprotected tool result of at most that size that is no array of parts
  -- has at most the static limit of characters afterwards.
  pub externalize-Bounded :
      (a : S) (ms : List Message) (k : ℕ) (m : Message)
      → get_elem? ms k ≡ some m
      → is_tool_result m ≡ true
      → o.is_protected k ≡ false
      → NotParts m.content
      → length (content_to_text sha256 m.content) ≤ limit
      → (m' : Message) × (get_elem? (externalize_large_tool_results sha256 s store o a ms).1 k
          ≡ some m')
        × (length (content_to_text sha256 m'.content) ≤ max_chars o)
  externalize-Bounded a ms k m g t u n w =
      let (m', e, b) = visit_all-Bounded 0 k k ms (start a) m (omega arith) g in
      rw (externalize-visit_all sha256 s store o a ms) (m', e, b t u n w)
