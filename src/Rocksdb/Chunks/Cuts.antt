-- ===== src/Rocksdb/Chunks/Cuts.antt =====
-- Where the UTF-8 bytes of a well-formed string can be cut: not at a continuation byte.
use pi_sliding_context_windo.Common.{
  ℕ, zero, suc, ◌+◌, ◌-◌, ◌≤◌, ◌<◌, true, false, List, [], ◌∷◌, ◌++◌, ◌≡◌, ltb→lt, refl, sym, ap,
  ◌∙◌, ltb, arith, Bool-cases, inl, inr, length, append_assoc, length-append,
}
use mathlib.Core.Bool.{false≢true}
use pi_sliding_context_windo.Rocksdb.Utf8.{is_scalar, is_well_formed, encode_scalar, encode}
use pi_sliding_context_windo.Rocksdb.Chunks.{is_continuation_at, is_newline_at}
use pi_sliding_context_windo.Rocksdb.Chunks.Boundary.{IsUtf8}
use pi_sliding_context_windo.Rocksdb.Chunks.Characters.{
  encode_scalar-IsCharacter, continuation-past, newline-past, starts_own, character-inside,
  character-short_runs, character-behind_newline,
}

pub encode-append : (s t : List ℕ) → encode (s ++ t) ≡ encode s ++ encode t
unfolding encode
encode-append [] t = refl
encode-append (c ∷ s) t =
    ap (◌++◌ (encode_scalar c)) (encode-append s t)
    ∙ sym (append_assoc (encode_scalar c) (encode s) (encode t))

-- Where an index lies behind the first character, it is one of the others.
module _ (c : ℕ) (t : List ℕ) (i : ℕ) (behind : ltb i (length (encode_scalar c)) ≡ false) where
  abbrev later : ℕ
  later = i - length (encode_scalar c)

  continuation_later :
      (d : ℕ)
      → is_continuation_at (encode_scalar c ++ encode t) (i + d)
        ≡ is_continuation_at (encode t) (later + d)
  continuation_later d =
      continuation-past (encode_scalar c) (encode t) (i + d) (later + d) (ground (arith, behind))

  newline_later : is_newline_at (encode_scalar c ++ encode t) i ≡ is_newline_at (encode t) later
  newline_later = newline-past (encode_scalar c) (encode t) i later (ground (arith, behind))

encode-short_runs :
    (t : List ℕ) (i : ℕ)
    → is_well_formed t ≡ true
    → is_continuation_at (encode t) (i + 1) ≡ true
    → is_continuation_at (encode t) (i + 2) ≡ true
    → is_continuation_at (encode t) (i + 3) ≡ true
    → is_continuation_at (encode t) (i + 4) ≡ false
unfolding encode is_well_formed
encode-short_runs [] i w a b d = refl
encode-short_runs (c ∷ t) i w a b d =
    let u : is_well_formed t ≡ true = ground (arith, w) in
    elim (Bool-cases (ltb i (length (encode_scalar c)))) [
      | inl l ↦
          character-short_runs (encode_scalar c) (encode t)
            (encode_scalar-IsCharacter c (ground (arith, w))) (starts_own t u) i (ltb→lt _ _ l) a b
            d
      | inr l ↦
          let at = continuation_later c t i l in
          at 4
          ∙ encode-short_runs t (later c t i l) u (sym (at 1) ∙ a) (sym (at 2) ∙ b) (sym (at 3) ∙ d)
    ]

encode-behind_newline :
    (t : List ℕ) (i : ℕ)
    → is_well_formed t ≡ true
    → is_newline_at (encode t) i ≡ true
    → is_continuation_at (encode t) (i + 1) ≡ false
unfolding encode is_well_formed
encode-behind_newline [] i w e = refl
encode-behind_newline (c ∷ t) i w e =
    let u : is_well_formed t ≡ true = ground (arith, w) in
    elim (Bool-cases (ltb i (length (encode_scalar c)))) [
      | inl l ↦
          character-behind_newline (encode_scalar c) (encode t)
            (encode_scalar-IsCharacter c (ground (arith, w))) (starts_own t u) i (ltb→lt _ _ l) e
      | inr l ↦
          continuation_later c t i l 1
          ∙ encode-behind_newline t (later c t i l) u (sym (newline_later c t i l) ∙ e)
    ]

pub encode-IsUtf8 : (t : List ℕ) → is_well_formed t ≡ true → IsUtf8 (encode t)
encode-IsUtf8 t w = record {
  first = starts_own t w;
  short_runs = λ i a b c. encode-short_runs t i w a b c;
  behind_newline = λ i e. encode-behind_newline t i w e;
}

pub encode-positive :
    (c : ℕ) (t : List ℕ) → is_well_formed (c ∷ t) ≡ true → 0 < length (encode (c ∷ t))
unfolding encode is_well_formed
encode-positive c t w =
    let k = encode_scalar-IsCharacter c (ground (arith, w)) in
    omega (arith, length-append (encode_scalar c) (encode t), ap length k.form)

-- The two parts of a string whose bytes are cut.
pub record Parts (t : List ℕ) (i : ℕ) : Type 0 where
  pub front : List ℕ
  pub back : List ℕ
  pub joined : t ≡ front ++ back
  pub size : length (encode front) ≡ i
  pub front_well_formed : is_well_formed front ≡ true
  pub back_well_formed : is_well_formed back ≡ true

-- The bytes of a well-formed string are cut between two of its characters at any byte that is no
-- continuation byte.
pub cut_at :
    (t : List ℕ) (i : ℕ)
    → is_well_formed t ≡ true
    → i ≤ length (encode t)
    → is_continuation_at (encode t) i ≡ false
    → Parts t i
unfolding encode is_well_formed
cut_at t zero w l e = record {
  front = [];
  back = t;
  joined = refl;
  size = refl;
  front_well_formed = refl;
  back_well_formed = w;
}
cut_at [] (suc i) w l e = absurd (omega (arith, l))
cut_at (c ∷ t) (suc i) w l e =
    let u : is_well_formed t ≡ true = ground (arith, w) in
    let s : is_scalar c ≡ true = ground (arith, w) in
    elim (Bool-cases (ltb (suc i) (length (encode_scalar c)))) [
      | inl b ↦ absurd (
          false≢true (
            sym e
            ∙ character-inside (encode_scalar c) (encode t) (encode_scalar-IsCharacter c s)
                (starts_own t u) (suc i) (omega arith) (ltb→lt _ _ b)))
      | inr b ↦
          let j = later c t (suc i) b in
          let n = length-append (encode_scalar c) (encode t) in
          let p = cut_at t j u (ground (arith, l, n, b)) (
            sym (continuation-past (encode_scalar c) (encode t) (suc i) j (ground (arith, b)))
            ∙ e) in
          record {
            front = c ∷ p.front;
            back = p.back;
            joined = ap (◌∷◌ c) p.joined;
            size = length-append (encode_scalar c) (encode p.front) ∙ ground (arith, b, p.size);
            front_well_formed = ground (arith, s, p.front_well_formed);
            back_well_formed = p.back_well_formed;
          }
    ]
