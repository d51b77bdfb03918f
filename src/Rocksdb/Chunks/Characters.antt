-- ===== src/Rocksdb/Chunks/Characters.antt =====
-- The bytes of one character of a well-formed string, and the bytes behind it.
use pi_sliding_context_windo.Common.{
  ℕ, zero, suc, ◌+◌, ◌/◌, ◌%◌, ◌≤◌, ◌<◌, Bool, true, false, ◌&&◌, List, [], ◌∷◌, ◌++◌, ◌≡◌, ◌≢◌,
  refl, sym, ap, ◌∙◌, ltb, leb, ◌==◌, arith, Bool-cases, inl, inr, length, All,
}
use mathlib.Core.Bool.{false≢true}
use pi_sliding_context_windo.Rocksdb.Utf8.{is_scalar, is_well_formed, encode_scalar, encode}
use pi_sliding_context_windo.Rocksdb.Chunks.{is_continuation_at, is_newline_at}

abbrev is_continuation : ℕ → Bool
is_continuation b = leb 128 b && ltb b 192

-- A character is a byte of its own and at most three continuation bytes, and a newline has none.
pub record IsCharacter (bytes : List ℕ) : Type 0 where
  pub first : ℕ
  pub others : List ℕ
  pub form : bytes ≡ first ∷ others
  pub own : is_continuation first ≡ false
  pub continued : All (λ b. is_continuation b ≡ true) others
  pub few : length others ≤ 3
  pub newline_alone : first ≡ 10 → length others ≡ 0

pub encode_scalar-IsCharacter : (c : ℕ) → is_scalar c ≡ true → IsCharacter (encode_scalar c)
unfolding encode_scalar
encode_scalar-IsCharacter c s = elim (Bool-cases (ltb c 128)) [
  | inl a ↦ rw a (record {
    first = c;
    others = [];
    form = refl;
    own = ground (arith, a);
    continued = tt;
    few = omega arith;
    newline_alone = λ e. refl;
  })
  | inr a ↦ elim (Bool-cases (ltb c 2048)) [
    | inl b ↦
        rw (a, b)
          (record {
            first = 192 + c / 64;
            others = (128 + c % 64) ∷ [];
            form = refl;
            own = ground arith;
            continued = (ground arith, tt);
            few = omega arith;
            newline_alone = λ e. absurd (omega (arith, e));
          })
    | inr b ↦ elim (Bool-cases (ltb c 65536)) [
      | inl d ↦
          rw (a, b, d)
            (record {
              first = 224 + c / 4096;
              others = (128 + c / 64 % 64) ∷ (128 + c % 64) ∷ [];
              form = refl;
              own = ground arith;
              continued = (ground arith, (ground arith, tt));
              few = omega arith;
              newline_alone = λ e. absurd (omega (arith, e));
            })
      | inr d ↦
          rw (a, b, d)
            (record {
              first = 240 + c / 262144;
              others = (128 + c / 4096 % 64) ∷ (128 + c / 64 % 64) ∷ (128 + c % 64) ∷ [];
              form = refl;
              own = ground arith;
              continued = (ground arith, (ground arith, (ground arith, tt)));
              few = omega arith;
              newline_alone = λ e. absurd (omega (arith, e));
            })
    ]
  ]
]

pub continuation-past :
    (xs ys : List ℕ) (i j : ℕ)
    → i ≡ length xs + j
    → is_continuation_at (xs ++ ys) i ≡ is_continuation_at ys j
continuation-past [] ys i j e = ap (is_continuation_at ys) (omega (arith, e))
continuation-past (x ∷ xs) ys zero j e = absurd (omega (arith, e))
continuation-past (x ∷ xs) ys (suc i) j e = continuation-past xs ys i j (omega (arith, e))

pub newline-past :
    (xs ys : List ℕ) (i j : ℕ) → i ≡ length xs + j → is_newline_at (xs ++ ys) i ≡ is_newline_at ys j
newline-past [] ys i j e = ap (is_newline_at ys) (omega (arith, e))
newline-past (x ∷ xs) ys zero j e = absurd (omega (arith, e))
newline-past (x ∷ xs) ys (suc i) j e = newline-past xs ys i j (omega (arith, e))

continuation-inside :
    (xs ys : List ℕ) (i : ℕ)
    → All (λ b. is_continuation b ≡ true) xs
    → i < length xs
    → is_continuation_at (xs ++ ys) i ≡ true
continuation-inside [] ys i a l = absurd (omega (arith, l))
continuation-inside (x ∷ xs) ys zero a l = a.0
continuation-inside (x ∷ xs) ys (suc i) a l = continuation-inside xs ys i a.1 (omega (arith, l))

continuation_no_newline :
    (bytes : List ℕ) (i : ℕ) → is_continuation_at bytes i ≡ true → is_newline_at bytes i ≡ false
continuation_no_newline [] i c = absurd (cc)
continuation_no_newline (b ∷ bytes) zero c = ground (arith, c)
continuation_no_newline (b ∷ bytes) (suc i) c = continuation_no_newline bytes i c

pub starts_own : (t : List ℕ) → is_well_formed t ≡ true → is_continuation_at (encode t) 0 ≡ false
unfolding encode is_well_formed
starts_own [] w = refl
starts_own (c ∷ t) w = let k = encode_scalar-IsCharacter c (ground (arith, w)) in rw k.form k.own

-- The bytes at the places of the first character, and behind them those of the others.
module _ (bytes rest : List ℕ) (k : IsCharacter bytes)
    (rest_own : is_continuation_at rest 0 ≡ false) where
  pub character-inside :
      (i : ℕ) → 0 < i → i < length bytes → is_continuation_at (bytes ++ rest) i ≡ true
  character-inside zero p l = absurd (omega (arith, p))
  character-inside (suc i) p l =
      let n : length bytes ≡ suc (length k.others) = ap length k.form in
      rw k.form (continuation-inside k.others rest i k.continued (omega (arith, l, n)))

  character-end : (j : ℕ) → length bytes ≡ j → is_continuation_at (bytes ++ rest) j ≡ false
  character-end j e = continuation-past bytes rest j 0 (omega (arith, e)) ∙ rest_own

  not_end : (j : ℕ) → is_continuation_at (bytes ++ rest) j ≡ true → length bytes ≢ j
  not_end j c e = false≢true (sym (character-end j e) ∙ c)

  pub character-short_runs :
      (i : ℕ)
      → i < length bytes
      → is_continuation_at (bytes ++ rest) (i + 1) ≡ true
      → is_continuation_at (bytes ++ rest) (i + 2) ≡ true
      → is_continuation_at (bytes ++ rest) (i + 3) ≡ true
      → is_continuation_at (bytes ++ rest) (i + 4) ≡ false
  character-short_runs i l a b c =
      let n : length bytes ≡ suc (length k.others) = ap length k.form in
      character-end (i + 4)
        (omega (arith, l, n, k.few, not_end (i + 1) a, not_end (i + 2) b, not_end (i + 3) c))

  pub character-behind_newline :
      (i : ℕ)
      → i < length bytes
      → is_newline_at (bytes ++ rest) i ≡ true
      → is_continuation_at (bytes ++ rest) (i + 1) ≡ false
  character-behind_newline zero l e =
      let n : length bytes ≡ suc (length k.others) = ap length k.form in
      let first : (k.first == 10) ≡ true = ap (λ x. is_newline_at (x ++ rest) 0) (sym k.form) ∙ e in
      let z = k.newline_alone (ground (arith, first)) in character-end (0 + 1) (omega (arith, n, z))
  character-behind_newline (suc i) l e =
      let c = character-inside (suc i) (omega arith) l in
      absurd (false≢true (sym (continuation_no_newline (bytes ++ rest) (suc i) c) ∙ e))
