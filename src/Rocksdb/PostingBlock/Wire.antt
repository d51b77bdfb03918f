-- ===== src/Rocksdb/PostingBlock/Wire.antt =====
-- The values that node:v8 serializes for src/rocksdb/index/posting-block.js.
use pi_sliding_context_windo.Common.{ℕ, suc, ◌≡◌, refl, Option, none, some, List, [], ◌∷◌}
use pi_sliding_context_windo.Rocksdb.PostingLocator.{Bytes}

mutual
  pub data Value (N : Type 0) : Type 0 where
    number : N → Value N
    string : Bytes → Value N
    -- null
    nothing : Value N
    array : Values N → Value N
    -- a boolean, an object or anything else but undefined, which no encoder writes
    other : Value N

  pub data Values (N : Type 0) : Type 0 where
    nil : Values N
    cons : Value N → Values N → Values N

module _ {N : Type 0} where
  abbrev pub count_values : Values N → ℕ
  count_values nil = 0
  count_values (cons v vs) = suc (count_values vs)

  abbrev pub texts : List Bytes → Values N
  texts [] = nil
  texts (s ∷ ss) = cons (string s) (texts ss)

  abbrev pub numbers : List N → Values N
  numbers [] = nil
  numbers (n ∷ ns) = cons (number n) (numbers ns)

  abbrev pub nullable : Option Bytes → Value N
  nullable none = nothing
  nullable (some s) = string s

  -- `none` is a value of another shape.
  abbrev pub texts_of : Values N → Option (List Bytes)
  texts_of nil = some []
  texts_of (cons (string s) vs) = elim (texts_of vs) [ none ↦ none | some ss ↦ some (s ∷ ss) ]
  texts_of (cons _ vs) = none

  abbrev pub numbers_of : Values N → Option (List N)
  numbers_of nil = some []
  numbers_of (cons (number n) vs) = elim (numbers_of vs) [ none ↦ none | some ns ↦ some (n ∷ ns) ]
  numbers_of (cons _ vs) = none

  abbrev pub nullable_of : Value N → Option (Option Bytes)
  nullable_of nothing = some none
  nullable_of (string s) = some (some s)
  nullable_of _ = none

module _ (N : Type 0) where
  pub texts_of-texts : (ss : List Bytes) → texts_of {N = N} (texts ss) ≡ some ss
  texts_of-texts [] = refl
  texts_of-texts (s ∷ ss) = rw (texts_of-texts ss) refl

  pub numbers_of-numbers : (ns : List N) → numbers_of (numbers ns) ≡ some ns
  numbers_of-numbers [] = refl
  numbers_of-numbers (n ∷ ns) = rw (numbers_of-numbers ns) refl

  pub nullable_of-nullable : (o : Option Bytes) → nullable_of {N = N} (nullable o) ≡ some o
  nullable_of-nullable none = refl
  nullable_of-nullable (some s) = refl
