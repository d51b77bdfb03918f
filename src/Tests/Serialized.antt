-- ===== src/Tests/Serialized.antt =====
-- A concrete writer and reader of values, in place of those of node:v8.
use pi_sliding_context_windo.Common.{
  ℕ, zero, suc, ◌≤◌, ◌<◌, ◌≡◌, refl, sym, ap, ◌∙◌, Option, none, some, [], ◌∷◌, ◌++◌, arith, length,
  take, drop, length-append, take-length-append, drop-length-append, append_assoc, append-nil,
}
use pi_sliding_context_windo.Rocksdb.PostingLocator.{Bytes}
use pi_sliding_context_windo.Rocksdb.PostingBlock.Wire.{
  Value, Values, number, string, nothing, other, array, nil, cons,
}

mutual
  pub write : Value ℕ → Bytes
  write (number n) = 0 ∷ n ∷ []
  write (string s) = 1 ∷ length s ∷ s
  write nothing = 2 ∷ []
  write other = 3 ∷ []
  write (array vs) = 4 ∷ write_all vs

  pub write_all : Values ℕ → Bytes
  write_all nil = 0 ∷ []
  write_all (cons v vs) = 1 ∷ (write v ++ write_all vs)

mutual
  read : ℕ → Bytes → Option (Value ℕ × Bytes)
  read (suc f) (zero ∷ n ∷ b) = some (number n, b)
  read (suc f) (suc zero ∷ n ∷ b) = some (string (take n b), drop n b)
  read (suc f) (suc (suc zero) ∷ b) = some (nothing, b)
  read (suc f) (suc (suc (suc zero)) ∷ b) = some (other, b)
  read (suc f) (suc (suc (suc (suc zero))) ∷ b) = elim (read_all f b) [
    | none ↦ none
    | some x ↦ some (array x.0, x.1)
  ]
  read _ _ = none

  read_all : ℕ → Bytes → Option (Values ℕ × Bytes)
  read_all (suc f) (zero ∷ b) = some (nil, b)
  read_all (suc f) (suc zero ∷ b) = elim (read f b) [
    | none ↦ none
    | some x ↦ elim (read_all f x.1) [ none ↦ none | some y ↦ some (cons x.0 y.0, y.1) ]
  ]
  read_all _ _ = none

mutual
  unfolding write write_all read read_all

  read-write :
      (v : Value ℕ) (f : ℕ) (r : Bytes) → length (write v) ≤ f → read f (write v ++ r) ≡ some (v, r)
  read-write (number n) zero r h = absurd (omega arith)
  read-write (string s) zero r h = absurd (omega arith)
  read-write nothing zero r h = absurd (omega arith)
  read-write other zero r h = absurd (omega arith)
  read-write (array vs) zero r h = absurd (omega arith)
  read-write (number n) (suc f) r h = refl
  read-write (string s) (suc f) r h = rw (take-length-append s r, drop-length-append s r) refl
  read-write nothing (suc f) r h = refl
  read-write other (suc f) r h = refl
  read-write (array vs) (suc f) r h = rw (read_all-write vs f r (omega arith)) refl

  read_all-write :
      (vs : Values ℕ) (f : ℕ) (r : Bytes)
      → length (write_all vs) ≤ f
      → read_all f (write_all vs ++ r) ≡ some (vs, r)
  read_all-write nil zero r h = absurd (omega arith)
  read_all-write (cons v vs) zero r h = absurd (omega arith)
  read_all-write nil (suc f) r h = refl
  read_all-write (cons v vs) (suc f) r h =
      let l = length-append (write v) (write_all vs) in
      rw
        (
          append_assoc (write v) (write_all vs) r,
          read-write v f (write_all vs ++ r) (omega (arith, l)),
          read_all-write vs f r (omega (arith, l)),
        )
        refl

abbrev value_of : Option (Value ℕ × Bytes) → Option (Value ℕ)
value_of none = none
value_of (some x) = some x.0

pub read_back : Bytes → Option (Value ℕ)
read_back b = value_of (read (length b) b)

pub read_back-write : (v : Value ℕ) → read_back (write v) ≡ some v
unfolding read_back
read_back-write v =
    let e : read (length (write v)) (write v) ≡ some (v, []) =
      ap (read (length (write v))) (sym (append-nil (write v)))
      ∙ read-write v (length (write v)) [] (omega arith) in
    rw e refl

pub write-pos : (v : Value ℕ) → 0 < length (write v)
unfolding write
write-pos (number n) = omega arith
write-pos (string s) = omega arith
write-pos nothing = omega arith
write-pos other = omega arith
write-pos (array vs) = omega arith
