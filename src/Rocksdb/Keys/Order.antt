-- ===== src/Rocksdb/Keys/Order.antt =====
-- The bytewise order that RocksDB scans in, and the successor of a prefix of src/rocksdb/keys.js.
use pi_sliding_context_windo.Common.{
  ◌≡◌, refl, inl, inr, Bool, true, false, none, some, [], ◌∷◌, ◌&&◌, ◌||◌, arith, ltb, ◌==◌, All,
  Option-cases,
}
use pi_sliding_context_windo.Rocksdb.PostingLocator.{Bytes}
use pi_sliding_context_windo.Rocksdb.PostingLocator.Words.{IsByte}
use pi_sliding_context_windo.Rocksdb.Keys.{prefix_successor}

-- Bytewise, and a proper prefix first.
abbrev pub bytes_lt : Bytes → Bytes → Bool
bytes_lt s [] = false
bytes_lt [] (y ∷ t) = true
bytes_lt (x ∷ s) (y ∷ t) = ltb x y || (x == y && bytes_lt s t)

abbrev pub bytes_le : Bytes → Bytes → Bool
bytes_le [] t = true
bytes_le (x ∷ s) [] = false
bytes_le (x ∷ s) (y ∷ t) = ltb x y || (x == y && bytes_le s t)

abbrev pub starts_with : Bytes → Bytes → Bool
starts_with [] k = true
starts_with (x ∷ p) [] = false
starts_with (x ∷ p) (y ∷ k) = x == y && starts_with p k

-- Of a prefix of 0xff bytes nothing but its extensions is at or above it.
starts_with-top :
    (p k : Bytes) → All IsByte k → prefix_successor p ≡ none → bytes_le p k ≡ starts_with p k
unfolding prefix_successor
starts_with-top [] k h e = refl
starts_with-top (x ∷ p) [] h e = refl
starts_with-top (x ∷ p) (y ∷ k) h e = elim (Option-cases (prefix_successor p)) [
  | inr (s, f) ↦ absurd (ground arith)
  | inl f ↦ ground (arith, starts_with-top p k h.1 f)
]

-- From a prefix up to its successor lie exactly the extensions of the prefix.
pub prefix_successor_lem :
    (p k end : Bytes)
    → All IsByte k
    → prefix_successor p ≡ some end
    → (bytes_le p k && bytes_lt k end) ≡ starts_with p k
unfolding prefix_successor
prefix_successor_lem [] k end h e = absurd (ground arith)
prefix_successor_lem (x ∷ p) [] end h e = refl
prefix_successor_lem (x ∷ p) (y ∷ k) end h e = elim (Option-cases (prefix_successor p)) [
  | inr (s, f) ↦ ground (arith, prefix_successor_lem p k s h.1 f)
  | inl f ↦ ground (arith, starts_with-top p k h.1 f)
]
