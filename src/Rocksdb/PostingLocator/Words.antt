-- ===== src/Rocksdb/PostingLocator/Words.antt =====
-- The 32-bit words of src/rocksdb/index/posting-locator.js.
use pi_sliding_context_windo.Common.{
  ℕ, ◌+◌, ◌*◌, ◌/◌, ◌%◌, ◌<◌, ◌≡◌, ap, some, [], ◌∷◌, ◌++◌, arith, All,
}
use pi_sliding_context_windo.Rocksdb.PostingLocator.{Bytes, write_u32, read_u32}

-- A byte.
abbrev pub IsByte : ℕ → Type 0
IsByte b = b < 256

pub read-write : (n : ℕ) (rest : Bytes) → read_u32 (write_u32 n ++ rest) ≡ some (n, rest)
unfolding read_u32 write_u32
read-write n rest = ap (λ m. some (m, rest)) (omega arith)

-- A word that was read is the one that is written for its value.
pub write-read :
    (bytes : Bytes) (n : ℕ) (rest : Bytes)
    → All IsByte bytes
    → read_u32 bytes ≡ some (n, rest)
    → (bytes ≡ write_u32 n ++ rest) × All IsByte rest
unfolding read_u32 write_u32
write-read [] n rest h e = absurd (ground arith)
write-read (a ∷ []) n rest h e = absurd (ground arith)
write-read (a ∷ b ∷ []) n rest h e = absurd (ground arith)
write-read (a ∷ b ∷ c ∷ []) n rest h e = absurd (ground arith)
write-read (a ∷ b ∷ c ∷ d ∷ bytes) n rest h e =
    let v : n ≡ a * 16777216 + b * 65536 + c * 256 + d = ground arith in
    let r : rest ≡ bytes = ground arith in
    let p : a ≡ n / 16777216 = omega arith in
    let q : b ≡ n / 65536 % 256 = omega arith in
    let s : c ≡ n / 256 % 256 = omega arith in
    let t : d ≡ n % 256 = omega arith in (cc, rw r h.1.1.1.1)
