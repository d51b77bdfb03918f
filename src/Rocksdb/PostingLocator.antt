-- ===== src/Rocksdb/PostingLocator.antt =====
-- src/rocksdb/index/posting-locator.js: the binary alias to canonical posting keys.
-- The decoder's offset into the bytes stands here as the bytes from that offset on.
pub mod Words
pub mod RoundTrip
use pi_sliding_context_windo.Common.{
  ℕ, zero, suc, ◌+◌, ◌*◌, ◌/◌, ◌%◌, Bool, true, false, not, Option, none, some, List, [], ◌∷◌, ◌++◌,
  ◌&&◌, ◌||◌, Text, units, if◌then◌else◌, ltb, leb, ◌==◌, text_eq, length, take, drop,
}

abbrev pub Bytes : Type 0
Bytes = List ℕ

pub data DecodeError : Type 0 where
  unsupported_kind invalid_key invalid_count unknown_format unsupported_version : DecodeError
  wrong_kind truncated invalid_length trailing_bytes : DecodeError

-- An exception ends the decoding, with no value.
pub data Result {u} (V : Type u) : Type u where
  err : DecodeError → Result V
  ok : V → Result V

infixl 5 ◌>>=◌ ◌>>◌
abbrev pub ◌>>=◌ {u w} : {V : Type u} {W : Type w} → Result V → (V → Result W) → Result W
err e >>= next = err e
ok value >>= next = next value

abbrev pub ◌>>◌ {w} : {W : Type w} → Result (Unit {0}) → Result W → Result W
first >> next = first >>= λ done. next

-- `if (!test) throw`
abbrev pub require : Bool → DecodeError → Result (Unit {0})
require false e = err e
require true e = ok tt

abbrev pub magic : Bytes
magic = units "CWPOSTL1"

abbrev pub format_version : ℕ
format_version = 1

abbrev pub header_bytes : ℕ
header_bytes = 14

abbrev pub max_targets : ℕ
max_targets = 1024

abbrev pub max_target_key_bytes : ℕ
max_target_key_bytes = 1048576

-- `BM25_SESSION` is 1 and `EXACT_FOLDED` is 2.
abbrev pub is_locator_kind : ℕ → Bool
is_locator_kind k = k == 1 || k == 2

-- `writeUInt32BE` of a number below 2 ^ 32, and `readUInt32BE` at the head of the bytes.
unfoldable pub write_u32 : ℕ → Bytes
write_u32 n = n / 16777216 ∷ n / 65536 % 256 ∷ n / 256 % 256 ∷ n % 256 ∷ []

unfoldable pub read_u32 : Bytes → Option (ℕ × Bytes)
read_u32 (a ∷ b ∷ c ∷ d ∷ rest) = some (a * 16777216 + b * 65536 + c * 256 + d, rest)
read_u32 _ = none

-- `targetKey`
abbrev pub is_target_key : Bytes → Bool
is_target_key t = not (length t == 0) && leb (length t) max_target_key_bytes

abbrev pub all_target_keys : List Bytes → Bool
all_target_keys [] = true
all_target_keys (t ∷ ts) = is_target_key t && all_target_keys ts

unfoldable pub encode_targets : List Bytes → Bytes
encode_targets [] = []
encode_targets (t ∷ ts) = write_u32 (length t) ++ (t ++ encode_targets ts)

unfoldable pub encode_posting_locator : ℕ → List Bytes → Result Bytes
encode_posting_locator kind targets = do
  require (is_locator_kind kind) unsupported_kind
  require (not (length targets == 0) && leb (length targets) max_targets) invalid_count
  require (all_target_keys targets) invalid_key
  ok (magic ++ format_version ∷ kind ∷ (write_u32 (length targets) ++ encode_targets targets))

-- One target at the head of the bytes.
unfoldable pub decode_target : Bytes → Result (Bytes × Bytes)
decode_target bytes = elim (read_u32 bytes) [
  | none ↦ err truncated
  | some (n, rest) ↦
      if n == 0 || ltb max_target_key_bytes n || ltb (length rest) n
      then err invalid_length
      else ok (take n rest, drop n rest)
]

-- The loop over the targets, and the check behind it.
unfoldable pub decode_targets : ℕ → Bytes → Result (List Bytes)
decode_targets zero [] = ok []
decode_targets zero (b ∷ bytes) = err trailing_bytes
decode_targets (suc n) bytes =
    decode_target bytes >>= λ d. decode_targets n d.1 >>= λ ts. ok (d.0 ∷ ts)

pub record Locator : Type 0 where
  pub version : ℕ
  pub kind : ℕ
  pub targets : List Bytes

abbrev pub expects : Option ℕ → ℕ → Result (Unit {0})
expects none kind = ok tt
expects (some k) kind = do
  require (is_locator_kind k) unsupported_kind
  require (kind == k) wrong_kind

-- Behind the count of targets.
unfoldable pub decode_counted : ℕ → ℕ → ℕ → Bytes → Result Locator
decode_counted version kind count bytes = do
  require (not (count == 0 || ltb max_targets count)) invalid_count
  targets ← decode_targets count bytes
  ok (record { version = version; kind = kind; targets = targets })

-- Behind the magic number.
unfoldable pub decode_body : Option ℕ → Bytes → Result Locator
decode_body expected (version ∷ kind ∷ bytes) = do
  require (version == format_version) unsupported_version
  require (is_locator_kind kind) unsupported_kind
  expects expected kind
  elim (read_u32 bytes) [
    | none ↦ err unknown_format
    | some (count, rest) ↦ decode_counted version kind count rest
  ]
decode_body expected _ = err unknown_format

unfoldable pub decode_posting_locator : Bytes → Option ℕ → Result Locator
decode_posting_locator bytes expected = do
  require (not (ltb (length bytes) header_bytes) && text_eq (take 8 bytes) magic) unknown_format
  decode_body expected (drop 8 bytes)

unfoldable pub is_posting_locator : Bytes → Bool
is_posting_locator bytes = leb 8 (length bytes) && text_eq (take 8 bytes) magic
