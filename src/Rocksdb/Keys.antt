-- ===== src/Rocksdb/Keys.antt =====
-- src/rocksdb/keys.js: keys as versioned binary tuples, and the bounds of a tuple prefix. A string
-- field stands here as its UTF-8 bytes; what bytes that are no UTF-8 are decoded to is left out. An
-- integer field is a natural number, so that the test for a negative one is not seen; the order of
-- RocksDB is the bytewise one of `bytes_lt`.
pub mod Order
pub mod RoundTrip
pub mod Scan
use pi_sliding_context_windo.Common.{
  ℕ, zero, suc, ◌+◌, ◌*◌, ◌/◌, ◌%◌, Bool, true, false, not, Option, none, some, List, [], ◌∷◌, ◌++◌,
  ◌&&◌, ◌||◌, if◌then◌else◌, ltb, leb, ◌==◌, length, take, drop,
}
use pi_sliding_context_windo.Common.Results.{Result, ok, throw, ◌>>=◌, ◌>>◌, throw_if}
use pi_sliding_context_windo.Rocksdb.PostingLocator.{Bytes, write_u32, read_u32}

pub data KeyError : Type 0 where
  length_range integer_range no_fields too_long unsupported_version : KeyError
  truncated_length truncated_field truncated_integer unknown_tag no_upper_bound out_of_fuel :
      KeyError

pub data Field : Type 0 where
  text bytes : Bytes → Field
  unsigned : ℕ → Field
  boolean : Bool → Field
  null : Field

abbrev pub key_format_version : ℕ
key_format_version = 1

abbrev pub max_key_bytes : ℕ
max_key_bytes = 1048576

abbrev pub max_u32 : ℕ
max_u32 = 0xffff_ffff

abbrev pub max_u64 : ℕ
max_u64 = 0xffff_ffff_ffff_ffff

abbrev pub Outcome : Type 0 → Type 0
Outcome A = Result KeyError A

unfoldable pub length_prefix : ℕ → Outcome Bytes
length_prefix n = do throw_if (ltb max_u32 n) length_range; ok (write_u32 n)

-- `writeBigUInt64BE`: the high word, then the low word.
unfoldable pub integer_bytes : ℕ → Outcome Bytes
integer_bytes n = do
  throw_if (ltb max_u64 n) integer_range
  ok (write_u32 (n / 4294967296) ++ write_u32 (n % 4294967296))

unfoldable pub encode_field : Field → Outcome Bytes
encode_field (text b) = do prefix ← length_prefix (length b); ok (0x10 ∷ (prefix ++ b))
encode_field (bytes b) = do prefix ← length_prefix (length b); ok (0x11 ∷ (prefix ++ b))
encode_field (unsigned n) = do word ← integer_bytes n; ok (0x12 ∷ word)
encode_field (boolean false) = ok (0x13 ∷ [])
encode_field (boolean true) = ok (0x14 ∷ [])
encode_field null = ok (0x15 ∷ [])

-- `parts.map(encodeField)`, joined.
unfoldable pub encode_fields : List Field → Outcome Bytes
encode_fields [] = ok []
encode_fields (f ∷ fs) = encode_field f >>= λ b. encode_fields fs >>= λ rest. ok (b ++ rest)

unfoldable pub encode_key : List Field → Outcome Bytes
encode_key [] = throw no_fields
encode_key (f ∷ fs) = do
  fields ← encode_fields (f ∷ fs)
  throw_if (ltb max_key_bytes (suc (length fields))) too_long
  ok (key_format_version ∷ fields)

-- What follows the version byte.
unfoldable pub require_bytes : Bytes → Outcome Bytes
require_bytes [] = throw unsupported_version
require_bytes (v ∷ rest) = do throw_if (not (v == key_format_version)) unsupported_version; ok rest

-- A length and as many bytes.
unfoldable pub read_delimited : Bytes → Outcome (Bytes × Bytes)
read_delimited b = elim (read_u32 b) [
  | none ↦ throw truncated_length
  | some (n, rest) ↦
      if ltb (length rest) n then throw truncated_field else ok (take n rest, drop n rest)
]

unfoldable pub read_integer : Bytes → Outcome (ℕ × Bytes)
read_integer b = elim (read_u32 b) [
  | none ↦ throw truncated_integer
  | some (high, rest) ↦ elim (read_u32 rest) [
    | none ↦ throw truncated_integer
    | some (low, after) ↦ ok (high * 4294967296 + low, after)
  ]
]

-- One round of the decoder: a field behind its tag, and the bytes behind the field.
unfoldable pub decode_field : ℕ → Bytes → Outcome (Field × Bytes)
decode_field tag b =
    if tag == 0x10
    then read_delimited b >>= (λ d. ok (text d.0, d.1))
    else if tag == 0x11
    then read_delimited b >>= (λ d. ok (bytes d.0, d.1))
    else if tag == 0x12
    then read_integer b >>= (λ d. ok (unsigned d.0, d.1))
    else if tag == 0x13
    then ok (boolean false, b)
    else if tag == 0x14
    then ok (boolean true, b)
    else if tag == 0x15
    then ok (null, b)
    else throw unknown_tag

-- The loop, on fuel: a round consumes a tag.
unfoldable pub decode_fields : ℕ → Bytes → Outcome (List Field)
decode_fields fuel [] = ok []
decode_fields zero (tag ∷ b) = throw out_of_fuel
decode_fields (suc fuel) (tag ∷ b) =
    decode_field tag b >>= λ d. decode_fields fuel d.1 >>= λ fs. ok (d.0 ∷ fs)

unfoldable pub decode_key : Bytes → Outcome (List Field)
decode_key b = require_bytes b >>= λ rest. decode_fields (length rest) rest

-- The last byte that is not 0xff is raised, and what follows it is cut off.
unfoldable pub prefix_successor : Bytes → Option Bytes
prefix_successor [] = none
prefix_successor (b ∷ rest) = elim (prefix_successor rest) [
  | some s ↦ some (b ∷ s)
  | none ↦ if b == 255 then none else some (suc b ∷ [])
]

unfoldable pub prefix_bounds : List Field → Outcome (Bytes × Bytes)
prefix_bounds parts = do
  start ← encode_key parts
  elim (prefix_successor start) [ none ↦ throw no_upper_bound | some end ↦ ok (start, end) ]

unfoldable pub encoded_key : Bytes → Outcome Bytes
encoded_key b = do checked ← decode_key b; ok b
