-- ===== src/Rocksdb/PostingBlock.antt =====
-- src/rocksdb/index/posting-block.js: the binary form of BM25 and exact postings.
-- A string stands here as its UTF-8 bytes. Numbers are the parameter `N`, with the two tests that the
-- code makes of them; `serialize` and `deserialize` are those of node:v8. Every error of the two
-- codecs behind the header is one TypeError, so that the order of the checks is not seen.
pub mod Wire
pub mod Layout
pub mod RoundTrip
pub mod Foreign
use pi_sliding_context_windo.Common.{
  ℕ, suc, ◌+◌, ◌*◌, Bool, true, false, not, Option, none, some, List, [], ◌∷◌, ◌++◌, ◌&&◌, ◌||◌,
  units, if◌then◌else◌, ltb, leb, ◌==◌, text_eq, length, take, drop,
}
use pi_sliding_context_windo.Common.Results.{Result, ok, throw, ◌>>=◌, ◌>>◌, throw_if}
use pi_sliding_context_windo.Rocksdb.PostingLocator.{Bytes}
use pi_sliding_context_windo.Rocksdb.PostingBlock.Wire.{Value, Values, array, count_values}
use pi_sliding_context_windo.Rocksdb.PostingBlock.Layout.{
  Bm25Posting, Match, ExactPosting, bm25_fields, exact_fields, bm25_of, exact_of,
}

pub data BlockError : Type 0 where
  unknown_format unsupported_version wrong_type malformed : BlockError

abbrev pub block_magic : Bytes
block_magic = units "CWPBLK01"

abbrev pub block_version : ℕ
block_version = 1

abbrev pub type_bm25 : ℕ
type_bm25 = 1

abbrev pub type_exact : ℕ
type_exact = 2

abbrev pub block_header_bytes : ℕ
block_header_bytes = 10

abbrev pub max_collection_items : ℕ
max_collection_items = 100000

abbrev pub max_string_bytes : ℕ
max_string_bytes = 16777216

-- `string`, `nullableString` and `strings`.
abbrev pub is_bounded : Bytes → Bool
is_bounded s = leb (length s) max_string_bytes

abbrev pub is_bounded_or_null : Option Bytes → Bool
is_bounded_or_null none = true
is_bounded_or_null (some s) = is_bounded s

abbrev pub all_bounded : List Bytes → Bool
all_bounded [] = true
all_bounded (s ∷ ss) = is_bounded s && all_bounded ss

abbrev pub are_strings : List Bytes → Bool
are_strings ss = leb (length ss) max_collection_items && all_bounded ss

unfoldable pub is_posting_block : Bytes → Bool
is_posting_block b = leb 8 (length b) && text_eq (take 8 b) block_magic

module _ {N : Type 0} (is_count is_finite : N → Bool) where
  abbrev pub all_counts : List N → Bool
  all_counts [] = true
  all_counts (n ∷ ns) = is_count n && all_counts ns

  unfoldable pub is_bm25_posting : Bm25Posting N → Bool
  is_bm25_posting p =
      all_counts (
        p.bm25_posting_version ∷ p.tokenizer_version ∷ p.generation ∷ p.document_version
        ∷ p.created_at ∷ p.bucket ∷ p.window.ordinal ∷ p.window.start_byte ∷ p.window.end_byte
        ∷ p.window.length_tokens ∷ p.window.term_frequency ∷ [])
      && is_finite p.window.weighted_length
      && is_finite p.window.weighted_term_frequency
      && leb (length p.window.position_deltas) (max_collection_items * 3)
      && all_counts p.window.position_deltas
      && all_bounded (p.project ∷ p.term ∷ p.document_id ∷ p.kind ∷ p.session_id ∷ [])
      && are_strings p.source_message_keys
      && is_bounded_or_null p.turn_id

  abbrev pub all_matches : List (Match N) → Bool
  all_matches [] = true
  all_matches (m ∷ ms) =
      all_bounded (m.type_name ∷ m.value ∷ [])
      && all_counts (m.start_byte ∷ m.end_byte ∷ [])
      && is_finite m.specificity
      && all_matches ms

  unfoldable pub is_exact_posting : ExactPosting N → Bool
  is_exact_posting p =
      leb (length p.matches) max_collection_items
      && all_counts (
          p.posting_version ∷ p.generation ∷ p.source_version ∷ p.bucket ∷ p.created_at
          ∷ p.document_version ∷ p.window_ordinal ∷ p.window_start_byte ∷ p.window_end_byte ∷ [])
      && all_bounded (
          p.project ∷ p.session_id ∷ p.document_id ∷ p.document_kind ∷ p.source_key ∷ p.case_mode
          ∷ p.normalized_term ∷ [])
      && is_bounded_or_null p.source_key_status
      && are_strings p.source_message_keys
      && is_bounded_or_null p.turn_id
      && all_matches p.matches

-- A value of the right shape that passes the checks.
unfoldable pub checked : {P : Type 0} → (P → Bool) → Option P → Result BlockError P
checked test none = throw malformed
checked test (some p) = if test p then ok p else throw malformed

module _ {N : Type 0} (serialize : Value N → Bytes) where
  unfoldable pub encode_block : ℕ → Values N → Bytes
  encode_block type fields = block_magic ++ (block_version ∷ type ∷ serialize (array fields))

  module _ (is_count is_finite : N → Bool) where
    unfoldable pub encode_bm25_posting_block : Bm25Posting N → Result BlockError Bytes
    encode_bm25_posting_block p = do
      throw_if (not (is_bm25_posting is_count is_finite p)) malformed
      ok (encode_block type_bm25 (bm25_fields p))

    unfoldable pub encode_exact_posting_block : ExactPosting N → Result BlockError Bytes
    encode_exact_posting_block p = do
      throw_if (not (is_exact_posting is_count is_finite p)) malformed
      ok (encode_block type_exact (exact_fields p))

module _ {N : Type 0} (deserialize : Bytes → Option (Value N)) where
  -- `Array.isArray(fields) && fields.length === expectedFields`, where `none` is an exception.
  unfoldable pub layout_of : ℕ → Option (Value N) → Result BlockError (Values N)
  layout_of expected (some (array vs)) =
      if count_values vs == expected then ok vs else throw malformed
  layout_of expected _ = throw malformed

  -- Behind the magic number.
  unfoldable pub decode_typed : ℕ → ℕ → Bytes → Result BlockError (Values N)
  decode_typed type expected (v ∷ t ∷ payload) = do
    throw_if (not (v == block_version)) unsupported_version
    throw_if (not (t == type)) wrong_type
    layout_of expected (deserialize payload)
  decode_typed type expected _ = throw unknown_format

  unfoldable pub decode_block : ℕ → ℕ → Bytes → Result BlockError (Values N)
  decode_block type expected b = do
    throw_if (leb (length b) block_header_bytes || not (text_eq (take 8 b) block_magic))
        unknown_format
    decode_typed type expected (drop 8 b)

  module _ (is_count is_finite : N → Bool) where
    unfoldable pub decode_bm25_posting_block : Bytes → Result BlockError (Bm25Posting N)
    decode_bm25_posting_block b = decode_block type_bm25 21 b >>= λ vs.
        checked (is_bm25_posting is_count is_finite) (bm25_of vs)

    unfoldable pub decode_exact_posting_block : Bytes → Result BlockError (ExactPosting N)
    decode_exact_posting_block b = decode_block type_exact 20 b >>= λ vs.
        checked (is_exact_posting is_count is_finite) (exact_of vs)
