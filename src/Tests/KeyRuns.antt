-- ===== src/Tests/KeyRuns.antt =====
-- Runs of src/rocksdb/keys.js and src/rocksdb/index/posting-block.js.
use pi_sliding_context_windo.Common.{
  ℕ, ◌≡◌, ◌↔◌, refl, ◌&&◌, Bool, true, none, some, List, [], ◌∷◌, ◌++◌, units, arith, All,
}
use pi_sliding_context_windo.Common.Results.{ok}
use pi_sliding_context_windo.Rocksdb.PostingLocator.{Bytes, write_u32}
use pi_sliding_context_windo.Rocksdb.PostingLocator.Words.{IsByte}
use pi_sliding_context_windo.Rocksdb.Keys.{
  Field, text, boolean, encode_key, prefix_successor, prefix_bounds, length_prefix, encode_field,
  encode_fields,
}
use pi_sliding_context_windo.Rocksdb.Keys.Order.{bytes_le, bytes_lt}
use pi_sliding_context_windo.Rocksdb.Keys.Scan.{prefix_bounds-scan}
use pi_sliding_context_windo.Rocksdb.PostingBlock.Layout.{
  Window, Bm25Posting, ExactPosting, bm25_fields, exact_fields,
}
use pi_sliding_context_windo.Rocksdb.PostingBlock.{
  type_bm25, type_exact, encode_block, encode_bm25_posting_block, decode_bm25_posting_block,
  encode_exact_posting_block, is_bm25_posting, is_exact_posting,
}
use pi_sliding_context_windo.Rocksdb.PostingBlock.RoundTrip.{decode_bm25-encode}
use pi_sliding_context_windo.Tests.Serialized.{write, read_back, read_back-write, write-pos}

abbrev prefix : List Field
prefix = text (units "d") ∷ []

abbrev tuple : List Field
tuple = text (units "d") ∷ boolean true ∷ []

abbrev start : Bytes
start = 1 ∷ 0x10 ∷ 0 ∷ 0 ∷ 0 ∷ 1 ∷ 100 ∷ []

abbrev end : Bytes
end = 1 ∷ 0x10 ∷ 0 ∷ 0 ∷ 0 ∷ 1 ∷ 101 ∷ []

abbrev tuple_key : Bytes
tuple_key = start ++ 0x14 ∷ []

tuple-encoded : encode_key tuple ≡ ok tuple_key
unfolding encode_key encode_fields encode_field length_prefix write_u32
tuple-encoded = refl

bounds : prefix_bounds prefix ≡ ok (start, end)
unfolding prefix_bounds prefix_successor encode_key encode_fields encode_field length_prefix
    write_u32
bounds = refl

tuple_key-IsByte : All IsByte tuple_key
tuple_key-IsByte = (
  omega arith,
  (
    omega arith,
    (omega arith, (omega arith, (omega arith, (omega arith, (omega arith, (omega arith, tt)))))),
  ),
)

prefix_bounds-scan_example :
    ((bytes_le start tuple_key && bytes_lt tuple_key end) ≡ true)
    ↔ ((rest : List Field) × (tuple ≡ prefix ++ rest))
prefix_bounds-scan_example =
    prefix_bounds-scan prefix tuple start end tuple_key bounds tuple-encoded tuple_key-IsByte

abbrev window : Window ℕ
window = record {
  ordinal = 0;
  start_byte = 0;
  end_byte = 9;
  length_tokens = 2;
  weighted_length = 2;
  term_frequency = 1;
  weighted_term_frequency = 1;
  position_deltas = 1 ∷ [];
}

abbrev bm25_posting : Bm25Posting ℕ
bm25_posting = record {
  bm25_posting_version = 1;
  tokenizer_version = 1;
  generation = 0;
  document_version = 1;
  created_at = 5;
  bucket = 0;
  project = units "p";
  term = units "t";
  document_id = units "d";
  kind = units "k";
  session_id = units "s";
  source_message_keys = units "m" ∷ [];
  turn_id = none;
  window = window;
}

abbrev exact_posting : ExactPosting ℕ
exact_posting = record {
  posting_version = 1;
  generation = 0;
  source_version = 1;
  bucket = 0;
  created_at = 5;
  document_version = 1;
  window_ordinal = 0;
  window_start_byte = 0;
  window_end_byte = 9;
  project = units "p";
  session_id = units "s";
  document_id = units "d";
  document_kind = units "k";
  source_key = units "i";
  source_key_status = some (units "a");
  source_message_keys = units "m" ∷ [];
  turn_id = none;
  case_mode = units "c";
  normalized_term = units "t";
  matches =
      record {
        type_name = units "w";
        value = units "t";
        start_byte = 0;
        end_byte = 1;
        specificity = 1;
      }
      ∷ [];
}

abbrev any_number : ℕ → Bool
any_number n = true

abbrev bm25_bytes : Bytes
bm25_bytes = encode_block write type_bm25 (bm25_fields bm25_posting)

abbrev exact_bytes : Bytes
exact_bytes = encode_block write type_exact (exact_fields exact_posting)

bm25-encoded : encode_bm25_posting_block write any_number any_number bm25_posting ≡ ok bm25_bytes
unfolding encode_bm25_posting_block is_bm25_posting
bm25-encoded = refl

exact-encoded :
    encode_exact_posting_block write any_number any_number exact_posting ≡ ok exact_bytes
unfolding encode_exact_posting_block is_exact_posting
exact-encoded = refl

decode_bm25-encode_example :
    decode_bm25_posting_block read_back any_number any_number bm25_bytes ≡ ok bm25_posting
decode_bm25-encode_example =
    decode_bm25-encode write read_back read_back-write write-pos any_number any_number bm25_posting
      bm25_bytes bm25-encoded
