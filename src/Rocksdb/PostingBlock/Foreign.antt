-- ===== src/Rocksdb/PostingBlock/Foreign.antt =====
-- Blocks that a decoder of src/rocksdb/index/posting-block.js is not meant for.
use pi_sliding_context_windo.Common.{
  ℕ, ◌<◌, ◌≡◌, refl, inl, inr, true, false, Option, arith, leb, ◌==◌, length, Bool-cases,
}
use pi_sliding_context_windo.Common.Results.{throw}
use pi_sliding_context_windo.Rocksdb.PostingLocator.{Bytes}
use pi_sliding_context_windo.Rocksdb.PostingBlock.Wire.{Value, Values, array}
use pi_sliding_context_windo.Rocksdb.PostingBlock.{
  wrong_type, unknown_format, encode_block, decode_typed, decode_block, is_posting_block,
}

module _ {N : Type 0} (serialize : Value N → Bytes) (deserialize : Bytes → Option (Value N))
    (not_empty : (v : Value N) → 0 < length (serialize v)) where
  -- A block of another type is refused for its type, whatever it holds, if what was serialized is not empty.
  pub decode_block-wrong_type :
      (type other expected : ℕ) (fields : Values N)
      → ¬ (other ≡ type)
      → decode_block deserialize type expected (encode_block serialize other fields)
        ≡ throw wrong_type
  unfolding decode_block encode_block decode_typed
  decode_block-wrong_type type other expected fields different =
      let n : leb (length (encode_block serialize other fields)) 10 ≡ false =
        ground (arith, not_empty (array fields)) in
      let t : (other == type) ≡ false = ground (arith, different) in rw (n, t) refl

module _ {N : Type 0} (deserialize : Bytes → Option (Value N)) where
  -- Bytes that `isPostingBlock` does not take for a block are refused as of an unknown format.
  pub decode_block-unknown_format :
      (type expected : ℕ) (b : Bytes)
      → is_posting_block b ≡ false
      → decode_block deserialize type expected b ≡ throw unknown_format
  unfolding decode_block is_posting_block
  decode_block-unknown_format type expected b h = elim (Bool-cases (leb (length b) 10)) [
    | inl short ↦ rw short refl
    | inr long ↦ let l : leb 8 (length b) ≡ true = ground (arith, long) in rw (long, rw l at h) refl
  ]
