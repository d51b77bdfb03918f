-- ===== src/Rocksdb/PostingBlock/RoundTrip.antt =====
-- What src/rocksdb/index/posting-block.js encodes it decodes again.
use pi_sliding_context_windo.Common.{
  ℕ, ◌<◌, ◌≡◌, refl, sym, Bool, true, false, not, Option, some, List, [], ◌∷◌, arith, leb, ◌==◌,
  length,
}
use pi_sliding_context_windo.Common.Results.{ok, throw_if, ok_chain, throw_if-ok, ok_eq}
use pi_sliding_context_windo.Rocksdb.PostingLocator.{Bytes}
use pi_sliding_context_windo.Rocksdb.PostingBlock.Wire.{
  Value, Values, array, count_values, texts_of-texts, numbers_of-numbers, nullable_of-nullable,
}
use pi_sliding_context_windo.Rocksdb.PostingBlock.Layout.{
  Window, Bm25Posting, Match, ExactPosting, window_fields, bm25_fields, match_fields, match_values,
  exact_fields, window_of, bm25_of, match_of, matches_of, exact_of,
}
use pi_sliding_context_windo.Rocksdb.PostingBlock.{
  malformed, type_bm25, type_exact, is_bm25_posting, is_exact_posting, encode_block,
  encode_bm25_posting_block, encode_exact_posting_block, layout_of, decode_typed, decode_block,
  checked, decode_bm25_posting_block, decode_exact_posting_block,
}

module _ {N : Type 0} where
  window_of-fields : (w : Window N) → window_of (window_fields w) ≡ some w
  unfolding window_of window_fields
  window_of-fields w = rw (numbers_of-numbers N w.position_deltas, window_of) refl

  bm25_of-fields : (p : Bm25Posting N) → bm25_of (bm25_fields p) ≡ some p
  unfolding bm25_of bm25_fields
  bm25_of-fields p =
      rw
        (
          texts_of-texts N p.source_message_keys,
          bm25_of,
          nullable_of-nullable N p.turn_id,
          window_of-fields p.window,
        )
        refl

  matches_of-values : (ms : List (Match N)) → matches_of (match_values ms) ≡ some ms
  unfolding matches_of match_of match_fields
  matches_of-values [] = refl
  matches_of-values (m ∷ ms) = rw (matches_of-values ms) refl

  exact_of-fields : (p : ExactPosting N) → exact_of (exact_fields p) ≡ some p
  unfolding exact_of exact_fields
  exact_of-fields p =
      rw
        (
          nullable_of-nullable N p.source_key_status,
          exact_of,
          texts_of-texts N p.source_message_keys,
          nullable_of-nullable N p.turn_id,
          matches_of-values p.matches,
        )
        refl

  count-bm25_fields : (p : Bm25Posting N) → count_values (bm25_fields p) ≡ 21
  unfolding bm25_fields window_fields
  count-bm25_fields p = refl

  count-exact_fields : (p : ExactPosting N) → count_values (exact_fields p) ≡ 20
  unfolding exact_fields
  count-exact_fields p = refl

-- node:v8 is used for the one fact that it reads back what it wrote, which is not empty.
module _ {N : Type 0} (serialize : Value N → Bytes) (deserialize : Bytes → Option (Value N))
    (reads_back : (v : Value N) → deserialize (serialize v) ≡ some v)
    (not_empty : (v : Value N) → 0 < length (serialize v)) where
  decode_block-encode :
      (type expected : ℕ) (fields : Values N)
      → count_values fields ≡ expected
      → decode_block deserialize type expected (encode_block serialize type fields) ≡ ok fields
  unfolding decode_block encode_block decode_typed layout_of
  decode_block-encode type expected fields c =
      let n : leb (length (encode_block serialize type fields)) 10 ≡ false =
        ground (arith, not_empty (array fields)) in
      let t : (type == type) ≡ true = ground arith in
      let k : (count_values fields == expected) ≡ true = ground (arith, c) in
      rw (n, t, reads_back (array fields), k) refl

  module _ (is_count is_finite : N → Bool) where
    -- A BM25 posting that was encoded is decoded again, if what was serialized is read back.
    pub decode_bm25-encode :
        (p : Bm25Posting N) (b : Bytes)
        → encode_bm25_posting_block serialize is_count is_finite p ≡ ok b
        → decode_bm25_posting_block deserialize is_count is_finite b ≡ ok p
    unfolding encode_bm25_posting_block decode_bm25_posting_block checked
    decode_bm25-encode p b h =
        let (u, t, e) =
          ok_chain (throw_if (not (is_bm25_posting is_count is_finite p)) malformed)
            (λ passed. ok (encode_block serialize type_bm25 (bm25_fields p))) b h in
        let v : is_bm25_posting is_count is_finite p ≡ true =
          ground (arith, throw_if-ok (not (is_bm25_posting is_count is_finite p)) malformed u t) in
        rw
          (
            sym (ok_eq _ _ e),
            decode_block-encode type_bm25 21 (bm25_fields p) (count-bm25_fields p),
            bm25_of-fields p,
            v,
          )
          refl

    -- An exact posting that was encoded is decoded again, if what was serialized is read back.
    pub decode_exact-encode :
        (p : ExactPosting N) (b : Bytes)
        → encode_exact_posting_block serialize is_count is_finite p ≡ ok b
        → decode_exact_posting_block deserialize is_count is_finite b ≡ ok p
    unfolding encode_exact_posting_block decode_exact_posting_block checked
    decode_exact-encode p b h =
        let (u, t, e) =
          ok_chain (throw_if (not (is_exact_posting is_count is_finite p)) malformed)
            (λ passed. ok (encode_block serialize type_exact (exact_fields p))) b h in
        let v : is_exact_posting is_count is_finite p ≡ true =
          ground (arith, throw_if-ok (not (is_exact_posting is_count is_finite p)) malformed u t) in
        rw
          (
            sym (ok_eq _ _ e),
            decode_block-encode type_exact 20 (exact_fields p) (count-exact_fields p),
            exact_of-fields p,
            v,
          )
          refl
