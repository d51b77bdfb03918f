-- ===== src/Tests/ChunkRuns.antt =====
-- Runs of src/rocksdb/chunks.js on a text with a character of two bytes.
use pi_sliding_context_windo.Common.{◌≡◌, refl, true, some, List, [], ◌∷◌, ◌++◌, Text}
use pi_sliding_context_windo.Rocksdb.Chunks.{
  ok, ChunkingOptions, normalize_chunking_options, Chunk, split_physical_chunks,
  reconstruct_physical_chunks,
}
use pi_sliding_context_windo.Rocksdb.Utf8.{
  is_well_formed, encode, encode_scalar, decode, decode_from, step, lead,
}
use pi_sliding_context_windo.Rocksdb.Chunks.RoundTrip.{
  IsCut, split_physical_chunks-IsCut, reconstruct-split,
}
use pi_sliding_context_windo.Tests.{digest}

-- "a", a character of two bytes, "b", a newline and "cd".
abbrev text : Text
text = 97 ∷ 233 ∷ 98 ∷ 10 ∷ 99 ∷ 100 ∷ []

text-well_formed : is_well_formed text ≡ true
unfolding is_well_formed
text-well_formed = refl

encode-text : encode text ≡ 97 ∷ 0xc3 ∷ 0xa9 ∷ 98 ∷ 10 ∷ 99 ∷ 100 ∷ []
unfolding encode encode_scalar
encode-text = refl

-- A character whose bytes are cut is lost: each part decodes to U+FFFD.
decode-cut : decode (97 ∷ 0xc3 ∷ []) ++ decode (0xa9 ∷ 98 ∷ []) ≡ 97 ∷ 65533 ∷ 65533 ∷ 98 ∷ []
unfolding decode decode_from step lead
decode-cut = refl

-- The characters of two, three and four bytes, with those at the bounds of the surrogates.
decode-bounds :
    decode (encode (128 ∷ 2047 ∷ 2048 ∷ 55295 ∷ 57344 ∷ 65535 ∷ 65536 ∷ 1114111 ∷ []))
    ≡ 128 ∷ 2047 ∷ 2048 ∷ 55295 ∷ 57344 ∷ 65535 ∷ 65536 ∷ 1114111 ∷ []
unfolding encode encode_scalar decode decode_from step lead
decode-bounds = refl

-- An overlong form and a surrogate are no characters.
decode-malformed : decode (0xc0 ∷ 0xed ∷ 0xa0 ∷ []) ≡ 65533 ∷ 65533 ∷ 65533 ∷ []
unfolding decode decode_from step lead
decode-malformed = refl

abbrev four : ChunkingOptions
four = record { max_chunk_bytes = 4; min_line_split_bytes = 1 }

accepted : normalize_chunking_options (some 4) (some 1) ≡ ok four
unfolding normalize_chunking_options
accepted = refl

split_physical_chunks-IsCut_example :
    (cs : List Chunk) × (split_physical_chunks digest text (some 4) (some 1) ≡ ok cs)
    × IsCut digest (λ s t e. e) text four cs
split_physical_chunks-IsCut_example =
    split_physical_chunks-IsCut digest (λ s t e. e) text (some 4) (some 1) four text-well_formed
      accepted

reconstruct-split_example :
    (cs : List Chunk) × (split_physical_chunks digest text (some 4) (some 1) ≡ ok cs)
    × (reconstruct_physical_chunks digest cs ≡ ok text)
reconstruct-split_example =
    reconstruct-split digest (λ s t e. e) text (some 4) (some 1) four text-well_formed accepted
