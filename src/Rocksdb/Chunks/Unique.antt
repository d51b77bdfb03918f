-- ===== src/Rocksdb/Chunks/Unique.antt =====
-- src/rocksdb/chunks.js: one payload for each address, and the references of a manifest.
-- A payload is its address and its content.
pub mod Complete
use pi_sliding_context_windo.Common.{
  ℕ, ◌-◌, Bool, true, false, not, Option, none, some, List, [], ◌∷◌, ◌&&◌, if◌then◌else◌, leb, ◌==◌,
  text_eq, length,
}
use pi_sliding_context_windo.Rocksdb.Chunks.{
  Bytes, ChunkError, bad_content, bad_layout, Result, ok, err, Chunk, Cache, cached,
  assert_chunk_layout, last_end,
}

-- `assertChunkOccurrence`, for an address and coordinates of the right types.
abbrev pub is_occurrence : Chunk → Bool
is_occurrence c = leb c.start_byte c.end_byte && c.byte_length == c.end_byte - c.start_byte

abbrev pub first_of : Chunk → Result Cache → Result Cache
first_of c (ok ps) = ok ((c.chunk_id, c.content) ∷ ps)
first_of c (err e) = err e

-- The loop of `uniquePhysicalChunks`, in the order of first appearance.
unfoldable pub unique_from : Cache → List Chunk → Result Cache
unique_from seen [] = ok []
unique_from seen (c ∷ cs) = elim (is_occurrence c) [
  | false ↦ err bad_layout
  | true ↦ elim (cached c.chunk_id seen) [
    | none ↦ first_of c (unique_from ((c.chunk_id, c.content) ∷ seen) cs)
    | some content ↦ elim (text_eq content c.content) [
      | true ↦ unique_from seen cs
      | false ↦ err bad_content
    ]
  ]
]

unfoldable pub unique_physical_chunks : List Chunk → Result Cache
unique_physical_chunks cs = unique_from [] cs

pub record Reference : Type 0 where
  pub chunk_id : Bytes
  pub ordinal : ℕ
  pub start_byte : ℕ
  pub end_byte : ℕ
  pub byte_length : ℕ

abbrev pub reference : Chunk → Reference
reference c = record {
  chunk_id = c.chunk_id;
  ordinal = c.ordinal;
  start_byte = c.start_byte;
  end_byte = c.end_byte;
  byte_length = c.byte_length;
}

abbrev pub references : List Chunk → List Reference
references [] = []
references (c ∷ cs) = reference c ∷ references cs

abbrev pub are_occurrences : List Chunk → Bool
are_occurrences [] = true
are_occurrences (c ∷ cs) = is_occurrence c && are_occurrences cs

-- The layout of the references is that of the chunks, whose coordinates they have.
unfoldable pub create_chunk_references : List Chunk → Result (List Reference)
create_chunk_references cs =
    if are_occurrences cs && assert_chunk_layout cs (last_end cs)
    then ok (references cs)
    else err bad_layout
