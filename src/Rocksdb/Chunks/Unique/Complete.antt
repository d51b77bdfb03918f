-- ===== src/Rocksdb/Chunks/Unique/Complete.antt =====
-- The references and the payloads of src/rocksdb/chunks.js hold a text together.
use pi_sliding_context_windo.Common.{◌≡◌, true, Option, none, some, List, [], ◌∷◌, ◌++◌}
use pi_sliding_context_windo.Rocksdb.Chunks.{Bytes, String, Chunk, Cache, cached}
use pi_sliding_context_windo.Rocksdb.Utf8.{is_well_formed, encode}
use pi_sliding_context_windo.Rocksdb.Chunks.Unique.{Reference}

module _ (sha256 : Bytes → Bytes)
    (collision_free : (s t : Bytes) → sha256 s ≡ sha256 t → s ≡ t) where
  abbrev IsAddressed : Chunk → Type 0
  IsAddressed c = (c.chunk_id ≡ sha256 (encode c.content)) × (is_well_formed c.content ≡ true)

-- What a manifest of references and the payloads give: the contents in order, if none is missing.
abbrev pub contents_of : Cache → List Reference → Option String
contents_of ps [] = some []
contents_of ps (r ∷ rs) = elim (cached r.chunk_id ps) [
  | none ↦ none
  | some content ↦ elim (contents_of ps rs) [ none ↦ none | some rest ↦ some (content ++ rest) ]
]
