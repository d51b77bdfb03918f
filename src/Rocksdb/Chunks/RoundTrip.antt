-- ===== src/Rocksdb/Chunks/RoundTrip.antt =====
-- splitPhysicalChunks and reconstructPhysicalChunks of src/rocksdb/chunks.js, one after the other.
use pi_sliding_context_windo.Common.{
  ℕ, suc, ◌≤◌, ◌<◌, ◌≡◌, refl, sym, ap, ◌∙◌, true, false, Option, List, [], ◌∷◌, map, concat, arith,
  ◌==◌, text_eq, text_eq_refl, length, All,
}
use pi_sliding_context_windo.Rocksdb.Chunks.{
  Bytes, String, chunk_bytes, ChunkingOptions, Chunk, ok, layout_from, next_end, chunk_at, cached,
  assert_chunk_layout, split_loop, normalize_chunking_options, split_normalized,
  split_physical_chunks, last_end, join_contents, reconstruct_physical_chunks,
}
use pi_sliding_context_windo.Rocksdb.Utf8.{is_well_formed, encode, decode, decode_from}
use pi_sliding_context_windo.Rocksdb.Utf8.RoundTrip.{decode-encode}
use pi_sliding_context_windo.Rocksdb.Chunks.Cuts.{encode-append, encode-IsUtf8, encode-positive}
use pi_sliding_context_windo.Rocksdb.Chunks.Split.{IsChunk, IsSplit, split_loop-IsSplit}

module _ (sha256 : Bytes → Bytes)
    (collision_free : (s t : Bytes) → sha256 s ≡ sha256 t → s ≡ t) where
  IsChunkOf : Bytes → ChunkingOptions → Chunk → Type 0
  IsChunkOf = IsChunk sha256 collision_free

  -- A layout which passes at no chunk or more ends with the last chunk's end.
  pub layout-last_end :
      (cs : List Chunk) (index cursor expected : ℕ)
      → 0 < length cs
      → layout_from index cursor cs expected ≡ true
      → last_end cs ≡ expected
  unfolding layout_from
  layout-last_end [] index cursor expected h k = elim h [ ]
  layout-last_end (c ∷ []) index cursor expected h k = ground arith
  layout-last_end (c ∷ d ∷ cs) index cursor expected h k =
      layout-last_end (d ∷ cs) (suc index) c.end_byte expected (omega arith) (ground arith)

  chunk_bytes-IsChunk :
      (bytes : Bytes) (o : ChunkingOptions) (c : Chunk)
      → IsChunk sha256 collision_free bytes o c
      → chunk_bytes sha256 c ≡ ok (encode c.content)
  unfolding chunk_bytes
  chunk_bytes-IsChunk bytes o c i =
      let l : (length (encode c.content) == c.byte_length) ≡ true = ground (arith, i.measured) in
      let t : text_eq c.chunk_id (sha256 (encode c.content)) ≡ true =
        ap (text_eq c.chunk_id) (sym i.address) ∙ text_eq_refl c.chunk_id in
      rw (i.well_formed, l, t) refl

  join_contents-concat :
      (bytes : Bytes) (o : ChunkingOptions) (cs : List Chunk)
      → All (IsChunk sha256 collision_free bytes o) cs
      → join_contents sha256 cs ≡ ok (encode (concat (map (λ c. c.content) cs)))
  unfolding join_contents encode
  join_contents-concat bytes o [] a = refl
  join_contents-concat bytes o (c ∷ cs) a =
      let rest = join_contents-concat bytes o cs a.1 in
      let contents = concat (map (λ d. d.content) cs) in
      rw (chunk_bytes-IsChunk bytes o c a.0, rest) (ap ok (sym (encode-append c.content contents)))

  -- The code's own check of the layout passes.
  IsSplit-assert_chunk_layout :
      (bytes : Bytes) (o : ChunkingOptions) (text : String) (cs : List Chunk)
      → 0 < length bytes
      → IsSplit sha256 collision_free bytes o 0 0 text cs
      → assert_chunk_layout cs (length bytes) ≡ true
  unfolding assert_chunk_layout
  IsSplit-assert_chunk_layout bytes o text cs n i =
      let l : (length cs == 0) ≡ false = ground (arith, i.some_chunk) in
      let e : (length bytes == 0) ≡ false = ground arith in rw (l, i.layout, e) refl

  -- An exact cut of a text: the pieces join to it, each is a chunk of its bytes, and the layout passes.
  pub record IsCut (text : String) (o : ChunkingOptions) (cs : List Chunk) : Type 0 where
    pub contents : concat (map (λ c. c.content) cs) ≡ text
    pub each : All (IsChunk sha256 collision_free (encode text) o) cs
    pub some_chunk : 0 < length cs
    pub layout : layout_from 0 0 cs (length (encode text)) ≡ true
    pub passes : assert_chunk_layout cs (length (encode text)) ≡ true

  module _ (text : String) (o : ChunkingOptions) (w : is_well_formed text ≡ true)
      (m : 4 ≤ o.max_chunk_bytes) where
    split_nonempty :
        0 < length (encode text)
        → (cs : List Chunk) × (split_normalized sha256 (encode text) o ≡ ok cs) × IsCut text o cs
    unfolding split_normalized
    split_nonempty n =
        let u = encode-IsUtf8 text w in
        let (cs, q, i) =
          split_loop-IsSplit sha256 collision_free (encode text) o (suc (length (encode text))) 0 0
            [] text u m tt n (omega arith) u.first refl w in
        let a = IsSplit-assert_chunk_layout (encode text) o text cs n i in
        (
          cs,
          rw (q, split_normalized, a) refl,
          record {
            contents = i.contents;
            each = i.each;
            some_chunk = i.some_chunk;
            layout = i.layout;
            passes = a;
          },
        )

  split_empty :
      (o : ChunkingOptions)
      → (cs : List Chunk) × (split_normalized sha256 [] o ≡ ok cs) × IsCut [] o cs
  unfolding split_normalized split_loop next_end chunk_at cached assert_chunk_layout layout_from
      encode decode decode_from is_well_formed
  split_empty o = (
    chunk_at sha256 [] 0 0 0 [] ∷ [],
    refl,
    record {
      contents = refl;
      each = (
        record {
          well_formed = refl;
          address = refl;
          measured = refl;
          bounded = omega arith;
          starts = refl;
          ends = refl;
        },
        tt,
      );
      some_chunk = omega arith;
      layout = refl;
      passes = refl;
    },
  )

  split_normalized-IsCut :
      (text : String) (o : ChunkingOptions)
      → is_well_formed text ≡ true
      → 4 ≤ o.max_chunk_bytes
      → (cs : List Chunk) × (split_normalized sha256 (encode text) o ≡ ok cs) × IsCut text o cs
  unfolding encode
  split_normalized-IsCut [] o w m = split_empty o
  split_normalized-IsCut (c ∷ text) o w m =
      split_nonempty (c ∷ text) o w m (encode-positive c text w)

  normalized-bounds :
      (max_bytes min_bytes : Option ℕ) (o : ChunkingOptions)
      → normalize_chunking_options max_bytes min_bytes ≡ ok o
      → 4 ≤ o.max_chunk_bytes
  unfolding normalize_chunking_options
  normalized-bounds max_bytes min_bytes o h = ground arith

  -- A well-formed text is always split, if the options are accepted and no two byte sequences share
  -- a digest: the contents of the chunks join to the text, and each chunk has the digest of its bytes as
  -- address, its true byte length within the limit, and a start and an end which are no
  -- continuation byte.
  pub split_physical_chunks-IsCut :
      (text : String) (max_bytes min_bytes : Option ℕ) (o : ChunkingOptions)
      → is_well_formed text ≡ true
      → normalize_chunking_options max_bytes min_bytes ≡ ok o
      → (cs : List Chunk) × (split_physical_chunks sha256 text max_bytes min_bytes ≡ ok cs)
        × IsCut text o cs
  unfolding split_physical_chunks
  split_physical_chunks-IsCut text max_bytes min_bytes o w h =
      let (cs, q, i) =
        split_normalized-IsCut text o w (normalized-bounds max_bytes min_bytes o h) in
      (cs, rw (w, h, split_physical_chunks) q, i)

  -- The chunks of a well-formed text reconstruct it: under the conditions of the split, the text is
  -- split and `reconstruct_physical_chunks` of its chunks, which encodes each content and decodes
  -- all bytes together, returns the text.
  pub reconstruct-split :
      (text : String) (max_bytes min_bytes : Option ℕ) (o : ChunkingOptions)
      → is_well_formed text ≡ true
      → normalize_chunking_options max_bytes min_bytes ≡ ok o
      → (cs : List Chunk) × (split_physical_chunks sha256 text max_bytes min_bytes ≡ ok cs)
        × (reconstruct_physical_chunks sha256 cs ≡ ok text)
  unfolding reconstruct_physical_chunks
  reconstruct-split text max_bytes min_bytes o w h =
      let (cs, q, i) = split_physical_chunks-IsCut text max_bytes min_bytes o w h in
      let e = layout-last_end cs 0 0 (length (encode text)) i.some_chunk i.layout in
      (
        cs,
        q,
        rw (e, i.passes, join_contents-concat (encode text) o cs i.each, i.contents)
            (ap ok (decode-encode text w)),
      )
