-- ===== src/Rocksdb/Chunks/Split.antt =====
-- The chunks of src/rocksdb/chunks.js are an exact, bounded cut of the text at UTF-8 boundaries.
use pi_sliding_context_windo.Common.{
  ℕ, zero, suc, ◌+◌, ◌-◌, ltb→lt, ◌≤◌, ◌<◌, ◌≡◌, refl, sym, ap, ◌∙◌, inl, inr, true, false, some,
  List, [], ◌∷◌, ◌++◌, map, concat, arith, if◌then◌else◌, ltb, ◌==◌, text_eq, text_eq_sound, length,
  take, drop, All, Bool-cases, Option-cases, length-drop, drop-drop, drop-all, subst,
  take-length-append, drop-length-append,
}
use pi_sliding_context_windo.Rocksdb.Utf8.{is_well_formed, encode, decode}
use pi_sliding_context_windo.Rocksdb.Utf8.RoundTrip.{decode-nil, decode-encode, encode-injective}
use pi_sliding_context_windo.Rocksdb.Chunks.Cuts.{encode-append, cut_at}
use pi_sliding_context_windo.Rocksdb.Chunks.{
  Bytes, String, ChunkingOptions, Chunk, ok, is_continuation_at, preferred_end, next_end,
  layout_from, Cache, cached, content_or, chunk_at, prepend, split_loop,
}
use pi_sliding_context_windo.Rocksdb.Chunks.Boundary.{IsUtf8, IsEnd, preferred_end-IsEnd}

continuation-drop :
    (start d end : ℕ) (bytes : Bytes)
    → start + d ≡ end
    → is_continuation_at (drop start bytes) d ≡ is_continuation_at bytes end
continuation-drop zero d end bytes e = ap (is_continuation_at bytes) (omega (arith, e))
continuation-drop (suc start) d zero bytes e = absurd (omega (arith, e))
continuation-drop (suc start) zero (suc end) [] e = refl
continuation-drop (suc start) (suc d) (suc end) [] e = refl
continuation-drop (suc start) d (suc end) (b ∷ bytes) e =
    continuation-drop start d end bytes (omega (arith, e))

module _ (sha256 : Bytes → Bytes)
    (collision_free : (s t : Bytes) → sha256 s ≡ sha256 t → s ≡ t) where
  -- Every cached content stands under its own address.
  abbrev pub CacheValid : Cache → Type 0
  CacheValid = All (λ e. (e.0 ≡ sha256 (encode e.1)) × (is_well_formed e.1 ≡ true))

  pub cached-address :
      (id content : Bytes) (cache : Cache)
      → CacheValid cache
      → cached id cache ≡ some content
      → (id ≡ sha256 (encode content)) × (is_well_formed content ≡ true)
  unfolding cached
  cached-address id content [] v h = cc
  cached-address id content ((j, c) ∷ cache) v h = elim (Bool-cases (text_eq j id)) [
    | inl hit ↦
        let e : c ≡ content = ground arith in
        (
          sym (text_eq_sound j id hit) ∙ v.0.0 ∙ ap (λ x. sha256 (encode x)) e,
          subst (λ x. is_well_formed x ≡ true) e v.0.1,
        )
    | inr miss ↦ cached-address id content cache v.1 (ground arith)
  ]

  -- A content that is cached under the address of a text's bytes is the text.
  content-cached :
      (front : String) (cache : Cache)
      → CacheValid cache
      → is_well_formed front ≡ true
      → content_or (cached (sha256 (encode front)) cache) (decode (encode front)) ≡ front
  content-cached front cache v w = elim (Option-cases (cached (sha256 (encode front)) cache)) [
    | inl e ↦ rw e (decode-encode front w)
    | inr (c, e) ↦
        let (a, k) = cached-address (sha256 (encode front)) c cache v e in
        rw (e, content_or)
          (sym (encode-injective front c w k (collision_free (encode front) (encode c) a)))
  ]

  -- What holds of each chunk.
  pub record IsChunk (bytes : Bytes) (o : ChunkingOptions) (c : Chunk) : Type 0 where
    pub well_formed : is_well_formed c.content ≡ true
    pub address : c.chunk_id ≡ sha256 (encode c.content)
    pub measured : c.byte_length ≡ length (encode c.content)
    pub bounded : length (encode c.content) ≤ o.max_chunk_bytes
    pub starts : is_continuation_at bytes c.start_byte ≡ false
    pub ends : is_continuation_at bytes c.end_byte ≡ false

  -- The chunks from a start on: laid out up to the end, with the text from the start on.
  pub record IsSplit (bytes : Bytes) (o : ChunkingOptions) (ordinal start : ℕ) (text : String)
      (cs : List Chunk) : Type 0 where
    pub some_chunk : 0 < length cs
    pub layout : layout_from ordinal start cs (length bytes) ≡ true
    pub contents : concat (map (λ c. c.content) cs) ≡ text
    pub each : All (IsChunk bytes o) cs

  module _ (bytes : Bytes) (o : ChunkingOptions) where
    -- The text from a start on, and its part up to an end.
    record Piece (start end : ℕ) (text : String) : Type 0 where
      front : String
      back : String
      joined : text ≡ front ++ back
      slice : take (end - start) (drop start bytes) ≡ encode front
      behind : drop end bytes ≡ encode back
      size : length (encode front) ≡ end - start
      front_well_formed : is_well_formed front ≡ true
      back_well_formed : is_well_formed back ≡ true

    text_cut :
        (start end : ℕ) (text : String)
        → drop start bytes ≡ encode text
        → is_well_formed text ≡ true
        → IsEnd bytes start o end
        → Piece start end text
    text_cut start end text d w e =
        let b = e.above in
        let n : length (encode text) ≡ length bytes - start =
          ap length (sym d) ∙ length-drop start bytes in
        let at : is_continuation_at (encode text) (end - start) ≡ false =
          ap (λ x. is_continuation_at x (end - start)) (sym d)
          ∙ continuation-drop start (end - start) end bytes (omega arith)
          ∙ e.boundary in
        let p = cut_at text (end - start) w (omega (arith, n, e.within)) at in
        let whole : drop start bytes ≡ encode p.front ++ encode p.back =
          d ∙ ap encode p.joined ∙ encode-append p.front p.back in
        record {
          front = p.front;
          back = p.back;
          joined = p.joined;
          slice =
              ap (λ m. take m (drop start bytes)) (sym p.size)
              ∙ ap (take (length (encode p.front))) whole
              ∙ take-length-append (encode p.front) (encode p.back);
          behind =
              sym (drop-drop start (end - start) end bytes (omega arith))
              ∙ ap (λ m. drop m (drop start bytes)) (sym p.size)
              ∙ ap (drop (length (encode p.front))) whole
              ∙ drop-length-append (encode p.front) (encode p.back);
          size = p.size;
          front_well_formed = p.front_well_formed;
          back_well_formed = p.back_well_formed;
        }

    chunk_at-content :
        (ordinal start end : ℕ) (cache : Cache) (text : String) (p : Piece start end text)
        → CacheValid cache
        → (chunk_at sha256 bytes ordinal start end cache).content ≡ p.front
    unfolding chunk_at
    chunk_at-content ordinal start end cache text p v =
        rw p.slice (content-cached p.front cache v p.front_well_formed)

    chunk_at-IsChunk :
        (ordinal start end : ℕ) (cache : Cache) (text : String) (p : Piece start end text)
        → CacheValid cache
        → is_continuation_at bytes start ≡ false
        → IsEnd bytes start o end
        → IsChunk bytes o (chunk_at sha256 bytes ordinal start end cache)
    unfolding chunk_at
    chunk_at-IsChunk ordinal start end cache text p v s e =
        let c = chunk_at-content ordinal start end cache text p v in
        let same = p.slice ∙ ap encode (sym c) in
        record {
          well_formed = subst (λ x. is_well_formed x ≡ true) (sym c) p.front_well_formed;
          address = ap sha256 same;
          measured = ap length same;
          bounded =
              omega (arith, ap (λ x. length (encode x)) c, p.size, e.above, e.within, e.bounded);
          starts = s;
          ends = e.boundary;
        }

    prepend-IsSplit :
        (ordinal start end : ℕ) (cache : Cache) (cs : List Chunk) (text : String)
        (p : Piece start end text)
        → CacheValid cache
        → is_continuation_at bytes start ≡ false
        → IsEnd bytes start o end
        → layout_from (suc ordinal) end cs (length bytes) ≡ true
        → concat (map (λ c. c.content) cs) ≡ p.back
        → All (IsChunk bytes o) cs
        → IsSplit bytes o ordinal start text (chunk_at sha256 bytes ordinal start end cache ∷ cs)
    unfolding layout_from chunk_at
    prepend-IsSplit ordinal start end cache cs text p v s e l c a =
        let b = e.above in
        record {
          some_chunk = omega arith;
          layout = ground (arith, l, e.above, ap length p.slice ∙ p.size);
          contents =
              ap (λ x. x ++ concat (map (λ d. d.content) cs))
                (chunk_at-content ordinal start end cache text p v)
              ∙ ap (◌++◌ p.front) c
              ∙ sym p.joined;
          each = (chunk_at-IsChunk ordinal start end cache text p v s e, a);
        }

    next_end-preferred_end :
        (start end : ℕ)
        → start < length bytes
        → preferred_end bytes start o ≡ ok end
        → next_end bytes start o ≡ ok end
    unfolding next_end
    next_end-preferred_end start end l p =
        let z : (length bytes == 0) ≡ false = ground arith in rw (z, p) refl

    layout_from-nil :
        (ordinal end : ℕ) → end ≡ length bytes → layout_from ordinal end [] (length bytes) ≡ true
    unfolding layout_from
    layout_from-nil ordinal end h = ground arith

    split_loop-round :
        (fuel ordinal start end : ℕ) (cache : Cache)
        → next_end bytes start o ≡ ok end
        → split_loop sha256 (suc fuel) bytes o ordinal start cache
          ≡ prepend (chunk_at sha256 bytes ordinal start end cache) (
              if ltb end (length bytes)
              then split_loop sha256 fuel bytes o (suc ordinal) end (
                  (
                    (chunk_at sha256 bytes ordinal start end cache).chunk_id,
                    (chunk_at sha256 bytes ordinal start end cache).content,
                  )
                  ∷ cache)
              else ok [])
    unfolding split_loop
    split_loop-round fuel ordinal start end cache h = rw (h, split_loop) refl

    pub split_loop-IsSplit :
        (fuel ordinal start : ℕ) (cache : Cache) (text : String)
        → IsUtf8 bytes
        → 4 ≤ o.max_chunk_bytes
        → CacheValid cache
        → start < length bytes
        → length bytes - start < fuel
        → is_continuation_at bytes start ≡ false
        → drop start bytes ≡ encode text
        → is_well_formed text ≡ true
        → (cs : List Chunk) × (split_loop sha256 fuel bytes o ordinal start cache ≡ ok cs)
          × IsSplit bytes o ordinal start text cs
    split_loop-IsSplit zero ordinal start cache text u m v l f s d k = elim f [ ]
    split_loop-IsSplit (suc fuel) ordinal start cache text u m v l f s d k =
        let (end, q, e) = preferred_end-IsEnd bytes start o u m l in
        let p = text_cut start end text d k e in
        let round =
          split_loop-round fuel ordinal start end cache (next_end-preferred_end start end l q) in
        let c = chunk_at sha256 bytes ordinal start end cache in
        let i = chunk_at-IsChunk ordinal start end cache text p v s e in
        let w : CacheValid ((c.chunk_id, c.content) ∷ cache) = ((i.address, i.well_formed), v) in
        let a = e.above in
        let b = e.within in
        elim (Bool-cases (ltb end (length bytes))) [
          | inl more ↦
              let (cs, r, j) =
                split_loop-IsSplit fuel (suc ordinal) end ((c.chunk_id, c.content) ∷ cache) p.back u
                  m w (ltb→lt _ _ more) (omega arith) e.boundary p.behind p.back_well_formed in
              (
                c ∷ cs,
                round ∙ rw (more, r) refl,
                prepend-IsSplit ordinal start end cache cs text p v s e j.layout j.contents j.each,
              )
          | inr done ↦
              let z : end ≡ length bytes = ground arith in
              let empty : p.back ≡ [] =
                sym (decode-encode p.back p.back_well_formed)
                ∙ ap decode (sym p.behind ∙ drop-all end bytes (omega arith))
                ∙ decode-nil in
              (
                c ∷ [],
                round ∙ rw done refl,
                prepend-IsSplit ordinal start end cache [] text p v s e
                    (layout_from-nil (suc ordinal) end z) (sym empty) tt,
              )
        ]
