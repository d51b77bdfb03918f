-- ===== src/Rocksdb/Chunks.antt =====
-- src/rocksdb/chunks.js: the physical chunks of a document.
-- A text is its code points, which Rocksdb/Utf8 turns into bytes and back, and the digest of a chunk is
-- the parameter `sha256`.
pub mod Boundary
pub mod Characters
pub mod Cuts
pub mod Split
pub mod RoundTrip
pub mod Unique
use pi_sliding_context_windo.Common.{
  ℕ, zero, suc, ◌+◌, ◌-◌, min, Bool, true, false, not, Option, none, some, List, [], ◌∷◌, ◌++◌,
  ◌&&◌, ◌||◌, if◌then◌else◌, ltb, leb, ◌==◌, text_eq, length, take, drop, get_elem?,
}
use pi_sliding_context_windo.Rocksdb.Utf8.{is_well_formed, encode, decode}

abbrev pub Bytes : Type 0
Bytes = List ℕ

-- The code points of a string.
abbrev pub String : Type 0
String = List ℕ

pub data ChunkError : Type 0 where
  ill_formed_text invalid_options no_utf8_boundary bad_layout bad_content out_of_fuel : ChunkError

pub data Result {ℓ} (A : Type ℓ) : Type ℓ where
  ok : A → Result A
  err : ChunkError → Result A

pub record ChunkingOptions : Type 0 where
  pub max_chunk_bytes : ℕ
  pub min_line_split_bytes : ℕ

-- `MAX_PHYSICAL_CHUNK_BYTES` and the two defaults.
abbrev pub max_physical_chunk_bytes : ℕ
max_physical_chunk_bytes = 1048576

abbrev default_max_chunk_bytes : ℕ
default_max_chunk_bytes = 65536

abbrev default_min_line_split_bytes : ℕ
default_min_line_split_bytes = 16384

abbrev or_default : Option ℕ → ℕ → ℕ
or_default none d = d
or_default (some n) d = n

unfoldable pub normalize_chunking_options : Option ℕ → Option ℕ → Result ChunkingOptions
normalize_chunking_options max_bytes min_bytes =
    let m = or_default max_bytes default_max_chunk_bytes in
    let n = or_default min_bytes (min default_min_line_split_bytes m) in
    if ltb m 4 || ltb max_physical_chunk_bytes m || ltb m n
    then err invalid_options
    else ok (record { max_chunk_bytes = m; min_line_split_bytes = n })

-- `(byte & 0xc0) === 0x80`, at an index inside the bytes.
abbrev pub is_continuation_at : Bytes → ℕ → Bool
is_continuation_at bytes i = elim (get_elem? bytes i) [
  | none ↦ false
  | some b ↦ leb 128 b && ltb b 192
]

abbrev pub is_newline_at : Bytes → ℕ → Bool
is_newline_at bytes i = elim (get_elem? bytes i) [ none ↦ false | some b ↦ b == 10 ]

-- The loop goes down from the candidate, and not below the floor.
unfoldable pub utf8_boundary_at_or_before : Bytes → ℕ → ℕ → ℕ
utf8_boundary_at_or_before bytes zero floor = zero
utf8_boundary_at_or_before bytes (suc b) floor =
    let lower = utf8_boundary_at_or_before bytes b floor in
    if ltb floor (suc b) && is_continuation_at bytes (suc b) then lower else suc b

-- `bytes.lastIndexOf(0x0a, i)`
unfoldable pub last_newline : Bytes → ℕ → Option ℕ
last_newline bytes zero = if is_newline_at bytes zero then some zero else none
last_newline bytes (suc i) =
    let lower = last_newline bytes i in if is_newline_at bytes (suc i) then some (suc i) else lower

-- Behind the hard end: a newline far enough from the start ends the chunk earlier.
abbrev pub line_end : ChunkingOptions → ℕ → ℕ → Option ℕ → ℕ
line_end o start hard_end none = hard_end
line_end o start hard_end (some newline) =
    if leb (start + o.min_line_split_bytes) newline && ltb start (newline + 1)
    then newline + 1
    else hard_end

unfoldable pub preferred_end : Bytes → ℕ → ChunkingOptions → Result ℕ
preferred_end bytes start o =
    if leb (length bytes) (start + o.max_chunk_bytes)
    then ok (length bytes)
    else let hard_end = utf8_boundary_at_or_before bytes (start + o.max_chunk_bytes) start in
      if leb hard_end start
      then err no_utf8_boundary
      else ok (line_end o start hard_end (last_newline bytes (hard_end - 1)))

-- An empty text has one chunk, which ends where it starts.
unfoldable pub next_end : Bytes → ℕ → ChunkingOptions → Result ℕ
next_end bytes start o = if length bytes == 0 then ok 0 else preferred_end bytes start o

pub record Chunk : Type 0 where
  pub chunk_id : Bytes
  pub ordinal : ℕ
  pub start_byte : ℕ
  pub end_byte : ℕ
  pub byte_length : ℕ
  pub content : String

-- `assertChunkLayout`: the loop, and the checks on the whole.
unfoldable pub layout_from : ℕ → ℕ → List Chunk → ℕ → Bool
layout_from index cursor [] expected = cursor == expected
layout_from index cursor (c ∷ cs) expected =
    leb c.start_byte c.end_byte
    && c.byte_length == c.end_byte - c.start_byte
    && c.ordinal == index
    && c.start_byte == cursor
    && layout_from (suc index) c.end_byte cs expected

unfoldable pub assert_chunk_layout : List Chunk → ℕ → Bool
assert_chunk_layout cs expected =
    not (length cs == 0) && layout_from 0 0 cs expected && (not (expected == 0) || length cs == 1)

-- `contentByChunkId`: a content once decoded serves every later chunk with its address.
abbrev pub Cache : Type 0
Cache = List (Bytes × String)

unfoldable pub cached : Bytes → Cache → Option String
cached id [] = none
cached id ((j, content) ∷ cache) = if text_eq j id then some content else cached id cache

abbrev pub prepend : Chunk → Result (List Chunk) → Result (List Chunk)
prepend c (ok cs) = ok (c ∷ cs)
prepend c (err e) = err e

abbrev pub content_or : Option String → String → String
content_or none decoded = decoded
content_or (some content) decoded = content

-- `chunks.at(-1).endByte`
abbrev pub last_end : List Chunk → ℕ
last_end [] = 0
last_end (c ∷ []) = c.end_byte
last_end (c ∷ d ∷ cs) = last_end (d ∷ cs)

module _ (sha256 : Bytes → Bytes) where
  unfoldable pub chunk_at : Bytes → ℕ → ℕ → ℕ → Cache → Chunk
  chunk_at bytes ordinal start end cache =
      let slice = take (end - start) (drop start bytes) in
      record {
        chunk_id = sha256 slice;
        ordinal = ordinal;
        start_byte = start;
        end_byte = end;
        byte_length = length slice;
        content = content_or (cached (sha256 slice) cache) (decode slice);
      }

  -- The `do … while` loop, on fuel: a round behind the first consumes a byte.
  unfoldable pub split_loop : ℕ → Bytes → ChunkingOptions → ℕ → ℕ → Cache → Result (List Chunk)
  split_loop zero bytes o ordinal start cache = err out_of_fuel
  split_loop (suc fuel) bytes o ordinal start cache = elim (next_end bytes start o) [
    | err e ↦ err e
    | ok end ↦
        let c = chunk_at bytes ordinal start end cache in
        let rest = split_loop fuel bytes o (suc ordinal) end ((c.chunk_id, c.content) ∷ cache) in
        prepend c (if ltb end (length bytes) then rest else ok [])
  ]

  -- Behind the normalization of the options.
  unfoldable pub split_normalized : Bytes → ChunkingOptions → Result (List Chunk)
  split_normalized bytes o = elim (split_loop (suc (length bytes)) bytes o 0 0 []) [
    | err e ↦ err e
    | ok cs ↦ if assert_chunk_layout cs (length bytes) then ok cs else err bad_layout
  ]

  unfoldable pub split_physical_chunks : String → Option ℕ → Option ℕ → Result (List Chunk)
  split_physical_chunks text max_bytes min_bytes =
      if is_well_formed text
      then elim (normalize_chunking_options max_bytes min_bytes) [
        | err e ↦ err e
        | ok o ↦ split_normalized (encode text) o
      ]
      else err ill_formed_text

  -- The bytes of one chunk, checked against its coordinates and its address.
  unfoldable pub chunk_bytes : Chunk → Result Bytes
  chunk_bytes c =
      if not (is_well_formed c.content)
      then err ill_formed_text
      else if length (encode c.content) == c.byte_length
          && text_eq c.chunk_id (sha256 (encode c.content))
      then ok (encode c.content)
      else err bad_content

  abbrev pub join_bytes : Result Bytes → Result Bytes → Result Bytes
  join_bytes (err e) rest = err e
  join_bytes (ok bytes) (err e) = err e
  join_bytes (ok bytes) (ok rest) = ok (bytes ++ rest)

  unfoldable pub join_contents : List Chunk → Result Bytes
  unfolding chunk_bytes
  join_contents [] = ok []
  join_contents (c ∷ cs) = join_bytes (chunk_bytes c) (join_contents cs)

  abbrev pub decode_joined : Result Bytes → Result String
  decode_joined (err e) = err e
  decode_joined (ok bytes) = ok (decode bytes)

  unfoldable pub reconstruct_physical_chunks : List Chunk → Result String
  reconstruct_physical_chunks cs =
      if assert_chunk_layout cs (last_end cs)
      then decode_joined (join_contents cs)
      else err bad_layout
