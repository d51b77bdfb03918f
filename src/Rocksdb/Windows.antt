-- ===== src/Rocksdb/Windows.antt =====
-- src/rocksdb/windows.js: the overlapping search windows of a document, and the windows of a match.
-- A text stands here as its UTF-8 bytes. `tokenize` is the tokenizer of the call. Ratios are the
-- parameter `N`: `in_unit` is the range test on a ratio, and `floor_share w r` is the floor of `w * r`.
-- `overlapRatio` of the normalized options is left out, since nothing reads it.
pub mod Ranges
pub mod Cover
pub mod Lookup
use pi_sliding_context_windo.Common.{
  ℕ, zero, suc, ◌-◌, Bool, true, false, not, Option, none, some, List, [], ◌∷◌, ◌&&◌, ◌||◌, Text,
  if◌then◌else◌, ltb, leb, ◌==◌, text_eq, length, drop,
}
use pi_sliding_context_windo.Common.Results.{Result, ok, throw, ◌>>=◌, ◌>>◌, throw_if}
use pi_sliding_context_windo.Rocksdb.Chunks.{Bytes, Chunk, assert_chunk_layout}

pub data WindowError : Type 0 where
  invalid_identity invalid_options invalid_tokens too_many_tokens : WindowError
  bad_layout no_chunk invalid_range no_windows unordered out_of_fuel : WindowError

abbrev pub search_window_format_version : ℕ
search_window_format_version = 1

abbrev pub max_search_tokens_per_document : ℕ
max_search_tokens_per_document = 250000

abbrev pub default_window_tokens : ℕ
default_window_tokens = 900

pub record RequestedOptions (N : Type 0) : Type 0 where
  pub window_tokens : Option ℕ
  pub overlap_tokens : Option ℕ
  pub overlap_ratio : Option N

pub record WindowOptions : Type 0 where
  pub window_tokens : ℕ
  pub overlap_tokens : ℕ

pub record Token : Type 0 where
  pub start_byte : ℕ
  pub end_byte : ℕ

pub record SearchWindow : Type 0 where
  pub window_format_version : ℕ
  pub document_id : Text
  pub document_version : ℕ
  pub ordinal : ℕ
  pub start_byte : ℕ
  pub end_byte : ℕ
  pub chunk_ids : List Bytes
  pub index_generation : ℕ

-- The first argument of `createSearchWindows`.
pub record Document : Type 0 where
  pub text : Bytes
  pub document_id : Text
  pub document_version : ℕ
  pub chunks : List Chunk
  pub index_generation : ℕ

-- `value ?? default`
abbrev pub or_default {ℓ} : {A : Type ℓ} → Option A → A → A
or_default none d = d
or_default (some a) d = a

module _ {N : Type 0} (in_unit : N → Bool) (floor_share : ℕ → N → ℕ) (default_ratio : N) where
  abbrev pub overlap_of : ℕ → Option ℕ → Option N → Result WindowError ℕ
  overlap_of window_tokens (some overlap) ratio = ok overlap
  overlap_of window_tokens none ratio =
      if in_unit (or_default ratio default_ratio)
      then ok (floor_share window_tokens (or_default ratio default_ratio))
      else throw invalid_options

  unfoldable pub normalize_window_options : RequestedOptions N → Result WindowError WindowOptions
  normalize_window_options o =
      let tokens = or_default o.window_tokens default_window_tokens in
      throw_if (tokens == 0) invalid_options
      >> (overlap_of tokens o.overlap_tokens o.overlap_ratio >>= λ overlap.
          throw_if (leb tokens overlap) invalid_options
          >> ok (record { window_tokens = tokens; overlap_tokens = overlap }))

-- The loop of `validateTokenRanges`, where `previous_end` is the end of the token before.
unfoldable pub are_ranges : ℕ → List Token → ℕ → Bool
are_ranges previous_end [] byte_length = true
are_ranges previous_end (t ∷ ts) byte_length =
    not (leb t.end_byte t.start_byte || ltb t.start_byte previous_end || ltb byte_length t.end_byte)
    && are_ranges t.end_byte ts byte_length

unfoldable pub validate_token_ranges : List Token → ℕ → Result WindowError (List Token)
validate_token_ranges tokens byte_length =
    throw_if (ltb max_search_tokens_per_document (length tokens)) too_many_tokens
    >> (throw_if (not (are_ranges 0 tokens byte_length)) invalid_tokens >> ok tokens)

unfoldable pub intersects : Chunk → ℕ → ℕ → Bool
intersects c start end =
    if start == end
    then c.start_byte == start && c.end_byte == end
    else ltb c.start_byte end && ltb start c.end_byte

abbrev pub has_id : List Bytes → Bytes → Bool
has_id [] id = false
has_id (j ∷ ids) id = text_eq j id || has_id ids id

-- The loop of `chunksForRange`: every chunk that meets the range, each address once.
unfoldable pub select_chunks : List Chunk → ℕ → ℕ → List Bytes → List Bytes
select_chunks [] start end seen = []
select_chunks (c ∷ cs) start end seen =
    elim (not (intersects c start end) || has_id seen c.chunk_id) [
      | true ↦ select_chunks cs start end seen
      | false ↦ c.chunk_id ∷ select_chunks cs start end (c.chunk_id ∷ seen)
    ]

abbrev pub or_lone_empty : List Chunk → List Bytes
or_lone_empty (c ∷ []) = if c.start_byte == c.end_byte then c.chunk_id ∷ [] else []
or_lone_empty _ = []

-- `selected`, or what is selected instead; a range without a chunk is an error.
abbrev pub selected_or : List Bytes → List Bytes → Result WindowError (List Bytes)
selected_or (id ∷ ids) instead = ok (id ∷ ids)
selected_or [] (id ∷ ids) = ok (id ∷ ids)
selected_or [] [] = throw no_chunk

unfoldable pub chunks_for_range : List Chunk → ℕ → ℕ → Result WindowError (List Bytes)
chunks_for_range cs start end = selected_or (select_chunks cs start end []) (or_lone_empty cs)

abbrev pub window_at : Document → ℕ → ℕ → ℕ → List Bytes → SearchWindow
window_at d ordinal start end ids = record {
  window_format_version = search_window_format_version;
  document_id = d.document_id;
  document_version = d.document_version;
  ordinal = ordinal;
  start_byte = start;
  end_byte = end;
  chunk_ids = ids;
  index_generation = d.index_generation;
}

-- Where the tokens from an index on start, or the end of the text.
abbrev pub start_of : ℕ → List Token → ℕ
start_of byte_length [] = byte_length
start_of byte_length (t ∷ ts) = t.start_byte

abbrev pub prepend :
    SearchWindow → Result WindowError (List SearchWindow) → Result WindowError (List SearchWindow)
prepend w later = later >>= λ ws. ok (w ∷ ws)

-- The loop, where `rest` is the tokens from `startToken` on and `behind` those from `endToken` on.
unfoldable pub windows_loop :
    WindowOptions → Document → ℕ → ℕ → ℕ → List Token → Result WindowError (List SearchWindow)
windows_loop o d zero ordinal start rest = throw out_of_fuel
windows_loop o d (suc fuel) ordinal start [] = ok []
windows_loop o d (suc fuel) ordinal start (t ∷ ts) =
    let behind = drop o.window_tokens (t ∷ ts) in
    let end = start_of (length d.text) behind in
    let next = drop (o.window_tokens - o.overlap_tokens) (t ∷ ts) in
    chunks_for_range d.chunks start end >>= λ ids.
    prepend (window_at d ordinal start end ids) (elim behind [
      | [] ↦ ok []
      | u ∷ us ↦ windows_loop o d fuel (suc ordinal) (start_of (length d.text) next) next
    ])

-- A text without a token has one window; otherwise each turn of the loop passes a token at least.
unfoldable pub windows_of :
    WindowOptions → Document → List Token → Result WindowError (List SearchWindow)
windows_of o d [] = chunks_for_range d.chunks 0 (length d.text) >>= λ ids.
    ok (window_at d 0 0 (length d.text) ids ∷ [])
windows_of o d (t ∷ ts) = windows_loop o d (length (t ∷ ts)) 0 0 (t ∷ ts)

module _ {N : Type 0} (in_unit : N → Bool) (floor_share : ℕ → N → ℕ) (default_ratio : N)
    (tokenize : Bytes → List Token) where
  unfoldable pub create_search_windows :
      Document → RequestedOptions N → Result WindowError (List SearchWindow)
  create_search_windows d options =
      throw_if (length d.document_id == 0 || d.document_version == 0) invalid_identity
      >> throw_if (not (assert_chunk_layout d.chunks (length d.text))) bad_layout
      >> (normalize_window_options in_unit floor_share default_ratio options >>= λ o.
          (validate_token_ranges (tokenize d.text) (length d.text) >>= λ tokens.
          windows_of o d tokens))

-- The test of the filter, where `is_last` says that the window is the last one.
unfoldable pub meets : SearchWindow → ℕ → ℕ → Bool → Bool
meets w start end is_last =
    if start == end
    then (leb w.start_byte start && ltb start w.end_byte) || (is_last && start == w.end_byte)
    else ltb w.start_byte end && ltb start w.end_byte

abbrev pub is_empty {ℓ} : {A : Type ℓ} → List A → Bool
is_empty [] = true
is_empty (x ∷ xs) = false

unfoldable pub select_windows :
    ℕ → ℕ → ℕ → List SearchWindow → Result WindowError (List SearchWindow)
select_windows index start end [] = ok []
select_windows index start end (w ∷ ws) =
    throw_if (not (w.ordinal == index)) unordered
    >> (select_windows (suc index) start end ws >>= λ later.
        ok (if meets w start end (is_empty ws) then w ∷ later else later))

unfoldable pub windows_for_byte_range :
    List SearchWindow → ℕ → ℕ → Result WindowError (List SearchWindow)
windows_for_byte_range ws start end =
    throw_if (is_empty ws) no_windows
    >> throw_if (ltb end start) invalid_range
    >> select_windows 0 start end ws

-- `intersecting.find(…)`, where the last window may be met at its end.
unfoldable pub find_containing : ℕ → ℕ → List SearchWindow → Option SearchWindow
find_containing start end [] = none
find_containing start end (w ∷ ws) =
    let later = find_containing start end ws in
    if leb w.start_byte start && leb end w.end_byte && (ltb start w.end_byte || is_empty ws)
    then some w
    else later

abbrev pub or_first : Option SearchWindow → List SearchWindow → Option SearchWindow
or_first (some w) ws = some w
or_first none [] = none
or_first none (w ∷ ws) = some w

unfoldable pub window_for_byte_range :
    List SearchWindow → ℕ → ℕ → Result WindowError (Option SearchWindow)
window_for_byte_range ws start end =
    windows_for_byte_range ws start end >>= λ met. ok (or_first (find_containing start end met) met)
