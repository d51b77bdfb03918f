-- ===== src/Tests/WindowRuns.antt =====
-- Runs of src/rocksdb/windows.js and src/rocksdb/supersession-chain.js.
use pi_sliding_context_windo.Common.{
  ℕ, ◌*◌, ◌/◌, ◌+◌, ◌<◌, ◌⊎◌, ◌≡◌, refl, Bool, true, none, some, List, [], ◌∷◌, units, arith,
  length, ltb, if◌then◌else◌, ◌==◌, decimal, decimal_fuel,
}
use pi_sliding_context_windo.Common.Results.{ok}
use pi_sliding_context_windo.Rocksdb.Chunks.{Bytes, Chunk, assert_chunk_layout, layout_from}
use pi_sliding_context_windo.Rocksdb.Windows.{
  RequestedOptions, WindowOptions, Token, SearchWindow, Document, normalize_window_options,
  validate_token_ranges, are_ranges, create_search_windows, window_for_byte_range, window_at,
}
use pi_sliding_context_windo.Rocksdb.Windows.Cover.{LaidOut, create_search_windows-LaidOut}
use pi_sliding_context_windo.Rocksdb.Windows.Lookup.{
  Meets, Contains, NoneContains, window_for_byte_range-LaidOut,
}
use pi_sliding_context_windo.Rocksdb.Supersession.{
  Manifest, Marker, View, Identity, ChainView, supersession_chain_view, explicit_successor_marker,
  is_identity, walk_backward, walk_forward,
}
use pi_sliding_context_windo.Rocksdb.Supersession.Bounds.{
  IsChainView, supersession_chain_view-IsChainView,
}
use pi_sliding_context_windo.Rocksdb.Supersession.Exact.{
  IsPlaced, reference, supersession_chain_view-chain,
}

-- "ab cd ef" in one chunk, with windows of two tokens that overlap in one.
abbrev chunk : Chunk
chunk = record {
  chunk_id = units "c";
  ordinal = 0;
  start_byte = 0;
  end_byte = 8;
  byte_length = 8;
  content = units "ab cd ef";
}

abbrev document : Document
document = record {
  text = units "ab cd ef";
  document_id = units "d";
  document_version = 1;
  chunks = chunk ∷ [];
  index_generation = 0;
}

abbrev token_at : ℕ → Token
token_at n = record { start_byte = n; end_byte = n + 2 }

abbrev tokens : List Token
tokens = token_at 0 ∷ token_at 3 ∷ token_at 6 ∷ []

abbrev tokenize : Bytes → List Token
tokenize text = tokens

abbrev options : RequestedOptions ℕ
options = record { window_tokens = some 2; overlap_tokens = none; overlap_ratio = some 50 }

abbrev normalized : WindowOptions
normalized = record { window_tokens = 2; overlap_tokens = 1 }

-- Ratios in percent.
abbrev in_unit : ℕ → Bool
in_unit r = ltb r 100

abbrev floor_share : ℕ → ℕ → ℕ
floor_share w r = w * r / 100

laid_out : assert_chunk_layout document.chunks (length document.text) ≡ true
unfolding assert_chunk_layout layout_from
laid_out = refl

options-normalized : normalize_window_options in_unit floor_share 15 options ≡ ok normalized
unfolding normalize_window_options
options-normalized = refl

tokens-validated : validate_token_ranges (tokenize document.text) (length document.text) ≡ ok tokens
unfolding validate_token_ranges are_ranges
tokens-validated = refl

create_search_windows-LaidOut_example :
    (ws : List SearchWindow) × (create_search_windows in_unit floor_share 15 tokenize document
        options
      ≡ ok ws)
    × (0 < length ws)
    × LaidOut 0 0 ws (length document.text)
create_search_windows-LaidOut_example =
    create_search_windows-LaidOut in_unit floor_share 15 tokenize document options normalized tokens
      (omega arith) (omega arith) laid_out options-normalized tokens-validated

-- The windows of that document.
abbrev windows : List SearchWindow
windows = window_at document 0 0 6 (units "c" ∷ []) ∷ window_at document 1 3 8 (units "c" ∷ []) ∷ []

window_for_byte_range-LaidOut_example :
    (w : SearchWindow) × (window_for_byte_range windows 4 7 ≡ ok (some w))
    × Meets 4 7 w
    × (Contains 4 7 w ⊎ NoneContains 4 7 windows)
window_for_byte_range-LaidOut_example =
    window_for_byte_range-LaidOut 8 4 7 windows
      (refl, omega arith, omega arith, (refl, omega arith, omega arith, refl)) (omega arith)
      (omega arith) (omega arith)

-- Three versions of one plan, of which the middle one is looked at.
abbrev version_of : ℕ → Identity
version_of n = record { document_id = units "p"; version = n }

abbrev plan : ℕ → Manifest
plan n = record {
  document_id = units "p";
  version = n;
  project = units "x";
  created_at = n;
  supersedes = if n == 1 then none else some (reference (version_of 1));
}

abbrev marker : Marker
marker = record {
  status = units "superseded";
  supersession_type = units "explicit";
  replacement = reference (version_of 3);
  recorded_at = 9;
}

abbrev store : View
store = record {
  get_document = λ d v. if v == 1 then some (plan 1) else none;
  first_marker = λ d v. if v == 2 then some marker else none;
}

abbrev place : ChainView
place = record {
  position = 2;
  total_versions = 3;
  predecessor = some (record { document_id = units "p"; version = 1; created_at = 1 });
  successor = some (record { document_id = units "p"; version = 3; created_at = 9 });
}

viewed : supersession_chain_view store (plan 2) ≡ ok (some place)
unfolding supersession_chain_view walk_backward walk_forward explicit_successor_marker is_identity
    decimal decimal_fuel
viewed = refl

supersession_chain_view-IsChainView_example : IsChainView place
supersession_chain_view-IsChainView_example =
    supersession_chain_view-IsChainView store (plan 2) place viewed

marked : explicit_successor_marker store (version_of 2) ≡ some marker
unfolding explicit_successor_marker
marked = refl

unmarked : explicit_successor_marker store (version_of 3) ≡ none
unfolding explicit_successor_marker
unmarked = refl

named : (n : ℕ) → 0 < n → is_identity (version_of n) ≡ true
unfolding is_identity
named n h = ground arith

supersession_chain_view-chain_example : IsPlaced 1 1 (supersession_chain_view store (plan 2))
unfolding decimal decimal_fuel
supersession_chain_view-chain_example =
    supersession_chain_view-chain store (plan 2) (plan 1 ∷ []) ((version_of 3, 9) ∷ [])
      (named 2 (omega arith)) (omega arith) (refl, named 1 (omega arith), refl, refl, refl)
      (marker, marked, refl, refl, named 3 (omega arith), unmarked) (refl, tt) (refl, tt)
      (omega arith) (omega arith)
