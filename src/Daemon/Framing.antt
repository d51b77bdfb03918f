-- ===== src/Daemon/Framing.antt =====
-- src/daemon/framing.js: `LineFramer`, which cuts a byte stream into newline-terminated frames.
-- A buffer is the list of the bytes written to it: the slab `tail` has room for `block_size` of
-- them. Two ways to build a frame that return the same bytes differ in what they copy.
pub mod Buffer
pub mod Lines
pub mod Push
pub mod Chunks
use pi_sliding_context_windo.Common.{
  ℕ, zero, suc, ◌+◌, ◌-◌, min, Bool, true, false, Option, none, some, List, [], ◌∷◌, ◌++◌, ◌&&◌,
  if◌then◌else◌, ltb, leb, ◌==◌, length, take, drop, concat,
}

abbrev pub Bytes : Type 0
Bytes = List ℕ

-- `FRAME_BLOCK_BYTES`
abbrev pub frame_block_bytes : ℕ
frame_block_bytes = 65536

pub record Framer : Type 0 where
  pub max_frame_bytes : ℕ
  pub blocks : List Bytes
  pub tail : Option Bytes
  pub buffered_bytes : ℕ

abbrev pub written : Option Bytes → Bytes
written none = []
written (some t) = t

-- `Math.min(FRAME_BLOCK_BYTES, this.maxFrameBytes)`: the length of a slab.
abbrev pub block_size : Framer → ℕ
block_size f = min frame_block_bytes f.max_frame_bytes

pub data FrameError : Type 0 where
  too_large incomplete invalid_limit : FrameError

pub data Outcome {ℓ} (A : Type ℓ) : Type ℓ where
  returns : A → Outcome A
  throws : FrameError → Outcome A

-- The constructor.
unfoldable pub init : ℕ → Outcome Framer
init zero = throws invalid_limit
init (suc n) =
    returns (record { max_frame_bytes = suc n; blocks = []; tail = none; buffered_bytes = 0 })

unfoldable pub reset : Framer → Framer
reset f = record f { blocks = []; tail = none; buffered_bytes = 0 }

-- One round of the loop of `#append`: how many bytes it copies, and the framer after it.
unfoldable pub copied : Framer → Bytes → ℕ
copied f bytes = min (block_size f - length (written f.tail)) (length bytes)

unfoldable pub copy_round : Framer → Bytes → Framer
copy_round f bytes =
    let n = copied f bytes in
    let t = written f.tail ++ take n bytes in
    if length t == block_size f
    then record f {
      blocks = f.blocks ++ t ∷ [];
      tail = none;
      buffered_bytes = f.buffered_bytes + n;
    }
    else record f { tail = some t; buffered_bytes = f.buffered_bytes + n }

-- The loop, on fuel: a round copies at least one byte.
unfoldable pub append_loop : ℕ → Framer → Bytes → Framer
append_loop zero f bytes = f
append_loop (suc fuel) f [] = f
append_loop (suc fuel) f (b ∷ bytes) =
    append_loop fuel (copy_round f (b ∷ bytes)) (drop (copied f (b ∷ bytes)) (b ∷ bytes))

unfoldable pub append : Framer → Bytes → Framer × Outcome (Unit {0})
append f bytes =
    if ltb (f.max_frame_bytes - f.buffered_bytes) (length bytes)
    then (reset f, throws too_large)
    else (append_loop (length bytes) f bytes, returns tt)

-- The copy of all blocks, the slab and the segment into a new frame.
abbrev pub copy_frame : List Bytes → Option Bytes → Bytes → Bytes
copy_frame blocks tail segment = concat blocks ++ (written tail ++ segment)

-- `#materialize`, by the cases that reuse a buffer of the right size.
unfoldable pub materialize_from : Framer → List Bytes → Option Bytes → Bytes → ℕ → Bytes
materialize_from f [] (some t) segment frame_bytes =
    if frame_bytes == block_size f then t ++ segment else copy_frame [] (some t) segment
materialize_from f (block ∷ []) none segment frame_bytes =
    if length segment == 0 then block else copy_frame (block ∷ []) none segment
materialize_from f blocks tail segment frame_bytes = copy_frame blocks tail segment

unfoldable pub materialize : Framer → Bytes → ℕ → Bytes
materialize f segment frame_bytes = materialize_from f f.blocks f.tail segment frame_bytes

-- `bytes.indexOf(0x0a, start)` with the two subarrays around it.
unfoldable pub cut_at_newline : Bytes → Option (Bytes × Bytes)
cut_at_newline [] = none
cut_at_newline (b ∷ bytes) =
    if b == 10
    then some ([], bytes)
    else elim (cut_at_newline bytes) [ none ↦ none | some (s, r) ↦ some (b ∷ s, r) ]

-- An error of `#append` ends the push.
abbrev pub or_rethrow : Framer × Outcome (Unit {0}) → List Bytes → Framer × Outcome (List Bytes)
or_rethrow (f, returns _) lines = (f, returns lines)
or_rethrow (f, throws e) lines = (f, throws e)

-- The end of `push`, behind the last newline.
unfoldable pub keep_remainder : Framer → Bytes → List Bytes → Framer × Outcome (List Bytes)
keep_remainder f [] lines = (f, returns lines)
keep_remainder f (b ∷ rest) lines = or_rethrow (append f (b ∷ rest)) lines

-- The loop of `push` over the newlines of the chunk, on fuel: a round consumes a newline.
unfoldable pub push_loop : ℕ → Framer → Bytes → List Bytes → Framer × Outcome (List Bytes)
push_loop zero f bytes lines = (f, returns lines)
push_loop (suc fuel) f bytes lines = elim (cut_at_newline bytes) [
  | none ↦ keep_remainder f bytes lines
  | some (segment, rest) ↦
      let frame_bytes = f.buffered_bytes + length segment in
      let line = if f.buffered_bytes == 0 then segment else materialize f segment frame_bytes in
      let next = push_loop fuel (reset f) rest (lines ++ line ∷ []) in
      if ltb f.max_frame_bytes frame_bytes then (reset f, throws too_large) else next
]

unfoldable pub push : Framer → Bytes → Framer × Outcome (List Bytes)
push f chunk = push_loop (suc (length chunk)) f chunk []

unfoldable pub finish : Framer → Outcome (List Bytes)
finish f = if f.buffered_bytes == 0 then returns [] else throws incomplete

-- The released framer, and how many bytes it dropped.
unfoldable pub discard : Framer → Framer × ℕ
discard f = (reset f, f.buffered_bytes)
