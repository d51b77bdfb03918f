-- ===== src/Rocksdb/Chunks/Boundary.antt =====
-- Where src/rocksdb/chunks.js ends a chunk of well-formed UTF-8.
use pi_sliding_context_windo.Common.{
  ℕ, zero, suc, ◌+◌, ◌-◌, ◌≤◌, ◌<◌, ◌≡◌, refl, sym, ◌∙◌, lt→ltb, ltb→lt, leb→le, get_elem?-length,
  inl, inr, true, false, Option, none, some, arith, ltb, leb, ◌==◌, ◌&&◌, length, Bool-cases,
}
use mathlib.Core.Bool.{false≢true}
use pi_sliding_context_windo.Rocksdb.Chunks.{
  Bytes, ChunkingOptions, ok, is_continuation_at, is_newline_at, utf8_boundary_at_or_before,
  last_newline, line_end, preferred_end,
}

-- What UTF-8 guarantees of its bytes: a scalar has at most three continuation bytes, and none
-- stands at the start or behind a newline.
pub record IsUtf8 (bytes : Bytes) : Type 0 where
  pub first : is_continuation_at bytes 0 ≡ false
  pub short_runs :
      (i : ℕ)
      → is_continuation_at bytes (i + 1) ≡ true
      → is_continuation_at bytes (i + 2) ≡ true
      → is_continuation_at bytes (i + 3) ≡ true
      → is_continuation_at bytes (i + 4) ≡ false
  pub behind_newline :
      (i : ℕ) → is_newline_at bytes i ≡ true → is_continuation_at bytes (i + 1) ≡ false

-- The result is no continuation byte unless the floor was reached, and then all bytes above the
-- floor are.
at_stop :
    (bytes : Bytes) (floor b : ℕ)
    → floor < b
    → (ltb floor b && is_continuation_at bytes b) ≡ false
    → is_continuation_at bytes b ≡ false
at_stop bytes floor b f h = rw (lt→ltb floor b f) at h

boundary_lem :
    (bytes : Bytes) (candidate floor : ℕ)
    → let b = utf8_boundary_at_or_before bytes candidate floor in
      (b ≤ candidate)
      × ((floor < b → is_continuation_at bytes b ≡ false))
      × ((i : ℕ) → b < i → floor < i → i ≤ candidate → is_continuation_at bytes i ≡ true)
unfolding utf8_boundary_at_or_before
boundary_lem bytes zero floor =
    (omega arith, λ l. absurd (omega arith), λ i a b c. absurd (omega arith))
boundary_lem bytes (suc b) floor =
    elim (Bool-cases (ltb floor (suc b) && is_continuation_at bytes (suc b))) [
      | inl down ↦
          let (l, n, c) = boundary_lem bytes b floor in
          let k : is_continuation_at bytes (suc b) ≡ true = ground arith in
          rw down (
            omega arith,
            n,
            λ i a f u. elim (Bool-cases (i == suc b)) [
              | inl e ↦ let q : i ≡ suc b = ground arith in rw q k
              | inr e ↦ c i a f (ground arith)
            ],
          )
      | inr stay ↦
          rw stay
            (omega arith, λ f. at_stop bytes floor (suc b) f stay, λ i a f u. absurd (omega arith))
    ]

last_newline_lem :
    (bytes : Bytes) (i n : ℕ)
    → last_newline bytes i ≡ some n
    → (n ≤ i) × (is_newline_at bytes n ≡ true)
unfolding last_newline
last_newline_lem bytes zero n h = ground arith
last_newline_lem bytes (suc i) n h = elim (Bool-cases (is_newline_at bytes (suc i))) [
  | inl e ↦ let q : n ≡ suc i = ground arith in rw q (omega arith, e)
  | inr e ↦ let (l, k) = last_newline_lem bytes i n (ground arith) in (omega arith, k)
]

no_continuation_at_end : (bytes : Bytes) → is_continuation_at bytes (length bytes) ≡ false
no_continuation_at_end bytes = rw (get_elem?-length bytes, is_continuation_at)

-- With at least four bytes to look back over there is a boundary above the start.
hard_end-lt :
    (bytes : Bytes) (start m : ℕ)
    → IsUtf8 bytes
    → 4 ≤ m
    → start < utf8_boundary_at_or_before bytes (start + m) start
hard_end-lt bytes start m u h =
    let (l, n, c) = boundary_lem bytes (start + m) start in
    elim (Bool-cases (ltb start (utf8_boundary_at_or_before bytes (start + m) start))) [
      | inl above ↦ ltb→lt _ _ above
      | inr stuck ↦
          let low : utf8_boundary_at_or_before bytes (start + m) start ≤ start = ground arith in
          let a = c (start + 1) (omega arith) (omega arith) (omega arith) in
          let b = c (start + 2) (omega arith) (omega arith) (omega arith) in
          let d = c (start + 3) (omega arith) (omega arith) (omega arith) in
          let e = c (start + 4) (omega arith) (omega arith) (omega arith) in
          absurd (false≢true (sym (u.short_runs start a b d) ∙ e))
    ]

-- The end of a chunk: behind its start, within the bytes and the chunk size, and at a boundary.
pub record IsEnd (bytes : Bytes) (start : ℕ) (o : ChunkingOptions) (end : ℕ) : Type 0 where
  pub above : start < end
  pub within : end ≤ length bytes
  pub bounded : end ≤ start + o.max_chunk_bytes
  pub boundary : is_continuation_at bytes end ≡ false

line_end-IsEnd :
    (bytes : Bytes) (start hard_end : ℕ) (o : ChunkingOptions) (newline : Option ℕ)
    → IsUtf8 bytes
    → IsEnd bytes start o hard_end
    → ((n : ℕ) → newline ≡ some n → (n ≤ hard_end - 1) × (is_newline_at bytes n ≡ true))
    → IsEnd bytes start o (line_end o start hard_end newline)
line_end-IsEnd bytes start hard_end o none u h k = h
line_end-IsEnd bytes start hard_end o (some n) u h k =
    elim (Bool-cases (leb (start + o.min_line_split_bytes) n && ltb start (n + 1))) [
      | inl yes_line ↦
          let (l, e) = k n refl in
          let a : start < n + 1 = ground arith in
          let x = h.above in
          let y = h.within in
          let z = h.bounded in
          rw yes_line (record {
            above = a;
            within = omega arith;
            bounded = omega arith;
            boundary = u.behind_newline n e;
          })
      | inr no_line ↦ rw no_line h
    ]

-- In well-formed UTF-8, with chunks of at least four bytes, the search for an end never fails.
pub preferred_end-IsEnd :
    (bytes : Bytes) (start : ℕ) (o : ChunkingOptions)
    → IsUtf8 bytes
    → 4 ≤ o.max_chunk_bytes
    → start < length bytes
    → (end : ℕ) × (preferred_end bytes start o ≡ ok end) × IsEnd bytes start o end
unfolding preferred_end
preferred_end-IsEnd bytes start o u h l =
    elim (Bool-cases (leb (length bytes) (start + o.max_chunk_bytes))) [
      | inl short ↦ (
        length bytes,
        rw short,
        record {
          above = l;
          within = omega arith;
          bounded = leb→le _ _ short;
          boundary = no_continuation_at_end bytes;
        },
      )
      | inr long ↦
          let b = utf8_boundary_at_or_before bytes (start + o.max_chunk_bytes) start in
          let (c, n, _) = boundary_lem bytes (start + o.max_chunk_bytes) start in
          let a = hard_end-lt bytes start o.max_chunk_bytes u h in
          let f : leb b start ≡ false = ground arith in
          (
            line_end o start b (last_newline bytes (b - 1)),
            rw (long, f),
            line_end-IsEnd bytes start b o (last_newline bytes (b - 1)) u
                (record { above = a; within = ground arith; bounded = c; boundary = n a })
                (last_newline_lem bytes (b - 1)),
          )
    ]
