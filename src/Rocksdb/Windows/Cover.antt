-- ===== src/Rocksdb/Windows/Cover.antt =====
-- The search windows of src/rocksdb/windows.js always come to an end and leave no byte out.
use pi_sliding_context_windo.Common.{
  ℕ, zero, suc, ◌+◌, ◌-◌, ◌≤◌, ◌<◌, ◌≡◌, refl, sym, ap, subst, inl, inr, Bool, true, false, not,
  List, [], ◌∷◌, arith, ltb, leb, ◌==◌, length, drop, ◌⊎◌, drop-drop, length-drop,
}
use pi_sliding_context_windo.Common.Results.{
  ok, ◌>>=◌, ◌>>◌, throw_if, ok_chain, throw_if_chain, ok_eq,
}
use pi_sliding_context_windo.Rocksdb.Chunks.{Bytes, assert_chunk_layout}
use pi_sliding_context_windo.Rocksdb.Windows.{
  RequestedOptions, WindowOptions, Token, SearchWindow, Document, normalize_window_options,
  overlap_of, or_default, default_window_tokens, invalid_tokens, too_many_tokens, invalid_options,
  max_search_tokens_per_document, are_ranges, validate_token_ranges, chunks_for_range, window_at,
  start_of, windows_loop, windows_of, create_search_windows,
}
use pi_sliding_context_windo.Rocksdb.Windows.Ranges.{
  AreOrdered, chunks_for_range-ok, chunks_for_range-empty, are_ranges-AreOrdered, start_of-le,
  start_of-drop_le, start_of-drop_pos, drop-AreOrdered,
}

-- Windows from an ordinal and a byte on: numbered in order, each starts at the end of the one before
-- it or earlier, and they end where the text ends.
abbrev pub LaidOut : ℕ → ℕ → List SearchWindow → ℕ → Type 0
LaidOut index from [] size = from ≡ size
LaidOut index from (w ∷ ws) size =
    (w.ordinal ≡ index)
    × (w.start_byte ≤ from)
    × (from ≤ w.end_byte)
    × LaidOut (suc index) w.end_byte ws size

nil_or_cons {ℓ} : {A : Type ℓ} (xs : List A) → (xs ≡ []) ⊎ ((x : A) × (ys : List A) × (xs ≡ x ∷ ys))
nil_or_cons [] = inl refl
nil_or_cons (x ∷ xs) = inr (x, xs, refl)

module _ (o : WindowOptions) (d : Document) where
  abbrev end_of : List Token → ℕ
  end_of ts = start_of (length d.text) (drop o.window_tokens ts)

  abbrev next_of : List Token → List Token
  next_of ts = drop (o.window_tokens - o.overlap_tokens) ts

  loop-last :
      (fuel ordinal start : ℕ) (t : Token) (ts : List Token) (ids : List Bytes)
      → chunks_for_range d.chunks start (end_of (t ∷ ts)) ≡ ok ids
      → drop o.window_tokens (t ∷ ts) ≡ []
      → windows_loop o d (suc fuel) ordinal start (t ∷ ts)
        ≡ ok (window_at d ordinal start (end_of (t ∷ ts)) ids ∷ [])
  unfolding windows_loop
  loop-last fuel ordinal start t ts ids c e = rw (c, e) refl

  loop-next :
      (fuel ordinal start : ℕ) (t : Token) (ts : List Token) (ids : List Bytes) (u : Token)
      (us : List Token) (ws : List SearchWindow)
      → chunks_for_range d.chunks start (end_of (t ∷ ts)) ≡ ok ids
      → drop o.window_tokens (t ∷ ts) ≡ u ∷ us
      → windows_loop o d fuel
          (suc ordinal)
          (start_of (length d.text) (next_of (t ∷ ts)))
          (next_of (t ∷ ts))
        ≡ ok ws
      → windows_loop o d (suc fuel) ordinal start (t ∷ ts)
        ≡ ok (window_at d ordinal start (end_of (t ∷ ts)) ids ∷ ws)
  unfolding windows_loop
  loop-next fuel ordinal start t ts ids u us ws c e l = rw (c, e, l) refl

  end_of-next :
      (previous : ℕ) (ts : List Token)
      → AreOrdered previous ts (length d.text)
      → end_of ts ≤ end_of (next_of ts)
  end_of-next previous ts r =
      let step = o.window_tokens - o.overlap_tokens in
      subst (λ us. end_of ts ≤ start_of (length d.text) us)
        (sym (drop-drop step o.window_tokens (step + o.window_tokens) ts refl))
        (start_of-drop_le previous o.window_tokens (step + o.window_tokens) ts (length d.text) r
          (omega arith))

  loop-LaidOut :
      assert_chunk_layout d.chunks (length d.text) ≡ true
      → o.overlap_tokens < o.window_tokens
      → (fuel ordinal previous start from : ℕ) (ts : List Token)
      → AreOrdered previous ts (length d.text)
      → 0 < length ts
      → length ts ≤ fuel
      → start ≤ start_of (length d.text) ts
      → start ≤ from
      → from ≤ end_of ts
      → (ws : List SearchWindow) × (windows_loop o d fuel ordinal start ts ≡ ok ws)
        × (0 < length ws)
        × LaidOut ordinal from ws (length d.text)
  loop-LaidOut l v fuel ordinal previous start from [] r n m a b c = absurd (omega arith)
  loop-LaidOut l v zero ordinal previous start from (t ∷ ts) r n m a b c = absurd (omega arith)
  loop-LaidOut l v (suc fuel) ordinal previous start from (t ∷ ts) r n m a b c =
      let size = length d.text in
      let step = o.window_tokens - o.overlap_tokens in
      let behind = drop-AreOrdered previous o.window_tokens (t ∷ ts) size r in
      let (ids, e) =
        chunks_for_range-ok d.chunks size start (end_of (t ∷ ts)) l
          (omega (arith, start_of-drop_pos previous o.window_tokens t ts size r))
          (start_of-le _ _ size behind) in
      elim (nil_or_cons (drop o.window_tokens (t ∷ ts))) [
        | inl z ↦ (
          _,
          loop-last fuel ordinal start t ts ids e z,
          omega arith,
          (refl, b, c, ap (start_of size) z),
        )
        | inr (u, us, z) ↦
            let longer : 0 < length (drop o.window_tokens (t ∷ ts)) = rw z (omega arith) in
            let (ws, f, g, h) =
              loop-LaidOut l v fuel (suc ordinal) _ _ (end_of (t ∷ ts)) (next_of (t ∷ ts))
                (drop-AreOrdered previous step (t ∷ ts) size r)
                (omega
                  (arith, longer, length-drop o.window_tokens (t ∷ ts), length-drop step (t ∷ ts)))
                (omega (arith, length-drop step (t ∷ ts))) (omega arith)
                (start_of-drop_le previous step o.window_tokens (t ∷ ts) size r (omega arith))
                (end_of-next previous (t ∷ ts) r) in
            (_, loop-next fuel ordinal start t ts ids u us ws e z f, omega arith, (refl, b, c, h))
      ]

  -- The chunks of the whole text, which may be empty.
  whole_chunks :
      assert_chunk_layout d.chunks (length d.text) ≡ true
      → (ids : List Bytes) × (chunks_for_range d.chunks 0 (length d.text) ≡ ok ids)
  whole_chunks l = at_size (length d.text) refl
    where
      at_size :
          (size : ℕ)
          → size ≡ length d.text
          → (ids : List Bytes) × (chunks_for_range d.chunks 0 (length d.text) ≡ ok ids)
      at_size zero e =
          subst (λ n. (ids : List Bytes) × (chunks_for_range d.chunks 0 n ≡ ok ids)) e
            (chunks_for_range-empty d.chunks
              (subst (λ n. assert_chunk_layout d.chunks n ≡ true) (sym e) l))
      at_size (suc n) e =
          chunks_for_range-ok d.chunks (length d.text) 0 (length d.text) l (omega arith)
            (omega arith)

  -- The windows of ordered tokens.
  windows_of-LaidOut :
      assert_chunk_layout d.chunks (length d.text) ≡ true
      → o.overlap_tokens < o.window_tokens
      → (ts : List Token) → AreOrdered 0 ts (length d.text)
      → (ws : List SearchWindow) × (windows_of o d ts ≡ ok ws)
        × (0 < length ws)
        × LaidOut 0 0 ws (length d.text)
  unfolding windows_of
  windows_of-LaidOut l v (t ∷ ts) r =
      loop-LaidOut l v (length (t ∷ ts)) 0 0 0 0 (t ∷ ts) r (omega arith) (omega arith)
        (omega arith) (omega arith) (omega arith)
  windows_of-LaidOut l v [] r =
      let (ids, e) = whole_chunks l in
      (
        window_at d 0 0 (length d.text) ids ∷ [],
        rw e refl,
        omega arith,
        (refl, omega arith, omega arith, refl),
      )

validate_token_ranges-ok :
    (ts us : List Token) (size : ℕ)
    → validate_token_ranges ts size ≡ ok us
    → (ts ≡ us) × (are_ranges 0 ts size ≡ true)
unfolding validate_token_ranges
validate_token_ranges-ok ts us size h =
    let ordered = throw_if (not (are_ranges 0 ts size)) invalid_tokens >> ok ts in
    let (a, q) =
      throw_if_chain (ltb max_search_tokens_per_document (length ts)) too_many_tokens ordered us
        h in
    let (b, r) = throw_if_chain (not (are_ranges 0 ts size)) invalid_tokens (ok ts) us q in
    (ok_eq _ _ r, ground (arith, b))

module _ {N : Type 0} (in_unit : N → Bool) (floor_share : ℕ → N → ℕ) (default_ratio : N) where
  -- What the normalized options keep to.
  normalize_window_options-lt :
      (options : RequestedOptions N) (o : WindowOptions)
      → normalize_window_options in_unit floor_share default_ratio options ≡ ok o
      → o.overlap_tokens < o.window_tokens
  unfolding normalize_window_options
  normalize_window_options-lt options o h =
      let tokens = or_default options.window_tokens default_window_tokens in
      let overlap =
        overlap_of in_unit floor_share default_ratio tokens options.overlap_tokens
          options.overlap_ratio in
      let last = λ (n : ℕ).
        throw_if (leb tokens n) invalid_options
        >> ok (record { window_tokens = tokens; overlap_tokens = n }) in
      let (a, q) = throw_if_chain (tokens == 0) invalid_options (overlap >>= last) o h in
      let (n, b, r) = ok_chain overlap last o q in
      let (c, e) =
        throw_if_chain (leb tokens n) invalid_options
          (ok (record { window_tokens = tokens; overlap_tokens = n })) o r in
      subst (λ x. x.overlap_tokens < x.window_tokens) (ok_eq _ _ e) (ground (arith, c))

  module _ (tokenize : Bytes → List Token) where
    -- A document with an identity, whose chunks are laid out over its text, for valid options and a
    -- tokenizer that gives valid ranges, gets its windows: the loop ends, none of them lacks a chunk,
    -- they are numbered in order from 0, and together they cover the text from its first to its last
    -- byte without a gap.
    pub create_search_windows-LaidOut :
        (d : Document) (options : RequestedOptions N) (o : WindowOptions) (ts : List Token)
        → 0 < length d.document_id
        → 0 < d.document_version
        → assert_chunk_layout d.chunks (length d.text) ≡ true
        → normalize_window_options in_unit floor_share default_ratio options ≡ ok o
        → validate_token_ranges (tokenize d.text) (length d.text) ≡ ok ts
        → (ws : List SearchWindow) × (create_search_windows in_unit floor_share default_ratio
              tokenize d options
            ≡ ok ws)
          × (0 < length ws)
          × LaidOut 0 0 ws (length d.text)
    unfolding create_search_windows
    create_search_windows-LaidOut d options o ts i v l n t =
        let a : (length d.document_id == 0) ≡ false = ground arith in
        let b : (d.document_version == 0) ≡ false = ground arith in
        let (s, r) = validate_token_ranges-ok _ ts (length d.text) t in
        let (ws, e, g, h) =
          windows_of-LaidOut o d l (normalize_window_options-lt options o n) ts
            (are_ranges-AreOrdered 0 ts (length d.text) (omega arith) (rw s at r)) in
        (ws, rw (a, b, l, n, t) e, g, h)
