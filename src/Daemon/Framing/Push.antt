-- ===== src/Daemon/Framing/Push.antt =====
-- `push` of src/daemon/framing.js refines the lines of the byte stream.
use pi_sliding_context_windo.Common.{
  ℕ, zero, suc, ◌+◌, ◌-◌, ◌≤◌, ◌<◌, ◌≡◌, refl, sym, ap, subst, ◌∙◌, ◌⊎◌, true, false, none, some,
  List, [], ◌∷◌, ◌++◌, arith, if◌then◌else◌, ltb, ◌==◌, length, Bool-cases, Option-cases, inl, inr,
  ltb→lt, append_assoc, append-nil, length-append,
}
use pi_sliding_context_windo.Daemon.Framing.{
  Bytes, Framer, Outcome, returns, throws, too_large, reset, append, or_rethrow, append_loop,
  materialize, cut_at_newline, keep_remainder, push_loop, push,
}
use pi_sliding_context_windo.Daemon.Framing.Lines.{lines_of, Within}
use pi_sliding_context_windo.Daemon.Framing.Buffer.{
  content, IsValid, reset-IsValid, materialize-content, append_loop-Copies,
}

empty_of : (bytes : Bytes) → length bytes ≡ 0 → bytes ≡ []
empty_of [] h = refl
empty_of (b ∷ bytes) h = absurd (omega arith)

lines_of-none :
    (buffer bytes : Bytes)
    → cut_at_newline bytes ≡ none
    → lines_of buffer bytes ≡ ([], buffer ++ bytes)
unfolding cut_at_newline lines_of
lines_of-none buffer [] h = ap (λ x. ([], x)) (sym (append-nil buffer))
lines_of-none buffer (b ∷ bytes) h = elim (Bool-cases (b == 10)) [
  | inl nl ↦ absurd (ground arith)
  | inr other ↦
      rw (other, lines_of)
        (lines_of-none (buffer ++ b ∷ []) bytes (ground arith)
          ∙ ap (λ x. ([], x)) (append_assoc buffer (b ∷ []) bytes))
]

-- Behind the first newline the lines start anew.
abbrev line_first : Bytes → List Bytes × Bytes → List Bytes × Bytes
line_first l (ls, rest) = (l ∷ ls, rest)

lines_of-some :
    (buffer bytes segment rest : Bytes)
    → cut_at_newline bytes ≡ some (segment, rest)
    → (lines_of buffer bytes ≡ line_first (buffer ++ segment) (lines_of [] rest))
      × (length rest < length bytes)
unfolding cut_at_newline lines_of
lines_of-some buffer [] segment rest h = cc
lines_of-some buffer (b ∷ bytes) segment rest h = elim (Bool-cases (b == 10)) [
  | inl nl ↦
      let e : segment ≡ [] = ground arith in
      let r : rest ≡ bytes = ground arith in
      rw (nl, lines_of, e, r, append-nil buffer) (refl, omega arith)
  | inr other ↦ elim (Option-cases (cut_at_newline bytes)) [
    | inl n ↦ absurd (ground arith)
    | inr ((s, r), c) ↦
        let e : segment ≡ b ∷ s = ground arith in
        let q : rest ≡ r = ground arith in
        let (i, l) = lines_of-some (buffer ++ b ∷ []) bytes s r c in
        rw (other, lines_of, e, q)
          (i ∙ ap (λ x. line_first x (lines_of [] r)) (append_assoc buffer (b ∷ []) s), omega arith)
  ]
]

-- What a push amounts to: the lines of the stream with the rest buffered, if all are within the
-- limit; otherwise the error, and an empty buffer.
abbrev pub Pushed :
    Framer → List Bytes → List Bytes × Bytes → Framer × Outcome (List Bytes) → Type 0
Pushed f acc ls (g, out) =
    (Within f.max_frame_bytes ls
      × (out ≡ returns (acc ++ ls.0))
      × (content g ≡ ls.1)
      × IsValid g
      × (g.max_frame_bytes ≡ f.max_frame_bytes))
    ⊎ ((¬ Within f.max_frame_bytes ls)
        × (out ≡ throws too_large)
        × (content g ≡ [])
        × IsValid g
        × (g.max_frame_bytes ≡ f.max_frame_bytes))

append-over :
    (f : Framer) (bytes : Bytes)
    → ltb (f.max_frame_bytes - f.buffered_bytes) (length bytes) ≡ true
    → append f bytes ≡ (reset f, throws too_large)
unfolding append
append-over f bytes h = rw h

append-fits :
    (f : Framer) (bytes : Bytes)
    → ltb (f.max_frame_bytes - f.buffered_bytes) (length bytes) ≡ false
    → append f bytes ≡ (append_loop (length bytes) f bytes, returns tt)
unfolding append
append-fits f bytes h = rw h

keep_remainder-Pushed :
    (f : Framer) (bytes : Bytes) (acc : List Bytes)
    → IsValid f
    → length (content f) ≤ f.max_frame_bytes
    → Pushed f acc ([], content f ++ bytes) (keep_remainder f bytes acc)
unfolding keep_remainder reset
keep_remainder-Pushed f [] acc v h = inl (
  (tt, rw (append-nil (content f)) h),
  ap returns (sym (append-nil acc)),
  sym (append-nil (content f)),
  v,
  refl,
)
keep_remainder-Pushed f (b ∷ bytes) acc v h =
    let P : Framer × Outcome (Unit {0}) → Type 0 =
      λ r. Pushed f acc ([], content f ++ b ∷ bytes) (or_rethrow r acc) in
    let n = length-append (content f) (b ∷ bytes) in
    elim (Bool-cases (ltb (f.max_frame_bytes - f.buffered_bytes) (suc (length bytes)))) [
      | inl over ↦ subst P (sym (append-over f (b ∷ bytes) over)) (
          inr (
            (λ w. absurd (omega (arith, w.1, n, v.counted, ltb→lt _ _ over))),
            refl,
            refl,
            reset-IsValid v,
            refl,
          ))
      | inr fits ↦
          let c = append_loop-Copies (suc (length bytes)) f (b ∷ bytes) v (omega arith) in
          let m : suc (length bytes) ≤ f.max_frame_bytes - f.buffered_bytes = ground arith in
          subst P (sym (append-fits f (b ∷ bytes) fits)) (
            inl (
              (tt, omega (arith, n, v.counted)),
              ap returns (sym (append-nil acc)),
              c.holds,
              c.valid,
              c.limit,
            ))
    ]

line_is :
    (f : Framer) (segment : Bytes)
    → IsValid f
    → (if f.buffered_bytes == 0
        then segment
        else materialize f segment (f.buffered_bytes + length segment))
      ≡ content f ++ segment
line_is f segment v = elim (Bool-cases (f.buffered_bytes == 0)) [
  | inl z ↦ rw (z, empty_of (content f) (ground (arith, v.counted)))
  | inr nz ↦ rw nz (materialize-content f segment (f.buffered_bytes + length segment))
]

-- The lines behind the first one.
Pushed-first :
    (f : Framer) (acc : List Bytes) (l : Bytes) (ls : List Bytes × Bytes)
    (r : Framer × Outcome (List Bytes))
    → length l ≤ f.max_frame_bytes
    → Pushed (reset f) (acc ++ l ∷ []) ls r
    → Pushed f acc (line_first l ls) r
unfolding reset
Pushed-first f acc l ls r h (inl (w, e, c, v, m)) =
    inl (((h, w.0), w.1), e ∙ ap returns (append_assoc acc (l ∷ []) ls.0), c, v, m)
Pushed-first f acc l ls r h (inr (w, e, c, v, m)) = inr ((λ u. w (u.0.1, u.1)), e, c, v, m)

push_loop-Pushed :
    (fuel : ℕ) (f : Framer) (bytes : Bytes) (acc : List Bytes)
    → IsValid f
    → length (content f) ≤ f.max_frame_bytes
    → length bytes < fuel
    → Pushed f acc (lines_of (content f) bytes) (push_loop fuel f bytes acc)
unfolding push_loop reset
push_loop-Pushed zero f bytes acc v h l = elim l [ ]
push_loop-Pushed (suc fuel) f bytes acc v h l = elim (Option-cases (cut_at_newline bytes)) [
  | inl n ↦
      rw (n, push_loop, lines_of-none (content f) bytes n) (keep_remainder-Pushed f bytes acc v h)
  | inr ((segment, rest), c) ↦
      let (i, shorter) = lines_of-some (content f) bytes segment rest c in
      let n = length-append (content f) segment in
      let frame_bytes = f.buffered_bytes + length segment in
      elim (Bool-cases (ltb f.max_frame_bytes frame_bytes)) [
        | inl over ↦
            rw (c, push_loop, over, i)
              (inr (
                (λ w. absurd (omega (arith, w.0.0, n, v.counted, ltb→lt _ _ over))),
                refl,
                refl,
                reset-IsValid v,
                refl,
              ))
        | inr fits ↦
            let m : frame_bytes ≤ f.max_frame_bytes = ground arith in
            rw (c, push_loop, fits, i, line_is f segment v)
              (Pushed-first f acc (content f ++ segment) (lines_of [] rest) _
                (omega (arith, n, v.counted))
                (push_loop-Pushed fuel (reset f) rest (acc ++ (content f ++ segment) ∷ [])
                  (reset-IsValid v) (omega arith) (omega arith)))
      ]
]

-- For a framer within its limit, a push yields exactly the complete lines of the buffered bytes
-- followed by the chunk and buffers what follows the last newline, if every line and the rest are
-- within the limit. Otherwise it raises the error and the buffer is empty.
pub push-Pushed :
    (f : Framer) (chunk : Bytes)
    → IsValid f
    → length (content f) ≤ f.max_frame_bytes
    → Pushed f [] (lines_of (content f) chunk) (push f chunk)
unfolding push
push-Pushed f chunk v h = push_loop-Pushed (suc (length chunk)) f chunk [] v h (omega arith)
