-- ===== src/Daemon/Framing/Lines.antt =====
-- What src/daemon/framing.js promises: the lines of a byte stream, whatever its chunks are.
use pi_sliding_context_windo.Common.{
  ℕ, ◌≤◌, ◌≡◌, refl, true, false, List, [], ◌∷◌, ◌++◌, ◌==◌, length, Bool-cases, inl, inr, All,
}
use pi_sliding_context_windo.Daemon.Framing.{Bytes}

-- The complete lines of the buffered bytes followed by a chunk, and what is left behind the last.
unfoldable pub lines_of : Bytes → Bytes → List Bytes × Bytes
lines_of buffer [] = ([], buffer)
lines_of buffer (b ∷ bytes) = elim (b == 10) [
  | true ↦ let (ls, rest) = lines_of [] bytes in (buffer ∷ ls, rest)
  | false ↦ lines_of (buffer ++ b ∷ []) bytes
]

-- All of them are within the limit.
abbrev pub Within : ℕ → List Bytes × Bytes → Type 0
Within limit (ls, rest) = All (λ l. length l ≤ limit) ls × (length rest ≤ limit)

-- A stream in two chunks has the lines of the first and then those of the second behind its rest.
pub lines_of-append :
    (buffer a b : Bytes)
    → lines_of buffer (a ++ b) ≡ (
      (lines_of buffer a).0 ++ (lines_of (lines_of buffer a).1 b).0,
      (lines_of (lines_of buffer a).1 b).1,
    )
unfolding lines_of
lines_of-append buffer [] b = refl
lines_of-append buffer (x ∷ a) b = elim (Bool-cases (x == 10)) [
  | inl nl ↦ rw (nl, lines_of, lines_of-append [] a b)
  | inr other ↦ rw (other, lines_of, lines_of-append (buffer ++ x ∷ []) a b)
]
