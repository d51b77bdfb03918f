-- ===== src/Session/Turns/Layout.antt =====
-- The grouping of src/session/window.js against a structural description of it: what stands
-- before the first user message, then one block for each user message.
use pi_sliding_context_windo.Common.{
  ℕ, suc, ◌+◌, ◌-◌, ◌≡◌, refl, sym, ap, ◌∙◌, true, List, [], ◌∷◌, ◌++◌, arith, if◌then◌else◌,
  length, keep_if, concat, All, length-append, drop-length-append, take-length-append, append_assoc,
  append-nil,
}
use pi_sliding_context_windo.Session.Message.{Message, is_user}
use pi_sliding_context_windo.Session.Turns.{
  Turn, slice, user_starts, next_start, user_turns, opening, turns_from, group_complete_turns,
  complete_user_turns,
}

unfoldable pub preamble : List Message → List Message
preamble [] = []
preamble (m ∷ ms) = if is_user m then [] else m ∷ preamble ms

unfoldable pub blocks : List Message → List (List Message)
unfolding preamble
blocks [] = []
blocks (m ∷ ms) = let rest = blocks ms in if is_user m then (m ∷ preamble ms) ∷ rest else rest

-- Blocks at their places, the first at index `o`.
unfoldable pub place : ℕ → List (List Message) → List Turn
place o [] = []
place o (b ∷ bs) =
    record { start = o; end = o + length b; messages = b; has_user = true }
    ∷ place (o + length b) bs

unfoldable pub layout : List Message → List Turn
unfolding preamble blocks place
layout ms = elim (preamble ms) [
  | [] ↦ place 0 (blocks ms)
  | m ∷ p ↦ opening (suc (length p)) (m ∷ p) ∷ place (suc (length p)) (blocks ms)
]

starts_of : ℕ → List (List Message) → List ℕ
starts_of o [] = []
starts_of o (b ∷ bs) = o ∷ starts_of (o + length b) bs

pub preamble-append-blocks : (ms : List Message) → preamble ms ++ concat (blocks ms) ≡ ms
unfolding blocks
preamble-append-blocks [] = refl
preamble-append-blocks (m ∷ ms) = ground (arith, preamble-append-blocks ms)

user_starts-starts_of :
    (i : ℕ) (ms : List Message)
    → user_starts i ms ≡ starts_of (i + length (preamble ms)) (blocks ms)
unfolding user_starts starts_of blocks preamble
user_starts-starts_of i [] = refl
user_starts-starts_of i (m ∷ ms) = ground (arith, user_starts-starts_of (suc i) ms)

next_start-starts_of :
    (o : ℕ) (bs : List (List Message)) (p : List Message)
    → length p ≡ o
    → next_start (starts_of o bs) (p ++ concat bs) ≡ o
unfolding starts_of
next_start-starts_of o [] p h = ap length (append-nil p) ∙ h
next_start-starts_of o (b ∷ bs) p h = refl

pub slice-middle :
    (o e : ℕ) (p b rest : List Message)
    → length p ≡ o
    → e ≡ o + length b
    → slice o e (p ++ (b ++ rest)) ≡ b
slice-middle o e p b rest h k =
    let n : e - o ≡ length b = omega arith in
    rw (n, ← h, drop-length-append p (b ++ rest)) (take-length-append b rest)

user_turns-place :
    (o : ℕ) (bs : List (List Message)) (p : List Message)
    → length p ≡ o
    → user_turns (p ++ concat bs) (starts_of o bs) ≡ place o bs
unfolding user_turns starts_of place
user_turns-place o [] p h = refl
user_turns-place o (b ∷ bs) p h =
    let e : (p ++ b) ++ concat bs ≡ p ++ (b ++ concat bs) = append_assoc p b (concat bs) in
    let l : length (p ++ b) ≡ o + length b = omega (arith, length-append p b) in
    let n : next_start (starts_of (o + length b) bs) (p ++ (b ++ concat bs)) ≡ o + length b =
      rw e at (next_start-starts_of (o + length b) bs (p ++ b) l) in
    let r : user_turns (p ++ (b ++ concat bs)) (starts_of (o + length b) bs)
        ≡ place (o + length b) bs =
      rw e at (user_turns-place (o + length b) bs (p ++ b) l) in
    rw (n, r, slice-middle o (o + length b) p b (concat bs) h refl)

turns_from-layout :
    (p : List Message) (bs : List (List Message))
    → turns_from (starts_of (length p) bs) (p ++ concat bs) ≡ elim p [
      | [] ↦ place 0 bs
      | m ∷ q ↦ opening (suc (length q)) (m ∷ q) ∷ place (suc (length q)) bs
    ]
unfolding turns_from starts_of place
turns_from-layout [] [] = refl
turns_from-layout [] (b ∷ bs) = user_turns-place 0 (b ∷ bs) [] refl
turns_from-layout (m ∷ q) [] = rw (append-nil q)
turns_from-layout (m ∷ q) (b ∷ bs) = ground (
  arith,
  user_turns-place (suc (length q)) (b ∷ bs) (m ∷ q) refl,
  slice-middle 0 (suc (length q)) [] (m ∷ q) (b ++ concat bs) refl (omega arith),
)

-- The index arithmetic of the code yields exactly this layout.
pub group_complete_turns-layout : (ms : List Message) → group_complete_turns ms ≡ layout ms
unfolding group_complete_turns layout
group_complete_turns-layout ms =
    let e : user_starts 0 ms ≡ starts_of (length (preamble ms)) (blocks ms) =
      user_starts-starts_of 0 ms ∙ ap (λ o. starts_of o (blocks ms)) (omega arith) in
    ap (λ ss. turns_from ss ms) e
    ∙ ap (turns_from (starts_of (length (preamble ms)) (blocks ms)))
        (sym (preamble-append-blocks ms))
    ∙ turns_from-layout (preamble ms) (blocks ms)

keep_if-place :
    (o : ℕ) (bs : List (List Message)) → keep_if (λ t. t.has_user) (place o bs) ≡ place o bs
unfolding place
keep_if-place o [] = refl
keep_if-place o (b ∷ bs) = rw (keep_if-place (o + length b) bs)

-- Only the blocks are complete user turns.
pub complete_user_turns-place :
    (ms : List Message) → complete_user_turns ms ≡ place (length (preamble ms)) (blocks ms)
unfolding complete_user_turns layout
complete_user_turns-place ms =
    ap (keep_if (λ t. t.has_user)) (group_complete_turns-layout ms) ∙ go (preamble ms)
  where
    go :
        (p : List Message)
        → keep_if
            (λ t. t.has_user)
            (elim p [
              | [] ↦ place 0 (blocks ms)
              | m ∷ q ↦ opening (suc (length q)) (m ∷ q) ∷ place (suc (length q)) (blocks ms)
            ])
          ≡ place (length p) (blocks ms)
    go [] = keep_if-place 0 (blocks ms)
    go (m ∷ q) = keep_if-place (suc (length q)) (blocks ms)

-- Each turn of a layout is the slice between its own indices.
pub place-slice :
    (o : ℕ) (bs : List (List Message)) (p : List Message)
    → length p ≡ o
    → All (λ t. t.messages ≡ slice t.start t.end (p ++ concat bs)) (place o bs)
unfolding place
place-slice o [] p h = tt
place-slice o (b ∷ bs) p h =
    let l : length (p ++ b) ≡ o + length b = omega (arith, length-append p b) in
    (
      sym (slice-middle o (o + length b) p b (concat bs) h refl),
      rw (append_assoc p b (concat bs)) at (place-slice (o + length b) bs (p ++ b) l),
    )
