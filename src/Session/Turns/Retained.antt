-- ===== src/Session/Turns/Retained.antt =====
-- What the turns of src/session/window.js contain, and where the retained suffix starts.
use pi_sliding_context_windo.Common.{
  ℕ, zero, suc, ◌+◌, ◌-◌, ◌≤◌, ◌<◌, ◌≡◌, refl, sym, ap, ◌∙◌, true, false, some, List, [], ◌∷◌, ◌++◌,
  map, arith, length, drop, get_elem?, count_if, concat, All, ◌⊎◌, inl, inr, Bool-cases, leb→le,
  length-drop, count_if-append, drop-length-append, length-append, append_assoc, leb,
}
use pi_sliding_context_windo.Session.Message.{Message, is_user}
use pi_sliding_context_windo.Session.Turns.{
  Turn, opening, group_complete_turns, complete_user_turns, find_retained_start, slice,
}
use pi_sliding_context_windo.Session.Turns.Layout.{
  preamble, blocks, place, layout, preamble-append-blocks, slice-middle, place-slice,
  group_complete_turns-layout, complete_user_turns-place,
}

-- The first message comes from the user.
abbrev pub StartsWithUser : List Message → Type 0
StartsWithUser [] = ⊥
StartsWithUser (m ∷ ms) = is_user m ≡ true

-- A user message and what follows it up to the next one.
abbrev pub IsBlock : List Message → Type 0
IsBlock b = StartsWithUser b × (count_if is_user b ≡ 1)

pub preamble-user : (ms : List Message) → count_if is_user (preamble ms) ≡ 0
unfolding preamble
preamble-user [] = refl
preamble-user (m ∷ ms) = ground (arith, preamble-user ms)

pub blocks-IsBlock : (ms : List Message) → All IsBlock (blocks ms)
unfolding blocks
blocks-IsBlock [] = tt
blocks-IsBlock (m ∷ ms) = ground (arith, preamble-user ms, blocks-IsBlock ms)

pub count_if-concat :
    (bs : List (List Message)) → All IsBlock bs → count_if is_user (concat bs) ≡ length bs
count_if-concat [] h = refl
count_if-concat (b ∷ bs) h =
    omega (arith, count_if-append is_user b (concat bs), count_if-concat bs h.1, h.0.1)

pub length-place : (o : ℕ) (bs : List (List Message)) → length (place o bs) ≡ length bs
unfolding place
length-place o [] = refl
length-place o (b ∷ bs) = ap suc (length-place (o + length b) bs)

drop-IsBlock : (k : ℕ) (bs : List (List Message)) → All IsBlock bs → All IsBlock (drop k bs)
drop-IsBlock zero bs h = h
drop-IsBlock (suc k) [] h = tt
drop-IsBlock (suc k) (b ∷ bs) h = drop-IsBlock k bs h.1

concat-StartsWithUser :
    (bs : List (List Message)) → 0 < length bs → All IsBlock bs → StartsWithUser (concat bs)
concat-StartsWithUser [] l h = elim l [ ]
concat-StartsWithUser ([] ∷ bs) l h = absurd h.0.0
concat-StartsWithUser ((m ∷ b) ∷ bs) l h = h.0.0

-- The turn number `k` starts where the blocks from the `k`-th on do.
pub place-get :
    (o : ℕ) (k : ℕ) (bs : List (List Message)) (p : List Message)
    → length p ≡ o
    → k < length bs
    → (t : Turn) × (get_elem? (place o bs) k ≡ some t)
      × (drop t.start (p ++ concat bs) ≡ concat (drop k bs))
      × (t.start ≤ length (p ++ concat bs))
unfolding place
place-get o k [] p h l = elim l [ ]
place-get o zero (b ∷ bs) p h l = (
  record { start = o; end = o + length b; messages = b; has_user = true },
  refl,
  rw (← h) (drop-length-append p (b ++ concat bs)),
  omega (arith, length-append p (b ++ concat bs)),
)
place-get o (suc k) (b ∷ bs) p h l =
    rw (← append_assoc p b (concat bs))
      (place-get (o + length b) k bs (p ++ b) (omega (arith, length-append p b)) (omega arith))

user_count : (ms : List Message) → count_if is_user ms ≡ length (blocks ms)
user_count ms =
    ap (count_if is_user) (sym (preamble-append-blocks ms))
    ∙ omega (
      arith,
      count_if-append is_user (preamble ms) (concat (blocks ms)),
      preamble-user ms,
      count_if-concat (blocks ms) (blocks-IsBlock ms),
    )

length-drop-blocks :
    (k : ℕ) (bs : List (List Message)) → k ≤ length bs → length (drop k bs) + k ≡ length bs
length-drop-blocks k bs h = omega (arith, length-drop k bs)

pub length-complete_user_turns :
    (ms : List Message) → length (complete_user_turns ms) ≡ count_if is_user ms
length-complete_user_turns ms =
    ap length (complete_user_turns-place ms)
    ∙ length-place (length (preamble ms)) (blocks ms)
    ∙ sym (user_count ms)

-- From the start of the `k`-th complete turn on, all user messages but the first `k` follow.
pub user_turn-suffix :
    (ms : List Message) (k : ℕ)
    → k < count_if is_user ms
    → (t : Turn) × (get_elem? (complete_user_turns ms) k ≡ some t)
      × StartsWithUser (drop t.start ms)
      × (count_if is_user (drop t.start ms) + k ≡ count_if is_user ms)
user_turn-suffix ms k l =
    let n : k < length (blocks ms) = omega (arith, user_count ms) in
    let (t, e, d, b) = place-get (length (preamble ms)) k (blocks ms) (preamble ms) refl n in
    let d' : drop t.start ms ≡ concat (drop k (blocks ms)) = rw (preamble-append-blocks ms) at d in
    let ok : All IsBlock (drop k (blocks ms)) = drop-IsBlock k (blocks ms) (blocks-IsBlock ms) in
    let m : length (drop k (blocks ms)) + k ≡ length (blocks ms) =
      length-drop-blocks k (blocks ms) (omega arith) in
    (
      t,
      ap (λ ts. get_elem? ts k) (complete_user_turns-place ms) ∙ e,
      rw d' (concat-StartsWithUser (drop k (blocks ms)) (omega arith) ok),
      omega
          (arith, ap (count_if is_user) d', count_if-concat (drop k (blocks ms)) ok, user_count ms),
    )

-- With a positive number of turns to retain the function never faults. If the history has no more
-- user turns than that it keeps all; otherwise it returns the index of a user message from which
-- on exactly that many user messages follow.
pub find_retained_start_lem :
    (ms : List Message) (retain : ℕ)
    → 0 < retain
    → ((count_if is_user ms ≤ retain) × (find_retained_start ms retain ≡ some 0))
      ⊎ ((retain < count_if is_user ms)
          × ((s : ℕ) × (find_retained_start ms retain ≡ some s)
              × StartsWithUser (drop s ms)
              × (count_if is_user (drop s ms) ≡ retain)))
unfolding find_retained_start
find_retained_start_lem ms retain pos = elim (Bool-cases (leb (count_if is_user ms) retain)) [
  | inl all ↦ inl (leb→le _ _ all, rw (length-complete_user_turns ms, all, find_retained_start))
  | inr some_left ↦
      let less : retain < count_if is_user ms = ground arith in
      let (t, e, u, c) = user_turn-suffix ms (count_if is_user ms - retain) (omega arith) in
      inr (
        less,
        (
          t.start,
          rw (length-complete_user_turns ms, some_left, find_retained_start, e),
          u,
          omega arith,
        ),
      )
]

-- A turn is the slice between its indices; with a user message it starts with it and has no other.
abbrev pub IsTurn : List Message → Turn → Type 0
IsTurn ms t =
    (t.messages ≡ slice t.start t.end ms)
    × (t.has_user ≡ true → IsBlock t.messages)
    × (t.has_user ≡ false → count_if is_user t.messages ≡ 0)

place-IsTurn :
    (o : ℕ) (bs : List (List Message)) (ms : List Message)
    → All (λ t. t.messages ≡ slice t.start t.end ms) (place o bs)
    → All IsBlock bs
    → All (IsTurn ms) (place o bs)
unfolding place
place-IsTurn o [] ms s h = tt
place-IsTurn o (b ∷ bs) ms s h =
    ((s.0, λ _. h.0, λ e. cc), place-IsTurn (o + length b) bs ms s.1 h.1)

concat-place :
    (o : ℕ) (bs : List (List Message)) → concat (map (λ t. t.messages) (place o bs)) ≡ concat bs
unfolding place
concat-place o [] = refl
concat-place o (b ∷ bs) = ap (◌++◌ b) (concat-place (o + length b) bs)

layout-partition :
    (p : List Message) (bs : List (List Message))
    → count_if is_user p ≡ 0
    → All IsBlock bs
    → let ts : List Turn = elim p [
      | [] ↦ place 0 bs
      | m ∷ q ↦ opening (suc (length q)) (m ∷ q) ∷ place (suc (length q)) bs
    ] in
      (concat (map (λ t. t.messages) ts) ≡ p ++ concat bs) × All (IsTurn (p ++ concat bs)) ts
layout-partition [] bs h k =
    (concat-place 0 bs, place-IsTurn 0 bs (concat bs) (place-slice 0 bs [] refl) k)
layout-partition (m ∷ q) bs h k = (
  ap (λ r. m ∷ (q ++ r)) (concat-place (suc (length q)) bs),
  (
    (
      sym (slice-middle 0 (suc (length q)) [] (m ∷ q) (concat bs) refl (omega arith)),
      λ e. cc,
      λ _. h,
    ),
    place-IsTurn (suc (length q)) bs ((m ∷ q) ++ concat bs)
        (place-slice (suc (length q)) bs (m ∷ q) refl) k,
  ),
)

-- The turns split the history without loss: their messages, joined, are the history; each is the
-- slice between its indices; a turn with a user message starts with it and has no other, and one
-- without has none.
pub group_complete_turns-partition :
    (ms : List Message)
    → (concat (map (λ t. t.messages) (group_complete_turns ms)) ≡ ms)
      × All (IsTurn ms) (group_complete_turns ms)
unfolding layout
group_complete_turns-partition ms = rw (group_complete_turns-layout ms) (
    rw (preamble-append-blocks ms) at
      (layout-partition (preamble ms) (blocks ms) (preamble-user ms) (blocks-IsBlock ms)))
