-- ===== src/Rocksdb/Windows/Lookup.antt =====
-- The search window of a match in src/rocksdb/windows.js.
use pi_sliding_context_windo.Common.{
  ℕ, suc, ◌≤◌, ◌<◌, ◌≡◌, refl, inl, inr, ◌⊎◌, Bool, true, false, none, some, List, [], ◌∷◌, ◌&&◌,
  ◌||◌, arith, ltb, leb, ◌==◌, length, Bool-cases, All,
}
use pi_sliding_context_windo.Common.Results.{ok}
use pi_sliding_context_windo.Rocksdb.Windows.{
  SearchWindow, meets, is_empty, select_windows, windows_for_byte_range, find_containing, or_first,
  window_for_byte_range,
}
use pi_sliding_context_windo.Rocksdb.Windows.Cover.{LaidOut}

-- A window that has a byte of the range.
abbrev pub Meets : ℕ → ℕ → SearchWindow → Type 0
Meets start end w = (w.start_byte < end) × (start < w.end_byte)

meets_iff :
    (w : SearchWindow) (start end : ℕ) (is_last : Bool)
    → start < end
    → meets w start end is_last ≡ (ltb w.start_byte end && ltb start w.end_byte)
unfolding meets
meets_iff w start end is_last h = let d : (start == end) ≡ false = ground arith in rw d refl

-- A window that has every byte of the range, and windows none of which does.
abbrev pub Contains : ℕ → ℕ → SearchWindow → Type 0
Contains start end w = (w.start_byte ≤ start) × (end ≤ w.end_byte)

abbrev pub NoneContains : ℕ → ℕ → List SearchWindow → Type 0
NoneContains start end ws = All (λ w. Contains start end w → ⊥) ws

-- Of windows that are laid out, those selected meet the range, none of the rest contains it, and there
-- is one if the range begins behind the byte they are laid out from and is not empty.
select_windows-Meets :
    (index from size start end : ℕ) (ws : List SearchWindow)
    → LaidOut index from ws size
    → start < end
    → (met : List SearchWindow) × (select_windows index start end ws ≡ ok met)
      × All (Meets start end) met
      × (NoneContains start end met → NoneContains start end ws)
      × (from ≤ start → end ≤ size → 0 < length met)
unfolding select_windows
select_windows-Meets index from size start end [] h a =
    ([], refl, tt, (λ c. tt), λ b c. absurd (omega arith))
select_windows-Meets index from size start end (w ∷ ws) h a =
    let (later, e, m, k, g) = select_windows-Meets (suc index) w.end_byte size start end ws h.3 a in
    let n : (w.ordinal == index) ≡ true = ground (arith, h.0) in
    elim (Bool-cases (ltb w.start_byte end && ltb start w.end_byte)) [
      | inl t ↦ (
        w ∷ later,
        rw (n, e, meets_iff w start end (is_empty ws) a, t) refl,
        ((ground arith, ground arith), m),
        (λ c. (c.0, k c.1)),
        λ b c. omega arith,
      )
      | inr f ↦ (
        later,
        rw (n, e, meets_iff w start end (is_empty ws) a, f) refl,
        m,
        (λ c. ((λ x. absurd (ground (arith, x.0, x.1))), k c)),
        λ b c. g (ground (arith, h.1)) c,
      )
    ]

is_empty-pos : (ws : List SearchWindow) → 0 < length ws → is_empty ws ≡ false
is_empty-pos [] h = absurd (omega arith)
is_empty-pos (w ∷ ws) h = refl

-- The test of `find` comes down to containment for a range that is not empty.
abbrev contains_test : ℕ → ℕ → SearchWindow → Bool → Bool
contains_test start end w is_last =
    leb w.start_byte start && leb end w.end_byte && (ltb start w.end_byte || is_last)

-- A window that is found is among those looked through and contains the range; otherwise none does.
find_containing-cases :
    (P : SearchWindow → Type 0) (start end : ℕ) (ws : List SearchWindow)
    → All P ws
    → start < end
    → ((w : SearchWindow) × (find_containing start end ws ≡ some w) × P w × Contains start end w)
      ⊎ ((find_containing start end ws ≡ none) × NoneContains start end ws)
unfolding find_containing
find_containing-cases P start end [] p a = inr (refl, tt)
find_containing-cases P start end (v ∷ ws) p a =
    elim (Bool-cases (contains_test start end v (is_empty ws))) [
      | inl t ↦ inl (v, rw t refl, p.0, (ground arith, ground arith))
      | inr f ↦ elim (find_containing-cases P start end ws p.1 a) [
        | inl (w, e, q, c) ↦ inl (w, rw (f, e) refl, q, c)
        | inr (e, c) ↦ inr (rw (f, e) refl, ((λ x. absurd (ground (arith, x.0, x.1))), c))
      ]
    ]

or_first-Meets :
    (start end : ℕ) (met : List SearchWindow)
    → All (Meets start end) met
    → 0 < length met
    → start < end
    → (w : SearchWindow) × (or_first (find_containing start end met) met ≡ some w)
      × Meets start end w
      × (Contains start end w ⊎ NoneContains start end met)
or_first-Meets start end [] m n a = absurd (omega arith)
or_first-Meets start end (v ∷ ws) m n a =
    elim (find_containing-cases (Meets start end) start end (v ∷ ws) m a) [
      | inl (w, e, q, c) ↦ (w, rw e refl, q, inl c)
      | inr (e, c) ↦ (v, rw e refl, m.0, inr c)
    ]

-- For windows that are laid out over a text from its first byte, as those of a document are, every
-- range inside the text that is not empty has a window: one that meets the range, and that
-- contains the whole of it if any window does.
pub window_for_byte_range-LaidOut :
    (size start end : ℕ) (ws : List SearchWindow)
    → LaidOut 0 0 ws size
    → 0 < length ws
    → start < end
    → end ≤ size
    → (w : SearchWindow) × (window_for_byte_range ws start end ≡ ok (some w))
      × Meets start end w
      × (Contains start end w ⊎ NoneContains start end ws)
unfolding window_for_byte_range windows_for_byte_range
window_for_byte_range-LaidOut size start end ws h n a b =
    let (met, e, m, k, g) = select_windows-Meets 0 0 size start end ws h a in
    let (w, f, q, c) = or_first-Meets start end met m (g (omega arith) b) a in
    let o : ltb end start ≡ false = ground arith in
    let nonempty : is_empty ws ≡ false = is_empty-pos ws n in
    (w, rw (nonempty, o, e, f) refl, q, elim c [ inl x ↦ inl x | inr x ↦ inr (k x) ])
