-- ===== src/Rocksdb/Windows/Ranges.antt =====
-- The ranges of bytes of src/rocksdb/windows.js: of the chunks of a window, and of the tokens.
use pi_sliding_context_windo.Common.{
  ℕ, zero, suc, ◌≤◌, ◌<◌, ◌≡◌, refl, sym, subst, inl, inr, true, false, List, [], ◌∷◌, arith, ltb,
  length, drop, Bool-cases,
}
use pi_sliding_context_windo.Common.Results.{ok}
use pi_sliding_context_windo.Rocksdb.Chunks.{Bytes, Chunk, layout_from, assert_chunk_layout}
use pi_sliding_context_windo.Rocksdb.Windows.{
  Token, are_ranges, intersects, select_chunks, selected_or, chunks_for_range, start_of,
}

intersects-true :
    (c : Chunk) (start end : ℕ)
    → start < end
    → c.start_byte < end
    → start < c.end_byte
    → intersects c start end ≡ true
unfolding intersects
intersects-true c start end h a b = ground arith

select_chunks-yes :
    (c : Chunk) (cs : List Chunk) (start end : ℕ)
    → intersects c start end ≡ true
    → 0 < length (select_chunks (c ∷ cs) start end [])
unfolding select_chunks
select_chunks-yes c cs start end h = rw (h, select_chunks) (omega arith)

select_chunks-no :
    (c : Chunk) (cs : List Chunk) (start end : ℕ)
    → intersects c start end ≡ false
    → select_chunks (c ∷ cs) start end [] ≡ select_chunks cs start end []
unfolding select_chunks
select_chunks-no c cs start end h = rw (h, select_chunks) refl

-- A range that ends behind its start meets a chunk of every layout that reaches its end.
select_chunks-pos :
    (index cursor size start end : ℕ) (cs : List Chunk)
    → layout_from index cursor cs size ≡ true
    → cursor ≤ start
    → start < end
    → end ≤ size
    → 0 < length (select_chunks cs start end [])
unfolding layout_from intersects
select_chunks-pos index cursor size start end [] h a b c = absurd (ground arith)
select_chunks-pos index cursor size start end (d ∷ cs) h a b c =
    let later : layout_from (suc index) d.end_byte cs size ≡ true = ground arith in
    let begins : d.start_byte ≡ cursor = ground arith in
    elim (Bool-cases (ltb start d.end_byte)) [
      | inl t ↦
          select_chunks-yes d cs start end
            (intersects-true d start end b (omega arith) (ground arith))
      | inr f ↦
          let rest =
            select_chunks-pos (suc index) d.end_byte size start end cs later (ground arith) b c in
          subst (λ ids. 0 < length ids) (sym (select_chunks-no d cs start end (ground arith))) rest
    ]

selected_or-pos : (ids instead : List Bytes) → 0 < length ids → selected_or ids instead ≡ ok ids
selected_or-pos [] instead h = absurd (omega arith)
selected_or-pos (id ∷ ids) instead h = refl

-- Every non-empty range of a text that is laid out in chunks has the chunks it needs.
pub chunks_for_range-ok :
    (cs : List Chunk) (size start end : ℕ)
    → assert_chunk_layout cs size ≡ true
    → start < end
    → end ≤ size
    → (ids : List Bytes) × (chunks_for_range cs start end ≡ ok ids)
unfolding assert_chunk_layout chunks_for_range
chunks_for_range-ok cs size start end h a b =
    let l : layout_from 0 0 cs size ≡ true = ground arith in
    (
      select_chunks cs start end [],
      selected_or-pos _ _ (select_chunks-pos 0 0 size start end cs l (omega arith) a b),
    )

-- An empty text has one chunk, which is empty.
pub chunks_for_range-empty :
    (cs : List Chunk)
    → assert_chunk_layout cs 0 ≡ true
    → (ids : List Bytes) × (chunks_for_range cs 0 0 ≡ ok ids)
unfolding assert_chunk_layout layout_from chunks_for_range intersects
chunks_for_range-empty [] h = absurd (cc)
chunks_for_range-empty (c ∷ []) h =
    let i : intersects c 0 0 ≡ true = ground arith in
    (select_chunks (c ∷ []) 0 0 [], selected_or-pos _ _ (select_chunks-yes c [] 0 0 i))
chunks_for_range-empty (c ∷ d ∷ cs) h = absurd (ground arith)

-- Token ranges: in order, without overlap, none empty, and inside the text.
abbrev pub AreOrdered : ℕ → List Token → ℕ → Type 0
AreOrdered previous [] size = previous ≤ size
AreOrdered previous (t ∷ ts) size =
    (previous ≤ t.start_byte) × (t.start_byte < t.end_byte) × AreOrdered t.end_byte ts size

pub are_ranges-AreOrdered :
    (previous : ℕ) (ts : List Token) (size : ℕ)
    → previous ≤ size
    → are_ranges previous ts size ≡ true
    → AreOrdered previous ts size
unfolding are_ranges
are_ranges-AreOrdered previous [] size p h = p
are_ranges-AreOrdered previous (t ∷ ts) size p h =
    let e : t.end_byte ≤ size = ground arith in
    (ground arith, ground arith, are_ranges-AreOrdered t.end_byte ts size e (ground arith))

-- Later tokens start later, and all inside the text.
pub start_of-ge :
    (previous : ℕ) (ts : List Token) (size : ℕ)
    → AreOrdered previous ts size
    → previous ≤ start_of size ts
start_of-ge previous [] size h = h
start_of-ge previous (t ∷ ts) size h = h.0

start_of-drop :
    (previous a : ℕ) (ts : List Token) (size : ℕ)
    → AreOrdered previous ts size
    → start_of size ts ≤ start_of size (drop a ts)
start_of-drop previous zero ts size h = omega arith
start_of-drop previous (suc a) [] size h = omega arith
start_of-drop previous (suc a) (t ∷ ts) size h =
    omega (arith, h.1, start_of-ge t.end_byte ts size h.2, start_of-drop t.end_byte a ts size h.2)

start_of-drop_suc :
    (previous a : ℕ) (t : Token) (ts : List Token) (size : ℕ)
    → AreOrdered previous (t ∷ ts) size
    → t.start_byte < start_of size (drop a ts)
start_of-drop_suc previous a t ts size h =
    omega (arith, h.1, start_of-ge t.end_byte ts size h.2, start_of-drop t.end_byte a ts size h.2)

pub start_of-le :
    (previous : ℕ) (ts : List Token) (size : ℕ)
    → AreOrdered previous ts size
    → start_of size ts ≤ size
start_of-le previous [] size h = omega arith
start_of-le previous (t ∷ ts) size h =
    omega (arith, h.1, start_of-ge t.end_byte ts size h.2, start_of-le t.end_byte ts size h.2)

pub drop-AreOrdered :
    (previous a : ℕ) (ts : List Token) (size : ℕ)
    → AreOrdered previous ts size
    → AreOrdered (start_of size (drop a ts)) (drop a ts) size
drop-AreOrdered previous zero [] size h = omega arith
drop-AreOrdered previous (suc a) [] size h = omega arith
drop-AreOrdered previous zero (t ∷ ts) size h = (omega arith, h.1, h.2)
drop-AreOrdered previous (suc a) (t ∷ ts) size h = drop-AreOrdered t.end_byte a ts size h.2

-- The tokens from `b` on start no earlier than those from `a` on, for `a` at most `b`.
pub start_of-drop_le :
    (previous a b : ℕ) (ts : List Token) (size : ℕ)
    → AreOrdered previous ts size
    → a ≤ b
    → start_of size (drop a ts) ≤ start_of size (drop b ts)
start_of-drop_le previous zero b ts size h k = start_of-drop previous b ts size h
start_of-drop_le previous (suc a) zero ts size h k = absurd (omega arith)
start_of-drop_le previous (suc a) (suc b) [] size h k = omega arith
start_of-drop_le previous (suc a) (suc b) (t ∷ ts) size h k =
    start_of-drop_le t.end_byte a b ts size h.2 (omega arith)

pub start_of-drop_pos :
    (previous a : ℕ) (t : Token) (ts : List Token) (size : ℕ)
    → AreOrdered previous (t ∷ ts) size
    → 0 < a
    → t.start_byte < start_of size (drop a (t ∷ ts))
start_of-drop_pos previous zero t ts size h k = absurd (omega arith)
start_of-drop_pos previous (suc a) t ts size h k = start_of-drop_suc previous a t ts size h
