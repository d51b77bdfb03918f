-- ===== src/Daemon/Framing/Chunks.antt =====
-- The frames of src/daemon/framing.js do not depend on how the stream is cut into chunks.
use pi_sliding_context_windo.Common.{
  ℕ, ◌≤◌, ◌≡◌, sym, ap, subst, ◌∙◌, inl, inr, List, [], ◌++◌, arith, length, All-append,
}
use pi_sliding_context_windo.Daemon.Framing.{Bytes, Framer, returns, push}
use pi_sliding_context_windo.Daemon.Framing.Lines.{lines_of, Within, lines_of-append}
use pi_sliding_context_windo.Daemon.Framing.Buffer.{content, IsValid}
use pi_sliding_context_windo.Daemon.Framing.Push.{Pushed, push-Pushed}

-- A push that returned lines was the accepted one.
accepted :
    (f : Framer) (chunk : Bytes) (xs : List Bytes)
    → IsValid f
    → length (content f) ≤ f.max_frame_bytes
    → (push f chunk).1 ≡ returns xs
    → Within f.max_frame_bytes (lines_of (content f) chunk)
      × (xs ≡ (lines_of (content f) chunk).0)
      × (content (push f chunk).0 ≡ (lines_of (content f) chunk).1)
      × IsValid (push f chunk).0
      × ((push f chunk).0.max_frame_bytes ≡ f.max_frame_bytes)
accepted f chunk xs v h e = go (push-Pushed f chunk v h)
  where
    go :
        Pushed f [] (lines_of (content f) chunk) (push f chunk)
        → Within f.max_frame_bytes (lines_of (content f) chunk)
          × (xs ≡ (lines_of (content f) chunk).0)
          × (content (push f chunk).0 ≡ (lines_of (content f) chunk).1)
          × IsValid (push f chunk).0
          × ((push f chunk).0.max_frame_bytes ≡ f.max_frame_bytes)
    go (inl (w, r, c, u, m)) = (w, cc, c, u, m)
    go (inr (w, r, c, u, m)) = absurd (cc)

-- Two chunks within the limit make one.
both :
    (limit : ℕ) (p q : List Bytes × Bytes)
    → Within limit p
    → Within limit q
    → Within limit (p.0 ++ q.0, q.1)
both limit p q h k = (All-append (λ l. length l ≤ limit) p.0 q.0 h.0 k.0, k.1)

-- If two chunks are pushed one after the other without an error, their concatenation pushed at
-- once yields the lines of the first followed by those of the second, and buffers the same bytes.
pub push-append :
    (f : Framer) (a b : Bytes) (xs ys : List Bytes)
    → IsValid f
    → length (content f) ≤ f.max_frame_bytes
    → (push f a).1 ≡ returns xs
    → (push (push f a).0 b).1 ≡ returns ys
    → ((push f (a ++ b)).1 ≡ returns (xs ++ ys))
      × (content (push f (a ++ b)).0 ≡ content (push (push f a).0 b).0)
push-append f a b xs ys v h p q =
    let (w, x, c, u, m) = accepted f a xs v h p in
    let g = (push f a).0 in
    let k : length (content g) ≤ g.max_frame_bytes = omega (arith, ap length c, w.1) in
    let (w', y, c', u', m') = accepted g b ys u k q in
    let n = lines_of-append (content f) a b in
    let e : lines_of (content g) b ≡ lines_of (lines_of (content f) a).1 b =
      ap (λ t. lines_of t b) c in
    let l : xs ++ ys ≡ (lines_of (content f) (a ++ b)).0 =
      ap (λ t. t ++ ys) x
      ∙ ap (◌++◌ (lines_of (content f) a).0) (y ∙ ap (λ t. t.0) e)
      ∙ sym (ap (λ t. t.0) n) in
    let r : content (push g b).0 ≡ (lines_of (content f) (a ++ b)).1 =
      c' ∙ ap (λ t. t.1) e ∙ sym (ap (λ t. t.1) n) in
    let i : Within f.max_frame_bytes (lines_of (content f) (a ++ b)) = rw n (
      rw e at (
        both f.max_frame_bytes (lines_of (content f) a) (lines_of (content g) b) w
          (subst (λ k. Within k (lines_of (content g) b)) m w'))) in
    go l r i (push-Pushed f (a ++ b) v h)
  where
    go :
        {ls : List Bytes} {rest : Bytes}
        → ls ≡ (lines_of (content f) (a ++ b)).0
        → rest ≡ (lines_of (content f) (a ++ b)).1
        → Within f.max_frame_bytes (lines_of (content f) (a ++ b))
        → Pushed f [] (lines_of (content f) (a ++ b)) (push f (a ++ b))
        → ((push f (a ++ b)).1 ≡ returns ls) × (content (push f (a ++ b)).0 ≡ rest)
    go l r i (inl (_, o, k, _, _)) = (o ∙ ap returns (sym l), k ∙ sym r)
    go l r i (inr (no_room, _, _, _, _)) = absurd (no_room i)
