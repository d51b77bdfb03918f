-- ===== src/Session/Externalize/Preview.antt =====
-- The preview that src/session/window.js leaves in place of an archived text.
use pi_sliding_context_windo.Common.{
  ℕ, zero, suc, ◌+◌, ◌-◌, ◌≤◌, ◌<◌, ◌≡◌, refl, sym, ap, ◌∙◌, ◌⊎◌, inl, inr, min, max, some, ◌++◌,
  Text, arith, leb, ◌==◌, ◌||◌, length, take, drop, Bool-cases, length-take, length-drop,
  append-nil, take-append-drop, drop-drop, drop-all,
}
use pi_sliding_context_windo.Session.Externalize.{
  Shares, Options, preview_chars, marker, last, replacement, shrink, preview,
}

-- The last `n` characters are what is left without the others.
last-drop : (n : ℕ) (t : Text) → n ≤ length t → last n t ≡ drop (length t - n) t
last-drop zero t h = sym (drop-all (length t - 0) t (omega arith))
last-drop (suc n) t h = refl

-- A text is its first `a`, its last `b` and what stands between them.
pub split_ends :
    (a b : ℕ) (t : Text)
    → a + b ≤ length t
    → (mid : Text) × (t ≡ take a t ++ (mid ++ last b t))
      × (length mid ≡ length t - a - b)
      × (length (take a t) ≡ a)
      × (length (last b t) ≡ b)
split_ends a b t h =
    let n = length t - a - b in
    (
      take n (drop a t),
      sym (take-append-drop a t)
          ∙ ap (◌++◌ (take a t)) (
              sym (take-append-drop n (drop a t))
              ∙ ap (◌++◌ (take n (drop a t))) (
                  drop-drop a n (length t - b) t (omega arith)
                  ∙ sym (last-drop b t (omega arith)))),
      omega (arith, length-take n (drop a t), length-drop a t),
      omega (arith, length-take a t),
      omega (arith, ap length (last-drop b t (omega arith)), length-drop (length t - b) t),
    )

module _ (s : Shares) where
  -- With no preview characters left the replacement is the marker.
  replacement-zero : (id text : Text) → replacement s id text 0 ≡ marker id (length text)
  unfolding replacement
  replacement-zero id text =
      let h : s.head 0 ≡ 0 = omega (arith, s.within 0) in
      let t : s.tail 0 ≡ 0 = omega (arith, s.within 0) in
      rw (h, t) (append-nil _ ∙ ap (marker id) {x = length text - 0 - 0} (omega arith))

  replacement-mid :
      (r : ℕ) (id text mid : Text)
      → s.head r + s.tail r ≤ length text
      → length mid ≡ length text - s.head r - s.tail r
      → replacement s id text r
        ≡ take (s.head r) text ++ (marker id (length mid) ++ last (s.tail r) text)
  unfolding replacement
  replacement-mid r id text mid h m =
      let (_, _, _, a, b) = split_ends (s.head r) (s.tail r) text h in
      let e : length text - length (take (s.head r) text) - length (last (s.tail r) text)
          ≡ length mid =
        omega arith in
      rw e

  replacement-fits :
      (r g : ℕ) (id text : Text)
      → (length (replacement s id text r) ≤ g) ⊎ (r ≡ 0)
      → (length (replacement s id text r) ≤ g) ⊎ (replacement s id text r ≡ marker id (length text))
  replacement-fits r g id text (inl h) = inl h
  replacement-fits r g id text (inr z) = inr (rw z (replacement-zero id text))

  shrink_ends :
      (fuel n g : ℕ) (id text : Text)
      → n < fuel
      → (r : ℕ) × (shrink s fuel id text g n ≡ some (replacement s id text r))
        × (r ≤ n)
        × ((length (replacement s id text r) ≤ g) ⊎ (r ≡ 0))
  unfolding shrink
  shrink_ends zero n g id text h = elim h [ ]
  shrink_ends (suc fuel) n g id text h =
      let r = replacement s id text n in
      let step = n - max 1 (length r - g) in
      elim (Bool-cases (leb (length r) g || n == 0)) [
        | inl done ↦ (n, ground arith, omega arith, ground arith)
        | inr more ↦
            let (k, e, l, f) = shrink_ends fuel step g id text (ground arith) in
            (k, ground arith, omega arith, f)
      ]

  -- The replacement of a text above the gate is a prefix of the text, the marker and a suffix of
  -- the text, and the marker names exactly the number of characters between the two. The whole
  -- replacement fits the gate that admitted it, or it is the marker alone.
  pub preview_lem :
      (o : Options) (id text : Text) (g : ℕ)
      → g < length text
      → (front mid back : Text) × (text ≡ front ++ (mid ++ back))
        × (preview s o id text g ≡ front ++ (marker id (length mid) ++ back))
        × ((length (preview s o id text g) ≤ g) ⊎ (preview s o id text g ≡ marker id (length text)))
  unfolding preview
  preview_lem o id text g long =
      let n = min (preview_chars o) g in
      let (r, e, l, f) = shrink_ends (suc n) n g id text (omega arith) in
      let (mid, t, m, _, _) = split_ends (s.head r) (s.tail r) text (omega (arith, s.within r)) in
      let w : preview s o id text g ≡ replacement s id text r = rw (e, preview) in
      (
        take (s.head r) text,
        mid,
        last (s.tail r) text,
        t,
        w ∙ replacement-mid r id text mid (omega (arith, s.within r)) m,
        rw w (replacement-fits r g id text f),
      )
