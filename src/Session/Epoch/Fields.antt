-- ===== src/Session/Epoch/Fields.antt =====
-- The lists and sets in which src/session/epoch-window.js keeps the parts of its state.
use pi_sliding_context_windo.Common.{
  ℕ, zero, suc, ◌-◌, ◌≤◌, ◌≡◌, refl, ap, subst, inl, inr, Bool, true, Option, none, some, List, [],
  ◌∷◌, Text, arith, length, drop, map, All, length-drop, Bool-cases, Option-cases,
}
use pi_sliding_context_windo.Session.Epoch.{tested, last, filter_map, has, set_of}

module _ {A : Type 0} where
  pub last-all : (n : ℕ) (xs : List A) → length xs ≤ n → last n xs ≡ xs
  unfolding last
  last-all n xs h = ap (λ k. drop k xs) (zero_of h)
    where
      zero_of : length xs ≤ n → length xs - n ≡ 0
      zero_of h = omega arith

  pub length-last : (n : ℕ) (xs : List A) → length (last n xs) ≤ n
  unfolding last
  length-last n xs = omega (arith, length-drop (length xs - n) xs)

  drop-All : (P : A → Type 0) (n : ℕ) (xs : List A) → All P xs → All P (drop n xs)
  drop-All P zero xs h = h
  drop-All P (suc n) [] h = h
  drop-All P (suc n) (x ∷ xs) h = drop-All P n xs h.1

  pub last-All : (P : A → Type 0) (n : ℕ) (xs : List A) → All P xs → All P (last n xs)
  unfolding last
  last-All P n xs h = drop-All P (length xs - n) xs h

  pub filter_map-All :
      {B : Type 0} (P : A → Type 0) (f : B → Option A) (xs : List B)
      → ((x : B) (y : A) → f x ≡ some y → P y)
      → All P (filter_map f xs)
  unfolding filter_map
  filter_map-All P f [] h = tt
  filter_map-All P f (x ∷ xs) h = elim (Option-cases (f x)) [
    | inl e ↦ rw (e, filter_map) (filter_map-All P f xs h)
    | inr (y, e) ↦ rw (e, filter_map) (h x y e, filter_map-All P f xs h)
  ]

  pub filter_map-map :
      {B : Type 0} (f : B → Option A) (g : A → B) (xs : List A)
      → All (λ x. f (g x) ≡ some x) xs
      → filter_map f (map g xs) ≡ xs
  unfolding filter_map
  filter_map-map f g [] h = refl
  filter_map-map f g (x ∷ xs) h = rw (h.0, filter_map, filter_map-map f g xs h.1) refl

  pub filter_map-same :
      (f : A → Option A) (xs : List A) → All (λ x. f x ≡ some x) xs → filter_map f xs ≡ xs
  unfolding filter_map
  filter_map-same f [] h = refl
  filter_map-same f (x ∷ xs) h = rw (h.0, filter_map, filter_map-same f xs h.1) refl

  pub tested-yes : (p : A → Bool) (a : A) → p a ≡ true → tested p (some a) ≡ some a
  unfolding tested
  tested-yes p a h = rw h refl

  pub tested-some : (p : A → Bool) (o : Option A) (a : A) → tested p o ≡ some a → p a ≡ true
  unfolding tested
  tested-some p none a h = absurd (cc)
  tested-some p (some b) a h = elim (Bool-cases (p b)) [
    | inl t ↦ let e : b ≡ a = ground (arith, t) in subst (λ x. p x ≡ true) e t
    | inr f ↦ absurd (none_some (rw f at h))
  ]
    where
      none_some : ◌≡◌ {A = Option A} none (some a) → ⊥
      none_some e = cc

  pub tested-tested : (p : A → Bool) (o : Option A) → tested p (tested p o) ≡ tested p o
  unfolding tested
  tested-tested p none = refl
  tested-tested p (some a) = elim (Bool-cases (p a)) [
    | inl t ↦ rw (t, tested, t) refl
    | inr f ↦ rw f refl
  ]

pub set_of-All : (P : Text → Type 0) (seen ks : List Text) → All P ks → All P (set_of seen ks)
unfolding set_of
set_of-All P seen [] h = tt
set_of-All P seen (k ∷ ks) h = elim (Bool-cases (has seen k)) [
  | inl t ↦ rw (t, set_of) (set_of-All P seen ks h.1)
  | inr f ↦ rw (f, set_of) (h.0, set_of-All P (k ∷ seen) ks h.1)
]

pub length-set_of : (seen ks : List Text) → length (set_of seen ks) ≤ length ks
unfolding set_of
length-set_of seen [] = omega arith
length-set_of seen (k ∷ ks) = elim (Bool-cases (has seen k)) [
  | inl t ↦ rw (t, set_of) (omega (arith, length-set_of seen ks))
  | inr f ↦ rw (f, set_of) (omega (arith, length-set_of (k ∷ seen) ks))
]

-- A set that is read again is the same set.
pub set_of-set_of : (seen ks : List Text) → set_of seen (set_of seen ks) ≡ set_of seen ks
unfolding set_of
set_of-set_of seen [] = refl
set_of-set_of seen (k ∷ ks) = elim (Bool-cases (has seen k)) [
  | inl t ↦ rw (t, set_of) (set_of-set_of seen ks)
  | inr f ↦ rw (f, set_of, f) (ap (◌∷◌ k) (set_of-set_of (k ∷ seen) ks))
]
