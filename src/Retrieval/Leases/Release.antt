-- ===== src/Retrieval/Leases/Release.antt =====
-- What a release of src/retrieval/leases.js leaves behind.
use pi_sliding_context_windo.Common.{
  keep_if-yes, keep_if-no, ℕ, ◌≡◌, refl, sym, ap, ◌∙◌, inl, inr, Bool, false, not, Option, none,
  some, List, [], ◌∷◌, Text, arith, if◌then◌else◌, text_eq, text_eq_sound, Bool-cases, keep_if,
}
use pi_sliding_context_windo.Retrieval.Leases.{
  status_of, Status, malformed_record, Lease, Store, find_lease, remove_lease, release_lease,
  release_found, released, validate_retrieval_lease, missing,
}
use pi_sliding_context_windo.Retrieval.Leases.Indexes.{find_lease-id}

find_lease-removed :
    (id : Text) (ls : List Lease)
    → find_lease id (keep_if (λ k. not (text_eq k.lease_id id)) ls) ≡ none
unfolding find_lease
find_lease-removed id [] = refl
find_lease-removed id (k ∷ ls) = elim (Bool-cases (text_eq k.lease_id id)) [
  | inl t ↦
      ap (find_lease id) (keep_if-no (λ x. not (text_eq x.lease_id id)) k ls (ap not t))
      ∙ find_lease-removed id ls
  | inr f ↦
      ap (find_lease id) (keep_if-yes (λ x. not (text_eq x.lease_id id)) k ls (ap not f))
      ∙ rw (f, find_lease) (find_lease-removed id ls)
]

find_lease-other :
    (id j : Text) (ls : List Lease)
    → text_eq id j ≡ false
    → find_lease j (keep_if (λ k. not (text_eq k.lease_id id)) ls) ≡ find_lease j ls
unfolding find_lease
find_lease-other id j [] n = refl
find_lease-other id j (k ∷ ls) n = elim (Bool-cases (text_eq k.lease_id id)) [
  | inl t ↦
      let e : text_eq k.lease_id j ≡ false =
        ap (λ x. text_eq x j) (text_eq_sound k.lease_id id t) ∙ n in
      ap (find_lease j) (keep_if-no (λ x. not (text_eq x.lease_id id)) k ls (ap not t))
      ∙ find_lease-other id j ls n
      ∙ sym (rw (e, find_lease) refl)
  | inr f ↦
      ap (find_lease j) (keep_if-yes (λ x. not (text_eq x.lease_id id)) k ls (ap not f))
      ∙ ap (λ o. if text_eq k.lease_id j then some k else o) (find_lease-other id j ls n)
]

remove_lease-missing :
    (s : Store) (l : Lease) (id : Text)
    → l.lease_id ≡ id
    → find_lease id (remove_lease s l).by_id ≡ none
unfolding remove_lease
remove_lease-missing s l id q =
    ap (λ i. find_lease id (keep_if (λ k. not (text_eq k.lease_id i)) s.by_id)) q
    ∙ find_lease-removed id s.by_id

remove_lease-other :
    (s : Store) (l : Lease) (id j : Text)
    → l.lease_id ≡ id
    → text_eq id j ≡ false
    → find_lease j (remove_lease s l).by_id ≡ find_lease j s.by_id
unfolding remove_lease
remove_lease-other s l id j q n =
    ap (λ i. find_lease j (keep_if (λ k. not (text_eq k.lease_id i)) s.by_id)) q
    ∙ find_lease-other id j s.by_id n

module _ (accepts : Lease → Bool) where
  abbrev status : Text → ℕ → ℕ → Option Lease → Status
  status d v now o = elim o [
    | none ↦ missing
    | some l ↦ if accepts l then status_of l d v now else malformed_record
  ]

  release_found-released :
      (s s' : Store) (found : Option Lease)
      → release_found accepts s found ≡ (s', released)
      → (l : Lease) × (found ≡ some l) × (s' ≡ remove_lease s l)
  unfolding release_found
  release_found-released s s' none h = absurd (cc)
  release_found-released s s' (some l) h = elim (Bool-cases (accepts l)) [
    | inl t ↦ (l, refl, ground (arith, t))
    | inr f ↦ absurd (ground (arith, f))
  ]

  -- After a release that succeeds the lease is missing, and every other lease has the status it had.
  pub release-validate :
      (s s' : Store) (id j d : Text) (v now : ℕ)
      → release_lease accepts s id ≡ (s', released)
      → text_eq id j ≡ false
      → (validate_retrieval_lease accepts s' id d v now ≡ missing)
        × (validate_retrieval_lease accepts s' j d v now
            ≡ validate_retrieval_lease accepts s j d v now)
  unfolding release_lease validate_retrieval_lease
  release-validate s s' id j d v now h n =
      let (l, e, w) = release_found-released s s' (find_lease id s.by_id) h in
      let q : l.lease_id ≡ id = find_lease-id id s.by_id l e in
      rw w (
        ap (status d v now) (remove_lease-missing s l id q),
        ap (status d v now) (remove_lease-other s l id j q n),
      )
