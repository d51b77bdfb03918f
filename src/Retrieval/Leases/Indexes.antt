-- ===== src/Retrieval/Leases/Indexes.antt =====
-- The secondary keys of src/retrieval/leases.js agree with the leases.
use pi_sliding_context_windo.Common.{
  ℕ, ◌-◌, ◌≡◌, refl, sym, ap, ◌∙◌, inl, inr, Bool, true, false, not, ◌&&◌, ◌||◌, Option, none, some,
  List, [], ◌∷◌, Text, arith, if◌then◌else◌, ltb, ◌==◌, text_eq, text_eq_sound, text_eq_refl,
  Bool-cases, map, keep_if, All, keep_if-yes, keep_if-no, All-keep_if, keep_if-map, All-map, subst,
}
use pi_sliding_context_windo.Retrieval.Leases.{
  Lease, document_key, Store, Request, requested, find_lease, put_lease, create_at, same_key,
  newest, create_retrieval_lease, has_active_document_lease, remove_lease, release_lease,
  release_found, released, malformed_lease, created, failed, target_unavailable, conflict,
  malformed, invalid_argument, expiry_overflow, rejected, is_superseded, same_claims,
  valid_duration, well_formed, max_safe_integer,
}

-- No two leases share an id.
abbrev pub Distinct : List Lease → Type 0
Distinct [] = Unit
Distinct (l ∷ ls) = All (λ k. text_eq k.lease_id l.lease_id ≡ false) ls × Distinct ls

-- Every lease has its three secondary keys, and there are no others.
pub record IsConsistent (s : Store) : Type 0 where
  pub distinct : Distinct s.by_id
  pub expiries : s.by_expiry ≡ map (λ l. (l.expires_at, l.lease_id)) s.by_id
  pub documents : s.by_document ≡ map document_key s.by_id
  pub document_expiries : s.document_expiry ≡ map (λ l. (l.expires_at, document_key l)) s.by_id

abbrev pub covers : Text → ℕ → ℕ → Lease → Bool
covers d v now l = (text_eq l.document_id d && l.document_version == v) && ltb now l.expires_at

abbrev pub any_lease : (Lease → Bool) → List Lease → Bool
any_lease p [] = false
any_lease p (l ∷ ls) = p l || any_lease p ls

newest-map :
    (d : Text) (v now : ℕ) (ls : List Lease)
    → (elim (newest d v (map (λ l. (l.expires_at, document_key l)) ls)) [
      | none ↦ false
      | some t ↦ ltb now t
    ])
      ≡ any_lease (covers d v now) ls
unfolding newest
newest-map d v now [] = refl
newest-map d v now (l ∷ ls) = ground (arith, newest-map d v now ls)

-- In a consistent store the lookup of the newest expiry is right: it says yes exactly if some
-- lease on the document version is not yet over.
pub has_active-any :
    (s : Store) (d : Text) (v now : ℕ)
    → IsConsistent s
    → has_active_document_lease s d v now ≡ any_lease (covers d v now) s.by_id
unfolding has_active_document_lease
has_active-any s d v now c = rw c.document_expiries (newest-map d v now s.by_id)

Distinct-keep_if : (p : Lease → Bool) (ls : List Lease) → Distinct ls → Distinct (keep_if p ls)
Distinct-keep_if p [] h = tt
Distinct-keep_if p (l ∷ ls) h = elim (Bool-cases (p l)) [
  | inl t ↦
      subst Distinct (sym (keep_if-yes p l ls t)) (
        All-keep_if (λ k. text_eq k.lease_id l.lease_id ≡ false) p ls h.0,
        Distinct-keep_if p ls h.1,
      )
  | inr f ↦ subst Distinct (sym (keep_if-no p l ls f)) (Distinct-keep_if p ls h.1)
]

find_lease-none :
    (id : Text) (ls : List Lease)
    → find_lease id ls ≡ none
    → All (λ k. text_eq k.lease_id id ≡ false) ls
unfolding find_lease
find_lease-none id [] h = tt
find_lease-none id (l ∷ ls) h = elim (Bool-cases (text_eq l.lease_id id)) [
  | inl t ↦ absurd (ground arith)
  | inr f ↦ (f, find_lease-none id ls (ground arith))
]

pub find_lease-id :
    (id : Text) (ls : List Lease) (l : Lease) → find_lease id ls ≡ some l → l.lease_id ≡ id
unfolding find_lease
find_lease-id id [] l h = absurd (ground arith)
find_lease-id id (k ∷ ls) l h = elim (Bool-cases (text_eq k.lease_id id)) [
  | inl t ↦
      let e : k ≡ l = ground arith in ap (λ x. x.lease_id) (sym e) ∙ text_eq_sound k.lease_id id t
  | inr f ↦ find_lease-id id ls l (ground arith)
]

-- Among distinct leases only the one that was found has its id.
find_lease_unique :
    (id : Text) (ls : List Lease) (l : Lease)
    → Distinct ls
    → find_lease id ls ≡ some l
    → All (λ k. text_eq k.lease_id l.lease_id ≡ true → k ≡ l) ls
unfolding find_lease
find_lease_unique id [] l d h = tt
find_lease_unique id (k ∷ ls) l d h = elim (Bool-cases (text_eq k.lease_id id)) [
  | inl t ↦ let e : k ≡ l = ground arith in (λ _. e, All-absurd k l ls e d.0)
  | inr f ↦
      let g : find_lease id ls ≡ some l = ground arith in
      (λ t. absurd (cc (f, t, find_lease-id id ls l g)), find_lease_unique id ls l d.1 g)
]
  where
    All-absurd :
        (k l : Lease) (ls : List Lease)
        → k ≡ l
        → All (λ x. text_eq x.lease_id k.lease_id ≡ false) ls
        → All (λ x. text_eq x.lease_id l.lease_id ≡ true → x ≡ l) ls
    All-absurd k l [] e h = tt
    All-absurd k l (x ∷ xs) e h = (λ t. absurd (cc (t, h.0, e)), All-absurd k l xs e h.1)

put_lease-IsConsistent :
    (s : Store) (l : Lease)
    → IsConsistent s
    → find_lease l.lease_id s.by_id ≡ none
    → IsConsistent (put_lease s l)
unfolding put_lease
put_lease-IsConsistent s l c h = record {
  distinct = (find_lease-none l.lease_id s.by_id h, c.distinct);
  expiries = ap (◌∷◌ (l.expires_at, l.lease_id)) c.expiries;
  documents = ap (◌∷◌ (document_key l)) c.documents;
  document_expiries = ap (◌∷◌ (l.expires_at, document_key l)) c.document_expiries;
}

expiry_test :
    (l k : Lease)
    → (text_eq k.lease_id l.lease_id ≡ true → k ≡ l)
    → not (k.expires_at == l.expires_at && text_eq k.lease_id l.lease_id)
      ≡ not (text_eq k.lease_id l.lease_id)
expiry_test l k u = elim (Bool-cases (text_eq k.lease_id l.lease_id)) [
  | inl t ↦ let e = ap (λ x. x.expires_at) (u t) in ground (arith, e, t)
  | inr f ↦ ground (arith, f)
]

document_test :
    (l k : Lease)
    → (text_eq k.lease_id l.lease_id ≡ true → k ≡ l)
    → not (same_key (document_key k) (document_key l)) ≡ not (text_eq k.lease_id l.lease_id)
document_test l k u = elim (Bool-cases (text_eq k.lease_id l.lease_id)) [
  | inl t ↦
      let e = ap (λ x. x.document_version) (u t) in
      let d : text_eq k.document_id l.document_id ≡ true =
        ap (λ x. text_eq k.document_id x.document_id) (sym (u t)) ∙ text_eq_refl k.document_id in
      ground (arith, e, d, t)
  | inr f ↦ ground (arith, f)
]

document_expiry_test :
    (l k : Lease)
    → (text_eq k.lease_id l.lease_id ≡ true → k ≡ l)
    → not (k.expires_at == l.expires_at && same_key (document_key k) (document_key l))
      ≡ not (text_eq k.lease_id l.lease_id)
document_expiry_test l k u = elim (Bool-cases (text_eq k.lease_id l.lease_id)) [
  | inl t ↦ let e = ap (λ x. x.expires_at) (u t) in ground (arith, e, document_test l k u, t)
  | inr f ↦ ground (arith, document_test l k u, f)
]

remove_lease-IsConsistent :
    (s : Store) (id : Text) (l : Lease)
    → IsConsistent s
    → find_lease id s.by_id ≡ some l
    → IsConsistent (remove_lease s l)
unfolding remove_lease
remove_lease-IsConsistent s id l c h =
    let u = find_lease_unique id s.by_id l c.distinct h in
    record {
      distinct = Distinct-keep_if (λ k. not (text_eq k.lease_id l.lease_id)) s.by_id c.distinct;
      expiries = rw c.expiries (keep_if-map _ _ _ s.by_id (All-map (expiry_test l) s.by_id u));
      documents = rw c.documents (keep_if-map _ _ _ s.by_id (All-map (document_test l) s.by_id u));
      document_expiries =
          rw c.document_expiries
            (keep_if-map _ _ _ s.by_id (All-map (document_expiry_test l) s.by_id u));
    }

-- What holds of the store on both branches holds of the store behind the test.
either {ℓ} :
    {R : Type 0} (P : Store → Type ℓ) (b : Bool) (x y : Store × R)
    → P x.0
    → P y.0
    → P (if b then x else y).0
either P true x y h k = h
either P false x y h k = k

module _ (accepts : Lease → Bool) where
  create_at-IsConsistent :
      (s : Store) (l : Lease) (found : Option Lease)
      → IsConsistent s
      → find_lease l.lease_id s.by_id ≡ found
      → IsConsistent (create_at accepts s l found).0
  unfolding create_at
  create_at-IsConsistent s l none c h =
      either IsConsistent (is_superseded l.document_id l.document_version s.superseded)
        (s, failed target_unavailable) (put_lease s l, created l false) c
        (put_lease-IsConsistent s l c h)
  create_at-IsConsistent s l (some e) c h =
      either IsConsistent (accepts e)
        (if same_claims e l then (s, created e true) else (s, failed conflict))
        (s, failed malformed)
        (either IsConsistent (same_claims e l) (s, created e true) (s, failed conflict) c c) c

  released_at :
      (s : Store) (id : Text)
      → IsConsistent s
      → (found : Option Lease) → find_lease id s.by_id ≡ found
      → IsConsistent (release_found accepts s found).0
  unfolding release_found
  released_at s id c none h = c
  released_at s id c (some l) h =
      either IsConsistent (accepts l) (remove_lease s l, released) (s, malformed_lease)
        (remove_lease-IsConsistent s id l c h) c

  -- A transaction keeps a consistent store consistent, whatever comes of it: the creation of a
  -- lease and its release.
  pub transaction-IsConsistent :
      (s : Store) (r : Request) (id : Text)
      → IsConsistent s
      → IsConsistent (create_retrieval_lease accepts s r).0
        × IsConsistent (release_lease accepts s id).0
  unfolding create_retrieval_lease release_lease requested
  transaction-IsConsistent s r id c = (
    either IsConsistent (not (valid_duration r)) (s, failed invalid_argument) _ c
        (either IsConsistent (ltb (max_safe_integer - r.ttl_ms) r.now) (s, failed expiry_overflow) _
          c
          (either IsConsistent (not (well_formed r)) (s, failed invalid_argument) _ c
            (either IsConsistent (accepts (requested r)) _ (s, failed rejected)
              (create_at-IsConsistent s (requested r) (find_lease r.lease_id s.by_id) c refl) c))),
    released_at s id c (find_lease id s.by_id) refl,
  )
