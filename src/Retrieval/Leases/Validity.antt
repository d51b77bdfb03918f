-- ===== src/Retrieval/Leases/Validity.antt =====
-- From the creation of a lease of src/retrieval/leases.js to its expiry.
use pi_sliding_context_windo.Common.{
  ℕ, ◌+◌, ◌-◌, ◌≤◌, ◌≡◌, refl, ap, ◌∙◌, inl, inr, Bool, true, false, Option, none, some, arith,
  if◌then◌else◌, ltb, leb, text_eq_refl, Bool-cases,
}
use pi_sliding_context_windo.Retrieval.Leases.{
  Lease, Store, created, Request, valid_duration, well_formed, requested, find_lease, is_superseded,
  put_lease, create_at, create_retrieval_lease, active, expired, status_of,
  validate_retrieval_lease, max_retrieval_lease_ms, max_safe_integer,
}

module _ (accepts : Lease → Bool) where
  find_lease-put : (s : Store) (l : Lease) → find_lease l.lease_id (put_lease s l).by_id ≡ some l
  unfolding find_lease put_lease
  find_lease-put s l = let r = text_eq_refl l.lease_id in rw r refl

  create_at-new :
      (s s' : Store) (l k : Lease) (found : Option Lease)
      → create_at accepts s l found ≡ (s', created k false)
      → (s' ≡ put_lease s l) × (k ≡ l)
  unfolding create_at
  create_at-new s s' l k none h =
      elim (Bool-cases (is_superseded l.document_id l.document_version s.superseded)) [
        | inl gone ↦ absurd (cc)
        | inr alive ↦ ground (arith, alive)
      ]
  create_at-new s s' l k (some e) h = absurd (ground arith)

  pub create-new :
      (s s' : Store) (r : Request) (l : Lease)
      → create_retrieval_lease accepts s r ≡ (s', created l false)
      → (valid_duration r ≡ true)
        × (accepts (requested r) ≡ true)
        × (s' ≡ put_lease s (requested r))
        × (l ≡ requested r)
  unfolding create_retrieval_lease
  create-new s s' r l h = elim (Bool-cases (valid_duration r)) [
    | inr bad ↦ absurd (ground (arith, bad))
    | inl good ↦ elim (Bool-cases (ltb (max_safe_integer - r.ttl_ms) r.now)) [
      | inl late ↦ absurd (ground (arith, late, good))
      | inr early ↦ elim (Bool-cases (well_formed r)) [
        | inr bad ↦ absurd (ground (arith, bad, good, early))
        | inl named ↦ elim (Bool-cases (accepts (requested r))) [
          | inr bad ↦ absurd (ground (arith, bad, good, early, named))
          | inl fine ↦
              let e : create_at accepts s (requested r) (find_lease r.lease_id s.by_id)
                  ≡ (s', created l false) =
                rw (good, create_retrieval_lease, early, named, fine) at h in
              let (p, q) = create_at-new s s' (requested r) l (find_lease r.lease_id s.by_id) e in
              (good, fine, p, q)
        ]
      ]
    ]
  ]

  validate_requested :
      (r : Request) (now : ℕ)
      → status_of (requested r) r.document_id r.document_version now
        ≡ (if leb (r.now + r.ttl_ms) now then expired (requested r) else active (requested r))
  unfolding requested
  validate_requested r now = let t = text_eq_refl r.document_id in ground (arith, t)

  requested-expires : (r : Request) → (requested r).expires_at ≡ r.now + r.ttl_ms
  unfolding requested
  requested-expires r = refl

  -- Whoever is told that a new lease was created finds it active until its time is over, and
  -- expired from then on. This time is the request's duration after its start, and the duration
  -- is at most an hour.
  pub create-validate :
      (s s' : Store) (r : Request) (l : Lease) (now : ℕ)
      → create_retrieval_lease accepts s r ≡ (s', created l false)
      → (l ≡ requested r)
        × (l.expires_at ≡ r.now + r.ttl_ms)
        × (r.ttl_ms ≤ max_retrieval_lease_ms)
        × (validate_retrieval_lease accepts s' r.lease_id r.document_id r.document_version now
            ≡ (if leb (r.now + r.ttl_ms) now then expired l else active l))
  unfolding validate_retrieval_lease find_lease requested
  create-validate s s' r l now h =
      let (w, a, p, q) = create-new s s' r l h in
      let f = find_lease-put s (requested r) in
      (
        q,
        ap (λ k. k.expires_at) q ∙ requested-expires r,
        ground (arith, w),
        rw (p, q) (rw (f, validate_retrieval_lease, a) (validate_requested r now)),
      )
