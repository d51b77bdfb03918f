-- ===== src/Daemon/Retention/Admission.antt =====
-- What src/daemon/retention-policy.js answers for a document that is admitted.
use pi_sliding_context_windo.Common.{
  ℕ, ◌-◌, ◌≤◌, ◌<◌, ◌≡◌, refl, sym, subst, inl, inr, Bool, true, false, not, ◌&&◌, Option, none,
  some, Text, arith, ltb, Bool-cases, Option-cases, ◌⊎◌,
}
use pi_sliding_context_windo.Common.Results.{Result, ok, throw}
use pi_sliding_context_windo.Daemon.Retention.{
  RetentionError, unknown_class, invalid_expiry, unsafe_expiry, max_safe_integer, Lifetime, lookup,
  has_own, is_inherited, retention_classes, Given, null, other, integer, class_name,
  RequestedPolicy, Policy, normalize_archive_retention_policy, Request, SelectedClass, named,
  inherited, Expiry, at, not_a_number, Retention, class_of_kind, retain, select_class, lifetime_for,
  expiring, explicit_expiry, retention_for_admission,
}
use pi_sliding_context_windo.Daemon.Retention.Merge.{
  IsLifetime, IsPolicy, lookup-All, has_own-lookup, normalize_archive_retention_policy-IsPolicy,
}

-- The request leaves the class to a kind that the policy does not list and that is the name of a
-- member of Object.prototype.
abbrev pub unlisted_member : Text → (asked listed : Option Text) → Bool
unlisted_member kind (some c) listed = false
unlisted_member kind none (some c) = false
unlisted_member kind none none = is_inherited kind

-- A supported class, but for such a kind, whose class is the member.
abbrev pub IsClass : Text → (asked listed : Option Text) → SelectedClass → Type 0
IsClass kind asked listed (named c) =
    (retention_classes c ≡ true) × (unlisted_member kind asked listed ≡ false)
IsClass kind asked listed (inherited member) =
    (member ≡ kind) × (unlisted_member kind asked listed ≡ true)

abbrev pub is_unlisted_member : Policy → Request → Bool
is_unlisted_member p r = unlisted_member r.kind r.retention_class (lookup r.kind p.class_by_kind)

-- An expiry in the safe range: the one that was asked for, or one that lies behind the present. It is
-- NaN exactly for a class that is no class, where no lifetime of the kind stands in.
abbrev pub IsLater : Given → Option Expiry → Type 0
IsLater now none = Unit
IsLater (integer n) (some (at t)) = (n < t) × (t ≤ max_safe_integer)
IsLater _ (some _) = ⊥

abbrev pub IsExpiry : Bool → Option Given → Given → Option Expiry → Type 0
IsExpiry without_lifetime (some e) now (some (at t)) = (e ≡ integer t) × (t ≤ max_safe_integer)
IsExpiry without_lifetime (some e) now _ = ⊥
IsExpiry false none now x = IsLater now x
IsExpiry true none now x = x ≡ some not_a_number

-- What may be answered: such a class and expiry, or an error that names a fault of the request, which
-- is that its class, its expiry or its time is not valid.
abbrev pub IsAnswer : Policy → Request → Result RetentionError Retention → Type 0
IsAnswer p r (ok x) =
    IsClass r.kind r.retention_class (lookup r.kind p.class_by_kind) x.retention_class
    × IsExpiry (is_unlisted_member p r && not (has_own p.lifetime_ms_by_kind r.kind)) r.expires_at
        r.now x.expires_at
IsAnswer p r (throw e) = (e ≡ unknown_class) ⊎ (e ≡ invalid_expiry) ⊎ (e ≡ unsafe_expiry)

ltb_no : (a b : ℕ) → ltb a b ≡ false → b ≤ a
ltb_no a b h = ground arith

module _ (p : Policy) (r : Request) (h : IsPolicy p) where
  abbrev IsSelected : SelectedClass → Type 0
  IsSelected = IsClass r.kind r.retention_class (lookup r.kind p.class_by_kind)

  class_of_kind-cases :
      (kind : Text) (listed : Option Text)
      → lookup kind p.class_by_kind ≡ listed
      → IsClass kind none listed (class_of_kind kind listed)
  unfolding class_of_kind
  class_of_kind-cases kind (some c) e =
      (lookup-All (λ x. retention_classes x ≡ true) kind c p.class_by_kind h.classes e, refl)
  class_of_kind-cases kind none e = elim (Bool-cases (is_inherited kind)) [
    | inl t ↦ rw t (refl, t)
    | inr f ↦ rw f (refl, f)
  ]

  select_class-cases :
      (kind : Text) (asked : Option Text)
      → ((c : SelectedClass) × (select_class p kind asked ≡ ok c)
          × IsClass kind asked (lookup kind p.class_by_kind) c)
        ⊎ (select_class p kind asked ≡ throw unknown_class)
  unfolding select_class class_name
  select_class-cases kind none = inl (
    class_of_kind kind (lookup kind p.class_by_kind),
    refl,
    class_of_kind-cases kind (lookup kind p.class_by_kind) refl,
  )
  select_class-cases kind (some c) = elim (Bool-cases (retention_classes c)) [
    | inl t ↦ inl (named c, rw t refl, (t, refl))
    | inr f ↦ inr (rw f refl)
  ]

  abbrev without_lifetime : Bool
  without_lifetime = is_unlisted_member p r && not (has_own p.lifetime_ms_by_kind r.kind)

  -- The lifetime is valid, or it is undefined and the class is no class.
  lifetime_for-cases :
      (c : SelectedClass)
      → IsSelected c
      → ((l : Lifetime) × (lifetime_for p r.kind c ≡ some l)
          × IsLifetime l
          × (without_lifetime ≡ false))
        ⊎ ((lifetime_for p r.kind c ≡ none) × (without_lifetime ≡ true))
  unfolding lifetime_for
  lifetime_for-cases c k = elim (Bool-cases (has_own p.lifetime_ms_by_kind r.kind)) [
    | inl t ↦
        let (l, e) = has_own-lookup r.kind p.lifetime_ms_by_kind t in
        inl (
          l,
          rw t e,
          lookup-All IsLifetime r.kind l p.lifetime_ms_by_kind h.by_kind e,
          ground (arith, t),
        )
    | inr f ↦ of_class c k f
  ]
    where
      of_class :
          (c : SelectedClass)
          → IsSelected c
          → has_own p.lifetime_ms_by_kind r.kind ≡ false
          → ((l : Lifetime) × (lifetime_for p r.kind c ≡ some l)
              × IsLifetime l
              × (without_lifetime ≡ false))
            ⊎ ((lifetime_for p r.kind c ≡ none) × (without_lifetime ≡ true))
      of_class (named c) k f =
          let (l, e) = has_own-lookup c p.lifetime_ms_by_class (h.complete c k.0) in
          inl
            (l, rw f e, lookup-All IsLifetime c l p.lifetime_ms_by_class h.by_class e, rw k.1 refl)
      of_class (inherited member) k f = inr (rw f refl, rw (k.1, f) refl)

module _ (c : SelectedClass) where
  -- What the expiry adds to the class.
  abbrev IsTimed : Bool → Option Given → Given → Result RetentionError Retention → Type 0
  IsTimed without asked now (ok x) =
      (x.retention_class ≡ c) × IsExpiry without asked now x.expires_at
  IsTimed without asked now (throw e) =
      (e ≡ unknown_class) ⊎ (e ≡ invalid_expiry) ⊎ (e ≡ unsafe_expiry)

  explicit_expiry-IsTimed :
      (without : Bool) (now e : Given) → IsTimed without (some e) now (explicit_expiry c e)
  unfolding explicit_expiry
  explicit_expiry-IsTimed without now null = inr (inl refl)
  explicit_expiry-IsTimed without now other = inr (inl refl)
  explicit_expiry-IsTimed without now (integer n) = elim (Bool-cases (ltb max_safe_integer n)) [
    | inl t ↦ rw t (inr (inl refl))
    | inr f ↦ rw f (refl, (refl, ltb_no max_safe_integer n f))
  ]

  expiring-IsTimed :
      (now : Given) (l : Lifetime) → IsLifetime l → IsTimed false none now (expiring c now (some l))
  unfolding expiring
  expiring-IsTimed now none k = (refl, tt)
  expiring-IsTimed null (some l) k = inr (inr refl)
  expiring-IsTimed other (some l) k = inr (inr refl)
  expiring-IsTimed (integer n) (some l) k = elim (Bool-cases (ltb (max_safe_integer - l) n)) [
    | inl t ↦ rw t (inr (inr refl))
    | inr f ↦
        rw f
          (refl, (omega (arith, k.0), omega (arith, k.0, k.1, ltb_no (max_safe_integer - l) n f)))
  ]

  undefined-IsTimed : (now : Given) → IsTimed true none now (expiring c now none)
  unfolding expiring
  undefined-IsTimed null = inr (inr refl)
  undefined-IsTimed other = inr (inr refl)
  undefined-IsTimed (integer n) = elim (Bool-cases (ltb max_safe_integer n)) [
    | inl t ↦ rw t (inr (inr refl))
    | inr f ↦ rw f (refl, refl)
  ]

module _ (p : Policy) (r : Request) where
  IsTimed-IsAnswer :
      (c : SelectedClass) (x : Result RetentionError Retention)
      → IsClass r.kind r.retention_class (lookup r.kind p.class_by_kind) c
      → IsTimed c
          (is_unlisted_member p r && not (has_own p.lifetime_ms_by_kind r.kind))
          r.expires_at
          r.now
          x
      → IsAnswer p r x
  IsTimed-IsAnswer c (ok x) k t =
      (subst (IsClass r.kind r.retention_class (lookup r.kind p.class_by_kind)) (sym t.0) k, t.1)
  IsTimed-IsAnswer c (throw e) k t = t

-- With a policy that is normalized, an admission is given a supported class and an expiry that was
-- asked for or lies behind the present, in the safe range, or no expiry; or it is refused for its own
-- class, expiry or time. Where it names no class, and its kind is not listed by the policy and is the
-- name of a member of Object.prototype, and only there, it is given this member as class, and NaN as
-- expiry if it asks for none and the policy has no lifetime of its kind.
pub retention_for_admission-IsAnswer :
    (raw : RequestedPolicy) (p : Policy) (r : Request)
    → normalize_archive_retention_policy raw ≡ ok p
    → IsAnswer p r (retention_for_admission p r)
unfolding retention_for_admission
retention_for_admission-IsAnswer raw p r n =
    let h = normalize_archive_retention_policy-IsPolicy raw p n in
    elim (select_class-cases p r h r.kind r.retention_class) [
      | inr e ↦ rw e (inl refl)
      | inl (c, e, k) ↦ rw e (
          IsTimed-IsAnswer p r c (retain p r c r.expires_at) k (elim (Option-cases r.expires_at) [
            | inr (g, f) ↦ rw f (
                explicit_expiry-IsTimed c
                  (is_unlisted_member p r && not (has_own p.lifetime_ms_by_kind r.kind)) r.now g)
            | inl f ↦ elim (lifetime_for-cases p r h c k) [
              | inl (l, a, v, w) ↦ rw (f, a, w) (expiring-IsTimed c r.now l v)
              | inr (a, w) ↦ rw (f, a, w) (undefined-IsTimed c r.now)
            ]
          ]))
    ]
