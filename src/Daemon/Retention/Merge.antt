-- ===== src/Daemon/Retention/Merge.antt =====
-- What a normalized policy of src/daemon/retention-policy.js is.
use pi_sliding_context_windo.Common.{
  ◌≤◌, ◌≡◌, refl, ap, subst, inl, inr, Bool, true, false, none, some, [], ◌∷◌, ◌||◌, Text, arith,
  ltb, ◌==◌, text_eq, text_eq_sound, units, length, Bool-cases, All,
}
use pi_sliding_context_windo.Common.Results.{
  Result, ok, throw, ◌>>=◌, ok_chain, throw_if_chain, ok_eq,
}
use pi_sliding_context_windo.Daemon.Retention.{
  RetentionError, max_safe_integer, Dictionary, Lifetime, default_retention_lifetimes_ms,
  default_retention_class_by_kind, lookup, set, assign, has_own, ephemeral_payload,
  conversation_source, derived_evidence, durable_evidence, active_evidence, retention_classes,
  Given, null, integer, other, duration, class_name, RequestedPolicy, Policy, merge_classes,
  merge_class_lifetimes, merge_kind_lifetimes, normalize_archive_retention_policy, empty_kind,
}

-- A lifetime without an end, or of a positive safe number of milliseconds.
abbrev pub IsLifetime : Lifetime → Type 0
IsLifetime none = Unit
IsLifetime (some l) = (1 ≤ l) × (l ≤ max_safe_integer)

-- Every kind has a supported class, every class has a lifetime, and all lifetimes are valid.
pub record IsPolicy (p : Policy) : Type 0 where
  pub classes : All (λ e. retention_classes e.1 ≡ true) p.class_by_kind
  pub complete : (c : Text) → retention_classes c ≡ true → has_own p.lifetime_ms_by_class c ≡ true
  pub by_class : All (λ e. IsLifetime e.1) p.lifetime_ms_by_class
  pub by_kind : All (λ e. IsLifetime e.1) p.lifetime_ms_by_kind

module _ {A : Type 0} where
  set-All :
      (P : A → Type 0) (key : Text) (value : A) (d : Dictionary A)
      → All (λ e. P e.1) d
      → P value
      → All (λ e. P e.1) (set key value d)
  set-All P key value [] h k = (k, tt)
  set-All P key value (e ∷ es) h k = elim (Bool-cases (text_eq e.0 key)) [
    | inl t ↦ rw (t, set) (k, h.1)
    | inr f ↦ rw (f, set) (h.0, set-All P key value es h.1 k)
  ]

  assign-All :
      (P : A → Type 0) (key : Text) (value : A) (d : Dictionary A)
      → All (λ e. P e.1) d
      → P value
      → All (λ e. P e.1) (assign key value d)
  unfolding assign
  assign-All P key value d h k = elim (Bool-cases (text_eq key (units "__proto__"))) [
    | inl t ↦ rw t h
    | inr f ↦ rw f (set-All P key value d h k)
  ]

  pub lookup-All :
      (P : A → Type 0) (key : Text) (value : A) (d : Dictionary A)
      → All (λ e. P e.1) d
      → lookup key d ≡ some value
      → P value
  lookup-All P key value [] h k = cc
  lookup-All P key value (e ∷ es) h k = elim (Bool-cases (text_eq e.0 key)) [
    | inl t ↦ let q : e.1 ≡ value = ground (arith, t) in subst P q h.0
    | inr f ↦ lookup-All P key value es h.1 (ground (arith, f))
  ]

  has_own-set :
      (key other_key : Text) (value : A) (d : Dictionary A)
      → has_own d other_key ≡ true
      → has_own (set key value d) other_key ≡ true
  has_own-set key other_key value [] h = cc
  has_own-set key other_key value (e ∷ es) h = elim (Bool-cases (text_eq e.0 key)) [
    | inl t ↦
        let q : text_eq e.0 other_key ≡ text_eq key other_key =
          ap (λ x. text_eq x other_key) (text_eq_sound e.0 key t) in
        rw (t, set) (ground (arith, q))
    | inr f ↦ rw (f, set) (ground (arith, has_own-set key other_key value es))
  ]

  pub has_own-lookup :
      (key : Text) (d : Dictionary A)
      → has_own d key ≡ true
      → (value : A) × (lookup key d ≡ some value)
  has_own-lookup key [] h = absurd (cc)
  has_own-lookup key (e ∷ es) h = elim (Bool-cases (text_eq e.0 key)) [
    | inl t ↦ (e.1, rw (t, lookup) refl)
    | inr f ↦ let (v, k) = has_own-lookup key es (ground (arith, f)) in (v, rw (f, lookup) k)
  ]

class_name-ok :
    (value c : Text) → class_name value ≡ ok c → (value ≡ c) × (retention_classes value ≡ true)
unfolding class_name
class_name-ok value c h = elim (Bool-cases (retention_classes value)) [
  | inl t ↦ (ok_eq value c (rw t at h), t)
  | inr f ↦ absurd (throw_ok (rw f at h))
]
  where
    throw_ok : {e : RetentionError} → ◌≡◌ {A = Result RetentionError Text} (throw e) (ok c) → ⊥
    throw_ok k = cc

duration-ok : (g : Given) (l : Lifetime) → duration g ≡ ok l → IsLifetime l
unfolding duration
duration-ok null l h = subst IsLifetime (ok_eq none l h) tt
duration-ok other l h = absurd (cc)
duration-ok (integer n) l h = elim (Bool-cases (n == 0 || ltb max_safe_integer n)) [
  | inl t ↦ absurd (throw_ok (rw t at h))
  | inr f ↦ subst IsLifetime (ok_eq (some n) l (rw f at h)) (ground (arith, f), ground (arith, f))
]
  where
    throw_ok : {e : RetentionError} → ◌≡◌ {A = Result RetentionError Lifetime} (throw e) (ok l) → ⊥
    throw_ok k = cc

merge_classes-All :
    (es d out : Dictionary Text)
    → All (λ e. retention_classes e.1 ≡ true) d
    → merge_classes es d ≡ ok out
    → All (λ e. retention_classes e.1 ≡ true) out
unfolding merge_classes
merge_classes-All [] d out h k = subst (All (λ e. retention_classes e.1 ≡ true)) (ok_eq d out k) h
merge_classes-All (e ∷ es) d out h k =
    let next = λ (c : Text). merge_classes es (assign e.0 c d) in
    let (a, q) = throw_if_chain (length e.0 == 0) empty_kind (class_name e.1 >>= next) out k in
    let (c, b, r) = ok_chain (class_name e.1) next out q in
    let (same, valid) = class_name-ok e.1 c b in
    merge_classes-All es (assign e.0 c d) out
      (assign-All (λ x. retention_classes x ≡ true) e.0 c d h
        (subst (λ x. retention_classes x ≡ true) same valid))
      r

merge_class_lifetimes-All :
    (es : Dictionary Given) (d out : Dictionary Lifetime)
    → All (λ e. IsLifetime e.1) d
    → merge_class_lifetimes es d ≡ ok out
    → All (λ e. IsLifetime e.1) out × ((c : Text) → has_own d c ≡ true → has_own out c ≡ true)
unfolding merge_class_lifetimes
merge_class_lifetimes-All [] d out h k =
    let q = ok_eq d out k in
    (subst (All (λ e. IsLifetime e.1)) q h, λ c x. subst (λ o. has_own o c ≡ true) q x)
merge_class_lifetimes-All (e ∷ es) d out h k =
    let next = λ (c : Text) (l : Lifetime). merge_class_lifetimes es (set c l d) in
    let (c, b, r) = ok_chain (class_name e.0) (λ c. duration e.1 >>= next c) out k in
    let (l, f, g) = ok_chain (duration e.1) (next c) out r in
    let (all, owns) =
      merge_class_lifetimes-All es (set c l d) out
        (set-All IsLifetime c l d h (duration-ok e.1 l f)) g in
    (all, λ o x. owns o (has_own-set c o l d x))

merge_kind_lifetimes-All :
    (es : Dictionary Given) (d out : Dictionary Lifetime)
    → All (λ e. IsLifetime e.1) d
    → merge_kind_lifetimes es d ≡ ok out
    → All (λ e. IsLifetime e.1) out
unfolding merge_kind_lifetimes
merge_kind_lifetimes-All [] d out h k = subst (All (λ e. IsLifetime e.1)) (ok_eq d out k) h
merge_kind_lifetimes-All (e ∷ es) d out h k =
    let next = λ (l : Lifetime). merge_kind_lifetimes es (assign e.0 l d) in
    let (a, q) = throw_if_chain (length e.0 == 0) empty_kind (duration e.1 >>= next) out k in
    let (l, b, r) = ok_chain (duration e.1) next out q in
    merge_kind_lifetimes-All es (assign e.0 l d) out
      (assign-All IsLifetime e.0 l d h (duration-ok e.1 l b)) r

default_complete :
    (c : Text) → retention_classes c ≡ true → has_own default_retention_lifetimes_ms c ≡ true
unfolding default_retention_lifetimes_ms
default_complete c h =
    one_of (text_eq ephemeral_payload c) (text_eq conversation_source c)
      (text_eq derived_evidence c) (text_eq durable_evidence c) (text_eq active_evidence c) h
  where
    one_of :
        (v w x y z : Bool)
        → (v || w || x || y || z) ≡ true
        → (v || (w || (x || (y || (z || false))))) ≡ true
    one_of v w x y z h = ground arith

default_lifetimes : All (λ e. IsLifetime e.1) default_retention_lifetimes_ms
unfolding default_retention_lifetimes_ms
default_lifetimes = (
  (omega arith, omega arith),
  ((omega arith, omega arith), ((omega arith, omega arith), (tt, (tt, tt)))),
)

default_classes : All (λ e. retention_classes e.1 ≡ true) default_retention_class_by_kind
unfolding default_retention_class_by_kind
default_classes = (refl, (refl, (refl, (refl, (refl, tt)))))

abbrev as_policy : Policy → Result RetentionError Policy
as_policy p = ok p

-- A policy that is normalized is valid: every kind has a supported class, every class has a lifetime,
-- and every lifetime is null or a positive safe integer.
pub normalize_archive_retention_policy-IsPolicy :
    (r : RequestedPolicy) (p : Policy) → normalize_archive_retention_policy r ≡ ok p → IsPolicy p
unfolding normalize_archive_retention_policy default_retention_class_by_kind
    default_retention_lifetimes_ms
normalize_archive_retention_policy-IsPolicy r p h =
    let built = λ (x : Dictionary Text) (y z : Dictionary Lifetime).
      as_policy (record { class_by_kind = x; lifetime_ms_by_class = y; lifetime_ms_by_kind = z }) in
    let kinds = λ (x : Dictionary Text) (y : Dictionary Lifetime).
      merge_kind_lifetimes r.lifetime_ms_by_kind [] >>= built x y in
    let lifetimes = λ (x : Dictionary Text).
      merge_class_lifetimes r.lifetime_ms_by_class default_retention_lifetimes_ms >>= kinds x in
    let (x, a, h1) =
      ok_chain (merge_classes r.class_by_kind default_retention_class_by_kind) lifetimes p h in
    let (y, b, h2) =
      ok_chain (merge_class_lifetimes r.lifetime_ms_by_class default_retention_lifetimes_ms)
        (kinds x) p h1 in
    let (z, c, h3) = ok_chain (merge_kind_lifetimes r.lifetime_ms_by_kind []) (built x y) p h2 in
    let (all, owns) =
      merge_class_lifetimes-All r.lifetime_ms_by_class default_retention_lifetimes_ms y
        default_lifetimes b in
    subst IsPolicy (ok_eq _ p h3) (record {
      classes =
          merge_classes-All r.class_by_kind default_retention_class_by_kind x default_classes a;
      complete = λ k v. owns k (default_complete k v);
      by_class = all;
      by_kind = merge_kind_lifetimes-All r.lifetime_ms_by_kind [] z tt c;
    })
