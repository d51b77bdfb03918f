-- ===== src/Daemon/Retention.antt =====
-- src/daemon/retention-policy.js: how long an archived document is kept.
-- Objects stand as association lists with one entry for each own key, in their order. What they inherit
-- from Object.prototype is read by `classByKind[kind]` alone. `retentionForAdmission` is modelled on a normalized policy, which is
-- what each of its callers gives it. Recency weights are floating-point numbers and are left out.
pub mod Merge
pub mod Admission
pub mod Days
use pi_sliding_context_windo.Common.{
  ℕ, zero, suc, ◌+◌, ◌*◌, ◌^◌, ◌-◌, ◌/◌, Bool, true, false, not, Option, none, some, List, [], ◌∷◌,
  ◌&&◌, ◌||◌, Text, units, if◌then◌else◌, ltb, ◌==◌, text_eq, length,
}
use pi_sliding_context_windo.Common.Results.{Result, ok, throw, ◌>>=◌, ◌>>◌, throw_if}

pub data RetentionError : Type 0 where
  invalid_duration unknown_class empty_kind invalid_expiry unsafe_expiry : RetentionError

abbrev pub max_safe_integer : ℕ
max_safe_integer = 9007199254740991

abbrev pub day_ms : ℕ
day_ms = 86400000

abbrev pub ephemeral_payload : Text
ephemeral_payload = units "ephemeral-payload"

abbrev pub conversation_source : Text
conversation_source = units "conversation-source"

abbrev pub derived_evidence : Text
derived_evidence = units "derived-evidence"

abbrev pub durable_evidence : Text
durable_evidence = units "durable-evidence"

abbrev pub active_evidence : Text
active_evidence = units "active-evidence"

abbrev pub Dictionary {ℓ} : Type ℓ → Type ℓ
Dictionary A = List (Text × A)

-- `null` is a lifetime without an end.
abbrev pub Lifetime : Type 0
Lifetime = Option ℕ

unfoldable pub default_retention_lifetimes_ms : Dictionary Lifetime
default_retention_lifetimes_ms =
    (ephemeral_payload, some (14 * day_ms))
    ∷ (conversation_source, some (90 * day_ms))
    ∷ (derived_evidence, some (30 * day_ms))
    ∷ (durable_evidence, none)
    ∷ (active_evidence, none)
    ∷ []

unfoldable pub default_retention_class_by_kind : Dictionary Text
default_retention_class_by_kind =
    (units "tool-result", ephemeral_payload)
    ∷ (units "tool-argument", ephemeral_payload)
    ∷ (units "decision-candidate", derived_evidence)
    ∷ (units "fact-candidate", derived_evidence)
    ∷ (units "manual", durable_evidence)
    ∷ []

unfoldable pub default_recency_half_life_ms_by_class : Dictionary Lifetime
default_recency_half_life_ms_by_class =
    (ephemeral_payload, some (3 * day_ms))
    ∷ (conversation_source, some (21 * day_ms))
    ∷ (derived_evidence, some (14 * day_ms))
    ∷ (durable_evidence, none)
    ∷ (active_evidence, none)
    ∷ []

-- The own `object[key]`, where `none` is undefined, and `object[key] = value` at an own key.
abbrev pub lookup {ℓ} : {A : Type ℓ} → Text → Dictionary A → Option A
lookup key [] = none
lookup key (e ∷ es) = let later = lookup key es in if text_eq e.0 key then some e.1 else later

abbrev pub set {ℓ} : {A : Type ℓ} → Text → A → Dictionary A → Dictionary A
set key value [] = (key, value) ∷ []
set key value (e ∷ es) =
    let later = set key value es in if text_eq e.0 key then (key, value) ∷ es else e ∷ later

-- The members that each object inherits.
unfoldable pub is_inherited : Text → Bool
is_inherited key =
    text_eq (units "constructor") key
    || text_eq (units "hasOwnProperty") key
    || text_eq (units "isPrototypeOf") key
    || text_eq (units "propertyIsEnumerable") key
    || text_eq (units "toLocaleString") key
    || text_eq (units "toString") key
    || text_eq (units "valueOf") key
    || text_eq (units "__defineGetter__") key
    || text_eq (units "__defineSetter__") key
    || text_eq (units "__lookupGetter__") key
    || text_eq (units "__lookupSetter__") key
    || text_eq (units "__proto__") key

-- `object[key] = value`. No own key comes of "__proto__": a text or a number is ignored, and null only
-- takes the inherited members away, which the lifetimes of kinds are not read for.
unfoldable pub assign {ℓ} : {A : Type ℓ} → Text → A → Dictionary A → Dictionary A
assign key value d = if text_eq key (units "__proto__") then d else set key value d

abbrev pub has_own {ℓ} : {A : Type ℓ} → Dictionary A → Text → Bool
has_own [] key = false
has_own (e ∷ es) key = text_eq e.0 key || has_own es key

abbrev pub retention_classes : Text → Bool
retention_classes value =
    text_eq ephemeral_payload value
    || text_eq conversation_source value
    || text_eq derived_evidence value
    || text_eq durable_evidence value
    || text_eq active_evidence value

-- A value of an object from outside: null, an integer from 0 on, or anything else.
pub data Given : Type 0 where
  null other : Given
  integer : ℕ → Given

unfoldable pub duration : Given → Result RetentionError Lifetime
duration null = ok none
duration other = throw invalid_duration
duration (integer n) =
    if n == 0 || ltb max_safe_integer n then throw invalid_duration else ok (some n)

unfoldable pub class_name : Text → Result RetentionError Text
class_name value = if retention_classes value then ok value else throw unknown_class

pub record RequestedPolicy : Type 0 where
  pub class_by_kind : Dictionary Text
  pub lifetime_ms_by_class : Dictionary Given
  pub lifetime_ms_by_kind : Dictionary Given

pub record Policy : Type 0 where
  pub class_by_kind : Dictionary Text
  pub lifetime_ms_by_class : Dictionary Lifetime
  pub lifetime_ms_by_kind : Dictionary Lifetime

-- The three loops of `normalizeArchiveRetentionPolicy`. The second is also that of the half-lives.
unfoldable pub merge_classes :
    Dictionary Text → Dictionary Text → Result RetentionError (Dictionary Text)
merge_classes [] d = ok d
merge_classes (e ∷ es) d =
    throw_if (length e.0 == 0) empty_kind
    >> (class_name e.1 >>= λ c. merge_classes es (assign e.0 c d))

unfoldable pub merge_class_lifetimes :
    Dictionary Given → Dictionary Lifetime → Result RetentionError (Dictionary Lifetime)
merge_class_lifetimes [] d = ok d
merge_class_lifetimes (e ∷ es) d =
    class_name e.0 >>= λ c. duration e.1 >>= λ l. merge_class_lifetimes es (set c l d)

unfoldable pub merge_kind_lifetimes :
    Dictionary Given → Dictionary Lifetime → Result RetentionError (Dictionary Lifetime)
merge_kind_lifetimes [] d = ok d
merge_kind_lifetimes (e ∷ es) d =
    throw_if (length e.0 == 0) empty_kind
    >> (duration e.1 >>= λ l. merge_kind_lifetimes es (assign e.0 l d))

unfoldable pub normalize_archive_retention_policy : RequestedPolicy → Result RetentionError Policy
normalize_archive_retention_policy r =
    merge_classes r.class_by_kind default_retention_class_by_kind >>= λ classes.
    (merge_class_lifetimes r.lifetime_ms_by_class default_retention_lifetimes_ms >>= λ lifetimes.
    (merge_kind_lifetimes r.lifetime_ms_by_kind [] >>= λ kinds. ok (record {
      class_by_kind = classes;
      lifetime_ms_by_class = lifetimes;
      lifetime_ms_by_kind = kinds;
    })))

unfoldable pub normalize_recency_half_life_ms_by_class :
    Dictionary Given → Result RetentionError (Dictionary Lifetime)
normalize_recency_half_life_ms_by_class overrides =
    merge_class_lifetimes overrides default_recency_half_life_ms_by_class

pub record Request : Type 0 where
  pub kind : Text
  pub retention_class : Option Text
  pub expires_at : Option Given
  pub now : Given

-- A class of the policy, or the member of Object.prototype that a kind names.
pub data SelectedClass : Type 0 where
  named inherited : Text → SelectedClass

-- A time, or the NaN that a lifetime which is undefined leads to.
pub data Expiry : Type 0 where
  at : ℕ → Expiry
  not_a_number : Expiry

pub record Retention : Type 0 where
  pub retention_class : SelectedClass
  pub expires_at : Option Expiry

-- `normalized.classByKind[kind] ?? "conversation-source"`, from the own value.
unfoldable pub class_of_kind : Text → Option Text → SelectedClass
unfolding is_inherited
class_of_kind kind (some c) = named c
class_of_kind kind none = if is_inherited kind then inherited kind else named conversation_source

abbrev pub named_class : Result RetentionError Text → Result RetentionError SelectedClass
named_class (ok c) = ok (named c)
named_class (throw e) = throw e

unfoldable pub select_class : Policy → Text → Option Text → Result RetentionError SelectedClass
unfolding class_of_kind
select_class p kind none = ok (class_of_kind kind (lookup kind p.class_by_kind))
select_class p kind (some c) = named_class (class_name c)

-- A member of Object.prototype is no class: as a key it is its source text, under which there is
-- nothing.
abbrev pub class_lifetime : Policy → SelectedClass → Option Lifetime
class_lifetime p (named c) = lookup c p.lifetime_ms_by_class
class_lifetime p (inherited member) = none

-- An own lifetime of the kind comes before that of the class.
unfoldable pub lifetime_for : Policy → Text → SelectedClass → Option Lifetime
lifetime_for p kind c =
    if has_own p.lifetime_ms_by_kind kind
    then lookup kind p.lifetime_ms_by_kind
    else class_lifetime p c

-- A lifetime that is undefined passes the comparison, and the sum is NaN.
unfoldable pub expiring : SelectedClass → Given → Option Lifetime → Result RetentionError Retention
expiring c (integer now) none =
    if ltb max_safe_integer now
    then throw unsafe_expiry
    else ok (record { retention_class = c; expires_at = some not_a_number })
expiring c _ none = throw unsafe_expiry
expiring c now (some none) = ok (record { retention_class = c; expires_at = none })
expiring c (integer now) (some (some l)) =
    if ltb (max_safe_integer - l) now
    then throw unsafe_expiry
    else ok (record { retention_class = c; expires_at = some (at (now + l)) })
expiring c _ (some (some l)) = throw unsafe_expiry

unfoldable pub explicit_expiry : SelectedClass → Given → Result RetentionError Retention
explicit_expiry c (integer n) =
    if ltb max_safe_integer n
    then throw invalid_expiry
    else ok (record { retention_class = c; expires_at = some (at n) })
explicit_expiry c _ = throw invalid_expiry

abbrev pub retain :
    Policy → Request → SelectedClass → Option Given → Result RetentionError Retention
retain p r c (some e) = explicit_expiry c e
retain p r c none = expiring c r.now (lifetime_for p r.kind c)

unfoldable pub retention_for_admission : Policy → Request → Result RetentionError Retention
retention_for_admission p r =
    select_class p r.kind r.retention_class >>= λ c. retain p r c r.expires_at

-- `retentionPolicyFromDays`
unfoldable pub as_duration : Given → Result RetentionError Given
as_duration (integer days) =
    if ltb (max_safe_integer / day_ms) days
    then throw invalid_duration
    else if days == 0
    then ok null
    else ok (integer (days * day_ms))
as_duration _ = throw invalid_duration

unfoldable pub retention_policy_from_days :
    Given → Given → Given → Result RetentionError RequestedPolicy
retention_policy_from_days ephemeral conversation derived = as_duration ephemeral >>= λ e.
    (as_duration conversation >>= λ c.
    (as_duration derived >>= λ d. ok (record {
      class_by_kind = [];
      lifetime_ms_by_class =
          (ephemeral_payload, e) ∷ (conversation_source, c) ∷ (derived_evidence, d) ∷ [];
      lifetime_ms_by_kind = [];
    })))
