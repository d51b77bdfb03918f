-- ===== src/Daemon/Retention/Days.antt =====
-- The policy that src/daemon/retention-policy.js builds from day counts, once it is normalized.
use pi_sliding_context_windo.Common.{
  ℕ, ◌*◌, ◌/◌, ◌≤◌, ◌≡◌, refl, inl, inr, false, none, some, [], ◌∷◌, arith, if◌then◌else◌, ltb,
  ◌==◌, Bool-cases,
}
use pi_sliding_context_windo.Common.Results.{ok, ◌>>=◌}
use pi_sliding_context_windo.Daemon.Retention.{
  max_safe_integer, day_ms, Lifetime, default_retention_class_by_kind,
  default_retention_lifetimes_ms, ephemeral_payload, conversation_source, derived_evidence,
  durable_evidence, active_evidence, Given, null, integer, duration, class_name, merge_classes,
  merge_class_lifetimes, merge_kind_lifetimes, normalize_archive_retention_policy, as_duration,
  retention_policy_from_days,
}

-- Zero days are a lifetime without an end.
abbrev pub lifetime_of_days : ℕ → Lifetime
lifetime_of_days days = if days == 0 then none else some (days * day_ms)

as_duration-duration :
    (days : ℕ)
    → days ≤ 104249991
    → (g : Given) × (as_duration (integer days) ≡ ok g) × (duration g ≡ ok (lifetime_of_days days))
unfolding as_duration duration
as_duration-duration days h =
    let n : ltb (max_safe_integer / day_ms) days ≡ false = ground (arith, h) in
    elim (Bool-cases (days == 0)) [
      | inl z ↦ (null, rw (n, z) refl, rw z refl)
      | inr p ↦
          let d : (days * day_ms == 0) ≡ false = ground (arith, p) in
          let b : ltb max_safe_integer (days * day_ms) ≡ false = ground (arith, h) in
          (integer (days * day_ms), rw (n, p) refl, rw (p, d, b) refl)
    ]

-- Day counts of up to 104,249,991, the largest whose milliseconds are a safe integer, give a policy
-- that is normalized without an error: the three classes live for their days, or without an end for
-- zero days, and the routing of kinds and the lifetimes of the other classes are the defaults.
pub retention_policy_from_days-normalize :
    (ephemeral conversation derived : ℕ)
    → ephemeral ≤ 104249991
    → conversation ≤ 104249991
    → derived ≤ 104249991
    → (retention_policy_from_days (integer ephemeral) (integer conversation) (integer derived)
        >>= normalize_archive_retention_policy)
      ≡ ok (record {
        class_by_kind = default_retention_class_by_kind;
        lifetime_ms_by_class =
            (ephemeral_payload, lifetime_of_days ephemeral)
            ∷ (conversation_source, lifetime_of_days conversation)
            ∷ (derived_evidence, lifetime_of_days derived)
            ∷ (durable_evidence, none)
            ∷ (active_evidence, none)
            ∷ [];
        lifetime_ms_by_kind = [];
      })
unfolding retention_policy_from_days normalize_archive_retention_policy merge_classes
    merge_class_lifetimes merge_kind_lifetimes class_name default_retention_lifetimes_ms
    default_retention_class_by_kind
retention_policy_from_days-normalize ephemeral conversation derived a b c =
    let (e, e1, e2) = as_duration-duration ephemeral a in
    let (f, f1, f2) = as_duration-duration conversation b in
    let (g, g1, g2) = as_duration-duration derived c in rw (e1, f1, g1, e2, f2, g2) refl
