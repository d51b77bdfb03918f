-- ===== src/Tests/RetentionRuns.antt =====
-- Runs of src/daemon/retention-policy.js.
use pi_sliding_context_windo.Common.{◌≡◌, refl, none, some, [], ◌∷◌, units, ◌*◌}
use pi_sliding_context_windo.Common.Results.{ok}
use pi_sliding_context_windo.Daemon.Retention.{
  day_ms, default_retention_lifetimes_ms, default_retention_class_by_kind, ephemeral_payload,
  conversation_source, derived_evidence, durable_evidence, active_evidence, integer, duration,
  class_name, RequestedPolicy, Policy, merge_classes, merge_class_lifetimes, merge_kind_lifetimes,
  normalize_archive_retention_policy, Request, retention_for_admission, assign, is_inherited,
  select_class, class_of_kind, lifetime_for, expiring, inherited, not_a_number,
}
use pi_sliding_context_windo.Daemon.Retention.Admission.{IsAnswer, retention_for_admission-IsAnswer}

-- Notes are kept for a minute.
abbrev requested : RequestedPolicy
requested = record {
  class_by_kind = (units "note", derived_evidence) ∷ [];
  lifetime_ms_by_class = [];
  lifetime_ms_by_kind = (units "note", integer 60000) ∷ [];
}

abbrev normalized : Policy
normalized = record {
  class_by_kind =
      (units "tool-result", ephemeral_payload)
      ∷ (units "tool-argument", ephemeral_payload)
      ∷ (units "decision-candidate", derived_evidence)
      ∷ (units "fact-candidate", derived_evidence)
      ∷ (units "manual", durable_evidence)
      ∷ (units "note", derived_evidence)
      ∷ [];
  lifetime_ms_by_class =
      (ephemeral_payload, some (14 * day_ms))
      ∷ (conversation_source, some (90 * day_ms))
      ∷ (derived_evidence, some (30 * day_ms))
      ∷ (durable_evidence, none)
      ∷ (active_evidence, none)
      ∷ [];
  lifetime_ms_by_kind = (units "note", some 60000) ∷ [];
}

requested-normalized : normalize_archive_retention_policy requested ≡ ok normalized
unfolding normalize_archive_retention_policy assign merge_classes merge_class_lifetimes
    merge_kind_lifetimes duration class_name default_retention_lifetimes_ms
    default_retention_class_by_kind
requested-normalized = refl

abbrev note : Request
note = record { kind = units "note"; retention_class = none; expires_at = none; now = integer 1000 }

retention_for_admission-IsAnswer_example :
    IsAnswer normalized note (retention_for_admission normalized note)
retention_for_admission-IsAnswer_example =
    retention_for_admission-IsAnswer requested normalized note requested-normalized

-- A kind that names a member of Object.prototype is given this member as its class, and NaN as expiry.
constructor_kind :
    retention_for_admission normalized (record note { kind = units "constructor" })
    ≡ ok (record {
      retention_class = inherited (units "constructor");
      expires_at = some not_a_number;
    })
unfolding retention_for_admission select_class class_of_kind is_inherited lifetime_for expiring
constructor_kind = refl
