-- ===== src/Rocksdb/Outbox/Staging.antt =====
-- The transactions of src/rocksdb/outbox.js on staged plans and tablets leave the queue alone.
use pi_sliding_context_windo.Common.{
  ℕ, ◌≡◌, sym, ap, inl, inr, not, Option, Text, keep_if, Option-cases,
}
use pi_sliding_context_windo.Common.Results.{Result, ok, ok_chain, throw_if_chain, ok_eq}
use pi_sliding_context_windo.Rocksdb.Outbox.{
  Fault, cleanup, prepare, Tablet, Tablets, Plan, Applied, Ready, Store, Claim, State,
}
use pi_sliding_context_windo.Rocksdb.Outbox.Claims.{assert_claim_owner}
use pi_sliding_context_windo.Rocksdb.Outbox.Stages.{
  Host, in_phase, put_immutable, apply_mutations, stage_tablet, stage_header,
  clear_orphan_stage_records,
}
use pi_sliding_context_windo.Rocksdb.Outbox.Apply.{
  AppliedOutcome, applied_marker, apply_unmarked, apply_tablet, mark_ready,
}
use pi_sliding_context_windo.Rocksdb.Outbox.Cleanup.{at_ordinal, cleanup_tablet}
use pi_sliding_context_windo.Rocksdb.Outbox.Changes.{Aside}

-- A store of which only the staging is other.
pub aside :
    (s : Store) (stages : ℕ → Option Plan) (stage_tablets : ℕ → ℕ → Option Tablet)
    (applied : ℕ → ℕ → Option Applied) (ready : ℕ → Option Ready) (derived : Text → Option Text)
    (t : Store)
    → t ≡ record s {
      stages = stages;
      stage_tablets = stage_tablets;
      applied = applied;
      ready = ready;
      derived = derived;
    }
    → Aside s t
aside s stages stage_tablets applied ready derived t e = record {
  stages = stages;
  stage_tablets = stage_tablets;
  applied = applied;
  ready = ready;
  derived = derived;
  result = e;
}

pub same-Aside : (s t : Store) → t ≡ s → Aside s t
same-Aside s t e = aside s s.stages s.stage_tablets s.applied s.ready s.derived t e

module _ (h : Host) (claim : Claim) (s t : Store) where
  abbrev owner : Result Fault State
  owner = assert_claim_owner (s.states claim.sequence) claim

  pub stage_tablet-Aside :
      (ordinal : ℕ) (tablet : Tablet) → stage_tablet h claim ordinal tablet s ≡ ok t → Aside s t
  unfolding stage_tablet
  stage_tablet-Aside ordinal tablet e =
      let (st, a, b) = ok_chain owner _ _ e in
      let (row, c, d) =
        ok_chain (put_immutable h.encode_tablet (s.stage_tablets claim.generation) ordinal tablet) _
          _ b in
      aside s s.stages _ s.applied s.ready s.derived t (sym (ok_eq {E = Fault} _ t d))

  pub stage_header-Aside : (plan : Plan) → stage_header h claim plan s ≡ ok t → Aside s t
  unfolding stage_header
  stage_header-Aside plan e =
      let (st, a, b) = ok_chain owner _ _ e in
      let (stages, c, d) =
        ok_chain (put_immutable h.encode_plan s.stages claim.generation plan) _ _ b in
      aside s stages s.stage_tablets s.applied s.ready s.derived t (sym (ok_eq {E = Fault} _ t d))

  pub clear-Aside : clear_orphan_stage_records h claim s ≡ ok t → Aside s t
  unfolding clear_orphan_stage_records
  clear-Aside e =
      let (st, a, b) = ok_chain owner _ _ e in
      aside s s.stages _ _ _ s.derived t (sym (ok_eq {E = Fault} _ t b))

  pub mark_ready-Aside :
      (plan : Plan) (ts : Tablets) → mark_ready h claim plan ts s ≡ ok t → Aside s t
  unfolding mark_ready
  mark_ready-Aside plan ts e =
      let (st, a, b) = ok_chain owner _ _ e in
      let (ready, c, d) =
        ok_chain (put_immutable h.encode_ready s.ready claim.generation _) _ _ b in
      aside s s.stages s.stage_tablets s.applied ready s.derived t (sym (ok_eq {E = Fault} _ t d))

  apply_unmarked-Aside :
      (plan : Plan) (ordinal : ℕ) (tablet : Tablet) (o : AppliedOutcome)
      → apply_unmarked h claim plan ordinal tablet s ≡ ok (t, o)
      → Aside s t
  apply_unmarked-Aside plan ordinal tablet o e =
      let (derived, a, b) =
        ok_chain (apply_mutations h (keep_if (in_phase prepare) tablet.mutations) s.derived) _ _
          e in
      let (row, c, d) =
        ok_chain
          (put_immutable h.encode_applied (s.applied claim.generation) ordinal
            (applied_marker tablet plan))
          _ _ b in
      aside s s.stages s.stage_tablets _ s.ready derived t
        (sym (ap (λ x. x.0) (ok_eq {E = Fault} _ (t, o) d)))

  pub apply_tablet-Aside :
      (plan : Plan) (ordinal : ℕ) (tablet : Tablet) (o : AppliedOutcome)
      → apply_tablet h claim plan ordinal tablet s ≡ ok (t, o)
      → Aside s t
  unfolding apply_tablet
  apply_tablet-Aside plan ordinal tablet o e =
      let (st, a, b) = ok_chain owner _ _ e in
      elim (Option-cases (s.applied claim.generation ordinal)) [
        | inl p ↦ apply_unmarked-Aside plan ordinal tablet o (rw p at b)
        | inr (marker, p) ↦
            let (c, d) = throw_if_chain (not _) _ _ _ (rw p at b) in
            same-Aside s t (sym (ap (λ x. x.0) (ok_eq {E = Fault} (s, _) (t, o) d)))
      ]

module _ (h : Host) (s t : Store) where
  pub cleanup_tablet-Aside :
      (generation : ℕ) (plan : Plan) (ordinal : ℕ) (tablet : Tablet)
      → cleanup_tablet h generation plan ordinal tablet s ≡ ok t
      → Aside s t
  unfolding cleanup_tablet
  cleanup_tablet-Aside generation plan ordinal tablet e =
      let (current, a, b) = ok_chain (at_ordinal (s.ready generation) plan ordinal) _ _ e in
      let (derived, c, d) =
        ok_chain (apply_mutations h (keep_if (in_phase cleanup) tablet.mutations) s.derived) _ _
          b in
      aside s s.stages _ _ _ derived t (sym (ok_eq {E = Fault} _ t d))
