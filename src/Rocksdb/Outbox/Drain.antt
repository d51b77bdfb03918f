-- ===== src/Rocksdb/Outbox/Drain.antt =====
-- `drain` of src/rocksdb/indexer.js: a worker that runs alone empties the outbox.
use pi_sliding_context_windo.Common.{
  ℕ, zero, suc, ◌+◌, ◌-◌, ◌≤◌, ◌<◌, ◌≡◌, refl, sym, ap, ◌∙◌, false, Option, some, List, [], ◌∷◌,
  ◌++◌, append-nil, append_assoc, map, length, All, Text, text_eq, leb, ◌==◌, arith,
}
use pi_sliding_context_windo.Common.Results.{Result, ok}
use pi_sliding_context_windo.Rocksdb.Outbox.{
  Fault, Payload, ErrorDetails, Tablet, Plan, Publication, Store, Claim, max_safe_integer,
}
use pi_sliding_context_windo.Rocksdb.Outbox.Claims.{Outcome, idle, claim_next_outbox}
use pi_sliding_context_windo.Rocksdb.Outbox.Stages.{Host}
use pi_sliding_context_windo.Rocksdb.Outbox.Worker.{
  Round, waiting, process_next, stopped, Drained, next_round, drain_rounds,
}
use pi_sliding_context_windo.Rocksdb.Outbox.Order.{next_sequence, IsOrdered}
use pi_sliding_context_windo.Rocksdb.Outbox.Claiming.{claim_head-idle}
use pi_sliding_context_windo.Rocksdb.Outbox.Steps.{consecutive}
use pi_sliding_context_windo.Rocksdb.Outbox.Progress.{IsRested}
use pi_sliding_context_windo.Rocksdb.Outbox.Prepared.{IsPrepared, AllHold, process_next-Rounded}

abbrev pub sequences_of : List Publication → List ℕ
sequences_of = map (λ p. p.outbox_sequence)

-- The loop finds its deadline ahead at the head of each round.
abbrev pub InTime : ℕ → ℕ → List (ℕ × Round) → Type 0
InTime started_at max_duration_ms =
    All (λ (r : ℕ × Round). leb max_duration_ms (r.0 - started_at) ≡ false)

abbrev pub ended : Store → Outcome → List Publication → Store × Drained
ended s outcome publications =
    (s, record { terminal = stopped outcome; publications = publications })

module _ (h : Host) (worker_id : Text) (lease_ms : ℕ)
    (prepare : Store → Claim → Result Fault (Plan × List Tablet))
    (error_details : Fault → Option ErrorDetails) (Holds : Payload → (Text → Option Text) → Type 0)
    (prepared : (s : Store) (c : Claim)
      → s.entries c.sequence ≡ some c.entry
      → Holds c.entry s.derived
      → IsPrepared h Holds prepare s c)
    (named : text_eq worker_id [] ≡ false) (positive : 0 < lease_ms) where
  abbrev continue :
      ℕ → ℕ → List (ℕ × Round) → List Publication → Publication → Store → Store × Drained
  continue started_at max_duration_ms rounds before p =
      drain_rounds h worker_id lease_ms prepare error_details started_at max_duration_ms rounds
        (before ++ p ∷ [])

  process_next-idle :
      (round : Round) (s : Store)
      → IsOrdered s
      → s.outbox_counter < next_sequence s
      → process_next h worker_id lease_ms prepare error_details round s
        ≡ (s, ok (waiting (idle (next_sequence s))))
  unfolding process_next claim_next_outbox
  process_next-idle round s i l =
      let z : (lease_ms == 0) ≡ false = ground (arith, positive) in
      rw (named, z) (rw (claim_head-idle s i round.token worker_id round.claim_at lease_ms l) refl)

  -- A worker that runs alone on an outbox that no worker holds and in which nothing is staged empties the
  -- outbox: given more rounds than there are entries left, all before its deadline, and room in the
  -- counter of generations, its drain ends idle behind the last entry, and has published each entry that
  -- was left once, in order. The condition on the handlers is that of each entry that is left something
  -- holds (such as that its document is stored), under which they prepare for a claim of the entry one
  -- atomic plan that applies to the records there are, and which each such plan keeps for all entries.
  pub drain_rounds_complete :
      (started_at max_duration_ms : ℕ) (rounds : List (ℕ × Round)) (n : ℕ) (s : Store)
      (before : List Publication)
      → n < length rounds
      → InTime started_at max_duration_ms rounds
      → IsRested s
      → next_sequence s + n ≡ s.outbox_counter + 1
      → s.generation_counter + n ≤ max_safe_integer
      → AllHold Holds s
      → (t : Store) × (new : List Publication) × (drain_rounds h worker_id lease_ms prepare
            error_details started_at max_duration_ms rounds before s
          ≡ (
            t,
            record {
              terminal = stopped (idle (s.outbox_counter + 1));
              publications = before ++ new;
            },
          ))
        × (sequences_of new ≡ consecutive (next_sequence s) n)
        × (next_sequence t ≡ s.outbox_counter + 1)
        × IsRested t
  unfolding drain_rounds
  drain_rounds_complete started_at max_duration_ms [] n s before l b r e room holds =
      absurd (omega arith)
  drain_rounds_complete started_at max_duration_ms ((now, round) ∷ rounds) zero s before l b r e
        room holds =
      let at_end : next_sequence s ≡ s.outbox_counter + 1 = omega (arith, e) in
      (
        s,
        [],
        rw (b.0, drain_rounds)
            (ap (next_round before (continue started_at max_duration_ms rounds before))
                (process_next-idle round s r.ordered (omega (arith, at_end)))
              ∙ ap (λ q. ended s (idle q) before) at_end
              ∙ ap (ended s (idle (s.outbox_counter + 1))) (sym (append-nil before))),
        refl,
        at_end,
        r,
      )
  drain_rounds_complete started_at max_duration_ms ((now, round) ∷ rounds) (suc n) s before l b r e
        room holds =
      let (t, c, p, processed, k, holds_then) =
        process_next-Rounded h worker_id lease_ms prepare error_details Holds prepared named
          positive round s r (omega (arith, e)) (omega (arith, room)) holds in
      let (u, new, drained, published, at, rested) =
        drain_rounds_complete started_at max_duration_ms rounds n t (before ++ p ∷ [])
          (omega (arith, l)) b.1 k.rested (omega (arith, e, k.advanced, k.same_entries))
          (omega (arith, room, k.generations)) holds_then in
      let advanced : next_sequence t ≡ suc (next_sequence s) = omega (arith, k.advanced) in
      (
        u,
        p ∷ new,
        rw (b.0, drain_rounds)
            (ap (next_round before (continue started_at max_duration_ms rounds before)) processed
              ∙ drained
              ∙ ap (λ q. ended u (idle (q + 1)) ((before ++ p ∷ []) ++ new)) k.same_entries
              ∙ ap (ended u (idle (s.outbox_counter + 1))) (append_assoc before (p ∷ []) new)),
        ap (λ q. q ∷ sequences_of new) k.publishes
            ∙ ap (λ q. next_sequence s ∷ q) (published ∙ ap (λ q. consecutive q n) advanced),
        at ∙ ap (λ q. q + 1) k.same_entries,
        rested,
      )
