-- ===== src/Rocksdb/Outbox/Metrics.antt =====
-- `outboxMetrics` of src/rocksdb/outbox.js, and what is processed in an ordered outbox.
use pi_sliding_context_windo.Common.{
  ℕ, ◌+◌, ◌-◌, min, ◌≤◌, ◌<◌, ◌≡◌, refl, ◌↔◌, inl, inr, false, ◌==◌, Text, Option, none, some,
  if◌then◌else◌, ltb, lt→ltb, ltb→lt, ==_iff, Bool-cases, arith,
}
use pi_sliding_context_windo.Common.Results.{Result, ok, throw, ◌>>=◌}
use pi_sliding_context_windo.Rocksdb.Outbox.{
  Fault, integrity, Payload, Status, State, Published, Preparation, Store,
}
use pi_sliding_context_windo.Rocksdb.Outbox.Claims.{
  cursor_sequence, normalize_state, read_outbox_entry, status_eq, is_outbox_sequence_processed,
}
use pi_sliding_context_windo.Rocksdb.Outbox.Claiming.{head_state, head_state_known}
use pi_sliding_context_windo.Rocksdb.Outbox.Order.{next_sequence, IsOrdered, cursor_sequence-next}

pub record Metrics : Type 0 where
  pub depth : ℕ
  pub pending : ℕ
  pub processing : ℕ
  pub processed : ℕ
  pub scanned : ℕ
  pub next_sequence : ℕ
  pub oldest_pending_at : Option ℕ
  pub oldest_pending_age_ms : Option ℕ
  pub published_generation : ℕ
  pub published_outbox_sequence : ℕ
  pub skipped_documents : ℕ
  pub skipped_handlers : ℕ
  pub last_skipped_document_id : Option Text
  pub last_skipped_generation : Option ℕ

abbrev outbox_timestamp : Payload → State → Option ℕ
outbox_timestamp entry st = elim entry.admitted_at [ some t ↦ some t | none ↦ st.first_claimed_at ]

-- The entry at the cursor, where one is left: whether it is claimed, and since when it waits.
abbrev oldest_entry : Store → ℕ → Result Fault (ℕ × Option ℕ)
unfolding read_outbox_entry normalize_state
oldest_entry s sequence = read_outbox_entry s.entries sequence >>= λ found. elim found [
  | none ↦ throw integrity
  | some entry ↦ normalize_state (s.states sequence) sequence >>= λ st.
      ok (if status_eq st.status Status.processing then 1 else 0, outbox_timestamp entry st)
]

abbrev published_pair : Option Published → ℕ × ℕ
published_pair none = (0, 0)
published_pair (some p) = (p.generation, p.outbox_sequence)

abbrev preparation_or_none : Option Preparation → Preparation
preparation_or_none (some p) = p
preparation_or_none none = record {
  skipped_documents = 0;
  skipped_handlers = 0;
  last_skipped_document_id = none;
  last_skipped_generation = none;
}

-- The figure `truncated`, which is always false, is left out.
abbrev metrics_of : ℕ → Store → ℕ → ℕ × Option ℕ → Metrics
metrics_of now s next (claimed, oldest) =
    let maximum = s.outbox_counter in
    record {
      depth = maximum + 1 - next;
      pending = maximum + 1 - next - claimed;
      processing = claimed;
      processed = min maximum (next - 1);
      scanned = if ltb 0 (maximum + 1 - next) then 1 else 0;
      next_sequence = next;
      oldest_pending_at = oldest;
      oldest_pending_age_ms = elim oldest [ none ↦ none | some t ↦ some (now - t) ];
      published_generation = (published_pair s.published).0;
      published_outbox_sequence = (published_pair s.published).1;
      skipped_documents = (preparation_or_none s.preparation).skipped_documents;
      skipped_handlers = (preparation_or_none s.preparation).skipped_handlers;
      last_skipped_document_id = (preparation_or_none s.preparation).last_skipped_document_id;
      last_skipped_generation = (preparation_or_none s.preparation).last_skipped_generation;
    }

-- `Math.max(0, maximumSequence - nextSequence + 1)` is `maximum + 1 - next` on the natural numbers.
unfoldable pub outbox_metrics : ℕ → Store → Result Fault Metrics
unfolding cursor_sequence read_outbox_entry normalize_state
outbox_metrics now s = cursor_sequence s.cursor >>= λ next.
    (if ltb 0 (s.outbox_counter + 1 - next) then oldest_entry s next else ok (0, none))
    >>= λ oldest. ok (metrics_of now s next oldest)

module _ (s : Store) (i : IsOrdered s) where
  processed_state :
      (q : ℕ) (o : Option State)
      → (q == 0) ≡ false
      → s.states q ≡ o
      → is_outbox_sequence_processed s q ≡ ok (ltb q (next_sequence s))
  unfolding is_outbox_sequence_processed normalize_state
  processed_state q none z e = rw (z, e, normalize_state) (rw (cursor_sequence-next s i) refl)
  processed_state q (some st) z e =
      let (a, b) = i.state_at q st e in
      elim b [
        | inl (d, l) ↦
            rw (z, e, normalize_state)
              (rw ((==_iff st.sequence q).1 a) (rw (d, lt→ltb q (next_sequence s) l) refl))
        | inr (d, l, n) ↦
            rw (z, e, normalize_state)
              (rw ((==_iff st.sequence q).1 a) (rw d (rw (cursor_sequence-next s i) refl)))
      ]

  -- In an ordered outbox a positive sequence counts as processed exactly when the cursor is behind it,
  -- also where its state has been pruned.
  pub is_outbox_sequence_processed_iff :
      (q : ℕ) → 0 < q → is_outbox_sequence_processed s q ≡ ok (ltb q (next_sequence s))
  is_outbox_sequence_processed_iff q p = processed_state q (s.states q) (ground (arith, p)) refl

  entry_read :
      (p : Payload)
      → s.entries (next_sequence s) ≡ some p
      → p.sequence ≡ next_sequence s
      → (x : ℕ × Option ℕ) × (oldest_entry s (next_sequence s) ≡ ok x) × (x.0 ≤ 1)
  unfolding read_outbox_entry oldest_entry
  entry_read p e k =
      let head = (head_state_known s i (s.states (next_sequence s)) refl).0 in
      (
        (
          if status_eq (head_state s).status Status.processing then 1 else 0,
          outbox_timestamp p (head_state s),
        ),
        rw (e, read_outbox_entry) (rw ((==_iff p.sequence (next_sequence s)).1 k) (rw head refl)),
        ground arith,
      )

  -- In an ordered outbox the metrics are read without a fault: the backlog and what is processed make up
  -- all entries that were ever added, the backlog is what is pending and what is processed now, which
  -- is one entry at most, and something is scanned exactly where there is a backlog.
  pub outbox_metrics-counts :
      (now : ℕ)
      → (m : Metrics) × (outbox_metrics now s ≡ ok m)
        × (m.depth + m.processed ≡ s.outbox_counter)
        × (m.pending + m.processing ≡ m.depth)
        × (m.processing ≤ 1)
        × ((m.scanned ≡ 1) ↔ (0 < m.depth))
  unfolding outbox_metrics
  outbox_metrics-counts now = elim (Bool-cases (ltb 0 (s.outbox_counter + 1 - next_sequence s))) [
    | inr b ↦ (
      metrics_of now s (next_sequence s) (0, none),
      rw (cursor_sequence-next s i, b) refl,
      ground (arith, i.within, i.positive, b),
      ground arith,
      omega arith,
      (λ e. ground (arith, b, e), λ e. ground (arith, b, e)),
    )
    | inl b ↦
        let l = ltb→lt 0 (s.outbox_counter + 1 - next_sequence s) b in
        let (p, found, same) = i.entry_at (next_sequence s) (omega arith) (omega (arith, l)) in
        let (x, read, few) = entry_read p found same in
        (
          metrics_of now s (next_sequence s) x,
          rw (cursor_sequence-next s i, b) (rw read refl),
          ground (arith, i.within, i.positive, l),
          ground (arith, l, few),
          few,
          (λ e. l, λ e. ground (arith, b)),
        )
  ]
