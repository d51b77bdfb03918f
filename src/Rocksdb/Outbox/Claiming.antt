-- ===== src/Rocksdb/Outbox/Claiming.antt =====
-- What `claimNextOutbox` does in an ordered outbox, on every branch.
use pi_sliding_context_windo.Common.{
  ℕ, ◌+◌, ◌≤◌, ◌<◌, ◌≡◌, refl, sym, ap, ◌∙◌, ◌⊎◌, inl, inr, false, ◌&&◌, Option, none, some, [],
  Text, text_eq, ltb, leb, ◌==◌, ==_iff, Bool-cases, arith,
}
use pi_sliding_context_windo.Common.Results.{ok, ok_chain, throw_if_chain, ok_eq}
use pi_sliding_context_windo.Rocksdb.Outbox.{
  Fault, Payload, processing, State, Store, max_safe_integer,
}
use pi_sliding_context_windo.Rocksdb.Outbox.Claims.{
  initial_state, normalize_state, read_outbox_entry, status_eq, later, or_else, claim_generation,
  claimed_state, Outcome, idle, take_claim, claim_entry, claim_head, claim_next_outbox,
}
use pi_sliding_context_windo.Rocksdb.Outbox.Order.{
  next_sequence, is_processed, IsNewest, IsOrdered, some_eq, Touch, cursor_sequence-next,
}

-- The state that the transaction works on.
abbrev pub head_state : Store → State
head_state s = or_else (s.states (next_sequence s)) (initial_state (next_sequence s))

take_claim_generation :
    (o : Option ℕ) (counter g after : ℕ)
    → claim_generation o counter ≡ ok (g, after)
    → ((o ≡ some g) × (after ≡ counter)) ⊎ ((o ≡ none) × (g ≡ counter + 1) × (after ≡ counter + 1))
take_claim_generation (some k) counter g after e = inl (ground arith, ground arith)
take_claim_generation none counter g after e =
    elim (Bool-cases (ltb max_safe_integer (counter + 1))) [
      | inl p ↦ absurd (cc (rw p at e))
      | inr p ↦
          let r = ok_eq {E = Fault} (counter + 1, counter + 1) (g, after) (rw p at e) in
          inr (refl, sym (ap (λ x. x.0) r), sym (ap (λ x. x.1) r))
    ]

module _ (s : Store) (h : IsOrdered s) where
  abbrev next : ℕ
  next = next_sequence s

  pub head_state_known :
      (o : Option State)
      → s.states next ≡ o
      → (normalize_state o next ≡ ok (or_else o (initial_state next)))
        × ((is_processed (or_else o (initial_state next)) ≡ false)
            × IsNewest s.generation_counter s.generations (or_else o (initial_state next)))
  unfolding normalize_state
  head_state_known none e = (refl, (refl, λ g k. absurd (cc)))
  head_state_known (some st) e =
      let (a, b) = h.state_at next st e in
      (
        rw ((==_iff st.sequence next).1 a) refl,
        elim b [ inl (p, l) ↦ absurd (omega arith) | inr (p, l, n) ↦ (p, n) ],
      )

  pub head_state-newest :
      (is_processed (head_state s) ≡ false)
      × IsNewest s.generation_counter s.generations (head_state s)
  head_state-newest = (head_state_known (s.states next) refl).1

  module _ (token worker_id : Text) (now lease_ms : ℕ) where
    pub claim_head-idle :
        s.outbox_counter < next → claim_head token worker_id now lease_ms s ≡ ok (s, idle next)
    unfolding claim_head
    claim_head-idle l =
        rw (cursor_sequence-next s h)
          (rw (h.no_entry next l, read_outbox_entry) (ground (arith, l)))

    pub claim_head-entry :
        (p : Payload)
        → s.entries next ≡ some p
        → p.sequence ≡ next
        → claim_head token worker_id now lease_ms s
          ≡ claim_entry token worker_id now lease_ms next p (head_state s) s
    unfolding claim_head
    claim_head-entry p e k = rw (cursor_sequence-next s h) (
        rw (e, read_outbox_entry)
          (rw ((==_iff p.sequence next).1 k) (rw ((head_state_known (s.states next) refl).0) refl)))

    take_claim-Touch :
        (entry : Payload) (st : State) (t : Store) (o : Outcome)
        → next ≤ s.outbox_counter
        → IsNewest s.generation_counter s.generations st
        → take_claim token worker_id now lease_ms next entry st s ≡ ok (t, o)
        → Touch (some token) s t
    unfolding take_claim
    take_claim-Touch entry st t o r n e =
        let (x, a, b) = ok_chain (claim_generation st.generation s.generation_counter) _ _ e in
        let state : State = claimed_state token worker_id now lease_ms next x.0 entry st in
        let newest : IsNewest x.1 s.generations state =
          elim (take_claim_generation st.generation s.generation_counter x.0 x.1 a) [
            | inl (c, d) ↦ λ g k. let (u, v) = n g (c ∙ k) in (omega (arith, u, d), v)
            | inr (c, d, f) ↦ λ g k.
                let same : x.0 ≡ g = some_eq k in
                (
                  omega (arith, same, d, f),
                  λ j p q. omega (arith, (h.published_below j p q).1, same, d),
                )
          ] in
        record {
          state = state;
          counter = x.1;
          result = sym (ap (λ z. z.0) (ok_eq {E = Fault} _ _ b));
          present = r;
          grows = elim (take_claim_generation st.generation s.generation_counter x.0 x.1 a) [
            | inl (c, d) ↦ omega (arith, d)
            | inr (c, d, f) ↦ omega (arith, f)
          ];
          sequence = refl;
          unprocessed = refl;
          token = λ x k. inl k;
          newest = newest;
        }

    claim_entry-Touch :
        (entry : Payload) (st : State) (t : Store) (o : Outcome)
        → next ≤ s.outbox_counter
        → is_processed st ≡ false
        → IsNewest s.generation_counter s.generations st
        → claim_entry token worker_id now lease_ms next entry st s ≡ ok (t, o)
        → (t ≡ s) ⊎ Touch (some token) s t
    unfolding claim_entry
    claim_entry-Touch entry st t o r u n e =
        elim (Bool-cases (status_eq st.status processing && later st.claimed_until now)) [
          | inl b ↦ inl (sym (ap (λ x. x.0) (ok_eq {E = Fault} _ _ (rw (u, b) at e))))
          | inr b ↦ inr (take_claim-Touch entry st t o r n (rw (u, b) at e))
        ]

    claim_head-Touch :
        (t : Store) (o : Outcome)
        → claim_head token worker_id now lease_ms s ≡ ok (t, o)
        → (t ≡ s) ⊎ Touch (some token) s t
    claim_head-Touch t o e = elim (Bool-cases (leb next s.outbox_counter)) [
      | inl b ↦
          let (p, found, same) = h.entry_at next (omega arith) (ground (arith, b)) in
          claim_entry-Touch p (head_state s) t o (ground (arith, b)) (head_state-newest).0
            (head_state-newest).1 (sym (claim_head-entry p found same) ∙ e)
      | inr b ↦ inl (
          sym
            (ap (λ x. x.0) (ok_eq {E = Fault} _ _ (sym (claim_head-idle (ground (arith, b))) ∙ e))))
    ]

    pub claim-Touch :
        (t : Store) (o : Outcome)
        → claim_next_outbox token worker_id now lease_ms s ≡ ok (t, o)
        → (t ≡ s) ⊎ Touch (some token) s t
    unfolding claim_next_outbox
    claim-Touch t o e =
        let (a, b) = throw_if_chain (text_eq worker_id []) _ _ _ e in
        let (c, d) = throw_if_chain (lease_ms == 0) _ _ _ b in claim_head-Touch t o d
