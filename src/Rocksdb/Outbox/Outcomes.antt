-- ===== src/Rocksdb/Outbox/Outcomes.antt =====
-- Every call of `claimNextOutbox` of src/rocksdb/outbox.js in an ordered outbox returns.
use pi_sliding_context_windo.Common.{
  ℕ, ◌≤◌, ◌<◌, ◌≡◌, refl, ◌∙◌, ◌⊎◌, inl, inr, Bool, true, false, ◌&&◌, some, [], Text, text_eq,
  units, leb, ◌==◌, Bool-cases, arith,
}
use pi_sliding_context_windo.Common.Results.{Result, ok}
use pi_sliding_context_windo.Rocksdb.Outbox.{
  Fault, processing, State, Store, Claim, update, max_safe_integer,
}
use pi_sliding_context_windo.Rocksdb.Outbox.Claims.{
  status_eq, later, or_else, claimed_state, Outcome, idle, busy, claimed, take_claim, claim_entry,
  claim_next_outbox, assert_claim_owner,
}
use pi_sliding_context_windo.Rocksdb.Outbox.Order.{next_sequence, IsOrdered, update_self}
use pi_sliding_context_windo.Rocksdb.Outbox.Claiming.{
  head_state, head_state-newest, claim_head-idle, claim_head-entry,
}
use pi_sliding_context_windo.Rocksdb.Outbox.Rounds.{assert-claimed, claim_generation_known}

-- The entry at the cursor is claimed, and its lease runs.
abbrev pub is_held : Store → ℕ → Bool
is_held s now = status_eq (head_state s).status processing && later (head_state s).claimed_until now

-- The three ways in which a call returns.
abbrev pub IsAnswered : Store → Text → ℕ → Result Fault (Store × Outcome) → Type 0
IsAnswered s token now call =
    ((s.outbox_counter < next_sequence s) × (call ≡ ok (s, idle (next_sequence s))))
    ⊎ ((next_sequence s ≤ s.outbox_counter)
        × (((is_held s now ≡ true)
              × (call
                  ≡ ok (
                    s,
                    busy (next_sequence s) (head_state s).worker_id (head_state s).claimed_until,
                  )))
            ⊎ ((is_held s now ≡ false)
                × ((t : Store) × (c : Claim) × (st : State) × (call ≡ ok (t, claimed c st))
                    × (c.sequence ≡ next_sequence s)
                    × (c.claim_token ≡ token)
                    × (assert_claim_owner (t.states c.sequence) c ≡ ok st)))))

module _ (s : Store) (i : IsOrdered s) (token worker_id : Text) (now lease_ms : ℕ)
    (named : text_eq worker_id [] ≡ false) (positive : 0 < lease_ms) where
  -- In an ordered outbox, with a name for the worker, a lease of some length and room in the counter of
  -- generations, a claim never throws: it is idle when the cursor is behind the last entry; otherwise it
  -- is busy while the lease of the entry at the cursor runs, and leaves the store as it was; and
  -- otherwise it claims that entry, under the token that it was given, and the new store has the caller
  -- as its owner.
  pub claim_next_outbox-returns :
      s.generation_counter < max_safe_integer
      → IsAnswered s token now (claim_next_outbox token worker_id now lease_ms s)
  unfolding claim_next_outbox claim_entry take_claim
  claim_next_outbox-returns room =
      let z : (lease_ms == 0) ≡ false = ground (arith, positive) in
      elim (Bool-cases (leb (next_sequence s) s.outbox_counter)) [
        | inr b ↦
            let l : s.outbox_counter < next_sequence s = ground (arith, b) in
            inl (l, rw (named, z) (claim_head-idle s i token worker_id now lease_ms l))
        | inl b ↦
            let l : next_sequence s ≤ s.outbox_counter = ground (arith, b) in
            let (entry, found, same) = i.entry_at (next_sequence s) (omega arith) l in
            let head = claim_head-entry s i token worker_id now lease_ms entry found same in
            let unprocessed = (head_state-newest s i).0 in
            inr (
              l,
              elim (Bool-cases (is_held s now)) [
                | inl held ↦ inl (held, rw (named, z) (head ∙ rw (unprocessed, held) refl))
                | inr free ↦
                    let (g, after, generated, fewer) =
                      claim_generation_known (head_state s).generation s.generation_counter room in
                    let claim : Claim = record {
                      sequence = next_sequence s;
                      generation = g;
                      operation = or_else entry.operation (units "index");
                      claim_token = token;
                      worker_id = worker_id;
                      entry = entry;
                    } in
                    let state =
                      claimed_state token worker_id now lease_ms (next_sequence s) g entry
                        (head_state s) in
                    inr (
                      free,
                      (
                        record s {
                          states = update s.states (next_sequence s) (some state);
                          generation_counter = after;
                        },
                        claim,
                        state,
                        rw (named, z) (head ∙ rw (unprocessed, free, generated) refl),
                        refl,
                        refl,
                        rw (update_self s.states (next_sequence s) (some state)) (
                            assert-claimed token worker_id now lease_ms entry (head_state s) claim
                              refl),
                      ),
                    )
              ],
            )
      ]
