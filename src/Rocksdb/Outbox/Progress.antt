-- ===== src/Rocksdb/Outbox/Progress.antt =====
-- A worker that runs alone finishes the entry at the cursor in one round.
use pi_sliding_context_windo.Common.{
  ◌∙◌, ℕ, ◌+◌, ◌≤◌, ◌<◌, ◌≡◌, refl, sym, subst, inl, inr, false, ◌&&◌, Option, none, some, List, [],
  Text, text_eq, ◌==◌, Bool-cases, units, arith,
}
use pi_sliding_context_windo.Common.Results.{Result, ok}
use pi_sliding_context_windo.Rocksdb.Outbox.{
  Fault, ErrorDetails, Payload, processing, State, Tablet, Plan, Publication, Store, Claim, update,
  written,
}
use pi_sliding_context_windo.Rocksdb.Outbox.Claims.{
  status_eq, later, or_else, claim_generation, claimed_state, claimed, take_claim, claim_entry,
  claim_next_outbox, assert_claim_owner,
}
use pi_sliding_context_windo.Rocksdb.Outbox.Stages.{Host, apply_mutations}
use pi_sliding_context_windo.Rocksdb.Outbox.Publish.{publication_of, publish_transaction}
use pi_sliding_context_windo.Rocksdb.Outbox.Cleanup.{finish_cleanup, pruned}
use pi_sliding_context_windo.Rocksdb.Outbox.Worker.{retain_publications, Round, done, process_next}
use pi_sliding_context_windo.Rocksdb.Outbox.Order.{
  next_sequence, IsNewest, IsOrdered, update_self, update_found, cursor_sequence-next,
  Touch-IsOrdered,
}
use pi_sliding_context_windo.Rocksdb.Outbox.Effects.{unprocessed_at}
use pi_sliding_context_windo.Rocksdb.Outbox.Claiming.{
  head_state, head_state-newest, claim_head-entry, claim-Touch,
}
use pi_sliding_context_windo.Rocksdb.Outbox.Changes.{
  Aside-IsOrdered, Advance-IsOrdered, finish_cleanup-IsOrdered, remove_found,
}
use pi_sliding_context_windo.Rocksdb.Outbox.Publishing.{
  publish-Checked, write_publication-Advance, unpublished,
}
use pi_sliding_context_windo.Rocksdb.Outbox.Staging.{aside}
use pi_sliding_context_windo.Rocksdb.Outbox.Chain.{process_claim-done, process_next-done}
use pi_sliding_context_windo.Rocksdb.Outbox.Rounds.{
  IsAtomicPlan, assert-claimed, stage_generation-done, apply_generation_tablets-done,
  published_store, publish_generation-done, publish_transaction-done, cleanup_published_stage-done,
  read_staged-none,
}

-- An outbox that no worker holds and in which nothing is staged, as a recovery leaves it.
pub record IsRested (s : Store) : Type 0 where
  pub ordered : IsOrdered s
  pub unstaged : (g : ℕ) → s.stages g ≡ none
  pub unclaimed : status_eq (head_state s).status processing ≡ false

-- What a round leaves behind.
pub record Rounded (s t : Store) (p : Publication) : Type 0 where
  pub rested : IsRested t
  pub advanced : next_sequence t ≡ next_sequence s + 1
  pub same_entries : t.outbox_counter ≡ s.outbox_counter
  pub generations : t.generation_counter ≤ s.generation_counter + 1
  pub publishes : p.outbox_sequence ≡ next_sequence s

module _ (h : Host) (worker_id : Text) (lease_ms : ℕ)
    (prepare : Store → Claim → Result Fault (Plan × List Tablet))
    (error_details : Fault → Option ErrorDetails) where
  module _ (named : text_eq worker_id [] ≡ false) (positive : 0 < lease_ms) (round : Round)
      (s : Store) (i : IsOrdered s) (unstaged : (g : ℕ) → s.stages g ≡ none)
      (free : (status_eq (head_state s).status processing
          && later (head_state s).claimed_until round.claim_at)
        ≡ false)
      (entry : Payload) (found : s.entries (next_sequence s) ≡ some entry)
      (same : entry.sequence ≡ next_sequence s) (g after : ℕ)
      (generated : claim_generation (head_state s).generation s.generation_counter
        ≡ ok (g, after)) where
    abbrev pub taken_claim : Claim
    taken_claim = record {
      sequence = next_sequence s;
      generation = g;
      operation = or_else entry.operation (units "index");
      claim_token = round.token;
      worker_id = worker_id;
      entry = entry;
    }

    abbrev taken_state : State
    taken_state =
        claimed_state round.token worker_id round.claim_at lease_ms (next_sequence s) g entry
          (head_state s)

    abbrev pub taken : Store
    taken = record s {
      states = update s.states (next_sequence s) (some taken_state);
      generation_counter = after;
    }

    claim_taken :
        claim_next_outbox round.token worker_id round.claim_at lease_ms s
        ≡ ok (taken, claimed taken_claim taken_state)
    unfolding claim_next_outbox claim_entry take_claim
    claim_taken =
        let z : (lease_ms == 0) ≡ false = ground (arith, positive) in
        rw (named, z)
          (rw (claim_head-entry s i round.token worker_id round.claim_at lease_ms entry found same)
            (rw ((head_state-newest s i).0, free, generated) refl))

    taken-IsOrdered : IsOrdered taken
    taken-IsOrdered =
        elim (claim-Touch s i round.token worker_id round.claim_at lease_ms taken _ claim_taken) [
          | inl e ↦ subst IsOrdered (sym e) i
          | inr t ↦ Touch-IsOrdered s i t
        ]

    taken_owner : assert_claim_owner (taken.states (next_sequence s)) taken_claim ≡ ok taken_state
    taken_owner = rw (update_self s.states (next_sequence s) (some taken_state)) (
        assert-claimed round.token worker_id round.claim_at lease_ms entry (head_state s)
          taken_claim refl)

    taken-IsNewest : IsNewest after s.generations taken_state
    taken-IsNewest =
        (unprocessed_at taken taken-IsOrdered (next_sequence s) taken_state
          (update_self s.states (next_sequence s) (some taken_state)) refl).2

    module _ (plan : Plan) (p : IsAtomicPlan h taken_claim plan) (derived : Text → Option Text)
        (applied : apply_mutations h p.mutations s.derived ≡ ok derived) where
      abbrev staged_store : Store
      staged_store = record taken { stages = update s.stages g (some plan) }

      abbrev published : Store
      published =
          published_store h taken_claim plan p staged_store round.publish_at taken_state derived

      abbrev publication : Publication
      publication = publication_of taken_claim plan round.publish_at

      unpublished_generation : s.generations g ≡ none
      unpublished_generation =
          unpublished h taken_claim round.publish_at taken taken_state (s.generations g) refl refl
            taken-IsNewest

      published_now :
          publish_transaction h taken_claim round.publish_at staged_store
          ≡ ok (published, publication)
      published_now =
          publish_transaction-done h taken_claim plan p staged_store round.publish_at taken_state
            derived taken_owner (cursor_sequence-next s i) (update_self s.stages g (some plan))
            unpublished_generation applied

      staged-IsOrdered : IsOrdered staged_store
      staged-IsOrdered = Aside-IsOrdered taken taken-IsOrdered (
          aside taken staged_store.stages taken.stage_tablets taken.applied taken.ready
            taken.derived staged_store refl)

      published-IsOrdered : IsOrdered published
      published-IsOrdered =
          let (checked, written) =
            publish-Checked h taken_claim round.publish_at staged_store published publication
              published_now in
          Advance-IsOrdered staged_store staged-IsOrdered
            (write_publication-Advance h taken_claim round.publish_at staged_store staged-IsOrdered
              checked published publication written).0

      abbrev cleaned : Store
      cleaned = finish_cleanup g (next_sequence s) retain_publications published

      cleaned-IsOrdered : IsOrdered cleaned
      cleaned-IsOrdered =
          finish_cleanup-IsOrdered published published-IsOrdered g (next_sequence s)
            retain_publications (omega arith) (omega arith)

      cleaned_unstaged : (j : ℕ) → cleaned.stages j ≡ none
      unfolding finish_cleanup
      cleaned_unstaged j = elim (Bool-cases (g == j)) [
        | inl e ↦ rw e refl
        | inr e ↦ rw e (unstaged j)
      ]

      no_next_state : (o : Option State) → cleaned.states (next_sequence s + 1) ≡ o → o ≡ none
      unfolding finish_cleanup
      no_next_state none e = refl
      no_next_state (some st) e =
          let a =
            remove_found published.states (pruned (next_sequence s) retain_publications)
              (next_sequence s + 1) e in
          elim (update_found taken.states (next_sequence s) _ (next_sequence s + 1) a) [
            | inl (k, v) ↦ absurd (omega (arith, k))
            | inr (k, v) ↦ elim (taken-IsOrdered.state_at (next_sequence s + 1) st v).1 [
              | inl (d, l) ↦ absurd (omega (arith, l))
              | inr (d, l, n) ↦ absurd (omega (arith, l))
            ]
          ]

      processed_now :
          prepare taken taken_claim ≡ ok (plan, [])
          → process_next h worker_id lease_ms prepare error_details round s
            ≡ (cleaned, ok (done taken_claim publication))
      processed_now prepared_now =
          let positive_generation = (taken-IsNewest g refl).0.0 in
          let (c, clean) =
            cleanup_published_stage-done h taken_claim plan p published retain_publications
              publication positive_generation (omega arith)
              (update_self s.generations g (some publication))
              (update_self s.stages g (some plan)) in
          process_next-done h worker_id lease_ms prepare error_details round taken_claim taken_state
            s taken cleaned publication claim_taken
            (process_claim-done h worker_id lease_ms prepare error_details round taken_claim plan
              taken staged_store published cleaned _ publication c
              (read_staged-none h taken_claim taken (unstaged g)) prepared_now
              (stage_generation-done h taken_claim plan p taken taken_state (unstaged g)
                taken_owner)
              (apply_generation_tablets-done h taken_claim plan p staged_store
                (update_self s.stages g (some plan)))
              (publish_generation-done h taken_claim plan p staged_store round.publish_at
                  (update_self s.stages g (some plan))
                ∙ published_now)
              clean)

      -- The round, and what it leaves behind.
      pub rounded :
          prepare taken taken_claim ≡ ok (plan, [])
          → after ≤ s.generation_counter + 1
          → (t : Store) × (c : Claim) × (r : Publication) × (process_next h worker_id lease_ms
                prepare error_details round s
              ≡ (t, ok (done c r)))
            × Rounded s t r
            × (t.derived ≡ derived)
            × ((q : ℕ) (e : Payload) → t.entries q ≡ some e → s.entries q ≡ some e)
      unfolding finish_cleanup
      rounded prepared_now fewer =
          let e = no_next_state (cleaned.states (next_sequence s + 1)) refl in
          (
            cleaned,
            taken_claim,
            publication,
            processed_now prepared_now,
            record {
              rested = record {
                ordered = cleaned-IsOrdered;
                unstaged = cleaned_unstaged;
                unclaimed = rw e refl;
              };
              advanced = refl;
              same_entries = refl;
              generations = fewer;
              publishes = refl;
            },
            refl,
            λ q x f. remove_found s.entries (pruned (next_sequence s) retain_publications) q f,
          )
