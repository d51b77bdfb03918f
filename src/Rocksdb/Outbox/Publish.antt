-- ===== src/Rocksdb/Outbox/Publish.antt =====
-- `publishGeneration` of src/rocksdb/outbox.js: behind a preview of the plan, one transaction publishes
-- a staged generation, advances the cursor and marks the entry processed.
use pi_sliding_context_windo.Common.{
  ℕ, ◌+◌, Bool, false, not, ◌&&◌, ◌||◌, Option, none, some, List, Text, text_eq, units,
  if◌then◌else◌, ltb, ◌==◌, length, keep_if, count_if, map,
}
use pi_sliding_context_windo.Common.Results.{Result, ok, throw, ◌>>=◌, ◌>>◌, throw_if}
use pi_sliding_context_windo.Rocksdb.Outbox.{
  Fault, integrity, processed, IndexStatus, skipped, partial, complete, Metadata, Handler,
  SkippedHandler, State, Mutation, Tablets, Mode, atomic, tablets, Plan, Ready, Publication,
  Published, Preparation, Claim, Transaction, update,
}
use pi_sliding_context_windo.Rocksdb.Outbox.Claims.{cursor_sequence, assert_claim_owner}
use pi_sliding_context_windo.Rocksdb.Outbox.Stages.{
  Host, put_immutable, read_staged_generation, apply_mutations,
}

abbrev pub has_status : Text → Handler → Bool
has_status status handler = elim handler.metadata [
  | none ↦ false
  | some m ↦ text_eq m.status status
]

abbrev skipped_metadata : Text → Option Metadata → SkippedHandler
skipped_metadata id none = record {
  id = id;
  reason = none;
  limit_kind = none;
  limit = none;
  observed = none;
}
skipped_metadata id (some m) = record {
  id = id;
  reason = m.reason;
  limit_kind = m.limit_kind;
  limit = m.limit;
  observed = m.observed;
}

unfoldable pub skipped_handlers_of : List Handler → List SkippedHandler
skipped_handlers_of handlers =
    map (λ handler. skipped_metadata handler.id handler.metadata)
      (keep_if (has_status (units "skipped")) handlers)

unfoldable pub index_status_of : List Handler → IndexStatus
unfolding skipped_handlers_of
index_status_of handlers =
    if length (skipped_handlers_of handlers) == length handlers
    then skipped
    else if ltb 0 (length (skipped_handlers_of handlers))
        || ltb 0 (count_if (has_status (units "partial")) handlers)
    then partial
    else complete

abbrev pub publication_mutations_of : Mode → List Mutation
publication_mutations_of (atomic mutations) = mutations
publication_mutations_of (tablets plan) = plan.publication_mutations

abbrev pub tablet_count_of : Mode → ℕ
tablet_count_of (atomic mutations) = 0
tablet_count_of (tablets plan) = plan.tablet_count

abbrev pub publication_of : Claim → Plan → ℕ → Publication
publication_of claim plan now = record {
  outbox_sequence = claim.sequence;
  operation = claim.operation;
  document_id = plan.document_id;
  document_version = plan.document_version;
  source_version = plan.source_version;
  handlers = plan.handlers;
  index_status = index_status_of plan.handlers;
  skipped_handlers = skipped_handlers_of plan.handlers;
  partial_handler_count = count_if (has_status (units "partial")) plan.handlers;
  mutation_count = plan.mutation_count;
  tablet_count = tablet_count_of plan.mode;
  stage_digest = plan.digest;
  published_at = now;
}

abbrev pub published_of : Claim → Plan → ℕ → Published
published_of claim plan now = record {
  generation = claim.generation;
  outbox_sequence = claim.sequence;
  index_status = index_status_of plan.handlers;
  skipped_handler_count = length (skipped_handlers_of plan.handlers);
  partial_handler_count = count_if (has_status (units "partial")) plan.handlers;
  published_at = now;
}

abbrev preparation_counts : Option Preparation → ℕ × ℕ
preparation_counts none = (0, 0)
preparation_counts (some p) = (p.skipped_documents, p.skipped_handlers)

abbrev pub preparation_after : Claim → Plan → Option Preparation → Option Preparation
preparation_after claim plan current =
    let fresh = length (skipped_handlers_of plan.handlers) in
    let (documents, handlers) = preparation_counts current in
    if ltb 0 fresh
    then some (record {
      skipped_documents = documents + 1;
      skipped_handlers = handlers + fresh;
      last_skipped_document_id = some plan.document_id;
      last_skipped_generation = some claim.generation;
    })
    else current

abbrev pub processed_state : Plan → ℕ → State → State
processed_state plan now st = record st {
  status = processed;
  processed_at = some now;
  mutation_count = some plan.mutation_count;
  index_status = some (index_status_of plan.handlers);
  skipped_handlers = skipped_handlers_of plan.handlers;
  stage_digest = some plan.digest;
  claimed_until = none;
  claim_token = none;
  worker_id = none;
  last_error = none;
}

abbrev pub require_plan : Option Plan → Result Fault Plan
require_plan none = throw integrity
require_plan (some plan) = ok plan

abbrev ready_matches : Option Ready → Plan → Tablets → Bool
ready_matches none plan t = false
ready_matches (some r) plan t =
    text_eq r.stage_digest plan.digest && text_eq r.tablets_digest t.tablets_digest

abbrev pub check_ready : Option Ready → Plan → Mode → Result Fault (Unit {0})
check_ready r plan (atomic mutations) = ok tt
check_ready r plan (tablets t) = throw_if (not (ready_matches r plan t)) integrity

module _ (h : Host) where
  -- The writes of the transaction, once its checks have passed.
  unfoldable pub write_publication : Claim → Plan → ℕ → State → Transaction Publication
  write_publication claim plan now st s =
      let publication = publication_of claim plan now in
      put_immutable h.encode_publication s.generations claim.generation publication
      >>= λ generations. ok (
        record s {
          generations = generations;
          published = some (published_of claim plan now);
          preparation = preparation_after claim plan s.preparation;
          cursor = some (claim.sequence + 1);
          states = update s.states claim.sequence (some (processed_state plan now st));
        },
        publication,
      )

  -- The transaction, which other workers may precede after the preview.
  unfoldable pub publish_transaction : Claim → ℕ → Transaction Publication
  unfolding cursor_sequence read_staged_generation apply_mutations write_publication
  publish_transaction claim now s = assert_claim_owner (s.states claim.sequence) claim >>= λ st.
      cursor_sequence s.cursor >>= λ cursor.
      throw_if (not (cursor == claim.sequence)) integrity
      >> (read_staged_generation h s claim >>= λ found. require_plan found >>= λ plan.
          check_ready (s.ready claim.generation) plan plan.mode
          >> (apply_mutations h (publication_mutations_of plan.mode) s.derived >>= λ derived.
              write_publication claim plan now st (record s { derived = derived })))

  -- The whole call, when nothing runs between its preview of the plan and its transaction. The other
  -- reads of the preview only warm a cache.
  unfoldable pub publish_generation : Claim → ℕ → Transaction Publication
  publish_generation claim now s = read_staged_generation h s claim >>= λ found.
      require_plan found >>= λ preview. publish_transaction claim now s
