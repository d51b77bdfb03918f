-- ===== src/Rocksdb/Outbox.antt =====
-- The records of src/rocksdb/outbox.js: canonical outbox entries, the claim on each, staged plans and
-- their tablets, and published generations. A keyspace is a function from its keys; the versions of
-- the record formats are left out. Texts are opaque: record bytes, digests, identifiers, tokens.
pub mod Claims
pub mod Stages
pub mod Publish
pub mod Apply
pub mod Packing
pub mod Plans
pub mod Cleanup
pub mod Steps
pub mod Order
pub mod Effects
pub mod Claiming
pub mod Metrics
pub mod Outcomes
pub mod Changes
pub mod Publishing
pub mod Staging
pub mod History
pub mod Stale
pub mod Worker
pub mod Rounds
pub mod Chain
pub mod Progress
pub mod Prepared
pub mod Drain
use pi_sliding_context_windo.Common.{
  ℕ, suc, ◌+◌, Bool, Option, none, some, List, Text, text_eq, if◌then◌else◌, ltb, ◌==◌,
}
use pi_sliding_context_windo.Common.Results.{Result, ok, throw}

pub data Fault : Type 0 where
  invalid_argument integrity claim_lost immutable_conflict overflow : Fault

pub record Payload : Type 0 where
  pub sequence : ℕ
  pub document_id : Text
  pub document_version : ℕ
  pub source_version : ℕ
  pub operation : Option Text
  pub admitted_at : Option ℕ

pub data Status : Type 0 where
  pending processing processed : Status

pub data IndexStatus : Type 0 where
  skipped partial complete : IndexStatus

pub record ErrorDetails : Type 0 where
  pub name : Text
  pub code : Option Text
  pub message : Text

-- What a handler reports beside its mutations.
pub record Metadata : Type 0 where
  pub status : Text
  pub reason : Option Text
  pub limit_kind : Option Text
  pub limit : Option ℕ
  pub observed : Option ℕ

pub record Handler : Type 0 where
  pub id : Text
  pub mutation_count : ℕ
  pub metadata : Option Metadata

pub record SkippedHandler : Type 0 where
  pub id : Text
  pub reason : Option Text
  pub limit_kind : Option Text
  pub limit : Option ℕ
  pub observed : Option ℕ

-- An absent field is `none`.
pub record State : Type 0 where
  pub sequence : ℕ
  pub status : Status
  pub generation : Option ℕ
  pub operation : Option Text
  pub worker_id : Option Text
  pub claim_token : Option Text
  pub attempt : ℕ
  pub first_claimed_at : Option ℕ
  pub claimed_at : Option ℕ
  pub claimed_until : Option ℕ
  pub retry_at : Option ℕ
  pub last_error : Option ErrorDetails
  pub processed_at : Option ℕ
  pub mutation_count : Option ℕ
  pub index_status : Option IndexStatus
  pub skipped_handlers : List SkippedHandler
  pub stage_digest : Option Text

pub data Phase : Type 0 where
  prepare publish cleanup : Phase

pub data Action : Type 0 where
  remove : Action
  put : (immutable : Bool) → (record_bytes : Text) → Action

pub record Mutation : Type 0 where
  pub key : Text
  pub stage_phase : Phase
  pub action : Action

pub record Tablet : Type 0 where
  pub generation : ℕ
  pub outbox_sequence : ℕ
  pub ordinal : ℕ
  pub mutation_count : ℕ
  pub prepare_count : ℕ
  pub cleanup_count : ℕ
  pub mutation_bytes : ℕ
  pub mutations : List Mutation
  pub digest : Text

-- The fields of a plan in the mode "tablets".
pub record Tablets : Type 0 where
  pub publication_mutations : List Mutation
  pub tablet_max_mutations : ℕ
  pub tablet_max_bytes : ℕ
  pub tablet_count : ℕ
  pub tablets_digest : Text

pub data Mode : Type 0 where
  atomic : (mutations : List Mutation) → Mode
  tablets : Tablets → Mode

pub record Plan : Type 0 where
  pub generation : ℕ
  pub outbox_sequence : ℕ
  pub document_id : Text
  pub document_version : ℕ
  pub source_version : ℕ
  pub handlers : List Handler
  pub mutation_count : ℕ
  pub mode : Mode
  pub digest : Text

pub record Applied : Type 0 where
  pub tablet_digest : Text
  pub stage_digest : Text
  pub mutation_count : ℕ

pub record Ready : Type 0 where
  pub stage_digest : Text
  pub tablet_count : ℕ
  pub tablets_digest : Text
  pub cleanup_ordinal : ℕ

pub record Publication : Type 0 where
  pub outbox_sequence : ℕ
  pub operation : Text
  pub document_id : Text
  pub document_version : ℕ
  pub source_version : ℕ
  pub handlers : List Handler
  pub index_status : IndexStatus
  pub skipped_handlers : List SkippedHandler
  pub partial_handler_count : ℕ
  pub mutation_count : ℕ
  pub tablet_count : ℕ
  pub stage_digest : Text
  pub published_at : ℕ

pub record Published : Type 0 where
  pub generation : ℕ
  pub outbox_sequence : ℕ
  pub index_status : IndexStatus
  pub skipped_handler_count : ℕ
  pub partial_handler_count : ℕ
  pub published_at : ℕ

pub record Preparation : Type 0 where
  pub skipped_documents : ℕ
  pub skipped_handlers : ℕ
  pub last_skipped_document_id : Option Text
  pub last_skipped_generation : Option ℕ

pub record Store : Type 0 where
  pub entries : ℕ → Option Payload
  pub states : ℕ → Option State
  -- `nextSequence` of the record at the cursor's key
  pub cursor : Option ℕ
  pub outbox_counter : ℕ
  pub generation_counter : ℕ
  pub stages : ℕ → Option Plan
  pub stage_tablets : ℕ → ℕ → Option Tablet
  pub applied : ℕ → ℕ → Option Applied
  pub ready : ℕ → Option Ready
  pub generations : ℕ → Option Publication
  pub published : Option Published
  pub preparation : Option Preparation
  pub derived : Text → Option Text

-- A claim that `validateClaim` accepts: a call refuses any other before it reads the store.
pub record Claim : Type 0 where
  pub sequence : ℕ
  pub generation : ℕ
  pub operation : Text
  pub claim_token : Text
  pub worker_id : Text
  pub entry : Payload

-- A transaction that throws leaves the store as it was.
abbrev pub Transaction : Type 0 → Type 0
Transaction V = Store → Result Fault (Store × V)

-- A call of several transactions: those before the one that throws stay committed.
abbrev pub Sequence : Type 0 → Type 0
Sequence V = Store → Store × Result Fault V

abbrev pub resume :
    {V W : Type 0} → Store × Result Fault V → (V → Sequence W) → Store × Result Fault W
resume (s, throw e) k = (s, throw e)
resume (s, ok v) k = k v s

infixl 5 ◌>->◌
abbrev pub ◌>->◌ : {V W : Type 0} → Sequence V → (V → Sequence W) → Sequence W
◌>->◌ m k s = resume (m s) k

abbrev pub committed : {V : Type 0} → Store → Result Fault (Store × V) → Store × Result Fault V
committed s (throw e) = (s, throw e)
committed s (ok (t, v)) = (t, ok v)

abbrev pub commit : {V : Type 0} → Transaction V → Sequence V
commit m s = committed s (m s)

abbrev pub written : Store → Result Fault Store → Store × Result Fault (Unit {0})
written s (throw e) = (s, throw e)
written s (ok t) = (t, ok tt)

abbrev pub write : (Store → Result Fault Store) → Sequence (Unit {0})
write m s = written s (m s)

abbrev pub read : {V : Type 0} → (Store → Result Fault V) → Sequence V
read m s = (s, m s)

abbrev pub update : {V : Type 0} → (ℕ → Option V) → ℕ → Option V → ℕ → Option V
update f k v j = if k == j then v else f j

abbrev pub max_safe_integer : ℕ
max_safe_integer = 9007199254740991

-- `increment` of src/rocksdb/store.js: the counter's next value.
abbrev pub increment : ℕ → Result Fault ℕ
increment n = if ltb max_safe_integer (n + 1) then throw overflow else ok (n + 1)
