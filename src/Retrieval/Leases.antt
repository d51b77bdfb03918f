-- ===== src/Retrieval/Leases.antt =====
-- src/retrieval/leases.js: leases that keep a document version readable until they expire.
-- A keyspace is the list of its entries. A transaction is one step from store to store, which leaves
-- the store as it was on an error; the guards that order concurrent transactions are not seen here.
-- The schema check of a lease is the parameter `accepts`.
pub mod Validity
pub mod Indexes
pub mod Release
use pi_sliding_context_windo.Common.{
  ℕ, ◌+◌, ◌-◌, max, Bool, true, false, not, ◌&&◌, ◌||◌, Option, none, some, List, [], ◌∷◌, Text,
  text_eq, if◌then◌else◌, ltb, leb, ◌==◌, keep_if,
}

pub record Lease : Type 0 where
  pub lease_id : Text
  pub owner_id : Text
  pub document_id : Text
  pub document_version : ℕ
  pub issued_at : ℕ
  pub expires_at : ℕ

-- The key of `byDocument`, and of `byDocumentExpiry` together with the time in front.
pub record DocumentKey : Type 0 where
  pub document_id : Text
  pub document_version : ℕ
  pub lease_id : Text

pub record Store : Type 0 where
  pub by_id : List Lease
  pub by_expiry : List (ℕ × Text)
  pub by_document : List DocumentKey
  pub document_expiry : List (ℕ × DocumentKey)
  -- the document versions below `KEYSPACE.SUPERSESSION`
  pub superseded : List (Text × ℕ)

pub data Fault : Type 0 where
  invalid_argument expiry_overflow rejected conflict target_unavailable malformed : Fault

pub data Created : Type 0 where
  created : Lease → (duplicate : Bool) → Created
  failed : Fault → Created

pub record Request : Type 0 where
  pub lease_id : Text
  pub owner_id : Text
  pub document_id : Text
  pub document_version : ℕ
  pub now : ℕ
  pub ttl_ms : ℕ

abbrev pub max_retrieval_lease_ms : ℕ
max_retrieval_lease_ms = 3600000

abbrev pub max_safe_integer : ℕ
max_safe_integer = 9007199254740991

abbrev is_identifier : Text → Bool
is_identifier [] = false
is_identifier (c ∷ t) = true

abbrev pub valid_duration : Request → Bool
valid_duration r = ltb 0 r.ttl_ms && leb r.ttl_ms max_retrieval_lease_ms

abbrev pub well_formed : Request → Bool
well_formed r =
    is_identifier r.lease_id
    && is_identifier r.owner_id
    && is_identifier r.document_id
    && ltb 0 r.document_version

-- The lease that a request asks for.
unfoldable pub requested : Request → Lease
requested r = record {
  lease_id = r.lease_id;
  owner_id = r.owner_id;
  document_id = r.document_id;
  document_version = r.document_version;
  issued_at = r.now;
  expires_at = r.now + r.ttl_ms;
}

abbrev pub document_key : Lease → DocumentKey
document_key l = record {
  document_id = l.document_id;
  document_version = l.document_version;
  lease_id = l.lease_id;
}

abbrev pub same_claims : Lease → Lease → Bool
same_claims a b =
    text_eq a.owner_id b.owner_id
    && text_eq a.document_id b.document_id
    && a.document_version == b.document_version
    && a.issued_at == b.issued_at
    && a.expires_at == b.expires_at

-- `get(leaseKeys.byId(id))`
unfoldable pub find_lease : Text → List Lease → Option Lease
find_lease id [] = none
find_lease id (l ∷ ls) = if text_eq l.lease_id id then some l else find_lease id ls

abbrev pub is_superseded : Text → ℕ → List (Text × ℕ) → Bool
is_superseded d v [] = false
is_superseded d v (e ∷ es) = (text_eq e.0 d && e.1 == v) || is_superseded d v es

-- The four writes.
unfoldable pub put_lease : Store → Lease → Store
put_lease s l = record s {
  by_id = l ∷ s.by_id;
  by_expiry = (l.expires_at, l.lease_id) ∷ s.by_expiry;
  document_expiry = (l.expires_at, document_key l) ∷ s.document_expiry;
  by_document = document_key l ∷ s.by_document;
}

module _ (accepts : Lease → Bool) where
  -- The transaction, from the read of the id on.
  unfoldable pub create_at : Store → Lease → Option Lease → Store × Created
  create_at s l none =
      if is_superseded l.document_id l.document_version s.superseded
      then (s, failed target_unavailable)
      else (put_lease s l, created l false)
  create_at s l (some e) =
      if accepts e
      then if same_claims e l then (s, created e true) else (s, failed conflict)
      else (s, failed malformed)

  unfoldable pub create_retrieval_lease : Store → Request → Store × Created
  create_retrieval_lease s r =
      if not (valid_duration r)
      then (s, failed invalid_argument)
      else if ltb (max_safe_integer - r.ttl_ms) r.now
      then (s, failed expiry_overflow)
      else if not (well_formed r)
      then (s, failed invalid_argument)
      else if accepts (requested r)
      then create_at s (requested r) (find_lease r.lease_id s.by_id)
      else (s, failed rejected)

pub data Status : Type 0 where
  missing malformed_record : Status
  mismatch expired active : Lease → Status

abbrev pub status_of : Lease → Text → ℕ → ℕ → Status
status_of l d v now =
    if not (text_eq l.document_id d) || not (l.document_version == v)
    then mismatch l
    else if leb l.expires_at now
    then expired l
    else active l

module _ (accepts : Lease → Bool) where
  unfoldable pub validate_retrieval_lease : Store → Text → Text → ℕ → ℕ → Status
  validate_retrieval_lease s id d v now = elim (find_lease id s.by_id) [
    | none ↦ missing
    | some l ↦ if accepts l then status_of l d v now else malformed_record
  ]

-- The greatest time among the entries of a document version: the reverse scan with limit 1.
unfoldable pub newest : Text → ℕ → List (ℕ × DocumentKey) → Option ℕ
newest d v [] = none
newest d v (e ∷ es) =
    let rest = newest d v es in
    if text_eq e.1.document_id d && e.1.document_version == v
    then elim rest [ none ↦ some e.0 | some t ↦ some (max e.0 t) ]
    else rest

unfoldable pub has_active_document_lease : Store → Text → ℕ → ℕ → Bool
has_active_document_lease s d v now = elim (newest d v s.document_expiry) [
  | none ↦ false
  | some t ↦ ltb now t
]

pub data Released : Type 0 where
  released not_found malformed_lease : Released

abbrev pub same_key : DocumentKey → DocumentKey → Bool
same_key a b =
    text_eq a.document_id b.document_id
    && a.document_version == b.document_version
    && text_eq a.lease_id b.lease_id

-- The four removals.
unfoldable pub remove_lease : Store → Lease → Store
remove_lease s l = record s {
  by_id = keep_if (λ k. not (text_eq k.lease_id l.lease_id)) s.by_id;
  by_expiry = keep_if (λ e. not (e.0 == l.expires_at && text_eq e.1 l.lease_id)) s.by_expiry;
  by_document = keep_if (λ e. not (same_key e (document_key l))) s.by_document;
  document_expiry =
      keep_if (λ e. not (e.0 == l.expires_at && same_key e.1 (document_key l))) s.document_expiry;
}

module _ (accepts : Lease → Bool) where
  -- Behind the read of the id.
  unfoldable pub release_found : Store → Option Lease → Store × Released
  release_found s none = (s, not_found)
  release_found s (some l) =
      if accepts l then (remove_lease s l, released) else (s, malformed_lease)

  unfoldable pub release_lease : Store → Text → Store × Released
  release_lease s id = release_found s (find_lease id s.by_id)
