-- ===== src/Rocksdb/Outbox/Stages.antt =====
-- The staging of src/rocksdb/outbox.js: the validation of plans and tablets, the transactions that stage
-- a plan and apply its tablets under a live claim, and the two loops over them.
-- `Host` has what is not in this file: digests, encodings and the keyspaces that are protected.
use pi_sliding_context_windo.Common.{
  ℕ, ◌+◌, Bool, true, false, not, ◌&&◌, Option, none, some, List, [], ◌∷◌, ◌++◌, Text, text_eq,
  if◌then◌else◌, leb, ◌==◌, length, count_if,
}
use pi_sliding_context_windo.Common.Results.{Result, ok, throw, ◌>>=◌, ◌>>◌, throw_if}
use pi_sliding_context_windo.Rocksdb.Outbox.{
  Fault, integrity, immutable_conflict, Phase, prepare, publish, cleanup, Action, remove, put,
  Mutation, Tablet, Tablets, Mode, atomic, tablets, Plan, Applied, Ready, Publication, Store, Claim,
  Sequence, ◌>->◌, write, read, update,
}
use pi_sliding_context_windo.Rocksdb.Outbox.Claims.{assert_claim_owner}

pub record Host : Type 0 where
  -- the digests of records from which `digest` is taken off (`[]` here)
  pub plan_digest : Plan → Text
  pub tablet_digest : Tablet → Text
  -- `sha256(digests.join("\n"))`
  pub digest_of_digests : List Text → Text
  pub serialized_bytes : Mutation → ℕ
  pub tablet_bytes : Tablet → ℕ
  -- the key's keyspace is one of `PROTECTED_KEYSPACES`
  pub is_protected : Text → Bool
  -- the encoded records, which `putImmutable` compares
  pub encode_plan : Plan → Text
  pub encode_tablet : Tablet → Text
  pub encode_applied : Applied → Text
  pub encode_ready : Ready → Text
  pub encode_publication : Publication → Text

abbrev pub same_bytes : {V : Type 0} → (V → Text) → V → Option V → Result Fault (Option V)
same_bytes encode v none = ok (some v)
same_bytes encode v (some w) =
    if text_eq (encode w) (encode v) then ok (some w) else throw immutable_conflict

-- `putImmutable` of src/rocksdb/store.js.
abbrev pub put_immutable :
    {V : Type 0} → (V → Text) → (ℕ → Option V) → ℕ → V → Result Fault (ℕ → Option V)
put_immutable encode f k v = same_bytes encode v (f k) >>= λ kept. ok (update f k kept)

abbrev pub phase_eq : Phase → Phase → Bool
phase_eq prepare prepare = true
phase_eq publish publish = true
phase_eq cleanup cleanup = true
phase_eq _ _ = false

abbrev pub in_phase : Phase → Mutation → Bool
in_phase p m = phase_eq m.stage_phase p

abbrev pub total_bytes : (Mutation → ℕ) → List Mutation → ℕ
total_bytes size [] = 0
total_bytes size (m ∷ ms) = size m + total_bytes size ms

pub data Staged : Type 0 where
  unchanged staged : Staged

abbrev pub update_text : (Text → Option Text) → Text → Option Text → Text → Option Text
update_text f k v j = if text_eq k j then v else f j

abbrev pub put_record :
    (Text → Option Text) → Text → Bool → Text → Option Text → Result Fault (Text → Option Text)
put_record derived key immutable bytes none = ok (update_text derived key (some bytes))
put_record derived key immutable bytes (some old) =
    if immutable && not (text_eq old bytes)
    then throw immutable_conflict
    else ok (update_text derived key (some bytes))

abbrev apply_action : (Text → Option Text) → Text → Action → Result Fault (Text → Option Text)
apply_action derived key remove = ok (update_text derived key none)
apply_action derived key (put immutable bytes) =
    put_record derived key immutable bytes (derived key)

module _ (h : Host) where
  unfoldable pub validate_stage : Plan → Claim → Result Fault Plan
  validate_stage plan claim =
      if plan.generation == claim.generation
        && plan.outbox_sequence == claim.sequence
        && text_eq (h.plan_digest (record plan { digest = [] })) plan.digest
      then ok plan
      else throw integrity

  unfoldable pub read_staged_generation : Store → Claim → Result Fault (Option Plan)
  unfolding validate_stage
  read_staged_generation s claim = elim (s.stages claim.generation) [
    | none ↦ ok none
    | some plan ↦ validate_stage plan claim >>= λ valid. ok (some valid)
  ]

  abbrev pub tablet_counts : Tablet → Bool
  tablet_counts t =
      let prepared = count_if (in_phase prepare) t.mutations in
      let cleaned = count_if (in_phase cleanup) t.mutations in
      total_bytes h.serialized_bytes t.mutations == t.mutation_bytes
      && prepared == t.prepare_count
      && cleaned == t.cleanup_count
      && prepared + cleaned == t.mutation_count
      && count_if (in_phase publish) t.mutations == 0

  unfoldable pub validate_tablet : Tablet → Tablets → Claim → ℕ → Result Fault Tablet
  validate_tablet t plan claim ordinal =
      throw_if
        (not (
          t.generation == claim.generation
          && t.outbox_sequence == claim.sequence
          && t.ordinal == ordinal
          && t.mutation_count == length t.mutations
          && leb t.mutation_count plan.tablet_max_mutations
          && leb t.mutation_bytes plan.tablet_max_bytes
          && text_eq (h.tablet_digest (record t { digest = [] })) t.digest))
        integrity
      >> (throw_if (not (tablet_counts t)) integrity >> ok t)

  unfoldable pub read_stage_tablet : Store → Claim → Tablets → ℕ → Result Fault Tablet
  unfolding validate_tablet
  read_stage_tablet s claim plan ordinal = elim (s.stage_tablets claim.generation ordinal) [
    | none ↦ throw integrity
    | some t ↦ validate_tablet t plan claim ordinal
  ]

  unfoldable pub apply_serialized_mutation :
      (Text → Option Text) → Mutation → Result Fault (Text → Option Text)
  apply_serialized_mutation derived m =
      throw_if (h.is_protected m.key) integrity >> apply_action derived m.key m.action

  unfoldable pub apply_mutations :
      List Mutation → (Text → Option Text) → Result Fault (Text → Option Text)
  unfolding apply_serialized_mutation
  apply_mutations [] derived = ok derived
  apply_mutations (m ∷ ms) derived =
      apply_serialized_mutation derived m >>= λ next. apply_mutations ms next

  -- The transactions of `stageGeneration`: one tablet, and the header that makes the plan durable.
  unfoldable pub stage_tablet : Claim → ℕ → Tablet → Store → Result Fault Store
  stage_tablet claim ordinal t s = assert_claim_owner (s.states claim.sequence) claim >>= λ owned.
      put_immutable h.encode_tablet (s.stage_tablets claim.generation) ordinal t >>= λ row.
      ok (record s {
        stage_tablets = λ g o. if claim.generation == g then row o else s.stage_tablets g o;
      })

  unfoldable pub stage_header : Claim → Plan → Store → Result Fault Store
  stage_header claim plan s = assert_claim_owner (s.states claim.sequence) claim >>= λ owned.
      put_immutable h.encode_plan s.stages claim.generation plan >>= λ stages.
      ok (record s { stages = stages })

  -- What `clearOrphanStageRecords` has removed when its scans come back empty.
  unfoldable pub clear_orphan_stage_records : Claim → Store → Result Fault Store
  clear_orphan_stage_records claim s =
      assert_claim_owner (s.states claim.sequence) claim >>= λ owned. ok (record s {
        stage_tablets = λ g o. if claim.generation == g then none else s.stage_tablets g o;
        applied = λ g o. if claim.generation == g then none else s.applied g o;
        ready = update s.ready claim.generation none;
      })

  unfoldable pub stage_tablets :
      Claim → Tablets → ℕ → List Tablet → List Text → Sequence (List Text)
  unfolding stage_tablet validate_tablet
  stage_tablets claim plan ordinal [] digests s = (s, ok digests)
  stage_tablets claim plan ordinal (t ∷ ts) digests s =
      (read (λ r. validate_tablet t plan claim ordinal) >-> λ valid.
      write (stage_tablet claim ordinal valid) >-> λ done.
      stage_tablets claim plan (ordinal + 1) ts (digests ++ valid.digest ∷ []))
        s

  unfoldable pub stage_mode : Claim → Mode → List Tablet → Sequence (Unit {0})
  unfolding stage_tablets clear_orphan_stage_records
  stage_mode claim (atomic mutations) records s = (s, ok tt)
  stage_mode claim (tablets plan) records s =
      (read (λ r. throw_if (not (length records == plan.tablet_count)) integrity) >-> λ counted.
      write (clear_orphan_stage_records claim) >-> λ clear.
      stage_tablets claim plan 0 records [] >-> λ digests.
      read
        (λ r. throw_if (not (text_eq (h.digest_of_digests digests) plan.tablets_digest)) integrity))
        s

  -- What the call finds before it writes: a stage with the plan's digest, or none.
  unfoldable pub find_stage : Claim → Plan → Store → Result Fault Staged
  unfolding validate_stage
  find_stage claim plan s = validate_stage plan claim >>= λ valid.
      elim (s.stages claim.generation) [
        | some header ↦ validate_stage header claim >>= λ existing.
            throw_if (not (text_eq existing.digest plan.digest)) integrity >> ok unchanged
        | none ↦ ok staged
      ]

  -- The plan's tablets are an argument of their own: the stored header is without them.
  unfoldable pub stage_generation : Claim → Plan → List Tablet → Sequence Staged
  unfolding find_stage stage_mode stage_header
  stage_generation claim plan records = read (find_stage claim plan) >-> λ found. elim found [
    | unchanged ↦ λ s. (s, ok unchanged)
    | staged ↦ stage_mode claim plan.mode records >-> λ done.
        write (stage_header claim plan) >-> λ last. λ s. (s, ok staged)
  ]
