-- ===== src/Rocksdb/Outbox/Plans.antt =====
-- `normalizeMutations` and `createGenerationPlan` of src/rocksdb/outbox.js: the mutations of the handlers
-- are sorted, made unique by key, and planned as one atomic publication or as tablets. The mutations
-- come serialized; `sort` is stable.
pub mod Staged
use Prim.Native.Nat.{compare, Ordering}
use pi_sliding_context_windo.Common.{
  ℕ, zero, suc, ◌+◌, Bool, true, false, not, ◌&&◌, ◌||◌, Option, none, some, List, [], ◌∷◌, ◌++◌,
  map, Text, text_eq, units, if◌then◌else◌, ltb, leb, length, keep_if,
}
use pi_sliding_context_windo.Common.Results.{Result, ok, throw, ◌>>=◌, ◌>>◌, throw_if}
use pi_sliding_context_windo.Rocksdb.Outbox.{
  Fault, invalid_argument, integrity, Phase, prepare, publish, cleanup, Action, remove, put,
  Mutation, Metadata, Handler, Tablet, Tablets, Mode, atomic, tablets, Plan, Claim,
}
use pi_sliding_context_windo.Rocksdb.Outbox.Stages.{Host, in_phase, phase_eq, total_bytes}
use pi_sliding_context_windo.Rocksdb.Outbox.Packing.{Options, create_tablets}

-- The order of strings, by code units.
pub text_compare : Text → Text → Ordering
text_compare [] [] = Ordering.eq
text_compare [] (y ∷ ys) = Ordering.lt
text_compare (x ∷ xs) [] = Ordering.gt
text_compare (x ∷ xs) (y ∷ ys) = elim (compare x y) [
  | Ordering.lt ↦ Ordering.lt
  | Ordering.gt ↦ Ordering.gt
  | Ordering.eq ↦ text_compare xs ys
]

abbrev or_next : Ordering → Ordering → Ordering
or_next Ordering.eq next = next
or_next Ordering.lt next = Ordering.lt
or_next Ordering.gt next = Ordering.gt

abbrev phase_order : Phase → ℕ
phase_order prepare = 0
phase_order publish = 1
phase_order cleanup = 2

abbrev type_text : Action → Text
type_text remove = units "remove"
type_text (put immutable bytes) = units "put"

-- `String(mutation.record)`
abbrev record_text : Action → Text
record_text remove = units "undefined"
record_text (put immutable bytes) = bytes

unfoldable pub compare_serialized_mutations : Mutation → Mutation → Ordering
unfolding text_compare
compare_serialized_mutations l r = or_next (text_compare l.key r.key) (
    or_next (compare (phase_order l.stage_phase) (phase_order r.stage_phase)) (
      or_next (text_compare (type_text l.action) (type_text r.action))
        (text_compare (record_text l.action) (record_text r.action))))

abbrev above : Ordering → Bool
above Ordering.gt = true
above _ = false

module _ {A : Type 0} (order : A → A → Ordering) where
  unfoldable pub insert_sorted : A → List A → List A
  insert_sorted a [] = a ∷ []
  insert_sorted a (b ∷ bs) = if above (order a b) then b ∷ insert_sorted a bs else a ∷ b ∷ bs

  unfoldable pub sort : List A → List A
  unfolding insert_sorted
  sort [] = []
  sort (a ∷ rest) = insert_sorted a (sort rest)

abbrev bool_eq : Bool → Bool → Bool
bool_eq true b = b
bool_eq false b = not b

abbrev action_eq : Action → Action → Bool
action_eq remove remove = true
action_eq (put i b) (put j c) = bool_eq i j && text_eq b c
action_eq _ _ = false

-- `stableJson(previous) === stableJson(mutation)`
abbrev pub mutation_eq : Mutation → Mutation → Bool
mutation_eq m n =
    text_eq m.key n.key && phase_eq m.stage_phase n.stage_phase && action_eq m.action n.action

abbrev is_put : Action → Bool
is_put remove = false
is_put (put i b) = true

abbrev staged_cleanup : Mutation → Mutation → Bool
staged_cleanup previous m =
    in_phase prepare previous
    && is_put previous.action
    && in_phase cleanup m
    && not (is_put m.action)

abbrev same_key : Option Mutation → Mutation → Bool
same_key none m = false
same_key (some previous) m = text_eq previous.key m.key

abbrev repeats : Option Mutation → Mutation → Bool
repeats none m = false
repeats (some previous) m = mutation_eq previous m

abbrev cleans_up : Option Mutation → Mutation → Bool
cleans_up none m = false
cleans_up (some previous) m = staged_cleanup previous m

-- The loop over the sorted mutations, from the last one kept.
unfoldable pub unique_mutations : Option Mutation → List Mutation → Result Fault (List Mutation)
unique_mutations previous [] = ok []
unique_mutations previous (m ∷ ms) =
    let kept = unique_mutations (some m) ms >>= λ rest. ok (m ∷ rest) in
    let repeated = unique_mutations previous ms in
    if not (same_key previous m)
    then kept
    else if repeats previous m
    then repeated
    else if cleans_up previous m
    then kept
    else throw integrity

pub record HandlerResult : Type 0 where
  pub id : Text
  pub mutations : List Mutation
  pub metadata : Option Metadata

abbrev mutations_of : List HandlerResult → List Mutation
mutations_of [] = []
mutations_of (r ∷ rs) = r.mutations ++ mutations_of rs

unfoldable pub normalize_mutations : List HandlerResult → Result Fault (List Mutation)
unfolding sort compare_serialized_mutations unique_mutations
normalize_mutations results =
    unique_mutations none (sort compare_serialized_mutations (mutations_of results))

abbrev handler_of : HandlerResult → Handler
handler_of r = record { id = r.id; mutation_count = length r.mutations; metadata = r.metadata }

pub record PlanOptions : Type 0 where
  pub atomic_max_mutations : ℕ
  pub atomic_max_bytes : ℕ
  pub publication_max_mutations : ℕ
  pub publication_max_bytes : ℕ
  pub tablet_max_mutations : ℕ
  pub tablet_max_bytes : ℕ

module _ (h : Host) where
  abbrev pub handlers_of : List HandlerResult → List Handler
  unfolding sort text_compare
  handlers_of results = sort (λ l r. text_compare l.id r.id) (map handler_of results)

  abbrev pub plan_content : Claim → List HandlerResult → ℕ → Mode → Plan
  plan_content claim results mutation_count mode = record {
    generation = claim.generation;
    outbox_sequence = claim.sequence;
    document_id = claim.entry.document_id;
    document_version = claim.entry.document_version;
    source_version = claim.entry.source_version;
    handlers = handlers_of results;
    mutation_count = mutation_count;
    mode = mode;
    digest = [];
  }

  abbrev pub digested : Plan → Plan
  digested plan = record plan { digest = h.plan_digest plan }

  abbrev pub tablet_options : Claim → PlanOptions → Options
  tablet_options claim options = record {
    generation = claim.generation;
    outbox_sequence = claim.sequence;
    max_mutations = options.tablet_max_mutations;
    max_bytes = options.tablet_max_bytes;
  }

  abbrev pub tablets_mode : PlanOptions → List Mutation → List Tablet → Tablets
  tablets_mode options publication created = record {
    publication_mutations = publication;
    tablet_max_mutations = options.tablet_max_mutations;
    tablet_max_bytes = options.tablet_max_bytes;
    tablet_count = length created;
    tablets_digest = h.digest_of_digests (map (λ t. t.digest) created);
  }

  abbrev pub is_atomic : PlanOptions → List Mutation → Bool
  is_atomic options ms =
      leb (length ms) options.atomic_max_mutations
      && leb (total_bytes h.serialized_bytes ms) options.atomic_max_bytes

  abbrev pub publication_too_large : PlanOptions → List Mutation → Bool
  publication_too_large options publication =
      ltb options.publication_max_mutations (length publication)
      || ltb options.publication_max_bytes (total_bytes h.serialized_bytes publication)

  -- The plan, and beside it the records of its tablets.
  unfoldable pub plan_mutations :
      Claim → List HandlerResult → PlanOptions → List Mutation → Result Fault (Plan × List Tablet)
  unfolding create_tablets
  plan_mutations claim results options ms =
      if is_atomic options ms
      then ok (digested (plan_content claim results (length ms) (atomic ms)), [])
      else (throw_if (publication_too_large options (keep_if (in_phase publish) ms))
            invalid_argument
          >> (create_tablets h (tablet_options claim options)
                (keep_if (λ m. not (in_phase publish m)) ms)
              >>= λ created. ok (
                digested (
                    plan_content claim results (length ms)
                      (tablets (tablets_mode options (keep_if (in_phase publish) ms) created))),
                created,
              )))

  unfoldable pub create_generation_plan :
      Claim → List HandlerResult → PlanOptions → Result Fault (Plan × List Tablet)
  unfolding normalize_mutations plan_mutations
  create_generation_plan claim results options =
      normalize_mutations results >>= λ ms. plan_mutations claim results options ms
