-- ===== src/Tests/PlanRuns.antt =====
-- Runs of the plans and tablets of src/rocksdb/outbox.js.
use pi_sliding_context_windo.Common.{
  ◌≡◌, refl, true, false, none, some, List, [], ◌∷◌, units, length, arith,
}
use pi_sliding_context_windo.Common.Results.{Result, ok, throw}
use pi_sliding_context_windo.Rocksdb.Outbox.{
  Fault, prepare, publish, put, Mutation, Tablet, Plan, Store,
}
use pi_sliding_context_windo.Rocksdb.Outbox.Claims.{assert_claim_owner}
use pi_sliding_context_windo.Rocksdb.Outbox.Stages.{staged, stage_generation}
use pi_sliding_context_windo.Rocksdb.Outbox.Packing.{Options, create_tablets}
use pi_sliding_context_windo.Rocksdb.Outbox.Packing.Packed.{
  all_mutations, AllValid, create_tablets-AllValid,
}
use pi_sliding_context_windo.Rocksdb.Outbox.Plans.{
  HandlerResult, PlanOptions, create_generation_plan,
}
use pi_sliding_context_windo.Rocksdb.Outbox.Plans.Staged.{AllStored, create_generation_plan-staged}
use pi_sliding_context_windo.Tests.OutboxRuns.{
  host, claim_by, first_state, first_claimed, removal, plan_for, tablets_plan,
}

abbrev packed_options : Options
packed_options = record { generation = 1; outbox_sequence = 1; max_mutations = 2; max_bytes = 40 }

abbrev write_mutation : Mutation
write_mutation = record { key = units "abc"; stage_phase = prepare; action = put true (units "x") }

abbrev publish_mutation : Mutation
publish_mutation = record { key = units "b"; stage_phase = publish; action = put false (units "y") }

abbrev three : List Mutation
three = write_mutation ∷ write_mutation ∷ removal ∷ []

abbrev value_of : {A : Type 0} → Result Fault A → A → A
value_of (ok a) b = a
value_of (throw e) b = b

abbrev packed : List Tablet
unfolding create_tablets
packed = value_of (create_tablets host packed_options three) []

create_tablets_run : create_tablets host packed_options three ≡ ok packed
unfolding create_tablets packed
create_tablets_run = refl

create_tablets-AllValid_example :
    (all_mutations packed ≡ three)
    × AllValid host packed_options
        (claim_by (units "t1"))
        tablets_plan
        refl
        refl
        refl
        refl
        (omega arith)
        0
        packed
create_tablets-AllValid_example =
    create_tablets-AllValid host packed_options (claim_by (units "t1")) tablets_plan refl refl refl
      refl (omega arith) three packed (refl, (refl, (refl, tt))) create_tablets_run

abbrev plan_options : PlanOptions
plan_options = record {
  atomic_max_mutations = 1;
  atomic_max_bytes = 100;
  publication_max_mutations = 5;
  publication_max_bytes = 100;
  tablet_max_mutations = 2;
  tablet_max_bytes = 40;
}

abbrev results : List HandlerResult
results =
    record { id = units "exact"; mutations = removal ∷ write_mutation ∷ []; metadata = none }
    ∷ record { id = units "bm25"; mutations = publish_mutation ∷ []; metadata = none }
    ∷ []

abbrev planned : Plan × List Tablet
unfolding create_generation_plan
planned =
    value_of (create_generation_plan host (claim_by (units "t1")) results plan_options)
      (plan_for (claim_by (units "t1")), [])

planned_run :
    create_generation_plan host (claim_by (units "t1")) results plan_options
    ≡ ok (planned.0, planned.1)
unfolding create_generation_plan planned
planned_run = refl

planned_tablets : length planned.1 ≡ 1
unfolding create_generation_plan planned
planned_tablets = refl

first_owner : assert_claim_owner (first_claimed.states 1) (claim_by (units "t1")) ≡ ok first_state
unfolding assert_claim_owner
first_owner = refl

create_generation_plan-staged_example :
    (t : Store) × (stage_generation host (claim_by (units "t1")) planned.0 planned.1 first_claimed
      ≡ (t, ok staged))
    × (t.stages 1 ≡ some planned.0)
    × AllStored t 1 0 planned.1
create_generation_plan-staged_example =
    create_generation_plan-staged host (claim_by (units "t1")) results plan_options planned.0
      planned.1 first_state first_claimed (omega arith) refl first_owner planned_run
