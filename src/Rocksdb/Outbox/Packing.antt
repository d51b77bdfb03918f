-- ===== src/Rocksdb/Outbox/Packing.antt =====
-- `createTablets` of src/rocksdb/outbox.js: mutations are packed into bounded tablets, in their order.
pub mod Packed
use pi_sliding_context_windo.Common.{
  ℕ, zero, suc, ◌+◌, ◌-◌, ◌/◌, min, Bool, true, false, ◌||◌, List, [], ◌∷◌, ◌++◌, Text,
  if◌then◌else◌, ltb, leb, ◌==◌, length, count_if,
}
use pi_sliding_context_windo.Common.Results.{Result, ok, throw, ◌>>=◌, ◌>>◌, throw_if}
use pi_sliding_context_windo.Rocksdb.Outbox.{
  Fault, invalid_argument, integrity, prepare, cleanup, Mutation, Tablet,
}
use pi_sliding_context_windo.Rocksdb.Outbox.Stages.{Host, in_phase}

pub record Options : Type 0 where
  pub generation : ℕ
  pub outbox_sequence : ℕ
  pub max_mutations : ℕ
  pub max_bytes : ℕ

-- The variables of the loop.
pub record Loop : Type 0 where
  pub tablets : List Tablet
  pub current : List Mutation
  pub current_bytes : ℕ

-- A share of the bytes is left for the envelope.
abbrev pub mutation_budget : Options → ℕ
mutation_budget o = o.max_bytes - min 8192 (o.max_bytes / 4)

module _ (h : Host) (o : Options) where
  -- The tablet without its digest.
  abbrev pub content : ℕ → List Mutation → ℕ → Tablet
  content ordinal current current_bytes = record {
    generation = o.generation;
    outbox_sequence = o.outbox_sequence;
    ordinal = ordinal;
    mutation_count = length current;
    prepare_count = count_if (in_phase prepare) current;
    cleanup_count = count_if (in_phase cleanup) current;
    mutation_bytes = current_bytes;
    mutations = current;
    digest = [];
  }

  abbrev pub sealed : ℕ → List Mutation → ℕ → Tablet
  sealed ordinal current current_bytes = record (content ordinal current current_bytes) {
    digest = h.tablet_digest (content ordinal current current_bytes);
  }

  unfoldable pub flush : Loop → Result Fault Loop
  flush p =
      if length p.current == 0
      then ok p
      else (throw_if
            (ltb o.max_bytes (h.tablet_bytes (sealed (length p.tablets) p.current p.current_bytes)))
            integrity
          >> ok (record {
            tablets = p.tablets ++ sealed (length p.tablets) p.current p.current_bytes ∷ [];
            current = [];
            current_bytes = 0;
          }))

  abbrev pub push : Mutation → Loop → Loop
  push m p = record p {
    current = p.current ++ m ∷ [];
    current_bytes = p.current_bytes + h.serialized_bytes m;
  }

  -- The tablet is closed before a mutation that it has no room for.
  abbrev pub make_room : Mutation → Loop → Result Fault Loop
  unfolding flush
  make_room m p =
      if leb o.max_mutations (length p.current)
        || ltb (mutation_budget o) (p.current_bytes + h.serialized_bytes m)
      then flush p
      else ok p

  unfoldable pub pack : Loop → List Mutation → Result Fault Loop
  unfolding flush
  pack p [] = flush p
  pack p (m ∷ ms) =
      throw_if (ltb (mutation_budget o) (h.serialized_bytes m)) invalid_argument
      >> (make_room m p >>= λ roomy. pack (push m roomy) ms)

  unfoldable pub create_tablets : List Mutation → Result Fault (List Tablet)
  unfolding pack
  create_tablets ms =
      throw_if (mutation_budget o == 0) invalid_argument
      >> (pack (record { tablets = []; current = []; current_bytes = 0 }) ms >>= λ p. ok p.tablets)
