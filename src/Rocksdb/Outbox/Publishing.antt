-- ===== src/Rocksdb/Outbox/Publishing.antt =====
-- A publication in an ordered outbox: what `publishGeneration` of src/rocksdb/outbox.js has when it
-- returns, and that it advances the queue by the claimed entry.
use pi_sliding_context_windo.Common.{
  ℕ, ◌+◌, ◌≡◌, refl, sym, ap, ◌∙◌, subst, not, Option, none, some, Text, ◌==◌, arith,
}
use pi_sliding_context_windo.Common.Results.{Result, ok, ok_chain, throw_if_chain, ok_eq}
use pi_sliding_context_windo.Rocksdb.Outbox.{Fault, State, Plan, Publication, Store, Claim, update}
use pi_sliding_context_windo.Rocksdb.Outbox.Claims.{cursor_sequence, assert_claim_owner}
use pi_sliding_context_windo.Rocksdb.Outbox.Stages.{
  Host, put_immutable, read_staged_generation, apply_mutations,
}
use pi_sliding_context_windo.Rocksdb.Outbox.Publish.{
  publication_mutations_of, publication_of, published_of, processed_state, preparation_after,
  check_ready, require_plan, write_publication, publish_transaction,
}
use pi_sliding_context_windo.Rocksdb.Outbox.Order.{next_sequence, IsNewest, IsOrdered}
use pi_sliding_context_windo.Rocksdb.Outbox.Effects.{assert_claim_owner-Owned, owned_at}
use pi_sliding_context_windo.Rocksdb.Outbox.Changes.{Advance}

-- The checks that a publication passed.
pub record Checked (h : Host) (claim : Claim) (s : Store) : Type 0 where
  pub state : State
  pub plan : Plan
  pub derived : Text → Option Text
  pub owner : assert_claim_owner (s.states claim.sequence) claim ≡ ok state
  pub staged : read_staged_generation h s claim ≡ ok (some plan)
  pub is_ready : check_ready (s.ready claim.generation) plan plan.mode ≡ ok tt
  pub applies : apply_mutations h (publication_mutations_of plan.mode) s.derived ≡ ok derived

require_plan-some : (o : Option Plan) (plan : Plan) → require_plan o ≡ ok plan → o ≡ some plan
require_plan-some none plan h = absurd (cc)
require_plan-some (some p) plan h = ap some (ok_eq {E = Fault} p plan h)

unit_ok : (u : Unit {0}) → ◌≡◌ {A = Result Fault (Unit {0})} (ok u) (ok tt)
unit_ok tt = refl

module _ (h : Host) (claim : Claim) (now : ℕ) (s : Store) where
  pub publish-Checked :
      (t : Store) (p : Publication)
      → publish_transaction h claim now s ≡ ok (t, p)
      → (c : Checked h claim s) × (write_publication h claim c.plan now c.state
            (record s { derived = c.derived })
          ≡ ok (t, p))
  unfolding publish_transaction
  publish-Checked t p e =
      let (st, a, b) = ok_chain (assert_claim_owner (s.states claim.sequence) claim) _ _ e in
      let (cursor, c, d) = ok_chain (cursor_sequence s.cursor) _ _ b in
      let (f, g) = throw_if_chain (not (cursor == claim.sequence)) _ _ _ d in
      let (found, k, l) = ok_chain (read_staged_generation h s claim) _ _ g in
      let (plan, m, n) = ok_chain (require_plan found) _ _ l in
      let (u, q, r) = ok_chain (check_ready (s.ready claim.generation) plan plan.mode) _ _ n in
      let (derived, v, w) =
        ok_chain (apply_mutations h (publication_mutations_of plan.mode) s.derived) _ _ r in
      (
        record {
          state = st;
          plan = plan;
          derived = derived;
          owner = a;
          staged = k ∙ ap ok (require_plan-some found plan m);
          is_ready = q ∙ unit_ok u;
          applies = v;
        },
        w,
      )

  pub unpublished :
      (st : State) (o : Option Publication)
      → s.generations claim.generation ≡ o
      → st.generation ≡ some claim.generation
      → IsNewest s.generation_counter s.generations st
      → o ≡ none
  unpublished st none e g n = refl
  unpublished st (some r) e g n =
      absurd (omega (arith, (n claim.generation g).1 claim.generation r e))

  -- The whole result: the record of the generation, and the entry marked processed.
  pub write_publication-Advance :
      IsOrdered s
      → (c : Checked h claim s) (t : Store) (p : Publication)
      → write_publication h claim c.plan now c.state (record s { derived = c.derived }) ≡ ok (t, p)
      → Advance s t × (claim.sequence ≡ next_sequence s) × (p ≡ publication_of claim c.plan now)
  unfolding write_publication
  write_publication-Advance i c t p e =
      let (a, o) = assert_claim_owner-Owned (s.states claim.sequence) claim c.state c.owner in
      let (b, at, n) = owned_at s i claim c.state c.owner in
      let empty = unpublished c.state (s.generations claim.generation) refl o.generation n in
      let publication = publication_of claim c.plan now in
      let result = ok_eq {E = Fault} _ _ (rw (empty, put_immutable) at e) in
      (
        record {
          generation = claim.generation;
          publication = publication;
          state = processed_state c.plan now c.state;
          derived = c.derived;
          published = some (published_of claim c.plan now);
          preparation = preparation_after claim c.plan s.preparation;
          result =
              sym (ap (λ x. x.0) result)
              ∙ ap
                  (λ (j : ℕ). record s {
                    derived = c.derived;
                    published = some (published_of claim c.plan now);
                    preparation = preparation_after claim c.plan s.preparation;
                    generations = update s.generations claim.generation (some publication);
                    cursor = some (j + 1);
                    states = update s.states j (some (processed_state c.plan now c.state));
                  })
                  at;
          present = i.present c.state (subst (λ j. s.states j ≡ some c.state) at a);
          sequence = o.sequence ∙ at;
          is_done = refl;
          released = refl;
          publishes = at;
          bounded = (n claim.generation o.generation).0.1;
          newest = (n claim.generation o.generation).1;
        },
        at,
        sym (ap (λ x. x.1) result),
      )
