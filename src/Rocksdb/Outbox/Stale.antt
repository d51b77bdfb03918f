-- ===== src/Rocksdb/Outbox/Stale.antt =====
-- A claim that another worker has taken over, in any interleaving that follows.
use pi_sliding_context_windo.Common.{
  ℕ, ◌<◌, ◌≡◌, refl, sym, ap, ◌∙◌, subst, ◌≢◌, ◌⊎◌, inl, inr, false, Option, none, some, List, Text,
  ◌==◌, Bool-cases, arith,
}
use pi_sliding_context_windo.Common.Results.{ok, throw, ◌>>=◌, chain_throws}
use pi_sliding_context_windo.Rocksdb.Outbox.{
  Fault, claim_lost, ErrorDetails, State, Tablet, Tablets, Plan, Store, Claim,
}
use pi_sliding_context_windo.Rocksdb.Outbox.Claims.{
  is_text, owns, assert_claim_owner, renew_outbox_claim, Released, already_processed, lost,
  release_state, release_outbox_claim,
}
use pi_sliding_context_windo.Rocksdb.Outbox.Stages.{
  Host, read_staged_generation, stage_tablet, stage_header,
}
use pi_sliding_context_windo.Rocksdb.Outbox.Publish.{
  require_plan, publish_transaction, publish_generation,
}
use pi_sliding_context_windo.Rocksdb.Outbox.Apply.{apply_tablet, mark_ready}
use pi_sliding_context_windo.Rocksdb.Outbox.Cleanup.{finish_cleanup, pruned}
use pi_sliding_context_windo.Rocksdb.Outbox.Order.{
  next_sequence, is_processed, IsOrdered, update_found, some_eq, Touch,
}
use pi_sliding_context_windo.Rocksdb.Outbox.Effects.{
  owns-Owned, is_text_sound, renew-Touch, release-Touch, recover-Touch,
}
use pi_sliding_context_windo.Rocksdb.Outbox.Claiming.{claim-Touch}
use pi_sliding_context_windo.Rocksdb.Outbox.Changes.{Aside, Advance, remove_found, enqueue-states}
use pi_sliding_context_windo.Rocksdb.Outbox.Publishing.{publish-Checked, write_publication-Advance}
use pi_sliding_context_windo.Rocksdb.Outbox.Staging.{
  stage_tablet-Aside, stage_header-Aside, clear-Aside, mark_ready-Aside, apply_tablet-Aside,
  cleanup_tablet-Aside,
}
use pi_sliding_context_windo.Rocksdb.Outbox.Steps.{
  Step, enqueued, claimed_next, renewed, released_claim, recovered, staged_tablet, staged_header,
  cleared, applied_one, marked_ready, published_one, cleaned_tablet, cleaned, Run, here, next,
}
use pi_sliding_context_windo.Rocksdb.Outbox.History.{Run-Passed}

-- The entry's state does not carry the claim's token.
abbrev pub IsLost : Claim → Store → Type 0
IsLost c s = (st : State) → s.states c.sequence ≡ some st → st.claim_token ≢ some c.claim_token

-- The step does not make the token again.
abbrev pub Fresh : {h : Host} {s t : Store} {new : List ℕ} → Text → Step h s t new → Type 0
Fresh token (claimed_next other worker_id now lease_ms o e) = other ≢ token
Fresh token _ = Unit

abbrev pub AllFresh : {h : Host} {s t : Store} {log : List ℕ} → Text → Run h s t log → Type 0
AllFresh token here = Unit
AllFresh token (next r st) = AllFresh token r × Fresh token st

module _ (c : Claim) (s t : Store) (l : IsLost c s) where
  same-IsLost : t.states ≡ s.states → IsLost c t
  same-IsLost e st found = l st (sym (ap (λ f. f c.sequence) e) ∙ found)

  Touch-IsLost : {fresh : Option Text} → fresh ≢ some c.claim_token → Touch fresh s t → IsLost c t
  Touch-IsLost f p st found k =
      elim (update_found s.states (next_sequence s) (some p.state) c.sequence
        (sym (ap (λ (x : Store). x.states c.sequence) p.result) ∙ found)) [
          | inl (a, b) ↦
              elim (p.token c.claim_token (ap (λ (x : State). x.claim_token) (some_eq b) ∙ k)) [
                | inl m ↦ f m
                | inr (w, m, n) ↦ l w (subst (λ j. s.states j ≡ some w) a m) n
              ]
          | inr (a, b) ↦ l st b k
        ]

  unchanged_or-IsLost :
      {fresh : Option Text} → fresh ≢ some c.claim_token → (t ≡ s) ⊎ Touch fresh s t → IsLost c t
  unchanged_or-IsLost f (inl e) = same-IsLost (ap (λ (x : Store). x.states) e)
  unchanged_or-IsLost f (inr p) = Touch-IsLost f p

  Advance-IsLost : Advance s t → IsLost c t
  Advance-IsLost a st found k =
      elim (update_found s.states (next_sequence s) (some a.state) c.sequence
        (sym (ap (λ (x : Store). x.states c.sequence) a.result) ∙ found)) [
          | inl (m, b) ↦
              absurd (cc (sym a.released ∙ ap (λ (x : State). x.claim_token) (some_eq b) ∙ k))
          | inr (m, b) ↦ l st b k
        ]

  Aside-IsLost : Aside s t → IsLost c t
  Aside-IsLost a = same-IsLost (ap (λ (x : Store). x.states) a.result)

no_token : (token : Text) → none ≢ some token
no_token token e = cc

other_token : (a b : Text) → a ≢ b → some a ≢ some b
other_token a b n e = n (some_eq e)

==-false : (n : ℕ) → 0 < n → (n == 0) ≡ false
==-false n p = ground (arith, p)

module _ (h : Host) (c : Claim) where
  Step-IsLost :
      {s t : Store} {new : List ℕ} (st : Step h s t new)
      → Fresh c.claim_token st
      → IsOrdered s
      → IsLost c s
      → IsLost c t
  unfolding finish_cleanup
  Step-IsLost {s} {t} (enqueued p q e) f i l = same-IsLost c s t l (enqueue-states s p t q e)
  Step-IsLost {s} {t} (claimed_next token worker_id now lease_ms o e) f i l =
      unchanged_or-IsLost c s t l (other_token token c.claim_token f)
        (claim-Touch s i token worker_id now lease_ms t o e)
  Step-IsLost {s} {t} (renewed d now lease_ms st e) f i l =
      Touch-IsLost c s t l (no_token c.claim_token) (renew-Touch s i d now lease_ms t st e)
  Step-IsLost {s} {t} (released_claim d error now r e) f i l =
      unchanged_or-IsLost c s t l (no_token c.claim_token) (release-Touch s i d error now t r e)
  Step-IsLost {s} {t} (recovered now q) f i l =
      unchanged_or-IsLost c s t l (no_token c.claim_token) (recover-Touch s i now q)
  Step-IsLost {s} {t} (staged_tablet d o x e) f i l =
      Aside-IsLost c s t l (stage_tablet-Aside h d s t o x e)
  Step-IsLost {s} {t} (staged_header d p e) f i l =
      Aside-IsLost c s t l (stage_header-Aside h d s t p e)
  Step-IsLost {s} {t} (cleared d e) f i l = Aside-IsLost c s t l (clear-Aside h d s t e)
  Step-IsLost {s} {t} (applied_one d p o x r e) f i l =
      Aside-IsLost c s t l (apply_tablet-Aside h d s t p o x r e)
  Step-IsLost {s} {t} (marked_ready d p x e) f i l =
      Aside-IsLost c s t l (mark_ready-Aside h d s t p x e)
  Step-IsLost {s} {t} (published_one d now p e) f i l =
      let (checked, w) = publish-Checked h d now s t p e in
      Advance-IsLost c s t l (write_publication-Advance h d now s i checked t p w).0
  Step-IsLost {s} {t} (cleaned_tablet g p o x e) f i l =
      Aside-IsLost c s t l (cleanup_tablet-Aside h s t g p o x e)
  Step-IsLost {s} (cleaned g retained p e m) f i l =
      λ st found. l st (remove_found s.states (pruned p.outbox_sequence retained) c.sequence found)

  Run-IsLost :
      {s t : Store} {log : List ℕ} (r : Run h s t log)
      → AllFresh c.claim_token r
      → IsOrdered s
      → IsLost c s
      → IsLost c t
  Run-IsLost here f i l = l
  Run-IsLost (next r st) f i l =
      Step-IsLost st f.1 (Run-Passed h r i).ordered (Run-IsLost r f.0 i l)

  module _ (t : Store) (l : IsLost c t) where
    assert_claim_owner-lost :
        (o : Option State) → t.states c.sequence ≡ o → assert_claim_owner o c ≡ throw claim_lost
    unfolding assert_claim_owner
    assert_claim_owner-lost none e = refl
    assert_claim_owner-lost (some st) e = elim (Bool-cases (owns st c)) [
      | inl k ↦ absurd (l st e (owns-Owned st c k).token)
      | inr k ↦ rw k refl
    ]

    not_owner : assert_claim_owner (t.states c.sequence) c ≡ throw claim_lost
    not_owner = assert_claim_owner-lost (t.states c.sequence) refl

    -- A release that finds the claim taken over writes nothing.
    release_lost :
        (error : Option ErrorDetails) (now : ℕ) (o : Option State)
        → t.states c.sequence ≡ o
        → (r : Released) × (release_outbox_claim c error now t ≡ ok (t, r))
    unfolding release_outbox_claim release_state
    release_lost error now none e = (lost, rw (e, release_outbox_claim) refl)
    release_lost error now (some st) e = elim (Bool-cases (is_processed st)) [
      | inl k ↦ (already_processed, rw (e, release_outbox_claim) (rw k refl))
      | inr k ↦ elim (Bool-cases (is_text st.claim_token c.claim_token)) [
        | inl m ↦ absurd (l st e (is_text_sound st.claim_token c.claim_token m))
        | inr m ↦ (lost, rw (e, release_outbox_claim) (rw (k, m) refl))
      ]
    ]

  publish_generation_throws :
      (now : ℕ) (t : Store) (f : Fault)
      → publish_transaction h c now t ≡ throw f
      → (g : Fault) × (publish_generation h c now t ≡ throw g)
  unfolding publish_generation
  publish_generation_throws now t f e =
      chain_throws (read_staged_generation h t c)
        (λ found. require_plan found >>= λ plan. publish_transaction h c now t)
        (λ found.
          chain_throws (require_plan found) (λ plan. publish_transaction h c now t)
            (λ plan. (f, e)))

  -- Once the state of its entry no longer carries its token, and as long as no later claim is given that
  -- token again, a claim stays lost through any interleaving of workers: its worker can then neither
  -- stage, nor apply, nor publish, nor renew it, since each of these transactions throws that the claim
  -- is lost, a publication that begins then throws that or the error of its preview, and a release
  -- leaves the store as it is.
  pub IsLost-Run :
      (s t : Store) (log : List ℕ) (r : Run h s t log) (p : Plan) (ts : Tablets) (o : ℕ)
      (x : Tablet) (error : Option ErrorDetails) (now lease_ms : ℕ)
      → AllFresh c.claim_token r
      → IsOrdered s
      → IsLost c s
      → 0 < lease_ms
      → (publish_transaction h c now t ≡ throw claim_lost)
        × ((f : Fault) × (publish_generation h c now t ≡ throw f))
        × (stage_header h c p t ≡ throw claim_lost)
        × (stage_tablet h c o x t ≡ throw claim_lost)
        × (apply_tablet h c p o x t ≡ throw claim_lost)
        × (mark_ready h c p ts t ≡ throw claim_lost)
        × (renew_outbox_claim c now lease_ms t ≡ throw claim_lost)
        × ((y : Released) × (release_outbox_claim c error now t ≡ ok (t, y)))
  unfolding publish_transaction stage_header stage_tablet apply_tablet mark_ready renew_outbox_claim
  IsLost-Run s t log r p ts o x error now lease_ms f i l positive =
      let gone = Run-IsLost r f i l in
      let e = not_owner t gone in
      (
        rw e refl,
        publish_generation_throws now t claim_lost (rw e refl),
        rw e refl,
        rw e refl,
        rw e refl,
        rw e refl,
        rw (==-false lease_ms positive) (rw e refl),
        release_lost t gone error now (t.states c.sequence) refl,
      )
