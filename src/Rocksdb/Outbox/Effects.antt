-- ===== src/Rocksdb/Outbox/Effects.antt =====
-- What the claims of src/rocksdb/outbox.js change in an ordered outbox.
use pi_sliding_context_windo.Common.{
  ℕ, ◌+◌, ◌≡◌, refl, sym, ap, ◌∙◌, subst, ◌⊎◌, inl, inr, Bool, true, false, ◌&&◌, Option, none,
  some, Text, text_eq_sound, ◌==◌, ==_iff, Bool-cases, Option-cases, arith,
}
use pi_sliding_context_windo.Common.Results.{Result, ok, throw, ok_chain, throw_if_chain, ok_eq}
use pi_sliding_context_windo.Rocksdb.Outbox.{
  Fault, Status, pending, processing, processed, ErrorDetails, State, Store, Claim, update,
}
use pi_sliding_context_windo.Rocksdb.Outbox.Claims.{
  status_eq, is_number, is_text, owns, assert_claim_owner, renew_outbox_claim, Released,
  release_state, release_outbox_claim, recover_claim, recovered_state,
}
use pi_sliding_context_windo.Rocksdb.Outbox.Order.{
  next_sequence, is_processed, TokenFrom, IsNewest, IsOrdered, some_eq, Touch,
}

-- A claim that passed `assertClaimOwner`.
pub record Owned (claim : Claim) (st : State) : Type 0 where
  pub active : status_eq st.status processing ≡ true
  pub sequence : st.sequence ≡ claim.sequence
  pub generation : st.generation ≡ some claim.generation
  pub token : st.claim_token ≡ some claim.claim_token

is_number_sound : (o : Option ℕ) (n : ℕ) → is_number o n ≡ true → o ≡ some n
is_number_sound none n h = cc
is_number_sound (some m) n h = ap some ((==_iff m n).0 h)

pub is_text_sound : (o : Option Text) (t : Text) → is_text o t ≡ true → o ≡ some t
is_text_sound none t h = cc
is_text_sound (some u) t h = ap some (text_eq_sound u t h)

pub and_parts : (a b : Bool) → (a && b) ≡ true → (a ≡ true) × (b ≡ true)
and_parts true b h = (refl, h)
and_parts false b h = absurd (cc)

pub owns-Owned : (st : State) (claim : Claim) → owns st claim ≡ true → Owned claim st
unfolding owns
owns-Owned st claim h =
    let number = is_number st.generation claim.generation in
    let token = is_text st.claim_token claim.claim_token in
    let same = st.sequence == claim.sequence in
    let active = status_eq st.status processing in
    let (x, d) = and_parts (active && same && number) token h in
    let (y, c) = and_parts (active && same) number x in
    let (a, b) = and_parts active same y in
    record {
      active = a;
      sequence = (==_iff _ _).0 b;
      generation = is_number_sound _ _ c;
      token = is_text_sound _ _ d;
    }

pub assert_claim_owner-Owned :
    (o : Option State) (claim : Claim) (st : State)
    → assert_claim_owner o claim ≡ ok st
    → (o ≡ some st) × Owned claim st
unfolding assert_claim_owner
assert_claim_owner-Owned none claim st h = absurd (cc)
assert_claim_owner-Owned (some w) claim st h = elim (Bool-cases (owns w claim)) [
  | inl e ↦
      let same : w ≡ st = ok_eq {E = Fault} w st (rw e at h) in
      (ap some same, subst (Owned claim) same (owns-Owned w claim e))
  | inr e ↦
      let bad : ◌≡◌ {A = Result Fault State} (throw Fault.claim_lost) (ok st) = rw e at h in
      absurd (cc)
]

active-unprocessed : (st : State) → status_eq st.status processing ≡ true → is_processed st ≡ false
active-unprocessed st h = by_status st.status h
  where
    by_status : (x : Status) → status_eq x processing ≡ true → status_eq x processed ≡ false
    by_status pending e = refl
    by_status processing e = refl
    by_status processed e = cc

module _ (s : Store) (h : IsOrdered s) where
  -- A state that is not processed is that of the entry at the cursor.
  pub unprocessed_at :
      (q : ℕ) (st : State)
      → s.states q ≡ some st
      → is_processed st ≡ false
      → (q ≡ next_sequence s) × (st.sequence ≡ q) × IsNewest s.generation_counter s.generations st
  unprocessed_at q st e u =
      let (a, b) = h.state_at q st e in
      elim b [ inl (d, l) ↦ absurd (cc (d, u)) | inr (d, l, n) ↦ (l, a, n) ]

  pub owned_at :
      (claim : Claim) (st : State)
      → assert_claim_owner (s.states claim.sequence) claim ≡ ok st
      → (s.states claim.sequence ≡ some st)
        × (claim.sequence ≡ next_sequence s)
        × IsNewest s.generation_counter s.generations st
  owned_at claim st e =
      let (a, o) = assert_claim_owner-Owned (s.states claim.sequence) claim st e in
      let (b, c, n) = unprocessed_at claim.sequence st a (active-unprocessed st o.active) in
      (a, b, n)

  -- The state of the entry at the cursor is written again.
  rewritten :
      (q : ℕ) (st next : State) (t : Store)
      → s.states q ≡ some st
      → is_processed st ≡ false
      → next.generation ≡ st.generation
      → next.sequence ≡ q
      → is_processed next ≡ false
      → TokenFrom none s q next
      → t ≡ record s { states = update s.states q (some next) }
      → Touch none s t
  rewritten q st next t e u g k v x r =
      let (a, b, n) = unprocessed_at q st e u in
      record {
        state = next;
        counter = s.generation_counter;
        result = r ∙ ap (λ (j : ℕ). record s { states = update s.states j (some next) }) a;
        present = h.present st (subst (λ j. s.states j ≡ some st) a e);
        grows = omega arith;
        sequence = k ∙ a;
        unprocessed = v;
        token = subst (λ (j : ℕ). TokenFrom none s j next) a x;
        newest = λ j f. n j (sym g ∙ f);
      }

  pub renew-Touch :
      (claim : Claim) (now lease_ms : ℕ) (t : Store) (st : State)
      → renew_outbox_claim claim now lease_ms s ≡ ok (t, st)
      → Touch none s t
  unfolding renew_outbox_claim
  renew-Touch claim now lease_ms t st e =
      let (a, b) = throw_if_chain (lease_ms == 0) _ _ _ e in
      let (w, c, d) = ok_chain (assert_claim_owner (s.states claim.sequence) claim) _ _ b in
      let (f, o) = assert_claim_owner-Owned (s.states claim.sequence) claim w c in
      let u = active-unprocessed w o.active in
      rewritten claim.sequence w (record w { claimed_until = some (now + lease_ms) }) t f u refl
        o.sequence u (λ token k. inr (w, f, k)) (sym (ap (λ x. x.0) (ok_eq {E = Fault} _ _ d)))

  release_state-Touch :
      (claim : Claim) (error : Option ErrorDetails) (now : ℕ) (st : State) (t : Store)
      (r : Released)
      → s.states claim.sequence ≡ some st
      → release_state claim error now st s ≡ ok (t, r)
      → (t ≡ s) ⊎ Touch none s t
  unfolding release_state
  release_state-Touch claim error now st t r k e = elim (Bool-cases (is_processed st)) [
    | inl p ↦ inl (sym (ap (λ x. x.0) (ok_eq {E = Fault} _ _ (rw p at e))))
    | inr p ↦ elim (Bool-cases (is_text st.claim_token claim.claim_token)) [
      | inr q ↦ inl (sym (ap (λ x. x.0) (ok_eq {E = Fault} _ _ (rw (p, q) at e))))
      | inl q ↦
          let (w, c, d) = ok_chain (assert_claim_owner (some st) claim) _ _ (rw (p, q) at e) in
          let (f, o) = assert_claim_owner-Owned (some st) claim w c in
          let same : st ≡ w = some_eq f in
          inr (
            rewritten claim.sequence w _ t (k ∙ f) (subst (λ x. is_processed x ≡ false) same p)
              (sym o.generation) refl refl (λ token m. absurd (cc))
              (sym (ap (λ x. x.0) (ok_eq {E = Fault} _ _ d))))
    ]
  ]

  pub release-Touch :
      (claim : Claim) (error : Option ErrorDetails) (now : ℕ) (t : Store) (r : Released)
      → release_outbox_claim claim error now s ≡ ok (t, r)
      → (t ≡ s) ⊎ Touch none s t
  unfolding release_outbox_claim
  release-Touch claim error now t r e = elim (Option-cases (s.states claim.sequence)) [
    | inl p ↦ inl (sym (ap (λ x. x.0) (ok_eq {E = Fault} _ _ (rw (p, release_outbox_claim) at e))))
    | inr (st, p) ↦ release_state-Touch claim error now st t r p (rw (p, release_outbox_claim) at e)
  ]

  pub recover-Touch :
      (now q : ℕ) → (recover_claim now q s ≡ s) ⊎ Touch none s (recover_claim now q s)
  unfolding recover_claim
  recover-Touch now q = elim (Option-cases (s.states q)) [
    | inl p ↦ inl (rw (p, recover_claim) refl)
    | inr (st, p) ↦ elim (Bool-cases (status_eq st.status processing)) [
      | inr a ↦ inl (rw (p, recover_claim) (rw a refl))
      | inl a ↦
          let u = active-unprocessed st a in
          let (b, c, n) = unprocessed_at q st p u in
          inr (
            rewritten q st (recovered_state now st) (recover_claim now q s) p u refl c refl
              (λ token m. absurd (cc)) (rw (p, recover_claim) (rw a refl)))
    ]
  ]
