-- ===== src/Rocksdb/Outbox/Order.antt =====
-- What orders the outbox between two transactions, and what a transaction may change of it.
use pi_sliding_context_windo.Common.{
  ℕ, ◌+◌, ◌≤◌, ◌<◌, ◌≡◌, refl, sym, ◌∙◌, subst, ◌≢◌, ◌⊎◌, inl, inr, Bool, true, false, Option, none,
  some, Text, ◌==◌, ==_iff, Bool-cases, arith,
}
use pi_sliding_context_windo.Common.Results.{ok}
use pi_sliding_context_windo.Rocksdb.Outbox.{Payload, processed, State, Publication, Store, update}
use pi_sliding_context_windo.Rocksdb.Outbox.Claims.{cursor_sequence, status_eq, or_else}

-- The sequence that the cursor stands at.
abbrev pub next_sequence : Store → ℕ
next_sequence s = or_else s.cursor 1

abbrev pub is_processed : State → Bool
is_processed st = status_eq st.status processed

-- The generation of an entry that is not processed is allocated, and above all published ones.
abbrev pub IsNewest : ℕ → (ℕ → Option Publication) → State → Type 0
IsNewest counter generations st =
    (g : ℕ)
    → st.generation ≡ some g
    → ((0 < g) × (g ≤ counter)) × ((j : ℕ) (p : Publication) → generations j ≡ some p → j < g)

-- The state of an entry is processed below the cursor; the only other one is that at the cursor.
abbrev pub Fits : ℕ → ℕ → (ℕ → Option Publication) → ℕ → State → Type 0
Fits next counter generations q st =
    (st.sequence ≡ q)
    × (((is_processed st ≡ true) × (q < next))
        ⊎ ((is_processed st ≡ false) × (q ≡ next) × IsNewest counter generations st))

pub record IsOrdered (s : Store) : Type 0 where
  pub positive : 0 < next_sequence s
  pub within : next_sequence s ≤ s.outbox_counter + 1
  pub entry_at :
      (q : ℕ)
      → next_sequence s ≤ q
      → q ≤ s.outbox_counter
      → (p : Payload) × (s.entries q ≡ some p) × (p.sequence ≡ q)
  pub no_entry : (q : ℕ) → s.outbox_counter < q → s.entries q ≡ none
  pub state_at :
      (q : ℕ) (st : State)
      → s.states q ≡ some st
      → Fits (next_sequence s) s.generation_counter s.generations q st
  pub present :
      (st : State) → s.states (next_sequence s) ≡ some st → next_sequence s ≤ s.outbox_counter
  pub published_below :
      (g : ℕ) (p : Publication)
      → s.generations g ≡ some p
      → (p.outbox_sequence < next_sequence s) × (g ≤ s.generation_counter)
  pub published_in_order :
      (g j : ℕ) (p r : Publication)
      → s.generations g ≡ some p
      → s.generations j ≡ some r
      → g < j
      → p.outbox_sequence < r.outbox_sequence

pub update_self : {V : Type 0} (f : ℕ → Option V) (k : ℕ) (v : Option V) → update f k v k ≡ v
update_self f k v = rw ((==_iff k k).1 refl) refl

pub update_other :
    {V : Type 0} (f : ℕ → Option V) (k : ℕ) (v : Option V) (j : ℕ) → k ≢ j → update f k v j ≡ f j
update_other f k v j h = elim (Bool-cases (k == j)) [
  | inl e ↦ absurd (h ((==_iff k j).0 e))
  | inr e ↦ rw e refl
]

-- What is found after a write is what was written or was there before.
pub update_found :
    {V : Type 0} (f : ℕ → Option V) (k : ℕ) (v : Option V) (j : ℕ) {w : V}
    → update f k v j ≡ some w
    → ((k ≡ j) × (v ≡ some w)) ⊎ ((k ≢ j) × (f j ≡ some w))
update_found f k v j h = elim (Bool-cases (k == j)) [
  | inl e ↦ inl ((==_iff k j).0 e, rw e at h)
  | inr e ↦ inr (λ (p : k ≡ j). cc ((==_iff k j).1 p), rw e at h)
]

pub some_eq : {V : Type 0} {v w : V} → ◌≡◌ {A = Option V} (some v) (some w) → v ≡ w
some_eq h = cc

-- The token of a state is fresh or was that of the state before.
abbrev pub TokenFrom : Option Text → Store → ℕ → State → Type 0
TokenFrom fresh s q st =
    (token : Text)
    → st.claim_token ≡ some token
    → (fresh ≡ some token) ⊎ ((w : State) × (s.states q ≡ some w) × (w.claim_token ≡ some token))

-- An entry at the cursor has a new state, which is not processed.
pub record Touch (fresh : Option Text) (s t : Store) : Type 0 where
  pub state : State
  pub counter : ℕ
  pub result : t ≡ record s {
    states = update s.states (next_sequence s) (some state);
    generation_counter = counter;
  }
  pub present : next_sequence s ≤ s.outbox_counter
  pub grows : s.generation_counter ≤ counter
  pub sequence : state.sequence ≡ next_sequence s
  pub unprocessed : is_processed state ≡ false
  pub token : TokenFrom fresh s (next_sequence s) state
  pub newest : IsNewest counter s.generations state

cursor_known : (c : Option ℕ) → 0 < or_else c 1 → cursor_sequence c ≡ ok (or_else c 1)
unfolding cursor_sequence
cursor_known none p = refl
cursor_known (some n) p = ground arith

module _ (s : Store) (h : IsOrdered s) where
  pub cursor_sequence-next : cursor_sequence s.cursor ≡ ok (next_sequence s)
  cursor_sequence-next = cursor_known s.cursor h.positive

  touched-IsOrdered :
      (st : State) (counter : ℕ)
      → s.generation_counter ≤ counter
      → st.sequence ≡ next_sequence s
      → is_processed st ≡ false
      → IsNewest counter s.generations st
      → next_sequence s ≤ s.outbox_counter
      → IsOrdered (record s {
        states = update s.states (next_sequence s) (some st);
        generation_counter = counter;
      })
  touched-IsOrdered st counter c q u n r = record {
    positive = h.positive;
    within = h.within;
    entry_at = h.entry_at;
    no_entry = h.no_entry;
    state_at = λ j w e. elim (update_found s.states (next_sequence s) (some st) j e) [
      | inl (k, v) ↦
          subst (Fits (next_sequence s) counter s.generations j) (some_eq v)
            (q ∙ k, inr (u, sym k, n))
      | inr (k, v) ↦
          let (a, b) = h.state_at j w v in
          (a, elim b [ inl (d, l) ↦ inl (d, l) | inr (d, l, newest) ↦ absurd (k (sym l)) ])
    ];
    present = λ w e. r;
    published_below = λ g p e. let (a, b) = h.published_below g p e in (a, omega (arith, b, c));
    published_in_order = h.published_in_order;
  }

  pub Touch-IsOrdered : {fresh : Option Text} {t : Store} → Touch fresh s t → IsOrdered t
  Touch-IsOrdered p =
      subst IsOrdered (sym p.result)
        (touched-IsOrdered p.state p.counter p.grows p.sequence p.unprocessed p.newest p.present)
