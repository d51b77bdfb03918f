-- ===== src/Rocksdb/Outbox/Changes.antt =====
-- What the other transactions of src/rocksdb/outbox.js change in an ordered outbox: staging leaves the
-- queue alone, a publication advances it, a cleanup prunes it behind the cursor, an admission extends it.
use pi_sliding_context_windo.Common.{
  ℕ, ◌+◌, ◌-◌, ◌≤◌, ◌<◌, ◌≡◌, refl, sym, ap, ◌∙◌, subst, ◌≢◌, inl, inr, true, false, Option, none,
  some, Text, ltb, ltb→lt, ◌==◌, ==_iff, Bool-cases, arith,
}
use pi_sliding_context_windo.Common.Results.{ok, ok_chain, ok_eq}
use pi_sliding_context_windo.Rocksdb.Outbox.{
  Fault, Payload, State, Tablet, Plan, Applied, Ready, Publication, Published, Preparation, Store,
  update, increment, max_safe_integer,
}
use pi_sliding_context_windo.Rocksdb.Outbox.Cleanup.{enqueue, pruned, remove_at, finish_cleanup}
use pi_sliding_context_windo.Rocksdb.Outbox.Order.{
  next_sequence, is_processed, Fits, IsOrdered, update_other, update_found, some_eq,
}

pub record Aside (s t : Store) : Type 0 where
  pub stages : ℕ → Option Plan
  pub stage_tablets : ℕ → ℕ → Option Tablet
  pub applied : ℕ → ℕ → Option Applied
  pub ready : ℕ → Option Ready
  pub derived : Text → Option Text
  pub result : t ≡ record s {
    stages = stages;
    stage_tablets = stage_tablets;
    applied = applied;
    ready = ready;
    derived = derived;
  }

pub record Advance (s t : Store) : Type 0 where
  pub generation : ℕ
  pub publication : Publication
  pub state : State
  pub derived : Text → Option Text
  pub published : Option Published
  pub preparation : Option Preparation
  pub result : t ≡ record s {
    derived = derived;
    published = published;
    preparation = preparation;
    generations = update s.generations generation (some publication);
    cursor = some (next_sequence s + 1);
    states = update s.states (next_sequence s) (some state);
  }
  -- the entry is there
  pub present : next_sequence s ≤ s.outbox_counter
  pub sequence : state.sequence ≡ next_sequence s
  pub is_done : is_processed state ≡ true
  pub released : state.claim_token ≡ none
  pub publishes : publication.outbox_sequence ≡ next_sequence s
  pub bounded : generation ≤ s.generation_counter
  pub newest : (j : ℕ) (p : Publication) → s.generations j ≡ some p → j < generation

pub remove_found :
    {V : Type 0} (f : ℕ → Option V) (o : Option ℕ) (j : ℕ) {w : V}
    → remove_at f o j ≡ some w
    → f j ≡ some w
remove_found f none j e = e
remove_found f (some k) j e = elim (update_found f k none j e) [
  | inl (p, q) ↦ absurd (cc)
  | inr (p, q) ↦ q
]

remove_none :
    {V : Type 0} (f : ℕ → Option V) (o : Option ℕ) (j : ℕ) → f j ≡ none → remove_at f o j ≡ none
remove_none f none j e = e
remove_none f (some k) j e = elim (Bool-cases (k == j)) [ inl p ↦ rw p refl | inr p ↦ rw p e ]

differ : (m n : ℕ) → (m == n) ≡ false → m ≢ n
differ m n e p = cc ((==_iff m n).1 p)

remove_kept :
    {V : Type 0} (f : ℕ → Option V) (sequence retained j : ℕ)
    → sequence ≤ j
    → 0 < retained
    → remove_at f (pruned sequence retained) j ≡ f j
remove_kept f sequence retained j l p = elim (Bool-cases (ltb 0 (sequence - retained))) [
  | inl e ↦ rw e (
      update_other f (sequence - retained) none j
        (λ k. omega (arith, ltb→lt 0 (sequence - retained) e, k, l, p)))
  | inr e ↦ rw e refl
]

module _ (s : Store) (h : IsOrdered s) where
  pub Aside-IsOrdered : {t : Store} → Aside s t → IsOrdered t
  Aside-IsOrdered a = subst IsOrdered (sym a.result) (record {
    positive = h.positive;
    within = h.within;
    entry_at = h.entry_at;
    no_entry = h.no_entry;
    state_at = h.state_at;
    present = h.present;
    published_below = h.published_below;
    published_in_order = h.published_in_order;
  })

  module _ {t : Store} (a : Advance s t) where
    abbrev next : ℕ
    next = next_sequence s

    abbrev after : ℕ → Option Publication
    after = update s.generations a.generation (some a.publication)

    advanced_state :
        (q : ℕ) (st : State)
        → update s.states next (some a.state) q ≡ some st
        → Fits (next + 1) s.generation_counter after q st
    advanced_state q st e = elim (update_found s.states next (some a.state) q e) [
      | inl (k, v) ↦
          subst (Fits (next + 1) s.generation_counter after q) (some_eq v)
            (a.sequence ∙ k, inl (a.is_done, omega (arith, k)))
      | inr (k, v) ↦
          let (b, c) = h.state_at q st v in
          (
            b,
            elim c [ inl (d, l) ↦ inl (d, omega (arith, l)) | inr (d, l, n) ↦ absurd (k (sym l)) ],
          )
    ]

    advanced_below :
        (g : ℕ) (p : Publication)
        → after g ≡ some p
        → (p.outbox_sequence < next + 1) × (g ≤ s.generation_counter)
    advanced_below g p e = elim (update_found s.generations a.generation (some a.publication) g e) [
      | inl (k, v) ↦ (
        omega (arith, a.publishes, ap (λ (x : Publication). x.outbox_sequence) (some_eq v)),
        omega (arith, a.bounded, k),
      )
      | inr (k, v) ↦ let (b, c) = h.published_below g p v in (omega (arith, b), c)
    ]

    advanced_in_order :
        (g j : ℕ) (p r : Publication)
        → after g ≡ some p
        → after j ≡ some r
        → g < j
        → p.outbox_sequence < r.outbox_sequence
    advanced_in_order g j p r e f l =
        elim (update_found s.generations a.generation (some a.publication) g e) [
          | inl (k, v) ↦ elim (update_found s.generations a.generation (some a.publication) j f) [
            | inl (m, w) ↦ absurd (omega (arith, k, m, l))
            | inr (m, w) ↦ absurd (omega (arith, a.newest j r w, k, l))
          ]
          | inr (k, v) ↦ elim (update_found s.generations a.generation (some a.publication) j f) [
            | inl (m, w) ↦ omega (
              arith,
              (h.published_below g p v).0,
              a.publishes,
              ap (λ (x : Publication). x.outbox_sequence) (some_eq w),
            )
            | inr (m, w) ↦ h.published_in_order g j p r v w l
          ]
        ]

    advanced_present :
        (st : State)
        → update s.states next (some a.state) (next + 1) ≡ some st
        → next + 1 ≤ s.outbox_counter
    advanced_present st e = elim (update_found s.states next (some a.state) (next + 1) e) [
      | inl (k, v) ↦ absurd (omega (arith, k))
      | inr (k, v) ↦ elim (h.state_at (next + 1) st v).1 [
        | inl (d, l) ↦ absurd (omega (arith, l))
        | inr (d, l, n) ↦ absurd (omega (arith, l))
      ]
    ]

    pub Advance-IsOrdered : IsOrdered t
    Advance-IsOrdered = subst IsOrdered (sym a.result) (record {
      positive = omega arith;
      within = omega (arith, a.present);
      entry_at = λ q l m. h.entry_at q (omega (arith, l)) m;
      no_entry = h.no_entry;
      state_at = advanced_state;
      present = advanced_present;
      published_below = advanced_below;
      published_in_order = advanced_in_order;
    })

  -- A cleanup that prunes behind the cursor.
  pub finish_cleanup-IsOrdered :
      (generation sequence retained : ℕ)
      → sequence < next_sequence s
      → 0 < retained
      → IsOrdered (finish_cleanup generation sequence retained s)
  unfolding finish_cleanup
  finish_cleanup-IsOrdered generation sequence retained l p = record {
    positive = h.positive;
    within = h.within;
    entry_at = λ q a b.
        let (r, c, d) = h.entry_at q a b in
        (r, remove_kept s.entries sequence retained q (omega (arith, l, a)) p ∙ c, d);
    no_entry = λ q a. removed_entry q (h.no_entry q a);
    state_at = λ q st e.
        let (a, b) = h.state_at q st (remove_found s.states (pruned sequence retained) q e) in
        (
          a,
          elim b [
            | inl (c, d) ↦ inl (c, d)
            | inr (c, d, n) ↦
                inr (c, d, λ g f. let (u, v) = n g f in (u, λ j r k. v j r (found j k)))
          ],
        );
    present =
        λ st e. h.present st (remove_found s.states (pruned sequence retained) (next_sequence s) e);
    published_below = λ g r e. h.published_below g r (found g e);
    published_in_order = λ g j r u e f m. h.published_in_order g j r u (found g e) (found j f) m;
  }
    where
      found :
          (j : ℕ) {r : Publication}
          → remove_at s.generations (pruned generation retained) j ≡ some r
          → s.generations j ≡ some r
      found j = remove_found s.generations (pruned generation retained) j

      removed_entry :
          (q : ℕ) → s.entries q ≡ none → remove_at s.entries (pruned sequence retained) q ≡ none
      removed_entry q e = remove_none s.entries (pruned sequence retained) q e

  pub enqueue-IsOrdered :
      (payload : Payload) (t : Store) (q : ℕ) → enqueue payload s ≡ ok (t, q) → IsOrdered t
  unfolding enqueue
  enqueue-IsOrdered payload t q e =
      let (n, a, b) = ok_chain (increment s.outbox_counter) _ _ e in
      let same : s.outbox_counter + 1 ≡ n =
        elim (Bool-cases (ltb max_safe_integer (s.outbox_counter + 1))) [
          | inl c ↦ absurd (cc (rw c at a))
          | inr c ↦ ok_eq {E = Fault} (s.outbox_counter + 1) n (rw c at a)
        ] in
      subst IsOrdered (ap (λ x. x.0) (ok_eq {E = Fault} _ _ b)) (record {
        positive = h.positive;
        within = omega (arith, h.within, same);
        entry_at = λ j l m. elim (Bool-cases (n == j)) [
          | inl c ↦ (record payload { sequence = n }, rw c refl, (==_iff n j).0 c)
          | inr c ↦
              let (r, u, v) = h.entry_at j l (omega (arith, m, same, differ n j c)) in
              (r, rw c u, v)
        ];
        no_entry = λ j l.
            update_other s.entries n _ j (λ k. omega (arith, k, l))
            ∙ h.no_entry j (omega (arith, l, same));
        state_at = h.state_at;
        present = λ st e. omega (arith, h.present st e, same);
        published_below = h.published_below;
        published_in_order = h.published_in_order;
      })

pub enqueue-cursor :
    (s : Store) (payload : Payload) (t : Store) (q : ℕ)
    → enqueue payload s ≡ ok (t, q)
    → t.cursor ≡ s.cursor
unfolding enqueue
enqueue-cursor s payload t q e =
    let (n, a, b) = ok_chain (increment s.outbox_counter) _ _ e in
    sym (ap (λ x. x.0.cursor) (ok_eq {E = Fault} _ (t, q) b))

pub enqueue-states :
    (s : Store) (payload : Payload) (t : Store) (q : ℕ)
    → enqueue payload s ≡ ok (t, q)
    → t.states ≡ s.states
unfolding enqueue
enqueue-states s payload t q e =
    let (n, a, b) = ok_chain (increment s.outbox_counter) _ _ e in
    sym (ap (λ x. x.0.states) (ok_eq {E = Fault} _ (t, q) b))
