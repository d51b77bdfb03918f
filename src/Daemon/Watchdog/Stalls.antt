-- ===== src/Daemon/Watchdog/Stalls.antt =====
-- How often and when the watchdog of src/daemon/watchdog-state.js reports a stall.
use pi_sliding_context_windo.Common.{
  ℕ, ◌+◌, ◌≤◌, ◌<◌, ◌-◌, ◌++◌, refl, ap, inl, inr, Bool-cases, ◌≡◌, ◌↔◌, sym, ◌∙◌, Bool, true,
  false, ◌&&◌, ◌||◌, not, leb, ◌==◌, Option, none, some, List, [], ◌∷◌, arith, if◌then◌else◌, All,
  count_if,
}
use mathlib.Core.Bool.{false≢true}
use pi_sliding_context_windo.Daemon.Watchdog.{
  create_watchdog_state, has_gap, State, Inspection, Event, inspection_gap, stall,
  inspect_watchdog_state, inspect_all,
}

abbrev pub is_stall : Option Event → Bool
is_stall none = false
is_stall (some (stall ms)) = true
is_stall (some (inspection_gap now last)) = false

abbrev pub is_gap : Option Event → Bool
is_gap none = false
is_gap (some (stall ms)) = false
is_gap (some (inspection_gap now last)) = true

same_heartbeat :
    (s : State) (i : Inspection)
    → i.heartbeat ≡ s.heartbeat
    → is_gap (inspect_watchdog_state s i).1 ≡ false
    → ((inspect_watchdog_state s i).0.heartbeat ≡ s.heartbeat)
      × ((inspect_watchdog_state s i).0.stall_reported
          ≡ (s.stall_reported || is_stall (inspect_watchdog_state s i).1))
      × ((s.stall_reported && is_stall (inspect_watchdog_state s i).1) ≡ false)
unfolding inspect_watchdog_state
same_heartbeat s i h g = (ground arith, ground arith, ground arith)

All-heartbeat :
    (a b : ℕ) (is : List Inspection)
    → a ≡ b
    → All (λ i. i.heartbeat ≡ a) is
    → All (λ i. i.heartbeat ≡ b) is
All-heartbeat a b [] e h = tt
All-heartbeat a b (i ∷ is) e h = (h.0 ∙ e, All-heartbeat a b is e h.1)

-- In a row of inspections that are on time and see the same heartbeat, a stall is reported at most
-- once, and never if it was reported before.
pub inspect_all-once :
    (s : State) (is : List Inspection)
    → All (λ i. i.heartbeat ≡ s.heartbeat) is
    → All (λ e. is_gap e ≡ false) (inspect_all s is).1
    → count_if is_stall (inspect_all s is).1 ≤ (if s.stall_reported then 0 else 1)
unfolding inspect_all
inspect_all-once s [] h g = omega arith
inspect_all-once s (i ∷ is) h g =
    let (t, e) = inspect_watchdog_state s i in
    let (b, r, n) = same_heartbeat s i h.0 g.0 in
    let rest = inspect_all-once t is (All-heartbeat s.heartbeat t.heartbeat is (sym b) h.1) g.1 in
    ground (arith, rest, r, n)

-- The inspection starts the age of a heartbeat: it sees another one, or it is not on time.
abbrev pub starts_over : State → Inspection → Bool
starts_over s i = has_gap s i || not (i.heartbeat == s.heartbeat)

-- Inspections that are each on time after the one before, and see one heartbeat.
abbrev pub Steady : (heartbeat last : ℕ) → List Inspection → Type 0
Steady heartbeat last [] = Unit
Steady heartbeat last (i ∷ is) =
    (i.heartbeat ≡ heartbeat)
    × (last ≤ i.now)
    × (i.now ≤ last + i.max_inspection_gap_ms)
    × Steady heartbeat i.now is

abbrev pub last_time : ℕ → List Inspection → ℕ
last_time last [] = last
last_time last (i ∷ is) = last_time i.now is

abbrev pub is_due : ℕ → Inspection → Bool
is_due since i = leb (since + i.stall_threshold_ms) i.now

abbrev pub any_due : ℕ → List Inspection → Bool
any_due since [] = false
any_due since (i ∷ is) = is_due since i || any_due since is

start_state :
    (s : State) (i : Inspection)
    → starts_over s i ≡ true
    → (inspect_watchdog_state s i).0 ≡ create_watchdog_state i.heartbeat i.now
unfolding inspect_watchdog_state
start_state s i h = elim (Bool-cases (has_gap s i)) [
  | inl t ↦ rw t refl
  | inr f ↦ elim (Bool-cases (i.heartbeat == s.heartbeat)) [
    | inl t ↦ absurd (ground (arith, h, f, t))
    | inr g ↦ rw (f, g) refl
  ]
]

-- A state, an inspection that is on time for it and sees its heartbeat, and what comes of it.
module _ (heartbeat since last : ℕ) (reported : Bool) where
  abbrev watched_state : State
  watched_state = record {
    heartbeat = heartbeat;
    heartbeat_at = since;
    inspected_at = last;
    stall_reported = reported;
  }

  steady_inspection :
      (i : Inspection)
      → i.heartbeat ≡ heartbeat
      → last ≤ i.now
      → i.now ≤ last + i.max_inspection_gap_ms
      → inspect_watchdog_state watched_state i ≡ (
        record {
          heartbeat = heartbeat;
          heartbeat_at = since;
          inspected_at = i.now;
          stall_reported = reported || (is_due since i && not reported);
        },
        if is_due since i && not reported then some (stall (i.now - since)) else none,
      )
  unfolding inspect_watchdog_state
  steady_inspection i e l u =
      let g : has_gap watched_state i ≡ false = ground (arith, l, u) in
      let k : (i.heartbeat == heartbeat) ≡ true = ground (arith, e) in rw (g, k) refl

reported_once : (r d a : Bool) → ((r || (d && not r)) || a) ≡ (r || (d || a))
reported_once true d a = refl
reported_once false true a = refl
reported_once false false a = refl

reported_none : (r : Bool) → r ≡ (r || false)
reported_none true = refl
reported_none false = refl

-- While the inspections are steady the age of the heartbeat is counted from one time on.
inspect_all-state :
    (heartbeat since last : ℕ) (reported : Bool) (is : List Inspection)
    → Steady heartbeat last is
    → (inspect_all (watched_state heartbeat since last reported) is).0
      ≡ watched_state heartbeat since (last_time last is) (reported || any_due since is)
unfolding inspect_all
inspect_all-state heartbeat since last reported [] h =
    ap (watched_state heartbeat since last) (reported_none reported)
inspect_all-state heartbeat since last reported (i ∷ is) h =
    ap (λ (x : State × Option Event). (inspect_all x.0 is).0)
      (steady_inspection heartbeat since last reported i h.0 h.1 h.2)
    ∙ inspect_all-state heartbeat since i.now (reported || (is_due since i && not reported)) is h.3
    ∙ ap (watched_state heartbeat since (last_time i.now is))
        (reported_once reported (is_due since i) (any_due since is))

Steady-last :
    (heartbeat last : ℕ) (is : List Inspection) (i : Inspection)
    → Steady heartbeat last (is ++ i ∷ [])
    → Steady heartbeat last is
      × (i.heartbeat ≡ heartbeat)
      × (last_time last is ≤ i.now)
      × (i.now ≤ last_time last is + i.max_inspection_gap_ms)
Steady-last heartbeat last [] i h = (tt, h.0, h.1, h.2)
Steady-last heartbeat last (j ∷ is) i h =
    let (a, b, c, d) = Steady-last heartbeat j.now is i h.3 in ((h.0, h.1, h.2, a), b, c, d)

-- None of the inspections finds the heartbeat as old as its threshold.
abbrev pub NoneDue : ℕ → List Inspection → Type 0
NoneDue since = All (λ (j : Inspection). j.now < since + j.stall_threshold_ms)

any_due-NoneDue : (since : ℕ) (is : List Inspection) → (any_due since is ≡ false) ↔ NoneDue since is
any_due-NoneDue since [] = (λ e. tt, λ h. refl)
any_due-NoneDue since (i ∷ is) =
    let (f, g) = any_due-NoneDue since is in
    (
      λ e. (ground (arith, e), f (ground (arith, e))),
      λ h. let rest = g h.1 in let l = h.0 in ground (arith, rest, l),
    )

age_of : Option Event → ℕ
age_of (some (stall ms)) = ms
age_of _ = 0

stall_eq : (a b : ℕ) → some (stall a) ≡ some (stall b) → a ≡ b
unfolding age_of
stall_eq a b e = ap age_of e

stall_event :
    (due reported : Bool) (since now ms : ℕ)
    → (due ≡ true → since ≤ now)
    → ((if due && not reported then some (stall (now - since)) else none) ≡ some (stall ms))
      ↔ ((due ≡ true) × (reported ≡ false) × (since + ms ≡ now))
stall_event true true since now ms l = (λ e. absurd (cc), λ h. absurd (false≢true (sym h.1)))
stall_event false reported since now ms l = (λ e. absurd (cc), λ h. absurd (false≢true h.0))
stall_event true false since now ms l = (
  λ e. (refl, refl, omega (arith, stall_eq (now - since) ms e, l refl)),
  λ h. ap (λ x. some (stall x)) (omega (arith, h.2)),
)

-- From an inspection on that sees another heartbeat than the state before, or is not on time after it,
-- let the inspections be on time and see this inspection's heartbeat. Then the last of them reports a
-- stall exactly if the heartbeat has been seen for its threshold and no one before found it so old for
-- its own threshold, and the stall is as long as the time since that first inspection.
pub inspect_all-stall :
    (s : State) (first : Inspection) (during : List Inspection) (i : Inspection) (ms : ℕ)
    → starts_over s first ≡ true
    → Steady first.heartbeat first.now (during ++ i ∷ [])
    → let started = (inspect_watchdog_state s first).0 in
      ((inspect_watchdog_state (inspect_all started during).0 i).1 ≡ some (stall ms)) ↔ (
        (first.now + i.stall_threshold_ms ≤ i.now)
        × NoneDue first.now during
        × (first.now + ms ≡ i.now))
inspect_all-stall s first during i ms starts h =
    let (steady, same, l, u) = Steady-last first.heartbeat first.now during i h in
    let at =
      ap (λ x. (inspect_all x during).0) (start_state s first starts)
      ∙ inspect_all-state first.heartbeat first.now first.now false during steady in
    let event =
      ap (λ x. (inspect_watchdog_state x i).1) at
      ∙ ap (λ (x : State × Option Event). x.1)
          (steady_inspection first.heartbeat first.now (last_time first.now during)
            (any_due first.now during) i same l u) in
    let (f, g) =
      stall_event (is_due first.now i) (any_due first.now during) first.now i.now ms
        (λ d. ground (arith, d)) in
    let (p, q) = any_due-NoneDue first.now during in
    (
      λ e. let (a, b, c) = f (sym event ∙ e) in (ground (arith, a), p b, c),
      λ c. let d = c.0 in event ∙ g (ground (arith, d), q c.1, c.2),
    )
