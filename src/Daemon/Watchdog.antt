-- ===== src/Daemon/Watchdog.antt =====
-- src/daemon/watchdog-state.js: when the watchdog of the daemon reports a stall.
-- Heartbeats are only compared for equality, and stand here as natural numbers.
pub mod Stalls
use pi_sliding_context_windo.Common.{
  ℕ, ◌+◌, ◌-◌, Bool, true, false, not, ◌&&◌, ◌||◌, Option, none, some, List, [], ◌∷◌, if◌then◌else◌,
  ltb, leb, ◌==◌,
}

pub record State : Type 0 where
  pub heartbeat : ℕ
  pub heartbeat_at : ℕ
  pub inspected_at : ℕ
  pub stall_reported : Bool

-- The named arguments of an inspection.
pub record Inspection : Type 0 where
  pub heartbeat : ℕ
  pub now : ℕ
  pub stall_threshold_ms : ℕ
  pub max_inspection_gap_ms : ℕ

-- A gap is reported as the difference of the two times, which may be negative.
pub data Event : Type 0 where
  inspection_gap : ℕ → ℕ → Event
  stall : ℕ → Event

abbrev pub create_watchdog_state : ℕ → ℕ → State
create_watchdog_state heartbeat now = record {
  heartbeat = heartbeat;
  heartbeat_at = now;
  inspected_at = now;
  stall_reported = false;
}

-- `inspectionGapMs < 0 || inspectionGapMs > maxInspectionGapMs`
abbrev pub has_gap : State → Inspection → Bool
has_gap s i = ltb i.now s.inspected_at || ltb (s.inspected_at + i.max_inspection_gap_ms) i.now

-- `stallMs >= stallThresholdMs && !state.stallReported`
abbrev pub reports : State → Inspection → Bool
reports s i = leb (s.heartbeat_at + i.stall_threshold_ms) i.now && not s.stall_reported

unfoldable pub inspect_watchdog_state : State → Inspection → State × Option Event
inspect_watchdog_state s i =
    if has_gap s i
    then (create_watchdog_state i.heartbeat i.now, some (inspection_gap i.now s.inspected_at))
    else if not (i.heartbeat == s.heartbeat)
    then (create_watchdog_state i.heartbeat i.now, none)
    else (
      record s { inspected_at = i.now; stall_reported = s.stall_reported || reports s i },
      if reports s i then some (stall (i.now - s.heartbeat_at)) else none,
    )

-- Inspections in a row, and what they report.
unfoldable pub inspect_all : State → List Inspection → State × List (Option Event)
inspect_all s [] = (s, [])
inspect_all s (i ∷ is) =
    let (s', e) = inspect_watchdog_state s i in let (t, es) = inspect_all s' is in (t, e ∷ es)
