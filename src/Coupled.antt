-- ===== src/Coupled.antt =====
-- An application of src/heartbeat-shared.c and a program of src/core-allocator.c, src/frequencyscaler1.c
-- or src/frequencyscaler2.c that watches it, in one system: the monitor of the program has attached
-- the shared segments that the application writes.
--
-- The order of the events is left open. A heartbeat is one event here; Heartbeat.Stores takes it apart.
-- What the program does to the application, by the knob, is not: the times of the heartbeats are
-- any that the clock gives.
pub mod Runs
mod Tests
use heartbeats.Base.{
  ℕ, Option, none, some, List, [], ◌∷◌, ◌++◌, ◌>>=◌, ◌==◌, if◌then◌else◌, ℤ, pos, length,
}
use heartbeats.Double.{Double}
use heartbeats.Heartbeat.{HeartbeatRecord, Heartbeat, heartbeat}
use heartbeats.Monitor.{HeartRateMonitor, hrm_get_current, hrm_get_min_rate, hrm_get_max_rate}
use heartbeats.Adapt.{Pace, Reading, next}

-- The application registers a heartbeat, or the program takes one reading.
pub data Event : Type 0 where
  beat : (tag time : ℤ) → Event
  poll : Event

pub record Coupled (D K : Type 0) : Type 0 where
  pub application : Heartbeat D
  pub pace : Pace D
  pub knob : K

-- The monitor's two pointers into the application's segments.
abbrev pub attached : {D : Type 0} → Heartbeat D → HeartRateMonitor D
attached hb = record { state = some hb.state; log = hb.log }

-- The record, where the code is 0.
abbrev pub reading_of : {D : Type 0} → Option (HeartbeatRecord D) × ℕ → Reading D
reading_of (r, code) = if code == 0 then r else none

module _ {D : Type 0} ⦃d : Double D⦄ {K : Type 0} (speed_up slow_down : K → Option K)
    (window_size : ℕ) (max : ℤ) where
  -- One pass of the polling loop, with what the loop's body does if the reading ends it.
  pub take_reading : Coupled D K → Option (Coupled D K)
  unfolding next
  take_reading s = do
    answer ← hrm_get_current (attached s.application)
    lo ← hrm_get_min_rate (attached s.application)
    hi ← hrm_get_max_rate (attached s.application)
    (pace, knob) ←
        next speed_up slow_down window_size lo hi max (reading_of answer) (s.pace, s.knob)
    some (record s { pace = pace; knob = knob })

  pub step : Event → Coupled D K → Option (Coupled D K)
  step (beat tag time) s = do
    (hb, stamp) ← heartbeat s.application tag time
    some (record s { application = hb })
  step poll s = take_reading s

  pub run : List Event → Coupled D K → Option (Coupled D K)
  run [] s = some s
  run (event ∷ events) s = step event s >>= λ s'. run events s'
