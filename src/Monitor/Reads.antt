-- ===== src/Monitor/Reads.antt =====
-- What a monitor reads of an application that is registered.
use heartbeats.Base.{
  ℕ, ◌≤◌, ◌≡◌, refl, none, some, List, [], ◌∷◌, arith, length, true, false, ℤ, pos, ◌≤ℤ◌,
  get_elem?_fault, length-append,
}
use heartbeats.Double.{Double}
use heartbeats.Heartbeat.{HeartbeatRecord, Heartbeat, hb_get_history, heartbeat, hb_get_current}
use heartbeats.Heartbeat.Invariant.{IsLogging}
use heartbeats.Heartbeat.Beat.{heartbeat-HasLogged}
use heartbeats.Monitor.{
  HeartRateMonitor, hrm_get_current, hrm_get_history, hrm_get_global_rate, hrm_get_windowed_rate,
}

module _ {D : Type 0} where
  -- The monitor that has attached the segments of `hb`.
  abbrev pub monitor_of : Heartbeat D → HeartRateMonitor D
  monitor_of hb = record { state = some hb.state; log = hb.log }

  -- Before the first heartbeat a monitor gets the code 1 and no record.
  pub no_beat_yet :
      (blocks : List (HeartbeatRecord D)) (hb : Heartbeat D)
      → IsLogging [] blocks hb
      → hrm_get_current (monitor_of hb) ≡ some (none, 1)
  unfolding hrm_get_current
  no_beat_yet blocks hb logging =
      let off : hb.state.valid ≡ false = ground (arith, logging.started, logging.counted) in rw off

  -- Where `valid` is set, a monitor reads what the application itself reads.
  pub hrm_get_current-latest :
      (hb : Heartbeat D) (r : HeartbeatRecord D)
      → hb.state.valid ≡ true
      → hb_get_current hb ≡ some r
      → hrm_get_current (monitor_of hb) ≡ some (some r, 0)
  unfolding hrm_get_current hb_get_current
  hrm_get_current-latest hb r on e = rw (on, e) refl

module _ {D : Type 0} ⦃d : Double D⦄ where
  -- After a heartbeat a monitor gets the code 0 and the record of that very beat.
  pub hrm_get_current-heartbeat :
      (past blocks : List (HeartbeatRecord D)) (hb : Heartbeat D) (tag time : ℤ)
      → IsLogging past blocks hb
      → pos 0 ≤ℤ time
      → (next : Heartbeat D) × (entry : HeartbeatRecord D) × (heartbeat hb tag time
          ≡ some (next, time))
        × (hrm_get_current (monitor_of next) ≡ some (some entry, 0))
        × (entry.beat ≡ length past)
        × (entry.tag ≡ tag)
        × (entry.timestamp ≡ time)
  unfolding hrm_get_current hb_get_current
  hrm_get_current-heartbeat past blocks hb tag time logging nonneg =
      let one = heartbeat-HasLogged past blocks hb logging tag time nonneg in
      let on : one.next.state.valid ≡ true =
        ground
          (arith, one.logging.started, one.logging.counted, length-append past (one.entry ∷ [])) in
      (one.next, one.entry, one.returned, rw (on, one.current), one.beat, one.tagged, one.timed)

module _ {D : Type 0} (past blocks : List (HeartbeatRecord D)) (hb : Heartbeat D)
    (logging : IsLogging past blocks hb) where
  -- The monitor's copy of the history is that of the application, faults included.
  pub hrm_get_history-hb_get_history :
      (records : List (HeartbeatRecord D)) (n : ℕ)
      → hrm_get_history (monitor_of hb) records n ≡ hb_get_history hb records n
  unfolding hrm_get_history hb_get_history
  hrm_get_history-hb_get_history records n = refl

  -- A monitor that asks for a rate reads at the number of beats instead of the last record: as soon
  -- as there are as many beats as the ring has records, it reads outside the ring.
  pub hrm_rates_fault :
      hb.state.buffer_depth ≤ length past
      → (hrm_get_global_rate (monitor_of hb) ≡ none)
        × (hrm_get_windowed_rate (monitor_of hb) ≡ none)
  unfolding hrm_get_global_rate hrm_get_windowed_rate
  hrm_rates_fault full =
      let out = get_elem?_fault hb.log hb.state.counter (omega (arith, logging)) in (rw out, rw out)
