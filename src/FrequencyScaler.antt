-- ===== src/FrequencyScaler.antt =====
-- src/frequencyscaler.c: a process that scales the frequency of the machine, and does not skip a beat
-- that it has seen.
--
-- The command of `cpufreq-set` is kept as its frequency in MHz. A reading is what one call of
-- `hrm_get_current` gives: `none` where it does not return 0. The inner loop polls until a reading
-- has a rate, so a run is over the list of readings.
pub mod Repeats
mod Tests
use heartbeats.Base.{
  ℕ, suc, ◌+◌, ◌-◌, ◌%◌, ◌/◌, ◌^◌, Bool, not, Option, none, some, List, [], ◌∷◌, ◌++◌,
  if◌then◌else◌, ltb, leb, ◌>>=◌, get_elem?, store, ℤ, pos, ◌+ℤ◌, ◌-ℤ◌, ltb_ℤ, to_int32, int_of_u64,
  add64,
}
use heartbeats.Double.{Double}
use heartbeats.Heartbeat.{HeartbeatRecord}
use heartbeats.Monitor.{HeartRateMonitor, hrm_get_window_size}
use heartbeats.FrequencyTable.{get_available_freqs_size, store_available_freqs, get_init_frequency}
use heartbeats.Adapt.{HeartData, Pace, Reading, first_pace}
use heartbeats.Adapt.Start.{Started, waiting, exited, ready, first_listing}

pub record Scaler : Type 0 where
  pub current_counter : ℕ
  pub commands : List ℕ

-- `speed` is an `unsigned long`, and its low 32 bits are divided.
pub get_speed : ℕ → ℕ
get_speed speed =
    let rounded =
      if ltb 1000000 speed
      then (if leb 5000 (speed % 10000) then add64 speed 10000 else speed)
      else if ltb 100000 speed
      then (if leb 500 (speed % 1000) then add64 speed 1000 else speed)
      else if ltb 1000 speed
      then (if leb 50 (speed % 100) then add64 speed 100 else speed)
      else speed in
    rounded % 2 ^ 32 / 1000

module _ (available_freqs : List ℕ) where
  abbrev pub set_frequency : Scaler → Option Scaler
  set_frequency scaler = do
    freq ← get_elem? available_freqs scaler.current_counter
    some (record scaler { commands = scaler.commands ++ (get_speed freq ∷ []) })

  module _ {D : Type 0} ⦃d : Double D⦄ (current window_size : ℕ) (lo hi : D) where
    open d use {of_int, lt, eq}

    -- The branch of the loop for a rate below the target, with the next `wait_for`.
    abbrev pub speed_up : ℤ → ℤ → Scaler → Option (Scaler × ℤ)
    speed_up beat wait_for scaler =
        if ltb 0 scaler.current_counter
        then (set_frequency (record scaler { current_counter = scaler.current_counter - 1 })
            >>= λ scaler'. some (scaler', to_int32 (beat +ℤ pos window_size)))
        else some (scaler, wait_for)

    -- The branch for a rate above the target. It sets `wait_for` whether or not it has changed the
    -- frequency.
    abbrev pub slow_down : ℤ → Scaler → Option (Scaler × ℤ)
    slow_down beat scaler =
        if ltb scaler.current_counter current
        then (set_frequency (record scaler { current_counter = scaler.current_counter + 1 })
            >>= λ scaler'. some (scaler', to_int32 (beat +ℤ pos window_size)))
        else some (scaler, to_int32 (beat +ℤ pos window_size))

    -- The body of the loop, once the inner loop has ended with the record `r`.
    pub iteration : HeartbeatRecord D → Pace D × Scaler → Option (Pace D × Scaler)
    iteration r (pace, scaler) =
        let beat = int_of_u64 r.beat in
        if ltb_ℤ beat pace.wait_for
        then some (record pace { current_beat = beat; current_beat_prev = beat }, scaler)
        else (do
          (scaler', wait_for) ←
              if lt r.window_rate lo
              then speed_up beat pace.wait_for scaler
              else if lt hi r.window_rate
              then slow_down beat scaler
              else some (scaler, beat +ℤ pos 1)
          records ← store pace.records pace.i (record { tag = beat; rate = r.window_rate })
          some (
            record {
              current_beat = beat;
              current_beat_prev = beat;
              wait_for = wait_for;
              i = pace.i + 1;
              records = records;
            },
            scaler',
          ))

    -- What one reading does. The guard of the outer loop is `current_beat < MAX-1`.
    pub next : ℤ → Reading D → Pace D × Scaler → Option (Pace D × Scaler)
    unfolding iteration
    next max none (pace, scaler) = some (pace, scaler)
    next max (some r) (pace, scaler) =
        if ltb_ℤ pace.current_beat (max -ℤ pos 1)
        then (if eq r.window_rate (of_int (pos 0))
            then some (pace, scaler)
            else iteration r (pace, scaler))
        else some (pace, scaler)

    pub main_loop : ℤ → List (Reading D) → Pace D × Scaler → Option (Pace D × Scaler)
    unfolding next
    main_loop max [] s = some s
    main_loop max (reading ∷ readings) s = next max reading s >>= λ s'. main_loop max readings s'

-- `main` up to its loop, for the list of libcpufreq and the frequency that the kernel reports. The
-- listings are the answers of `get_heartbeat_apps`; `init` is `heart_rate_monitor_init`. `block` and
-- `freq_block` are what `malloc` returns. The array is part of the result. Setting the policy and
-- reading the hardware's limits change nothing here.
pub start :
    {D : Type 0}
    → ℕ
    → List ℕ
    → List ℕ
    → Bool
    → List (List ℤ)
    → (ℤ → HeartRateMonitor D × ℕ)
    → List (HeartData D)
    → Option (Started (List ℕ × Pace D × Scaler))
start frequency freqs freq_block enabled_dir listings init block = do
  available_freqs ← store_available_freqs freqs freq_block (get_available_freqs_size freqs)
  counter ← get_init_frequency available_freqs frequency
  if not enabled_dir then some (exited 1) else elim (first_listing listings) [
    | none ↦ some waiting
    | some (app, apps) ↦ hrm_get_window_size (init app).0 >>= λ window_size.
        let scaler : Scaler = record { current_counter = counter; commands = [] } in
        some (ready (available_freqs, first_pace window_size block, scaler))
  ]
