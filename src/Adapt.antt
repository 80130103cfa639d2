-- ===== src/Adapt.antt =====
-- The main loop that src/core-allocator.c, src/frequencyscaler1.c and src/frequencyscaler2.c share,
-- around what each of them does to speed an application up or down.
--
-- A reading is what one call of `hrm_get_current` gives: `none` where it does not return 0. The inner
-- loop polls until a reading has a rate, and overwrites `current_beat` with each of them, so a run
-- is over the list of readings. The knob is the program's own state; its two functions are `none` on
-- an access outside an array. The application's target rates do not change during a run.
pub mod Start
pub mod Runs
pub mod Settles
use heartbeats.Base.{
  ℕ, ◌+◌, Bool, true, false, Option, none, some, List, [], ◌∷◌, if◌then◌else◌, ◌>>=◌, store, ℤ, pos,
  ◌+ℤ◌, ltb_ℤ, eqb_ℤ, to_int32, int_of_u64,
}
use heartbeats.Double.{Double}
use heartbeats.Heartbeat.{HeartbeatRecord}

-- `heart_data_t`
pub record HeartData (D : Type 0) : Type 0 where
  pub tag : ℤ
  pub rate : D

-- The variables of `main` that the loop uses.
pub record Pace (D : Type 0) : Type 0 where
  pub current_beat : ℤ
  pub current_beat_prev : ℤ
  pub wait_for : ℤ
  pub i : ℕ
  pub records : List (HeartData D)

abbrev pub Reading : Type 0 → Type 0
Reading D = Option (HeartbeatRecord D)

-- The variables before the loop, at the window size read and the block of records.
abbrev pub first_pace : {D : Type 0} → ℕ → List (HeartData D) → Pace D
first_pace window_size records = record {
  current_beat = pos 0;
  current_beat_prev = pos 0;
  wait_for = int_of_u64 window_size;
  i = 0;
  records = records;
}

module _ {D : Type 0} ⦃d : Double D⦄ where
  open d use {of_int, lt, eq}

  -- The end of the body: the record of the beat is kept.
  abbrev pub keep : Pace D → HeartbeatRecord D → ℤ → ℤ → Option (Pace D)
  keep pace r beat wait_for = do
    records ← store pace.records pace.i (record { tag = beat; rate = r.window_rate })
    some (record {
      current_beat = beat;
      current_beat_prev = beat;
      wait_for = wait_for;
      i = pace.i + 1;
      records = records;
    })

  module _ {K : Type 0} (speed_up slow_down : K → Option K) (window_size : ℕ) (lo hi : D) where
    -- The loop's body for a beat that it does not wait for: what becomes of the knob, and the next
    -- `wait_for`.
    abbrev pub decide : HeartbeatRecord D → ℤ → K → Option (K × ℤ)
    decide r beat knob =
        if lt r.window_rate lo
        then (speed_up knob >>= λ knob'. some (knob', to_int32 (beat +ℤ pos window_size)))
        else if lt hi r.window_rate
        then (slow_down knob >>= λ knob'. some (knob', to_int32 (beat +ℤ pos window_size)))
        else some (knob, beat +ℤ pos 1)

    -- The body of the loop, once the inner loop has ended with the record `r`.
    unfoldable pub iteration : HeartbeatRecord D → Pace D × K → Option (Pace D × K)
    iteration r (pace, knob) =
        let beat = int_of_u64 r.beat in
        if eqb_ℤ pace.current_beat_prev beat
        then some (record pace { current_beat = beat }, knob)
        else if ltb_ℤ beat pace.wait_for
        then some (record pace { current_beat = beat; current_beat_prev = beat }, knob)
        else (do
          (knob', wait_for) ← decide r beat knob
          pace' ← keep pace r beat wait_for
          some (pace', knob'))

    -- What one reading does, under the tests of the two loops.
    unfoldable pub next : ℤ → Reading D → Pace D × K → Option (Pace D × K)
    next max none (pace, knob) = some (pace, knob)
    next max (some r) (pace, knob) =
        if ltb_ℤ pace.current_beat max
        then (if eq r.window_rate (of_int (pos 0))
            then some (pace, knob)
            else iteration r (pace, knob))
        else some (pace, knob)

    -- The two loops, over the readings in order.
    unfoldable pub main_loop : ℤ → List (Reading D) → Pace D × K → Option (Pace D × K)
    main_loop max [] s = some s
    main_loop max (reading ∷ readings) s = next max reading s >>= λ s'. main_loop max readings s'
