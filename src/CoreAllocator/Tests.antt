-- ===== src/CoreAllocator/Tests.antt =====
-- Runs over whole numbers in place of `double`, and each theorem at an input.
use heartbeats.Base.{
  Bool, List, length, some, ℕ, ◌≡◌, refl, true, ◌≤ℤ◌, none, some, List, [], ◌∷◌, arith, ℤ, pos,
  int_of_u64, u64_of_int, ◌+ℤ◌, ◌-ℤ◌, inl,
}
use heartbeats.Double.{whole}
use heartbeats.Heartbeat.{HeartbeatRecord}
use heartbeats.Heartbeat.Fixture.{blank, stale}
use heartbeats.Monitor.{HeartRateMonitor, hrm_get_window_size}
use heartbeats.Adapt.Start.{ready, attach}
use heartbeats.Adapt
use heartbeats.Adapt.{HeartData, Pace, Reading, first_pace, iteration}
use heartbeats.Adapt.Runs.{HasRun}
use heartbeats.Adapt.Settles.{main_loop_settles}
use heartbeats.CoreAllocator.{
  count_cores, start, Cores, get_current_cores_assigned, speed_up, slow_down, main_loop,
}
use heartbeats.CoreAllocator.Bounds.{
  IsWithin, get_current_cores_assigned-ones, value_of, ones, allocator-HasRun,
}

get_current_cores_assigned-ones_example :
    (bits : List Bool) × (length bits ≡ 32)
    × (value_of bits ≡ 11)
    × (get_current_cores_assigned 11 ≡ some (ones bits))
get_current_cores_assigned-ones_example = get_current_cores_assigned-ones 11 (omega arith)

three_cores : get_current_cores_assigned 11 ≡ some 3
unfolding get_current_cores_assigned
three_cores = refl

abbrev slow_beat : HeartbeatRecord ℤ
slow_beat = record blank { beat = 5; window_rate = pos 3 }

abbrev fast_beat : HeartbeatRecord ℤ
fast_beat = record blank { beat = 9; window_rate = pos 30 }

abbrev readings : List (Reading ℤ)
readings = none ∷ some slow_beat ∷ some slow_beat ∷ some fast_beat ∷ []

abbrev empty : HeartData ℤ
empty = record { tag = pos 0; rate = pos 0 }

abbrev block : List (HeartData ℤ)
block = empty ∷ empty ∷ empty ∷ empty ∷ empty ∷ empty ∷ empty ∷ empty ∷ []

abbrev one_core : Cores
one_core = record { nprocs = 1; commands = [] }

abbrev monitor : HeartRateMonitor ℤ
monitor = record { state = some (record stale { window_size = 2 }); log = [] }

started :
    start true ([] ∷ (pos 42 ∷ []) ∷ []) (λ app. (monitor, 0)) block 1
    ≡ some (ready (first_pace 2 block, one_core))
unfolding start attach hrm_get_window_size get_current_cores_assigned count_cores
started = refl

counted : get_current_cores_assigned 1 ≡ some 1
unfolding get_current_cores_assigned count_cores
counted = refl

allocator-HasRun_example :
    (last : ℕ) × HasRun
      (IsWithin 4)
      8
      last
      (main_loop 4 2 (pos 10) (pos 20) (pos 8) readings (first_pace 2 block, one_core))
allocator-HasRun_example =
    allocator-HasRun 4 2 (pos 10) (pos 20) 8 true ([] ∷ (pos 42 ∷ []) ∷ []) (λ app. (monitor, 0))
      block 1 (first_pace 2 block) one_core 1 readings started counted (omega arith) refl
      (omega arith)

abbrev before : Pace ℤ
before = first_pace 2 block

abbrev after : Pace ℤ
after = record {
  current_beat = pos 5;
  current_beat_prev = pos 5;
  wait_for = pos 7;
  i = 1;
  records =
      record { tag = pos 5; rate = pos 3 }
      ∷ empty
      ∷ empty
      ∷ empty
      ∷ empty
      ∷ empty
      ∷ empty
      ∷ empty
      ∷ [];
}

abbrev two_cores : Cores
two_cores = record { nprocs = 2; commands = pos 1 ∷ [] }

acted :
    iteration (speed_up 4) slow_down 2 (pos 10) (pos 20) slow_beat (before, one_core)
    ≡ some (after, two_cores)
unfolding iteration speed_up whole int_of_u64 u64_of_int ◌+ℤ◌ ◌-ℤ◌
acted = refl

abbrev early : List (Reading ℤ)
early = none ∷ some (record fast_beat { beat = 6 }) ∷ []

is_slow : whole.lt slow_beat.window_rate (pos 10) ≡ true
unfolding whole
is_slow = refl

is_due : before.wait_for ≤ℤ pos slow_beat.beat
unfolding int_of_u64
is_due = omega arith

main_loop_settles_example :
    (later : Pace ℤ) × (Adapt.main_loop
        (speed_up 4)
        slow_down
        2
        (pos 10)
        (pos 20)
        (pos 8)
        early
        (after, two_cores)
      ≡ some (later, two_cores))
    × (later.records ≡ after.records)
main_loop_settles_example =
    main_loop_settles (speed_up 4) slow_down 2 (pos 10) (pos 20) (pos 8) slow_beat early before
      after one_core two_cores refl is_due (inl is_slow) (omega arith) acted (omega arith)
