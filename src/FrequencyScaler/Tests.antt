-- ===== src/FrequencyScaler/Tests.antt =====
-- Each theorem at an input, over whole numbers in place of `double`.
use heartbeats.Base.{
  ◌+◌, ◌*◌, ◌/◌, ◌%◌, ◌≡◌, ◌≤ℤ◌, refl, true, false, none, some, [], ◌∷◌, arith, replicate, ltb_ℤ, ℤ,
  pos, int_of_u64, ◌-ℤ◌,
}
use heartbeats.Double.{whole}
use heartbeats.Heartbeat.{HeartbeatRecord}
use heartbeats.Heartbeat.Fixture.{blank}
use heartbeats.Adapt.{Pace, first_pace}
use heartbeats.FrequencyScaler.{Scaler, get_speed, main_loop}
use heartbeats.FrequencyScaler.Repeats.{get_speed_lem, main_loop_overfills}

get_speed_lem_example : get_speed 1666000 ≡ 10 * ((1666000 + 5000) / 10000) + 1666000 / 1000 % 10
get_speed_lem_example = get_speed_lem 1666000 (omega arith)

-- The command names 1676 MHz for a machine with 1666 MHz.
ten_more : get_speed 1666000 ≡ 1676
unfolding get_speed
ten_more = refl

abbrev slow_beat : HeartbeatRecord ℤ
slow_beat = record blank { beat = 2; window_rate = pos 3 }

abbrev pace : Pace ℤ
pace =
    first_pace 2 (record { tag = pos 0; rate = pos 0 } ∷ record { tag = pos 0; rate = pos 0 } ∷ [])

abbrev highest : Scaler
highest = record { current_counter = 0; commands = [] }

is_due : pace.wait_for ≤ℤ pos 2
unfolding int_of_u64
is_due = omega arith

runs : ltb_ℤ pace.current_beat (pos 9 -ℤ pos 1) ≡ true
unfolding ◌-ℤ◌
runs = refl

stays : ltb_ℤ (pos 2) (pos 9 -ℤ pos 1) ≡ true
unfolding ◌-ℤ◌
stays = refl

has_rate : whole.eq slow_beat.window_rate (whole.of_int (pos 0)) ≡ false
unfolding whole
has_rate = refl

is_slow : whole.lt slow_beat.window_rate (pos 10) ≡ true
unfolding whole
is_slow = refl

main_loop_overfills_example :
    main_loop
      (2400 ∷ [])
      1
      2
      (pos 10)
      (pos 20)
      (pos 9)
      (replicate 3 (some slow_beat))
      (pace, highest)
    ≡ none
main_loop_overfills_example =
    main_loop_overfills (2400 ∷ []) 1 2 (pos 10) (pos 20) (pos 9) slow_beat highest 2 pace refl runs
      stays has_rate is_due (omega arith) is_slow refl
