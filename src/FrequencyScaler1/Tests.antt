-- ===== src/FrequencyScaler1/Tests.antt =====
-- Each theorem at an input, over whole numbers in place of `double`.
use heartbeats.Base.{
  ℕ, suc, ◌≡◌, ◌≢◌, ◌↔◌, ◌≤ℤ◌, refl, true, false, none, some, List, [], ◌∷◌, arith, length, ℤ, pos,
  int_of_u64,
}
use heartbeats.Double.{whole}
use heartbeats.Heartbeat.{HeartbeatRecord}
use heartbeats.Heartbeat.Fixture.{blank}
use heartbeats.Adapt.{Pace, first_pace}
use heartbeats.FrequencyScaler1.{Scaler, speed_up, slow_down, main_loop}
use heartbeats.FrequencyScaler1.Edge.{slow_down_leaves, main_loop_leaves}

abbrev freqs : List ℕ
freqs = 2400 ∷ 1600 ∷ []

abbrev lowest : Scaler
lowest = record { current_counter = 1; settings = [] }

slow_down_leaves_example :
    ((slow_down freqs 2 2 lowest ≡ none) ↔ (suc lowest.current_counter ≡ length freqs))
    × (speed_up freqs 2 lowest ≢ none)
slow_down_leaves_example = slow_down_leaves freqs 2 lowest (omega arith)

abbrev fast_beat : HeartbeatRecord ℤ
fast_beat = record blank { beat = 5; window_rate = pos 30 }

abbrev pace : Pace ℤ
pace = first_pace 2 (record { tag = pos 0; rate = pos 0 } ∷ [])

has_rate : whole.eq fast_beat.window_rate (whole.of_int (pos 0)) ≡ false
unfolding whole
has_rate = refl

not_slow : whole.lt fast_beat.window_rate (pos 10) ≡ false
unfolding whole
not_slow = refl

is_fast : whole.lt (pos 20) fast_beat.window_rate ≡ true
unfolding whole
is_fast = refl

is_due : pace.wait_for ≤ℤ pos 5
unfolding int_of_u64
is_due = omega arith

edge_leaves :
    main_loop freqs 2 2 2 (pos 10) (pos 20) (pos 8) (some fast_beat ∷ none ∷ []) (pace, lowest)
    ≡ none
edge_leaves =
    main_loop_leaves freqs 2 lowest (omega arith) 2 (pos 10) (pos 20) (pos 8) fast_beat pace
      (none ∷ []) refl refl has_rate refl is_due (omega arith) not_slow is_fast
