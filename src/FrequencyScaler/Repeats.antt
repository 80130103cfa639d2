-- ===== src/FrequencyScaler/Repeats.antt =====
-- What comes of a beat that is read again, and of the rounding.
use heartbeats.Base.{
  ◌/◌, ◌%◌, if◌then◌else◌, ℕ, zero, suc, ◌+◌, ◌-◌, ◌*◌, ◌^◌, ◌<◌, ◌≡◌, refl, true, false, none,
  some, List, arith, length, replicate, set, length-set, store-eq-set, store, store_fault, ◌>>=◌,
  ltb, ℤ, pos, ◌≤ℤ◌, ltb_ℤ, ◌-ℤ◌, int_of_u64-small,
}
use heartbeats.Double.{Double}
use heartbeats.Heartbeat.{HeartbeatRecord}
use heartbeats.Adapt.{HeartData, Pace}
use heartbeats.FrequencyScaler.{Scaler, get_speed, next, iteration, main_loop}

-- For a frequency in kHz below 2^32 - 10000, the number of MHz. Up to 1 GHz it is the frequency
-- rounded, half up: to 1 MHz above 100 MHz, to 0.1 MHz above 1 MHz and then cut to whole MHz, and
-- only cut below. Above 1 GHz the tens are those of the frequency rounded to 10 MHz, but the last
-- digit is that of the frequency before the rounding.
pub get_speed_lem :
    (speed : ℕ)
    → speed < 2 ^ 32 - 10000
    → get_speed speed ≡ (
        if ltb 1000000 speed
        then 10 * ((speed + 5000) / 10000) + speed / 1000 % 10
        else if ltb 100000 speed
        then (speed + 500) / 1000
        else if ltb 1000 speed
        then (speed + 50) / 100 / 10
        else speed / 1000)
unfolding get_speed
get_speed_lem speed small = ground arith

module _ {D : Type 0} ⦃d : Double D⦄ (available_freqs : List ℕ) (current window_size : ℕ)
    (lo hi : D) (max : ℤ) (r : HeartbeatRecord D) (scaler : Scaler) where
  abbrev kept : HeartData D
  kept = record { tag = pos r.beat; rate = r.window_rate }

  ready_lem :
      (pace : Pace D) → pace.wait_for ≤ℤ pos r.beat → ltb_ℤ (pos r.beat) pace.wait_for ≡ false
  ready_lem pace due = ground arith

  abbrev after : Pace D → List (HeartData D) → Pace D
  after pace records = record {
    current_beat = pos r.beat;
    current_beat_prev = pos r.beat;
    wait_for = pace.wait_for;
    i = pace.i + 1;
    records = records;
  }

  step_lem :
      (pace : Pace D)
      → scaler.current_counter ≡ 0
      → ltb_ℤ pace.current_beat (max -ℤ pos 1) ≡ true
      → d.eq r.window_rate (d.of_int (pos 0)) ≡ false
      → pace.wait_for ≤ℤ pos r.beat
      → r.beat < 2 ^ 31
      → d.lt r.window_rate lo ≡ true
      → next available_freqs current window_size lo hi max (some r) (pace, scaler)
        ≡ (store pace.records pace.i kept >>= λ records. some (after pace records, scaler))
  unfolding next iteration
  step_lem pace highest runs rate due small slow =
      let e = int_of_u64-small r.beat small in
      let ready = ready_lem pace due in
      let at_top : ltb 0 scaler.current_counter ≡ false = ground arith in
      rw (runs, rate, iteration, e, ready, slow, at_top) refl

  -- The scaler stands on the highest frequency, and a beat that it does not wait for is still slower
  -- than the target. As long as the monitor reads this beat, each reading fills a place of the
  -- records, until one of them goes into a place behind their block.
  pub main_loop_overfills :
      (n : ℕ) (pace : Pace D)
      → scaler.current_counter ≡ 0
      → ltb_ℤ pace.current_beat (max -ℤ pos 1) ≡ true
      → ltb_ℤ (pos r.beat) (max -ℤ pos 1) ≡ true
      → d.eq r.window_rate (d.of_int (pos 0)) ≡ false
      → pace.wait_for ≤ℤ pos r.beat
      → r.beat < 2 ^ 31
      → d.lt r.window_rate lo ≡ true
      → pace.i + n ≡ length pace.records
      → main_loop available_freqs current window_size lo hi max
          (replicate (suc n) (some r))
          (pace, scaler)
        ≡ none
  unfolding main_loop
  main_loop_overfills zero pace highest runs stays rate due small slow room =
      let full = store_fault pace.records pace.i kept (omega arith) in
      rw (step_lem pace highest runs rate due small slow, full) refl
  main_loop_overfills (suc n) pace highest runs stays rate due small slow room =
      let stored = store-eq-set pace.records pace.i kept (omega arith) in
      let rest =
        main_loop_overfills n (after pace (set pace.records pace.i kept)) highest stays stays rate
          due small slow (omega (arith, length-set pace.records pace.i kept)) in
      rw (step_lem pace highest runs rate due small slow, stored) rest
