-- ===== src/Adapt/Settles.antt =====
-- The loop between two actions, and a fault of the knob.
use heartbeats.Base.{
  ℕ, ◌+◌, ◌^◌, ◌<◌, ◌≡◌, ◌⊎◌, inl, inr, refl, ◌∙◌, true, false, Bool-cases, Option, none, some,
  List, [], ◌∷◌, arith, ℤ, pos, ◌≤ℤ◌, ltb_ℤ, eqb_ℤ, int_of_u64-small, to_int32-sum,
}
use heartbeats.Double.{Double}
use heartbeats.Heartbeat.{HeartbeatRecord}
use heartbeats.Adapt.{Pace, Reading, iteration, next, main_loop}

module _ {D : Type 0} ⦃d : Double D⦄ {K : Type 0} (speed_up slow_down : K → Option K)
    (window_size : ℕ) (lo hi : D) where
  module _ (max : ℤ) where
    -- Every beat that is read comes before `wait_for`.
    abbrev pub IsEarly : ℕ → List (Reading D) → Type 0
    IsEarly until [] = Unit {0}
    IsEarly until (none ∷ readings) = IsEarly until readings
    IsEarly until (some r ∷ readings) =
        (r.beat < until) × (r.beat < 2 ^ 31) × IsEarly until readings

    early_next :
        (until : ℕ) (r : HeartbeatRecord D) (pace : Pace D) (knob : K)
        → pace.wait_for ≡ pos until
        → r.beat < until
        → r.beat < 2 ^ 31
        → (pace' : Pace D) × (next speed_up slow_down window_size lo hi max (some r) (pace, knob)
            ≡ some (pace', knob))
          × (pace'.wait_for ≡ pace.wait_for)
          × (pace'.records ≡ pace.records)
    unfolding iteration next
    early_next until r pace knob waits early small =
        let e = int_of_u64-small r.beat small in
        let due : ltb_ℤ (pos r.beat) pace.wait_for ≡ true = ground (arith, waits) in
        elim (Bool-cases (ltb_ℤ pace.current_beat max)) [
          | inr over ↦ (pace, rw (next, over) refl, refl, refl)
          | inl more ↦ elim (Bool-cases (d.eq r.window_rate (d.of_int (pos 0)))) [
            | inl no_rate ↦ (pace, rw (next, more, no_rate) refl, refl, refl)
            | inr rate ↦ elim (Bool-cases (eqb_ℤ pace.current_beat_prev (pos r.beat))) [
              | inl again ↦ (
                record pace { current_beat = pos r.beat },
                rw (next, more, rate, iteration, e, again) refl,
                refl,
                refl,
              )
              | inr other ↦ (
                record pace { current_beat = pos r.beat; current_beat_prev = pos r.beat },
                rw (next, more, rate, iteration, e, other, due) refl,
                refl,
                refl,
              )
            ]
          ]
        ]

    -- Over readings that come before `wait_for`, the knob is left alone.
    main_loop_waits :
        (readings : List (Reading D)) (until : ℕ) (pace : Pace D) (knob : K)
        → pace.wait_for ≡ pos until
        → IsEarly until readings
        → (pace' : Pace D) × (main_loop speed_up slow_down window_size lo hi max readings
              (pace, knob)
            ≡ some (pace', knob))
          × (pace'.records ≡ pace.records)
    unfolding main_loop next
    main_loop_waits [] until pace knob waits early = (pace, refl, refl)
    main_loop_waits (none ∷ readings) until pace knob waits early =
        main_loop_waits readings until pace knob waits early
    main_loop_waits (some r ∷ readings) until pace knob waits (early, small, others) =
        let (one, e, wait, same) = early_next until r pace knob waits early small in
        let (last, e', same') = main_loop_waits readings until one knob (wait ∙ waits) others in
        (last, rw (e) e', same' ∙ same)

    -- The body of the loop has returned for a beat that it does not wait for, and whose rate is outside
    -- the targets. Then the loop leaves the knob and the records as they are after it, over all readings
    -- of beats less than a window later. Beats and this sum fit in an `int`.
    pub main_loop_settles :
        (r : HeartbeatRecord D) (readings : List (Reading D)) (pace pace' : Pace D) (knob knob' : K)
        → eqb_ℤ pace.current_beat_prev (pos r.beat) ≡ false
        → pace.wait_for ≤ℤ pos r.beat
        → (d.lt r.window_rate lo ≡ true) ⊎ (d.lt hi r.window_rate ≡ true)
        → r.beat + window_size < 2 ^ 31
        → iteration speed_up slow_down window_size lo hi r (pace, knob) ≡ some (pace', knob')
        → IsEarly (r.beat + window_size) readings
        → (later : Pace D) × (main_loop speed_up slow_down window_size lo hi max readings
              (pace', knob')
            ≡ some (later, knob'))
          × (later.records ≡ pace'.records)
    unfolding iteration
    main_loop_settles r readings pace pace' knob knob' other due outside small acted early =
        let e = int_of_u64-small r.beat (omega arith) in
        let sum = to_int32-sum r.beat window_size small in
        main_loop_waits readings (r.beat + window_size) pace' knob' (ground (arith, e, sum, acted))
          early

    -- If the knob faults when it is slowed down, a beat that is faster than the targets, and that the
    -- loop does not wait for, ends the run in a fault.
    pub main_loop_faults :
        (r : HeartbeatRecord D) (readings : List (Reading D)) (pace : Pace D) (knob : K)
        → ltb_ℤ pace.current_beat max ≡ true
        → d.eq r.window_rate (d.of_int (pos 0)) ≡ false
        → eqb_ℤ pace.current_beat_prev (pos r.beat) ≡ false
        → pace.wait_for ≤ℤ pos r.beat
        → r.beat < 2 ^ 31
        → d.lt r.window_rate lo ≡ false
        → d.lt hi r.window_rate ≡ true
        → slow_down knob ≡ none
        → main_loop speed_up slow_down window_size lo hi max (some r ∷ readings) (pace, knob) ≡ none
    unfolding main_loop next iteration
    main_loop_faults r readings pace knob runs rate other due small no_slow fast gone =
        let e = int_of_u64-small r.beat small in
        let ready : ltb_ℤ (pos r.beat) pace.wait_for ≡ false = ground arith in
        rw (runs, rate, iteration, e, other, ready, no_slow, fast, gone) refl
