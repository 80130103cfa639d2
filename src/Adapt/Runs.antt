-- ===== src/Adapt/Runs.antt =====
-- What holds of a run of the shared loop, whatever the knob is.
use heartbeats.Base.{
  ℕ, ◌+◌, ◌^◌, ◌≤◌, ◌<◌, ◌≡◌, inl, inr, refl, ◌∙◌, true, false, Bool-cases, Option, none, some,
  List, [], ◌∷◌, arith, length, set, store-eq-set, length-set, ℤ, pos, ltb_ℤ, eqb_ℤ,
  int_of_u64-small, to_int32, ◌+ℤ◌,
}
use heartbeats.Double.{Double}
use heartbeats.Heartbeat.{HeartbeatRecord}
use heartbeats.Adapt.{HeartData, Pace, Reading, decide, iteration, next, main_loop}

module _ {D : Type 0} where
  -- The loop stands at beat `b`, and has kept no more records than beats have passed.
  pub record IsPaced (max b : ℕ) (pace : Pace D) : Type 0 where
    pub here : pace.current_beat ≡ pos b
    pub before : pace.current_beat_prev ≡ pos b
    pub few : pace.i ≤ b
    pub room : length pace.records ≡ max

  -- The beats that are read do not fall, and fit in an `int`.
  abbrev pub IsRising : ℕ → List (Reading D) → Type 0
  IsRising b [] = Unit {0}
  IsRising b (none ∷ readings) = IsRising b readings
  IsRising b (some r ∷ readings) = (b ≤ r.beat) × (r.beat < 2 ^ 31) × IsRising r.beat readings

eqb_ℤ→eq : (a b : ℤ) → eqb_ℤ a b ≡ true → a ≡ b
eqb_ℤ→eq a b h = ground arith

-- A beat that differs from the beat before comes after it.
later : (a : ℤ) (b n : ℕ) → a ≡ pos b → b ≤ n → eqb_ℤ a (pos n) ≡ false → b < n
later a b n e rise other = ground (arith, e)

inside : (a : ℤ) (b max : ℕ) → a ≡ pos b → ltb_ℤ a (pos max) ≡ true → b < max
inside a b max e more = ground (arith, e)

module _ {K : Type 0} (IsSound : K → Type 0) where
  -- The run has returned, with a sound knob and no more records than there is room for.
  pub record HasRun {D : Type 0} (max beat : ℕ) (out : Option (Pace D × K)) : Type 0 where
    pub pace : Pace D
    pub knob : K
    pub returned : out ≡ some (pace, knob)
    pub sound : IsSound knob
    pub paced : IsPaced max beat pace

  abbrev pub IsSafe : (K → Option K) → Type 0
  IsSafe act = (k : K) → IsSound k → (k' : K) × (act k ≡ some k') × IsSound k'

module _ {D : Type 0} ⦃d : Double D⦄ {K : Type 0} (speed_up slow_down : K → Option K)
    (window_size : ℕ) (lo hi : D) where
  module _ (IsSound : K → Type 0) (up_safe : IsSafe IsSound speed_up)
      (down_safe : IsSafe IsSound slow_down) where
    decide_lem :
        (r : HeartbeatRecord D) (beat : ℤ) (knob : K)
        → IsSound knob
        → (k' : K) × (wait : ℤ) × (decide speed_up slow_down window_size lo hi r beat knob
            ≡ some (k', wait))
          × IsSound k'
    decide_lem r beat knob sound = elim (Bool-cases (d.lt r.window_rate lo)) [
      | inl slow ↦
          let (k', e, sound') = up_safe knob sound in
          (k', to_int32 (beat +ℤ pos window_size), rw (slow, e) refl, sound')
      | inr no_slow ↦ elim (Bool-cases (d.lt hi r.window_rate)) [
        | inl fast ↦
            let (k', e, sound') = down_safe knob sound in
            (k', to_int32 (beat +ℤ pos window_size), rw (no_slow, fast, e) refl, sound')
        | inr no_fast ↦ (knob, beat +ℤ pos 1, rw (no_slow, no_fast) refl, sound)
      ]
    ]

    iteration_lem :
        (max b : ℕ) (r : HeartbeatRecord D) (pace : Pace D) (knob : K)
        → IsPaced max b pace
        → IsSound knob
        → b ≤ r.beat
        → b < max
        → r.beat < 2 ^ 31
        → HasRun IsSound max r.beat (iteration speed_up slow_down window_size lo hi r (pace, knob))
    unfolding iteration
    iteration_lem max b r pace knob paced sound rise more small =
        let e = int_of_u64-small r.beat small in
        elim (Bool-cases (eqb_ℤ pace.current_beat_prev (pos r.beat))) [
          | inl again ↦ record {
            pace = record pace { current_beat = pos r.beat };
            knob = knob;
            returned = rw (iteration, e, again) refl;
            sound = sound;
            paced = record {
              here = refl;
              before = eqb_ℤ→eq pace.current_beat_prev (pos r.beat) again;
              few = omega (arith, paced);
              room = paced.room;
            };
          }
          | inr other ↦
              let after = later pace.current_beat_prev b r.beat paced.before rise other in
              elim (Bool-cases (ltb_ℤ (pos r.beat) pace.wait_for)) [
                | inl waits ↦ record {
                  pace = record pace { current_beat = pos r.beat; current_beat_prev = pos r.beat };
                  knob = knob;
                  returned = rw (iteration, e, other, waits) refl;
                  sound = sound;
                  paced = record {
                    here = refl;
                    before = refl;
                    few = omega (arith, paced);
                    room = paced.room;
                  };
                }
                | inr due ↦
                    let (k', wait, decided, sound') = decide_lem r (pos r.beat) knob sound in
                    let kept : HeartData D = record { tag = pos r.beat; rate = r.window_rate } in
                    let stored = store-eq-set pace.records pace.i kept (omega (arith, paced)) in
                    record {
                      pace = record {
                        current_beat = pos r.beat;
                        current_beat_prev = pos r.beat;
                        wait_for = wait;
                        i = pace.i + 1;
                        records = set pace.records pace.i kept;
                      };
                      knob = k';
                      returned = rw (iteration, e, other, due, decided, stored) refl;
                      sound = sound';
                      paced = record {
                        here = refl;
                        before = refl;
                        few = omega (arith, paced, after);
                        room = length-set pace.records pace.i kept ∙ paced.room;
                      };
                    }
              ]
        ]

    abbrev stay :
        (max b : ℕ) (pace : Pace D) (knob : K) {out : Option (Pace D × K)}
        → IsPaced max b pace
        → IsSound knob
        → out ≡ some (pace, knob)
        → HasRun IsSound max b out
    stay max b pace knob paced sound e = record {
      pace = pace;
      knob = knob;
      returned = e;
      sound = sound;
      paced = paced;
    }

    pub next_lem :
        (max b : ℕ) (r : HeartbeatRecord D) (pace : Pace D) (knob : K)
        → IsPaced max b pace
        → IsSound knob
        → b ≤ r.beat
        → r.beat < 2 ^ 31
        → (c : ℕ) × (c ≤ r.beat)
          × HasRun IsSound max c
              (next speed_up slow_down window_size lo hi (pos max) (some r) (pace, knob))
    unfolding next
    next_lem max b r pace knob paced sound rise small =
        elim (Bool-cases (ltb_ℤ pace.current_beat (pos max))) [
          | inl more ↦ elim (Bool-cases (d.eq r.window_rate (d.of_int (pos 0)))) [
            | inl no_rate ↦
                (b, rise, stay max b pace knob paced sound (rw (next, more, no_rate) refl))
            | inr rate ↦
                let one =
                  iteration_lem max b r pace knob paced sound rise
                    (inside pace.current_beat b max paced.here more) small in
                (
                  r.beat,
                  omega arith,
                  record {
                    pace = one.pace;
                    knob = one.knob;
                    returned = rw (next, more, rate) one.returned;
                    sound = one.sound;
                    paced = one.paced;
                  },
                )
          ]
          | inr over ↦ (b, rise, stay max b pace knob paced sound (rw (next, over) refl))
        ]

    -- A knob whose two functions do not fault on sound settings is never brought to a fault by the
    -- loop, whatever the rates are: over any readings whose beats do not fall and fit in an `int`,
    -- the run returns, the setting stays sound, and the records kept fit in their block.
    pub main_loop-HasRun :
        (readings : List (Reading D)) (max b c : ℕ) (pace : Pace D) (knob : K)
        → IsPaced max b pace
        → IsSound knob
        → b ≤ c
        → IsRising c readings
        → (last : ℕ) × HasRun IsSound max last
            (main_loop speed_up slow_down window_size lo hi (pos max) readings (pace, knob))
    unfolding main_loop next
    main_loop-HasRun [] max b c pace knob paced sound rise rising =
        (b, stay max b pace knob paced sound refl)
    main_loop-HasRun (none ∷ readings) max b c pace knob paced sound rise rising =
        main_loop-HasRun readings max b c pace knob paced sound rise rising
    main_loop-HasRun (some r ∷ readings) max b c pace knob paced sound rise (up, small, rising) =
        let (now, until, one) = next_lem max b r pace knob paced sound (omega arith) small in
        let (last, rest) =
          main_loop-HasRun readings max now r.beat one.pace one.knob one.paced one.sound until
            rising in
        (
          last,
          record {
            pace = rest.pace;
            knob = rest.knob;
            returned = rw (one.returned) rest.returned;
            sound = rest.sound;
            paced = rest.paced;
          },
        )
