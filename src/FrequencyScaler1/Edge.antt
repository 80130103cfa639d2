-- ===== src/FrequencyScaler1/Edge.antt =====
-- The lowest frequency, and what lies behind it.
use heartbeats.Base.{
  ℕ, suc, ◌+◌, ◌-◌, ◌^◌, ◌<◌, ◌≡◌, ◌↔◌, ◌≢◌, order_cases, refl, true, false, none, some, List, ◌∷◌,
  arith, length, ltb, lt→ltb, get_elem?-some, get_elem?_fault, Bool-cases, inl, inr, ℤ, pos, ◌≤ℤ◌,
  ltb_ℤ, eqb_ℤ,
}
use heartbeats.Double.{Double}
use heartbeats.Heartbeat.{HeartbeatRecord}
use heartbeats.Adapt.{Pace, Reading}
use heartbeats.Adapt.Settles.{main_loop_faults}
use heartbeats.FrequencyScaler1.{Scaler, slow_down, speed_up, main_loop}

module _ (available_freqs : List ℕ) (cores : ℕ) (scaler : Scaler)
    (inside : scaler.current_counter < length available_freqs) where
  only_last :
      ltb scaler.current_counter (length available_freqs) ≡ true
      → slow_down available_freqs cores (length available_freqs) scaler ≡ none
      → suc scaler.current_counter ≡ length available_freqs
  unfolding slow_down
  only_last more fault = elim (order_cases (suc scaler.current_counter) (length available_freqs)) [
    | inl less ↦
        let (freq, e) = get_elem?-some available_freqs (scaler.current_counter + 1) (omega arith) in
        absurd (ground (arith, fault, more, e))
    | inr (inl last) ↦ last
    | inr (inr beyond) ↦ absurd (omega arith)
  ]

  never_up : speed_up available_freqs cores scaler ≢ none
  unfolding speed_up
  never_up fault = elim (Bool-cases (ltb 0 scaler.current_counter)) [
    | inl more ↦
        let (freq, e) = get_elem?-some available_freqs (scaler.current_counter - 1) (omega arith) in
        ground (arith, fault, more, e)
    | inr highest ↦ ground (arith, fault, highest)
  ]

  -- On an index of its array, `slow_down` leaves the array exactly where it stands on the lowest
  -- frequency; `speed_up` never does.
  pub slow_down_leaves :
      ((slow_down available_freqs cores (length available_freqs) scaler ≡ none)
        ↔ (suc scaler.current_counter ≡ length available_freqs))
      × (speed_up available_freqs cores scaler ≢ none)
  unfolding slow_down speed_up
  slow_down_leaves =
      let more = lt→ltb scaler.current_counter (length available_freqs) inside in
      (
        (
          λ fault. only_last more fault,
          λ last.
              rw (more, get_elem?_fault available_freqs (scaler.current_counter + 1) (omega arith))
                refl,
        ),
        λ fault. never_up fault,
      )

  module _ {D : Type 0} ⦃d : Double D⦄ (window_size : ℕ) (lo hi : D) (max : ℤ)
      (r : HeartbeatRecord D) (pace : Pace D) where
    -- The scaler stands on the lowest frequency, and a beat that it does not wait for is still faster
    -- than the target. Then the loop leaves its array, whatever it would read next.
    pub main_loop_leaves :
        (readings : List (Reading D))
        → suc scaler.current_counter ≡ length available_freqs
        → ltb_ℤ pace.current_beat max ≡ true
        → d.eq r.window_rate (d.of_int (pos 0)) ≡ false
        → eqb_ℤ pace.current_beat_prev (pos r.beat) ≡ false
        → pace.wait_for ≤ℤ pos r.beat
        → r.beat < 2 ^ 31
        → d.lt r.window_rate lo ≡ false
        → d.lt hi r.window_rate ≡ true
        → main_loop available_freqs cores
            (length available_freqs)
            window_size
            lo
            hi
            max
            (some r ∷ readings)
            (pace, scaler)
          ≡ none
    unfolding main_loop
    main_loop_leaves readings last runs rate other due small no_slow fast =
        main_loop_faults (speed_up available_freqs cores)
          (slow_down available_freqs cores (length available_freqs)) window_size lo hi max r
          readings pace scaler runs rate other due small no_slow fast (slow_down_leaves.0.1 last)
