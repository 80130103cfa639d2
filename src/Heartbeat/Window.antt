-- ===== src/Heartbeat/Window.antt =====
-- The window of intervals: what it holds, and which average `hb_window_average` takes of it.
mod Blocks
use mathlib.Core.List.{append-nil, append_assoc}
use mathlib.Core.Option.{some-injective}
use heartbeats.Base.{
  length-take, ℕ, zero, suc, ◌+◌, ◌-◌, dec_lt, ◌≤◌, ◌<◌, ◌≡◌, refl, ap, ap₂, ◌∙◌, sym, Bool, true,
  false, Option, some, List, [], ◌∷◌, ◌++◌, arith, ltb, ◌==◌, if◌then◌else◌, length, get_elem?, set,
  take, drop, ℤ, pos, Bool-cases, inl, inr, ◌⊎◌, order_cases, get_elem?-some, store-eq-set,
  length-set, take-set, take_all, length-append,
}
use heartbeats.Double.{Double}
use heartbeats.Heartbeat.{Heartbeat, hb_window_average, add_times, rate_of}
use heartbeats.Heartbeat.Window.Blocks.{
  first, tail, latest, pushed, drop-cell, drop-set, drop_all, set-last, pushed-latest, filled, slid,
}

-- The intervals in the window, the oldest first.
abbrev pub contents : {D : Type 0} → Heartbeat D → List ℤ
contents hb =
    if hb.steady_state
    then drop hb.current_index hb.window ++ take hb.current_index hb.window
    else take hb.current_index hb.window

module _ {D : Type 0} ⦃d : Double D⦄ where
  open d use {of_int, add, sub, div}

  -- The average time that goes with the new interval: while the window fills, the mean of all the
  -- intervals so far, and then the average before, with the oldest interval's share replaced.
  abbrev pub average_with : Heartbeat D → ℤ → D
  average_with hb time =
      if hb.steady_state
      then add
          (sub hb.last_average_time
            (div (of_int (first (contents hb))) (of_int (pos hb.state.window_size))))
          (div (of_int time) (of_int (pos hb.state.window_size)))
      else div (add_times (contents hb ++ (time ∷ [])) (of_int (pos 0)))
          (add (of_int (pos (length (contents hb)))) (of_int (pos 1)))

  record IsPushed (hb : Heartbeat D) (time : ℤ) (out : Option (Heartbeat D × D)) : Type 0 where
    hb' : Heartbeat D
    returned : out ≡ some (hb', rate_of hb'.last_average_time)
    holds : contents hb' ≡ pushed hb.state.window_size (contents hb) time
    average : hb'.last_average_time ≡ average_with hb time

  -- The structure after the call.
  abbrev moved : Heartbeat D → ℤ → ℕ → Bool → D → Heartbeat D
  moved hb time i steady average = record hb {
    window = set hb.window hb.current_index time;
    current_index = i;
    steady_state = steady;
    last_average_time = average;
  }

  abbrev mean : Heartbeat D → ℤ → D
  mean hb time =
      div
        (add_times (take (suc hb.current_index) (set hb.window hb.current_index time))
          (of_int (pos 0)))
        (add (of_int (pos hb.current_index)) (of_int (pos 1)))

  fills :
      (hb : Heartbeat D) (time : ℤ)
      → length hb.window ≡ hb.state.window_size
      → hb.current_index < hb.state.window_size
      → hb.steady_state ≡ false
      → IsPushed hb time (hb_window_average hb time)
  unfolding hb_window_average
  fills hb time room inside growing =
      let stored = store-eq-set hb.window hb.current_index time (omega arith) in
      let grown = filled hb.window hb.current_index hb.state.window_size time room inside in
      let mean_eq =
        ap₂ (λ ys n. div (add_times ys (of_int (pos 0))) (add (of_int (pos n)) (of_int (pos 1))))
          (take-set hb.current_index hb.window time (omega arith))
          (sym (length-take hb.current_index hb.window (omega arith))) in
      elim (Bool-cases (suc hb.current_index == hb.state.window_size)) [
        | inl full ↦
            rw (hb_window_average, growing, stored, full)
              (record {
                hb' = moved hb time 0 true (mean hb time);
                returned = refl;
                holds = set-last hb.current_index hb.window time (ground arith) ∙ sym grown;
                average = mean_eq;
              })
        | inr part ↦
            rw (hb_window_average, growing, stored, part)
              (record {
                hb' = moved hb time (suc hb.current_index) false (mean hb time);
                returned = refl;
                holds = take-set hb.current_index hb.window time (omega arith) ∙ sym grown;
                average = mean_eq;
              })
      ]

  slides :
      (hb : Heartbeat D) (time : ℤ)
      → length hb.window ≡ hb.state.window_size
      → hb.current_index < hb.state.window_size
      → hb.steady_state ≡ true
      → IsPushed hb time (hb_window_average hb time)
  unfolding hb_window_average
  slides hb time room inside steady =
      let stored = store-eq-set hb.window hb.current_index time (omega arith) in
      let on = slid hb.window hb.current_index hb.state.window_size time room inside in
      let (x, cell) = get_elem?-some hb.window hb.current_index (omega arith) in
      let share = of_int (pos hb.state.window_size) in
      let average' =
        add (sub hb.last_average_time (div (of_int x) share)) (div (of_int time) share) in
      let oldest =
        ap
          (λ ys.
            add
              (sub hb.last_average_time
                (div (of_int (first (ys ++ take hb.current_index hb.window))) share))
              (div (of_int time) share))
          (sym (drop-cell hb.current_index hb.window x cell)) in
      elim (Bool-cases (suc hb.current_index == hb.state.window_size)) [
        | inl full ↦
            rw (hb_window_average, steady, cell, stored, full)
              (record {
                hb' = moved hb time 0 true average';
                returned = refl;
                holds =
                    set-last hb.current_index hb.window time (ground arith)
                    ∙ (ap (λ ys. ys ++ (take hb.current_index hb.window ++ (time ∷ [])))
                          (sym (drop_all (suc hb.current_index) hb.window (ground arith)))
                        ∙ sym on);
                average = oldest;
              })
        | inr part ↦
            rw (hb_window_average, steady, cell, stored, part)
              (record {
                hb' = moved hb time (suc hb.current_index) true average';
                returned = refl;
                holds =
                    ap₂ (λ xs ys. xs ++ ys) (drop-set hb.current_index hb.window time)
                      (take-set hb.current_index hb.window time (omega arith))
                    ∙ sym on;
                average = oldest;
              })
      ]

  -- Where the window is in its block and holds the last `window_size` of the intervals `past`,
  -- `hb_window_average` returns, and the window then holds the last `window_size` of `past` with the new
  -- one. The rate is that of the average time kept, which is the mean of the intervals while the
  -- window fills, and then the average before with the share of the oldest interval replaced by that
  -- of the new one.
  pub hb_window_average_lem :
      (hb : Heartbeat D) (past : List ℤ) (time : ℤ)
      → length hb.window ≡ hb.state.window_size
      → hb.current_index < hb.state.window_size
      → contents hb ≡ latest hb.state.window_size past
      → (hb' : Heartbeat D) × (hb_window_average hb time
          ≡ some (hb', rate_of hb'.last_average_time))
        × (contents hb' ≡ latest hb.state.window_size (past ++ (time ∷ [])))
        × (hb'.last_average_time ≡ average_with hb time)
  hb_window_average_lem hb past time room inside held =
      let one : IsPushed hb time (hb_window_average hb time) = elim (Bool-cases hb.steady_state) [
        | inl steady ↦ slides hb time room inside steady
        | inr growing ↦ fills hb time room inside growing
      ] in
      (
        one.hb',
        one.returned,
        one.holds
            ∙ (ap (λ xs. pushed hb.state.window_size xs time) held
                ∙ pushed-latest hb.state.window_size past time (omega arith)),
        one.average,
      )
