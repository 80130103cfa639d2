-- ===== src/Control/Heuristics/Laws.antt =====
-- What the heuristics decide, on every branch.
use heartbeats.Base.{
  ℕ, ◌+◌, ◌-◌, ◌<◌, ◌≡◌, refl, ap, ◌≢◌, Bool-cases, get_elem?-some, ltb_ℤ, pos-sub-one, pos-add-one,
  subst, ◌<ℤ◌, inl, inr, Bool, true, false, some, List, arith, length, pos, ◌≤ℤ◌, ◌+ℤ◌, ◌-ℤ◌,
  get_elem?, set, ltb, if◌then◌else◌,
}
use heartbeats.Double.{Double}
use heartbeats.Heartbeat.{HeartbeatRecord, GlobalState}
use heartbeats.Monitor.{HeartRateMonitor, hrm_get_min_rate, hrm_get_max_rate}
use heartbeats.Control.Outcome.{ok}
use heartbeats.Control.Actuators.{
  Actuator, Found, FreqScalerData, freq_data, freq_data_of, get_actuators, the_core, the_global,
}
use heartbeats.Control.Heuristics.{
  core_decision, freq_decision, move_to, core_heuristics, freq_heuristics,
}

-- The actuator has done what it was asked, inside its range.
pub record IsSettled (act : Actuator) : Type 0 where
  pub done : act.set_value ≡ act.value
  pub low : act.min ≤ℤ act.value
  pub high : act.value ≤ℤ act.max

-- One step up where the rate is low, one down where it is high, never out of the range.
pub record StepsCore (slow fast : Bool) (act act' : Actuator) : Type 0 where
  pub same : act' ≡ record act { set_value = act'.set_value }
  pub low : act.min ≤ℤ act'.set_value
  pub high : act'.set_value ≤ℤ act.max
  pub raised : slow ≡ true → act.value <ℤ act.max → act'.set_value ≡ act.value +ℤ pos 1
  pub at_top : slow ≡ true → act.value ≡ act.max → act'.set_value ≡ act.value
  pub lowered :
      slow ≡ false → fast ≡ true → act.min <ℤ act.value → act'.set_value ≡ act.value -ℤ pos 1
  pub at_bottom : slow ≡ false → fast ≡ true → act.value ≡ act.min → act'.set_value ≡ act.value
  pub kept : slow ≡ false → fast ≡ false → act'.set_value ≡ act.value

core_decision-StepsCore :
    (slow fast : Bool) (act : Actuator)
    → IsSettled act
    → StepsCore slow fast act (core_decision slow fast act)
unfolding core_decision ◌+ℤ◌ ◌-ℤ◌
core_decision-StepsCore slow fast act settled = record {
  same = ground arith;
  low = ground arith;
  high = ground arith;
  raised = λ s room. ground arith;
  at_top = λ s e. ground arith;
  lowered = λ s f room. ground arith;
  at_bottom = λ s f e. ground arith;
  kept = λ s f. ground arith;
}

-- The place in the table of frequencies after one step: one toward the front for a low rate, one
-- toward the end for a high rate, inside the table.
abbrev pub next_index : Bool → Bool → ℕ → ℕ → ℕ
next_index slow fast k count =
    if slow then k - 1 else if fast then (if ltb (k + 1) count then k + 1 else k) else k

-- The table with the current place.
abbrev pub scaler_at : List ℕ → ℕ → FreqScalerData
scaler_at freq_array k = record { freq_array = freq_array; cur_index = pos k }

-- The actuator has moved to the place `k'` of its table and asks for the frequency there, or it
-- stands at that place already and is left alone.
pub record StepsFreq (act act' : Actuator) (freq_array : List ℕ) (k k' : ℕ) : Type 0 where
  pub table : act'.data_of ≡ freq_data (scaler_at freq_array k')
  pub inside : k' < length freq_array
  pub still : k' ≡ k → act' ≡ act
  pub asked :
      k' ≢ k
      → (f : ℕ) × (get_elem? freq_array k' ≡ some f)
        × (act' ≡ record act { set_value = pos f; data_of = act'.data_of })

module _ (act : Actuator) (freq_array : List ℕ) (k : ℕ)
    (has : act.data_of ≡ freq_data (scaler_at freq_array k)) (low : k < length freq_array) where
  stays : StepsFreq act act freq_array k k
  stays = record { table = has; inside = low; still = λ _. refl; asked = λ n. absurd (n refl) }

  moves :
      (k' : ℕ)
      → k' < length freq_array
      → k' ≢ k
      → (act' : Actuator) × (move_to act (scaler_at freq_array k) (pos k') ≡ ok act')
        × StepsFreq act act' freq_array k k'
  unfolding move_to
  moves k' inside differ =
      let (f, e) = get_elem?-some freq_array k' inside in
      (
        record act { set_value = pos f; data_of = freq_data (scaler_at freq_array k') },
        rw e,
        record {
          table = refl;
          inside = inside;
          still = λ same. absurd (differ same);
          asked = λ _. (f, e, refl);
        },
      )

  freq_decision-StepsFreq :
      (slow fast : Bool)
      → (act' : Actuator) × (freq_decision slow fast act (scaler_at freq_array k) ≡ ok act')
        × StepsFreq act act' freq_array k (next_index slow fast k (length freq_array))
  unfolding freq_decision
  freq_decision-StepsFreq true fast = elim (Bool-cases (ltb 0 k)) [
    | inl some_left ↦
        let test : ltb_ℤ (pos 0) (pos k) ≡ true = ground arith in
        let back : pos k -ℤ pos 1 ≡ pos (k - 1) = pos-sub-one k (ground arith) in
        rw (test, back) (moves (k - 1) (omega arith) (ground arith))
    | inr first ↦
        let test : ltb_ℤ (pos 0) (pos k) ≡ false = ground arith in
        let here : k ≡ k - 1 = ground arith in
        (act, rw (test), subst (λ j. StepsFreq act act freq_array k j) here stays)
  ]
  freq_decision-StepsFreq false true =
      let count = length freq_array in
      let last : pos count -ℤ pos 1 ≡ pos (count - 1) = pos-sub-one count (omega arith) in
      elim (Bool-cases (ltb (k + 1) count)) [
        | inl more ↦
            let test : ltb_ℤ (pos k) (pos (count - 1)) ≡ true = ground arith in
            rw (last, test, more, pos-add-one k) (moves (k + 1) (ground arith) (omega arith))
        | inr end ↦
            let test : ltb_ℤ (pos k) (pos (count - 1)) ≡ false = ground arith in
            (act, rw (last, test), rw end stays)
      ]
  freq_decision-StepsFreq false false = (act, refl, stays)

module _ {D : Type 0} ⦃d : Double D⦄ (hrm : HeartRateMonitor D) (state : GlobalState D)
    (attached : hrm.state ≡ some state) (current : HeartbeatRecord D) (controls : List Actuator)
    (found : Found) (i : ℕ) (act : Actuator) (here : get_elem? controls i ≡ some act) where
  abbrev pub is_slow : Bool
  is_slow = d.lt current.window_rate state.min_heartrate

  abbrev pub is_fast : Bool
  is_fast = d.lt state.max_heartrate current.window_rate

  -- With the monitor attached and a settled core actuator, whose last request has been carried out and
  -- which is in its range, `core_heuristics` returns and changes nothing but the request of that
  -- actuator: one core more below the minimal rate, one less above the maximal rate, none outside the
  -- range of the actuator, and no change between the two rates.
  pub core_heuristics-StepsCore :
      get_actuators the_core controls ≡ ok found
      → found.core_act ≡ some i
      → IsSettled act
      → (act' : Actuator) × (core_heuristics hrm current controls ≡ ok (set controls i act'))
        × StepsCore is_slow is_fast act act'
  unfolding core_heuristics hrm_get_min_rate hrm_get_max_rate
  core_heuristics-StepsCore looked it settled = (
    core_decision is_slow is_fast act,
    rw (looked, it, here, attached),
    core_decision-StepsCore is_slow is_fast act settled,
  )

  -- With the monitor attached and a frequency actuator that is at a place `k` of its table, and not
  -- off it, `freq_heuristics` returns and changes nothing but that actuator. It moves one place toward the
  -- front of the table below the minimal rate and one toward the end above the maximal rate, never
  -- outside the table, and asks for the frequency at the new place.
  pub freq_heuristics-StepsFreq :
      (freq_array : List ℕ) (k : ℕ)
      → get_actuators the_global controls ≡ ok found
      → found.global_act ≡ some i
      → act.data_of ≡ freq_data (scaler_at freq_array k)
      → k < length freq_array
      → (act' : Actuator) × (freq_heuristics hrm current controls ≡ ok (set controls i act'))
        × StepsFreq act act' freq_array k (next_index is_slow is_fast k (length freq_array))
  unfolding freq_heuristics hrm_get_min_rate hrm_get_max_rate
  freq_heuristics-StepsFreq freq_array k looked it has low =
      let (act', decided, steps) =
        freq_decision-StepsFreq act freq_array k has low is_slow is_fast in
      let scaler : freq_data_of act ≡ some (scaler_at freq_array k) =
        ap (λ t. freq_data_of (record act { data_of = t })) has in
      (act', rw (looked, it, here, scaler, attached, decided), steps)
