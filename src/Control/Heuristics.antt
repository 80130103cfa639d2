-- ===== src/Control/Heuristics.antt =====
-- The heuristics of src/combined.c: decisions by comparison with the wanted rates.
--
-- A static pointer is found again at each call: `main` changes neither kind nor core of an actuator,
-- so the search finds what the first call has cached.
pub mod Laws
use heartbeats.Base.{
  ℕ, suc, ◌-◌, Bool, true, false, Option, none, some, List, [], ◌∷◌, if◌then◌else◌, get_elem?,
  length, ℤ, pos, negsuc, ◌+ℤ◌, ◌-ℤ◌, ltb_ℤ,
}
use heartbeats.Double.{Double}
use heartbeats.Heartbeat.{HeartbeatRecord}
use heartbeats.Monitor.{HeartRateMonitor, hrm_get_min_rate, hrm_get_max_rate}
use heartbeats.Control.Outcome.{Outcome, ok, exit, fault, ◌>>=◌, need}
use heartbeats.Control.Actuators.{
  FreqScalerData, Actuator, freq_data, freq_data_of, get_actuators, the_core, the_global,
  core_and_singles, actuator_at, update_at,
}

-- `a[i]` at a signed index.
abbrev pub at_int {ℓ} : {A : Type ℓ} → List A → ℤ → Outcome A
at_int xs (pos i) = need (get_elem? xs i)
at_int xs (negsuc i) = fault

abbrev pub freq_count : FreqScalerData → ℤ
freq_count data_of = pos (length data_of.freq_array)

-- The branches of `core_heuristics`, on the results of its two comparisons of rates.
unfoldable pub core_decision : Bool → Bool → Actuator → Actuator
core_decision slow fast act =
    if slow
    then (if ltb_ℤ act.value act.max
        then record act { set_value = act.set_value +ℤ pos 1 }
        else act)
    else if fast
    then (if ltb_ℤ act.min act.value
        then record act { set_value = act.set_value -ℤ pos 1 }
        else act)
    else act

-- `cur_index` moves to `i`, and the frequency there is asked for.
unfoldable pub move_to : Actuator → FreqScalerData → ℤ → Outcome Actuator
move_to act scaler i = do
  f ← at_int scaler.freq_array i
  ok (record act { set_value = pos f; data_of = freq_data (record scaler { cur_index = i }) })

-- The branches of `freq_heuristics`. The array begins with the highest frequency.
unfoldable pub freq_decision : Bool → Bool → Actuator → FreqScalerData → Outcome Actuator
freq_decision slow fast act scaler =
    if slow
    then (if ltb_ℤ (pos 0) scaler.cur_index
        then move_to act scaler (scaler.cur_index -ℤ pos 1)
        else ok act)
    else if fast
    then (if ltb_ℤ scaler.cur_index (freq_count scaler -ℤ pos 1)
        then move_to act scaler (scaler.cur_index +ℤ pos 1)
        else ok act)
    else ok act

module _ {D : Type 0} ⦃d : Double D⦄ where
  open d use {lt}

  pub core_heuristics :
      HeartRateMonitor D → HeartbeatRecord D → List Actuator → Outcome (List Actuator)
  core_heuristics hrm current controls = do
    found ← get_actuators the_core controls
    act ← actuator_at controls found.core_act
    min_rate ← need (hrm_get_min_rate hrm)
    max_rate ← need (hrm_get_max_rate hrm)
    ok (
        update_at controls found.core_act
          (core_decision (lt current.window_rate min_rate) (lt max_rate current.window_rate) act))

  pub freq_heuristics :
      HeartRateMonitor D → HeartbeatRecord D → List Actuator → Outcome (List Actuator)
  freq_heuristics hrm current controls = do
    found ← get_actuators the_global controls
    act ← actuator_at controls found.global_act
    scaler ← need (freq_data_of act)
    min_rate ← need (hrm_get_min_rate hrm)
    max_rate ← need (hrm_get_max_rate hrm)
    act' ←
        freq_decision (lt current.window_rate min_rate) (lt max_rate current.window_rate) act scaler
    ok (update_at controls found.global_act act')

  pub uncoordinated_heuristics :
      HeartRateMonitor D → HeartbeatRecord D → List Actuator → Outcome (List Actuator)
  uncoordinated_heuristics hrm current controls =
      core_heuristics hrm current controls >>= freq_heuristics hrm current

  -- `dummy_control`
  pub dummy_control :
      HeartRateMonitor D → HeartbeatRecord D → List Actuator → Outcome (List Actuator)
  dummy_control hrm current controls = ok controls

-- The frequency actuator of core `i`.
abbrev pub single_act : List Actuator → List (Option ℕ) → ℤ → Outcome (Option ℕ × Actuator)
single_act controls freq_acts i = do
  p ← at_int freq_acts i
  act ← actuator_at controls p
  ok (p, act)

-- The branch of `step_heuristics` for a low rate. `p` points to the actuator `act` of the last core
-- that is on, with the frequency data `scaler`.
pub step_up :
    List Actuator
    → Option ℕ
    → List (Option ℕ)
    → Actuator
    → Option ℕ
    → Actuator
    → FreqScalerData
    → Outcome (List Actuator)
step_up controls core_ptr freq_acts core_act p act scaler =
    if ltb_ℤ (pos 0) scaler.cur_index
    then (move_to act scaler (scaler.cur_index -ℤ pos 1) >>= λ act'. ok (update_at controls p act'))
    else if ltb_ℤ (core_act.value -ℤ pos 1) (core_act.max -ℤ pos 1)
    then (do
      let grown =
          update_at controls core_ptr (record core_act { set_value = core_act.value +ℤ pos 1 })
      (q, next) ← single_act grown freq_acts (core_act.value -ℤ pos 1 +ℤ pos 1)
      slowest ← need (freq_data_of next)
      next' ← move_to next slowest (freq_count slowest -ℤ pos 1)
      ok (update_at grown q next'))
    else ok controls

-- The branch for a high rate.
pub step_down :
    List Actuator
    → Option ℕ
    → Actuator
    → Option ℕ
    → Actuator
    → FreqScalerData
    → Outcome (List Actuator)
step_down controls core_ptr core_act p act scaler =
    if ltb_ℤ scaler.cur_index (freq_count scaler -ℤ pos 1)
    then (move_to act scaler (scaler.cur_index +ℤ pos 1) >>= λ act'. ok (update_at controls p act'))
    else if ltb_ℤ (core_act.min -ℤ pos 1) (core_act.value -ℤ pos 1)
    then ok (update_at controls core_ptr (record core_act { set_value = core_act.value -ℤ pos 1 }))
    else ok controls

module _ {D : Type 0} ⦃d : Double D⦄ where
  open d use {lt}

  -- The test of the core count belongs to the first call; `max` does not change afterwards.
  pub step_heuristics :
      HeartRateMonitor D → HeartbeatRecord D → List Actuator → Outcome (List Actuator)
  step_heuristics hrm current controls = do
    found ← get_actuators core_and_singles controls
    core_act ← actuator_at controls found.core_act
    if ltb_ℤ (pos 16) core_act.max then exit 2 else (do
      (p, act) ← single_act controls found.freq_acts (core_act.value -ℤ pos 1)
      scaler ← need (freq_data_of act)
      min_rate ← need (hrm_get_min_rate hrm)
      max_rate ← need (hrm_get_max_rate hrm)
      if lt current.window_rate min_rate
          then step_up controls found.core_act found.freq_acts core_act p act scaler
          else if lt max_rate current.window_rate
          then step_down controls found.core_act core_act p act scaler
          else ok controls)
