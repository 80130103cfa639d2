-- ===== src/Control/Controllers.antt =====
-- The proportional controllers of src/combined.c. Each sets its actuator to a value computed in
-- `double`, cut off to the range of the actuator. The error of the call before is a static variable
-- of the two that use it: here it is passed in and out.
pub mod Laws
use heartbeats.Base.{ℕ, Bool, Option, List, if◌then◌else◌, ℤ, pos, ltb_ℤ}
use heartbeats.Double.{Double}
use heartbeats.Heartbeat.{HeartbeatRecord}
use heartbeats.Monitor.{HeartRateMonitor, hrm_get_min_rate, hrm_get_max_rate}
use heartbeats.Control.Outcome.{Outcome, ok, ◌>>=◌, need}
use heartbeats.Control.Actuators.{
  Actuator, Found, Wanted, get_actuators, the_core, the_speed, actuator_at, update_at,
}

-- The two tests at the end of each controller.
pub clip : Actuator → ℤ → Actuator
clip act v =
    if ltb_ℤ v act.min
    then record act { set_value = act.min }
    else if ltb_ℤ act.max v
    then record act { set_value = act.max }
    else record act { set_value = v }

module _ {D : Type 0} ⦃d : Double D⦄ where
  open d use {of_int, add, sub, mul, div, lt, to_int}

  -- The error against the middle of the wanted range.
  unfoldable pub target_error : D → D → D → D
  target_error min_rate max_rate rate = sub (div (add max_rate min_rate) (of_int (pos 2))) rate

  -- The error against the nearer end of the wanted range, 0 inside it.
  unfoldable pub band_error : D → D → D → D
  band_error min_rate max_rate rate =
      if lt rate min_rate
      then sub min_rate rate
      else if lt max_rate rate
      then sub max_rate rate
      else of_int (pos 0)

  -- `value + Kp*error`, stored as an integer.
  pub proportional : Actuator → D → D → ℤ
  proportional act kp error = to_int (add (of_int act.value) (mul kp error))

  -- `value + Kp*error + Ki*old_error`
  pub proportional_integral : Actuator → D → D → D → D → ℤ
  proportional_integral act kp error ki old_error =
      to_int (add (add (of_int act.value) (mul kp error)) (mul ki old_error))

  pub core_p_controller :
      HeartRateMonitor D → HeartbeatRecord D → D → List Actuator → Outcome (List Actuator)
  core_p_controller hrm current kp controls = do
    max_rate ← need (hrm_get_max_rate hrm)
    min_rate ← need (hrm_get_min_rate hrm)
    let error = target_error min_rate max_rate current.window_rate
    found ← get_actuators the_core controls
    act ← actuator_at controls found.core_act
    ok (update_at controls found.core_act (clip act (proportional act kp error)))

  pub machine_state_p_controller :
      HeartRateMonitor D → HeartbeatRecord D → D → List Actuator → Outcome (List Actuator)
  machine_state_p_controller hrm current kp controls = do
    max_rate ← need (hrm_get_max_rate hrm)
    min_rate ← need (hrm_get_min_rate hrm)
    let error = target_error min_rate max_rate current.window_rate
    found ← get_actuators the_speed controls
    act ← actuator_at controls found.speed_act
    ok (update_at controls found.speed_act (clip act (proportional act kp error)))

  pub machine_state_pseudo_pi_controller :
      HeartRateMonitor D
      → HeartbeatRecord D
      → D
      → D
      → D
      → List Actuator
      → Outcome (List Actuator × D)
  machine_state_pseudo_pi_controller hrm current kp ki old_error controls = do
    max_rate ← need (hrm_get_max_rate hrm)
    min_rate ← need (hrm_get_min_rate hrm)
    let error = target_error min_rate max_rate current.window_rate
    found ← get_actuators the_speed controls
    act ← actuator_at controls found.speed_act
    ok (
      update_at controls found.speed_act
          (clip act (proportional_integral act kp error ki old_error)),
      error,
    )

  pub machine_state_histeresis_p_controller :
      HeartRateMonitor D → HeartbeatRecord D → D → List Actuator → Outcome (List Actuator)
  machine_state_histeresis_p_controller hrm current kp controls = do
    found ← get_actuators the_speed controls
    act ← actuator_at controls found.speed_act
    min_rate ← need (hrm_get_min_rate hrm)
    max_rate ← need (hrm_get_max_rate hrm)
    let error = band_error min_rate max_rate current.window_rate
    ok (update_at controls found.speed_act (clip act (proportional act kp error)))

  pub machine_state_histeresis_pseudo_pi_controller :
      HeartRateMonitor D
      → HeartbeatRecord D
      → D
      → D
      → D
      → List Actuator
      → Outcome (List Actuator × D)
  machine_state_histeresis_pseudo_pi_controller hrm current kp ki old_error controls = do
    found ← get_actuators the_speed controls
    act ← actuator_at controls found.speed_act
    min_rate ← need (hrm_get_min_rate hrm)
    max_rate ← need (hrm_get_max_rate hrm)
    let error = band_error min_rate max_rate current.window_rate
    ok (
      update_at controls found.speed_act
          (clip act (proportional_integral act kp error ki old_error)),
      error,
    )
