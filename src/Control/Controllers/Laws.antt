-- ===== src/Control/Controllers/Laws.antt =====
-- Whatever the arithmetic of `double` does, a controller asks for a value in its actuator's range.
use heartbeats.Base.{ℕ, ◌≡◌, some, List, arith, ℤ, ◌≤ℤ◌, get_elem?, set}
use heartbeats.Double.{Double}
use heartbeats.Heartbeat.{HeartbeatRecord, GlobalState}
use heartbeats.Monitor.{HeartRateMonitor, hrm_get_min_rate, hrm_get_max_rate}
use heartbeats.Control.Outcome.{Outcome, ok}
use heartbeats.Control.Actuators.{Actuator, Found, get_actuators, the_core, the_speed}
use heartbeats.Control.Controllers.{
  clip, core_p_controller, machine_state_p_controller, machine_state_pseudo_pi_controller,
  machine_state_histeresis_p_controller, machine_state_histeresis_pseudo_pi_controller,
  target_error, band_error, proportional, proportional_integral,
}

-- `act'` is `act` with a request inside its range.
pub record Requests (act act' : Actuator) : Type 0 where
  pub same : act' ≡ record act { set_value = act'.set_value }
  pub low : act.min ≤ℤ act'.set_value
  pub high : act'.set_value ≤ℤ act.max

clip-Requests : (act : Actuator) (v : ℤ) → act.min ≤ℤ act.max → Requests act (clip act v)
unfolding clip
clip-Requests act v range = ground arith

-- The outcome is that the actuator `i`, and no other, gets a request inside its range.
abbrev pub SetsOnly : List Actuator → ℕ → Actuator → Outcome (List Actuator) → Type 0
SetsOnly controls i act out =
    (act' : Actuator) × (out ≡ ok (set controls i act')) × Requests act act'

-- The same for a controller that also returns its error.
abbrev pub SetsOnlyWith :
    {D : Type 0} → List Actuator → ℕ → Actuator → D → Outcome (List Actuator × D) → Type 0
SetsOnlyWith controls i act error out =
    (act' : Actuator) × (out ≡ ok (set controls i act', error)) × Requests act act'

module _ {D : Type 0} ⦃d : Double D⦄ (hrm : HeartRateMonitor D) (state : GlobalState D)
    (attached : hrm.state ≡ some state) (current : HeartbeatRecord D) (controls : List Actuator)
    (found : Found) (i : ℕ) (act : Actuator) (here : get_elem? controls i ≡ some act)
    (range : act.min ≤ℤ act.max) where
  abbrev pub middle_error : D
  middle_error = target_error state.min_heartrate state.max_heartrate current.window_rate

  abbrev pub edge_error : D
  edge_error = band_error state.min_heartrate state.max_heartrate current.window_rate

  -- With the monitor attached and a core actuator whose range is not empty, the core controller
  -- returns, sets the request of that actuator inside its range, and changes nothing else. This
  -- holds for any arithmetic of `double`.
  pub core_p_controller-SetsOnly :
      (kp : D)
      → get_actuators the_core controls ≡ ok found
      → found.core_act ≡ some i
      → SetsOnly controls i act (core_p_controller hrm current kp controls)
  unfolding core_p_controller hrm_get_min_rate hrm_get_max_rate
  core_p_controller-SetsOnly kp looked it = (
    clip act (proportional act kp middle_error),
    rw (attached, looked, it, here),
    clip-Requests act _ range,
  )

  -- So do the four controllers of the machine speed, at the speed actuator; the two with an integral
  -- part return the error of this call for the next.
  pub speed_controllers-SetsOnly :
      (kp ki old_error : D)
      → get_actuators the_speed controls ≡ ok found
      → found.speed_act ≡ some i
      → SetsOnly controls i act (machine_state_p_controller hrm current kp controls)
        × SetsOnlyWith controls i act middle_error
            (machine_state_pseudo_pi_controller hrm current kp ki old_error controls)
        × SetsOnly controls i act (machine_state_histeresis_p_controller hrm current kp controls)
        × SetsOnlyWith controls i act edge_error
            (machine_state_histeresis_pseudo_pi_controller hrm current kp ki old_error controls)
  unfolding machine_state_p_controller machine_state_pseudo_pi_controller
      machine_state_histeresis_p_controller machine_state_histeresis_pseudo_pi_controller
      hrm_get_min_rate hrm_get_max_rate
  speed_controllers-SetsOnly kp ki old_error looked it = (
    (
      clip act (proportional act kp middle_error),
      rw (attached, looked, it, here),
      clip-Requests act _ range,
    ),
    (
      clip act (proportional_integral act kp middle_error ki old_error),
      rw (attached, looked, it, here),
      clip-Requests act _ range,
    ),
    (
      clip act (proportional act kp edge_error),
      rw (looked, it, here, attached),
      clip-Requests act _ range,
    ),
    (
      clip act (proportional_integral act kp edge_error ki old_error),
      rw (looked, it, here, attached),
      clip-Requests act _ range,
    ),
  )
