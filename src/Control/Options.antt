-- ===== src/Control/Options.antt =====
-- The options of `main` in src/combined.c, and the call of the decision function that they name.
--
-- An option is what `getopt` returns, in the order of the command line. What `sscanf` reads as "%lf"
-- and what `atoi` returns are parameters.
pub mod Names
use Prim.Native.String.{String}
use text.Mathlib.Text.{◌==◌}
use heartbeats.Base.{ℕ, ◌-◌, ◌^◌, Option, none, some, List, [], ◌∷◌, if◌then◌else◌, ℤ, pos, negsuc}
use heartbeats.Double.{Double}
use heartbeats.Heartbeat.{HeartbeatRecord}
use heartbeats.Monitor.{HeartRateMonitor}
use heartbeats.Control.Outcome.{Outcome, ok, exit, fault, ◌>>=◌}
use heartbeats.Control.Actuators.{Actuator}
use heartbeats.Control.Heuristics
use heartbeats.Control.Controllers

-- The functions that `decision_f` can point to.
pub data DecisionFunction : Type 0 where
  dummy_control core_heuristics freq_heuristics uncoordinated_heuristics : DecisionFunction
  step_heuristics core_p_controller machine_state_p_controller : DecisionFunction
  machine_state_pseudo_pi_controller machine_state_histeresis_p_controller : DecisionFunction
  machine_state_histeresis_pseudo_pi_controller : DecisionFunction

-- The comparisons of the argument of -d, in their order.
pub decision_named : String → Option DecisionFunction
decision_named name =
    if name == "dummy_control"
    then some dummy_control
    else if name == "core_heuristics"
    then some core_heuristics
    else if name == "freq_heuristics"
    then some freq_heuristics
    else if name == "uncoordinated_heuristics"
    then some uncoordinated_heuristics
    else if name == "step_heuristics"
    then some step_heuristics
    else if name == "core_p_controller"
    then some core_p_controller
    else if name == "machine_state_p_controller"
    then some machine_state_p_controller
    else if name == "machine_state_pseudo_pi_controller"
    then some machine_state_pseudo_pi_controller
    else if name == "machine_state_histeresis_p_controller"
    then some machine_state_histeresis_p_controller
    else if name == "machine_state_histeresis_pseudo_pi_controller"
    then some machine_state_histeresis_pseudo_pi_controller
    else none

-- `unknown` is the character '?' that `getopt` returns for an option that is not listed.
pub data Opt : Type 0 where
  opt_d opt_p opt_q : (optarg : String) → Opt
  unknown : Opt

-- A null pointer is `none`.
pub record Options (D : Type 0) : Type 0 where
  pub decision_f : Option DecisionFunction
  pub param1 : D
  pub param2 : D

module _ {D : Type 0} (scan_double : String → Option D) where
  -- One round of the loop.
  pub read_option : Opt → Options D → Outcome (Options D)
  unfolding decision_named
  read_option (opt_d optarg) options = elim (decision_named optarg) [
    | none ↦ exit 1
    | some f ↦ ok (record options { decision_f = some f })
  ]
  read_option (opt_p optarg) options = elim (scan_double optarg) [
    | none ↦ exit 1
    | some x ↦ ok (record options { param1 = x })
  ]
  read_option (opt_q optarg) options = elim (scan_double optarg) [
    | none ↦ exit 1
    | some x ↦ ok (record options { param2 = x })
  ]
  read_option unknown options = exit 1

  pub read_options : List Opt → Options D → Outcome (Options D)
  unfolding read_option
  read_options [] options = ok options
  read_options (opt ∷ opts) options = read_option opt options >>= read_options opts

-- `max_beats`, from the arguments behind the options. No beat is below a negative number, nor
-- below 0.
pub max_beats_of : (String → ℤ) → List String → ℕ
max_beats_of atoi (first ∷ second ∷ args) = elim (atoi first) [ pos n ↦ n | negsuc n ↦ 0 ]
max_beats_of atoi args = 2 ^ 31 - 1

module _ {D : Type 0} ⦃d : Double D⦄ where
  -- A function that keeps nothing.
  abbrev with_memory : D → Outcome (List Actuator) → Outcome (List Actuator × D)
  with_memory memory out = out >>= λ controls. ok (controls, memory)

  -- `decision_f(&current, actuator_count, controls, param1, param2)`. The memory is the static
  -- `old_error` of the function that the process uses; the call of a null pointer is a fault.
  pub decide :
      Options D
      → HeartRateMonitor D
      → D
      → HeartbeatRecord D
      → List Actuator
      → Outcome (List Actuator × D)
  decide options hrm memory current controls = elim options.decision_f [
    | none ↦ fault
    | some dummy_control ↦ with_memory memory (Heuristics.dummy_control hrm current controls)
    | some core_heuristics ↦ with_memory memory (Heuristics.core_heuristics hrm current controls)
    | some freq_heuristics ↦ with_memory memory (Heuristics.freq_heuristics hrm current controls)
    | some uncoordinated_heuristics ↦
        with_memory memory (Heuristics.uncoordinated_heuristics hrm current controls)
    | some step_heuristics ↦ with_memory memory (Heuristics.step_heuristics hrm current controls)
    | some core_p_controller ↦
        with_memory memory (Controllers.core_p_controller hrm current options.param1 controls)
    | some machine_state_p_controller ↦
        with_memory memory
          (Controllers.machine_state_p_controller hrm current options.param1 controls)
    | some machine_state_pseudo_pi_controller ↦
        Controllers.machine_state_pseudo_pi_controller hrm current options.param1 options.param2
          memory controls
    | some machine_state_histeresis_p_controller ↦
        with_memory memory
          (Controllers.machine_state_histeresis_p_controller hrm current options.param1 controls)
    | some machine_state_histeresis_pseudo_pi_controller ↦
        Controllers.machine_state_histeresis_pseudo_pi_controller hrm current options.param1
          options.param2 memory controls
  ]
