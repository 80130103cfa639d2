-- ===== src/Control/Main/Tests.antt =====
-- The start of the service on a machine of one core with two frequencies.
use Prim.Native.String.{String}
use heartbeats.Base.{
  ◌≡◌, refl, true, false, some, List, [], ◌∷◌, if◌then◌else◌, ltb, get_elem?, ℤ, pos, u64_of_int,
  eqb_ℤ,
}
use heartbeats.MachineStates.{
  MachineState, create_machine_states, calculate_state_properties, redundant_state, drop_equivalent,
  pareto_optimal,
}
use heartbeats.Control.Outcome.{Outcome, ok, exit, need, ◌>>=◌}
use heartbeats.Control.Speed.Init.{machine_speed_init, keeps, filter_states, get_current_speed}
use heartbeats.Control.Start.{
  FreqAnswers, main_controls, speed_control, single_freq_init, global_freq_init, core_init,
}
use heartbeats.Control.Actuators.{Actuator, get_actuators}
use heartbeats.Control.Options.{decision_named, step_heuristics}
use heartbeats.Control.Options.Names.{decision_named_iff}
use heartbeats.Control.Main.{Machine, init_controls}
use heartbeats.Control.Main.Initialised.{
  all_succeed, results, others_of, init_controls-main_controls,
}

decision_named_iff_example :
    (decision_named "step_heuristics" ≡ some step_heuristics
      → ◌≡◌ {A = String} "step_heuristics" "step_heuristics")
    × (◌≡◌ {A = String} "step_heuristics" "step_heuristics"
        → decision_named "step_heuristics" ≡ some step_heuristics)
decision_named_iff_example = decision_named_iff "step_heuristics" step_heuristics

abbrev steered : FreqAnswers
steered = record {
  hardware_limits = some (1000000, 2000000);
  policy = true;
  userspace = false;
  userspace_after = true;
  available = 2000000 ∷ 1000000 ∷ [];
  freq_kernel = 1000000;
}

-- Sorts by speed: the place of a state, from the slowest on, and of each state of a list.
abbrev insert : MachineState → List MachineState → List MachineState
insert a [] = a ∷ []
insert a (b ∷ states) = if ltb b.speed a.speed then b ∷ insert a states else a ∷ b ∷ states

abbrev sort : List MachineState → List MachineState
sort [] = []
sort (a ∷ states) = insert a (sort states)

abbrev machine : Machine
machine = record {
  processors = some 1;
  affinity = some 1;
  cpufreq = λ core. steered;
  qsort = sort;
  freq_block = record { freq_array = []; cur_index = pos 0 };
  scratch = record { cores = 0 ∷ []; speed = 0; power = 0 };
}

abbrev speeds_of : List Actuator → Outcome (ℤ × ℤ × ℤ)
speeds_of controls = need (get_elem? controls 0) >>= λ act. ok (act.min, act.max, act.value)

-- The service is ready, with the speeds of the two frequencies for the range of its actuator.
ready_machine :
    (init_controls machine 1 (main_controls 1 (pos 42)) >>= speeds_of)
    ≡ ok (pos 100, pos 200, pos 100)
unfolding init_controls main_controls single_freq_init global_freq_init core_init machine_speed_init
    get_actuators create_machine_states get_current_speed calculate_state_properties filter_states
    keeps redundant_state drop_equivalent pareto_optimal u64_of_int
ready_machine = refl

init_controls-main_controls_example : init_controls machine 1 (main_controls 1 (pos 42)) ≡ (
    if all_succeed machine 1 (others_of machine 1 (pos 42))
    then (machine_speed_init machine.qsort machine.scratch 1
          (some 0)
          (speed_control (pos 42) ∷ results machine 1 (others_of machine 1 (pos 42)))
        >>= λ out. if eqb_ℤ out.1 (pos 0) then ok out.0 else exit 1)
    else exit 1)
init_controls-main_controls_example = init_controls-main_controls machine 1 (pos 42)
