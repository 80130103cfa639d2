-- ===== src/Control/Speed/Init.antt =====
-- `machine_speed_init` of src/combined.c: the table of states is generated, sorted and filtered.
--
-- `core_count` is the answer of `get_core_count`, and `scratch` the memory that `malloc` gives to the
-- generator.
pub mod Filter
pub mod Table
pub mod Top
pub mod Picks
pub mod Fastest
use heartbeats.Base.{
  ℕ, zero, suc, ◌-◌, Bool, true, false, not, ◌&&◌, Option, none, some, List, [], ◌∷◌, ltb,
  if◌then◌else◌, length, get_elem?, ℤ, pos, negsuc, u64_of_int, ltb_ℤ,
}
use heartbeats.MachineStates.{
  MachineState, create_machine_states, calculate_state_properties, redundant_state, drop_equivalent,
  pareto_optimal,
}
use heartbeats.Control.Outcome.{Outcome, ok, fault, ◌>>=◌, need}
use heartbeats.Control.Actuators.{
  Actuator, MachineStateData, machine_data, freq_data_of, get_actuators, core_and_singles,
  actuator_at, update_at,
}
use heartbeats.Control.Speed.{int64_of_u64}

-- The test of the filter, for the state of index `i`.
unfoldable pub keeps : List MachineState → ℕ → MachineState → Bool
keeps all_states i state =
    not (redundant_state state)
    && not (drop_equivalent state i all_states)
    && pareto_optimal state i all_states
    && ltb 0 state.speed

-- The loop of the filter from `i`, over the states that are left.
pub filter_from : List MachineState → ℕ → List MachineState → List MachineState
filter_from all_states i [] = []
filter_from all_states i (state ∷ states) =
    let rest = filter_from all_states (suc i) states in
    if keeps all_states i state then state ∷ rest else rest

unfoldable pub filter_states : List MachineState → List MachineState
unfolding filter_from
filter_states all_states = filter_from all_states 0 all_states

-- The loop of `get_current_speed` from core `i`, with `n` left: the frequency of each core that is on.
pub current_cores : ℕ → ℕ → ℤ → List (Option ℕ) → List Actuator → Outcome (List ℕ)
current_cores zero i value freq_acts controls = ok []
current_cores (suc n) i value freq_acts controls =
    let rest = current_cores n (suc i) value freq_acts controls in
    elim (ltb_ℤ (pos i) value) [
      | true ↦ do
        p ← need (get_elem? freq_acts i)
        act ← actuator_at controls p
        cores ← rest
        ok (u64_of_int act.value ∷ cores)
      | false ↦ do cores ← rest; ok (0 ∷ cores)
    ]

-- Returns the scratch state after the call; its speed is what the source returns.
unfoldable pub get_current_speed : ℕ → MachineStateData → List Actuator → Outcome MachineState
unfolding current_cores
get_current_speed core_count data_of controls = do
  core_act ← actuator_at controls data_of.core_act
  cores ← current_cores core_count 0 core_act.value data_of.freq_acts controls
  ok (calculate_state_properties (record data_of.scratch_state { cores = cores }))

-- The return code is the second component. Where it is -1, the table of states is not there.
unfoldable pub machine_speed_init :
    (List MachineState → List MachineState)
    → MachineState
    → ℕ
    → Option ℕ
    → List Actuator
    → Outcome (List Actuator × ℤ)
unfolding get_current_speed
machine_speed_init qsort scratch core_count self controls = do
  act ← actuator_at controls self
  found ← get_actuators core_and_singles controls
  let data_of : MachineStateData = record {
    states = [];
    core_act = found.core_act;
    freq_acts = found.freq_acts;
    scratch_state = scratch;
  }
  core_act ← actuator_at controls found.core_act
  if ltb_ℤ (pos 16) core_act.max
      then ok (update_at controls self (record act { data_of = machine_data data_of }), negsuc 0)
      else (do
        p ← need (get_elem? found.freq_acts 0)
        freq_act ← actuator_at controls p
        scaler ← need (freq_data_of freq_act)
        (all_states, state_count) ←
            need (create_machine_states scratch core_count scaler.freq_array)
        let states = filter_states (qsort all_states)
        slowest ← need (get_elem? states 0)
        fastest ← need (get_elem? states (length states - 1))
        current ← get_current_speed core_count data_of controls
        ok (
          update_at controls self (record act {
            min = int64_of_u64 slowest.speed;
            max = int64_of_u64 fastest.speed;
            value = int64_of_u64 current.speed;
            set_value = int64_of_u64 current.speed;
            data_of = machine_data (record data_of { states = states; scratch_state = current });
          }),
          pos 0,
        ))
