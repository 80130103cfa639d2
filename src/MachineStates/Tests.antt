-- ===== src/MachineStates/Tests.antt =====
-- Runs on small processors, and each theorem at an input.
use heartbeats.Base.{
  ℕ, zero, suc, ◌-◌, ◌%◌, ◌^◌, ◌≤◌, ◌≡◌, refl, ◌↔◌, true, false, some, List, [], ◌∷◌, ◌++◌, map,
  arith, get_elem?, pos, ◌-ℤ◌,
}
use heartbeats.MachineStates.{
  MachineState, ipow, create_machine_states, compare_states_on_speed, redundant_state,
  pareto_optimal, drop_equivalent, calculate_state_properties,
}
use heartbeats.MachineStates.Power.{ipow_lem}
use heartbeats.MachineStates.Assignments.{assignments, state_of}
use heartbeats.MachineStates.Generate.{create_machine_states_lem}
use heartbeats.MachineStates.Redundant.{IsDescending, redundant_state-IsDescending}
use heartbeats.MachineStates.Order.{InOrder, compare_states_on_speed-order}
use heartbeats.MachineStates.Fixture.{three, three-IsSorted}
use heartbeats.MachineStates.Pareto.{
  NotUndercut, HasTwin, pareto_optimal-NotUndercut, drop_equivalent-HasTwin,
}

-- Two cores, one frequency; the memory of the scratch state holds arbitrary numbers.
abbrev dirty : MachineState
dirty = record { speed = 7; power = 8; cores = 9 ∷ 10 ∷ [] }

abbrev one_freq : List ℕ
one_freq = 2000000 ∷ []

two_cores :
    create_machine_states dirty 2 one_freq
    ≡ some (
      state_of (2000000 ∷ 2000000 ∷ [])
          ∷ state_of (2000000 ∷ 0 ∷ [])
          ∷ state_of (0 ∷ 2000000 ∷ [])
          ∷ state_of (0 ∷ 0 ∷ [])
          ∷ [],
      4,
    )
unfolding create_machine_states calculate_state_properties
two_cores = refl

ipow_lem_example : ipow 3 21 ≡ some (3 ^ 21 % 2 ^ 32)
ipow_lem_example = ipow_lem 3 21

create_machine_states_lem_example :
    create_machine_states dirty 2 one_freq
    ≡ some (map state_of (assignments 2 (one_freq ++ (0 ∷ []))), 2 ^ 2)
create_machine_states_lem_example =
    create_machine_states_lem dirty 2 one_freq (omega arith) refl (omega arith)

falling-words : (i a : ℕ) → get_elem? (3 ∷ 2 ∷ []) i ≡ some a → a ≤ 2 ^ 64 - 1
falling-words zero a e = ground arith
falling-words (suc zero) a e = ground arith
falling-words (suc (suc i)) a e = ground arith

redundant_state-IsDescending_example :
    (redundant_state (state_of (3 ∷ 2 ∷ [])) ≡ false) ↔ IsDescending (3 ∷ 2 ∷ [])
redundant_state-IsDescending_example =
    redundant_state-IsDescending (state_of (3 ∷ 2 ∷ [])) falling-words

abbrev dear : MachineState
dear = record { speed = 10; power = 30; cores = [] }

abbrev cheap : MachineState
cheap = record { speed = 10; power = 20; cores = [] }

compare_states_on_speed-order_example :
    (compare_states_on_speed cheap dear ≡ pos 0 -ℤ compare_states_on_speed dear cheap)
    × (InOrder dear cheap → InOrder cheap dirty → InOrder dear dirty)
    × ((compare_states_on_speed dear cheap ≡ pos 0)
        ↔ ((dear.speed ≡ cheap.speed) × (dear.power ≡ cheap.power)))
compare_states_on_speed-order_example = compare_states_on_speed-order dear cheap dirty

pareto_runs : (pareto_optimal dear 1 three ≡ false) × (pareto_optimal cheap 2 three ≡ true)
unfolding pareto_optimal
pareto_runs = (refl, refl)

-- Two cores at 500 MHz have the power of one at 2 GHz, and half its speed. They are accepted.
slow_pair : List MachineState
slow_pair =
    state_of (0 ∷ 0 ∷ []) ∷ state_of (500000 ∷ 500000 ∷ []) ∷ state_of (2000000 ∷ 0 ∷ []) ∷ []

slow_pair_accepted : pareto_optimal (state_of (500000 ∷ 500000 ∷ [])) 1 slow_pair ≡ true
unfolding slow_pair pareto_optimal calculate_state_properties
slow_pair_accepted = refl

slow_pair_worse :
    ((state_of (500000 ∷ 500000 ∷ [])).power ≡ (state_of (2000000 ∷ 0 ∷ [])).power)
    × ((state_of (500000 ∷ 500000 ∷ [])).speed ≡ 100)
    × ((state_of (2000000 ∷ 0 ∷ [])).speed ≡ 200)
unfolding calculate_state_properties
slow_pair_worse = (refl, refl, refl)

-- The count of the states of 16 cores with three frequencies wraps to 0.
no_states : ipow 4 16 ≡ some 0
unfolding ipow
no_states = refl

pareto_optimal-NotUndercut_example : (pareto_optimal dear 1 three ≡ true) ↔ NotUndercut three dear
pareto_optimal-NotUndercut_example = pareto_optimal-NotUndercut three three-IsSorted dear 1 refl

drop_equivalent-HasTwin_example : (drop_equivalent cheap 2 three ≡ true) ↔ HasTwin three cheap 2
drop_equivalent-HasTwin_example = drop_equivalent-HasTwin three three-IsSorted cheap 2 refl
