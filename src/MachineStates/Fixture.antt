-- ===== src/MachineStates/Fixture.antt =====
-- Data for the runs: a sorted list of three states.
use heartbeats.Base.{zero, suc, List, [], ◌∷◌, arith}
use heartbeats.MachineStates.{MachineState, compare_states_on_speed}
use heartbeats.MachineStates.Order.{IsSorted}

-- At rest, and two states of one speed, the dear one first.
abbrev pub three : List MachineState
three =
    record { speed = 0; power = 0; cores = [] }
    ∷ record { speed = 10; power = 30; cores = [] }
    ∷ record { speed = 10; power = 20; cores = [] }
    ∷ []

pub three-IsSorted : IsSorted three
unfolding compare_states_on_speed
three-IsSorted zero zero a b p e e' = elim p [ ]
three-IsSorted zero (suc zero) a b p e e' = ground arith
three-IsSorted zero (suc (suc zero)) a b p e e' = ground arith
three-IsSorted (suc zero) zero a b p e e' = elim p [ ]
three-IsSorted (suc zero) (suc zero) a b p e e' = absurd (omega arith)
three-IsSorted (suc zero) (suc (suc zero)) a b p e e' = ground arith
three-IsSorted (suc (suc zero)) (suc (suc zero)) a b p e e' = absurd (omega arith)
three-IsSorted (suc (suc zero)) (suc zero) a b p e e' = absurd (omega arith)
three-IsSorted (suc (suc zero)) zero a b p e e' = elim p [ ]
three-IsSorted i (suc (suc (suc j))) a b p e e' = ground arith
three-IsSorted (suc (suc (suc i))) j a b p e e' = ground arith
