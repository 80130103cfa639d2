-- ===== src/Control/Speed/Tests.antt =====
-- Each theorem about the machine speed actuator at an input.
use mathlib.Core.List.Perm
use heartbeats.Base.{
  inl, ℕ, zero, suc, ◌+◌, ◌*◌, ◌^◌, ◌<◌, ◌≡◌, refl, some, List, [], ◌∷◌, map, arith, get_elem?,
  int_of_u64,
}
use heartbeats.MachineStates.{MachineState}
use heartbeats.MachineStates.Assignments.{state_of}
use heartbeats.MachineStates.Order.{IsSorted, InOrder-iff}
use heartbeats.Control.Speed.Init.Fastest.{filter_states-fastest}
use heartbeats.MachineStates.Fixture.{three, three-IsSorted}
use heartbeats.Control.Outcome.{ok}
use heartbeats.Control.Speed.{choose, difference}
use heartbeats.Control.Speed.Search.{IsTable}
use heartbeats.Control.Speed.Choice.{Brackets, choose-Brackets}
use heartbeats.Control.Speed.Init.{filter_states, keeps}
use heartbeats.Control.Speed.Init.Table.{IsFiltered, filter_states-IsFiltered}

abbrev at_speed : ℕ → MachineState
at_speed n = record { speed = n; power = n; cores = [] }

abbrev five : List MachineState
five = at_speed 10 ∷ at_speed 20 ∷ at_speed 30 ∷ at_speed 40 ∷ at_speed 50 ∷ []

five_small : (i : ℕ) (a : MachineState) → get_elem? five i ≡ some a → a.speed < 2 ^ 31
five_small zero a e = ground arith
five_small (suc zero) a e = ground arith
five_small (suc (suc zero)) a e = ground arith
five_small (suc (suc (suc zero))) a e = ground arith
five_small (suc (suc (suc (suc zero)))) a e = ground arith
five_small (suc (suc (suc (suc (suc i))))) a e = ground arith

-- The speed of the state at an index.
five_speed : (i : ℕ) (a : MachineState) → get_elem? five i ≡ some a → a.speed ≡ 10 * (i + 1)
five_speed zero a e = ground arith
five_speed (suc zero) a e = ground arith
five_speed (suc (suc zero)) a e = ground arith
five_speed (suc (suc (suc zero))) a e = ground arith
five_speed (suc (suc (suc (suc zero)))) a e = ground arith
five_speed (suc (suc (suc (suc (suc i))))) a e = ground arith

five-IsTable : IsTable five
five-IsTable = record {
  rising = λ i j a b h e e'. let p = five_speed i a e in let q = five_speed j b e' in omega arith;
  small = five_small;
}

choose-Brackets_example :
    (state : MachineState) × (choose five 40 ≡ ok state)
    × Brackets five 40 state
    × ((j : ℕ) (other : MachineState)
        → get_elem? five j ≡ some other
        → other.speed ≡ 40
        → state ≡ other)
choose-Brackets_example = choose-Brackets five five-IsTable 40 (omega arith) (omega arith)

three_small : (i : ℕ) (a : MachineState) → get_elem? three i ≡ some a → a.speed < 2 ^ 31
three_small zero a e = ground arith
three_small (suc zero) a e = ground arith
three_small (suc (suc zero)) a e = ground arith
three_small (suc (suc (suc i))) a e = ground arith

filter_states-IsFiltered_example : IsFiltered three (filter_states three)
filter_states-IsFiltered_example =
    filter_states-IsFiltered three three-IsSorted (λ a e. ground arith) three_small

-- 26 is nearer to 30, which the loop has left behind, than to 20.
passes_nearest : choose five 26 ≡ ok (at_speed 20)
unfolding choose difference int_of_u64
passes_nearest = refl

-- The states of two cores with the frequencies 20000 and 10000, in an order that `qsort` may give
-- them: it leaves open which of two equivalent states comes first.
abbrev unlucky : List MachineState
unlucky =
    state_of (0 ∷ 0 ∷ [])
    ∷ state_of (10000 ∷ 0 ∷ [])
    ∷ state_of (0 ∷ 10000 ∷ [])
    ∷ state_of (10000 ∷ 10000 ∷ [])
    ∷ state_of (20000 ∷ 0 ∷ [])
    ∷ state_of (0 ∷ 20000 ∷ [])
    ∷ state_of (10000 ∷ 20000 ∷ [])
    ∷ state_of (20000 ∷ 10000 ∷ [])
    ∷ state_of (20000 ∷ 20000 ∷ [])
    ∷ []

-- The first state of speed 3 is redundant, and the second is dropped as equivalent to it.
loses_speed : map (λ (s : MachineState). s.speed) (filter_states unlucky) ≡ 1 ∷ 2 ∷ 4 ∷ []
unfolding filter_states keeps heartbeats.MachineStates.redundant_state
    heartbeats.MachineStates.drop_equivalent heartbeats.MachineStates.pareto_optimal
loses_speed = refl

-- One core with one frequency.
abbrev rest_and_full : List MachineState
rest_and_full = state_of (0 ∷ []) ∷ state_of (20000 ∷ []) ∷ []

rest_and_full-IsSorted : IsSorted rest_and_full
rest_and_full-IsSorted zero zero a b p e e' = elim p [ ]
rest_and_full-IsSorted zero (suc zero) a b p e e' = (InOrder-iff a b).1 (inl (ground arith))
rest_and_full-IsSorted (suc i) zero a b p e e' = elim p [ ]
rest_and_full-IsSorted (suc zero) (suc zero) a b p e e' = absurd (omega arith)
rest_and_full-IsSorted i (suc (suc j)) a b p e e' = ground arith
rest_and_full-IsSorted (suc (suc i)) j a b p e e' = ground arith

filter_states-fastest_example :
    (k : ℕ) × (s : MachineState) × (get_elem? (filter_states rest_and_full) k ≡ some s)
    × (s.speed ≡ 2)
filter_states-fastest_example =
    filter_states-fastest 20000 1 (omega arith) (omega arith) (20000 ∷ []) rest_and_full
      rest_and_full-IsSorted (Perm.swap (state_of (20000 ∷ [])) (state_of (0 ∷ [])) [])
      (omega arith) (omega arith) (inl refl, tt) (inl refl)
