-- ===== src/Control/Speed.antt =====
-- The machine speed actuator of src/combined.c: `machine_speed_act` looks for the state whose speed
-- is asked for in the table of states, and passes its frequencies on to the other actuators.
--
-- A row of the table has `core_act->max` cells, the number of cores that `main` has put there.
pub mod Search
pub mod Choice
pub mod Init
mod Tests
use heartbeats.Base.{
  ℕ, zero, suc, ◌+◌, ◌-◌, ◌/◌, ◌%◌, ◌^◌, Bool, true, false, not, ◌||◌, Option, none, some, List, [],
  ◌∷◌, ltb, ◌==◌, if◌then◌else◌, length, get_elem?, ℤ, pos, negsuc, pos_part, u64_of_int,
  int_of_u64, ltb_ℤ,
}
use heartbeats.MachineStates.{MachineState}
use heartbeats.Control.Outcome.{Outcome, ok, fault, ◌>>=◌, need}
use heartbeats.Control.Actuators.{Actuator, machine_data_of, actuator_at, update_at}

-- `abs` of `int`; of the least one, for which C has no result, it is 2^31.
abbrev pub abs : ℤ → ℕ
abs (pos n) = n
abs (negsuc n) = suc n

-- The difference of two `unsigned long`, stored as `int`.
unfoldable pub difference : ℕ → ℕ → ℤ
difference speed target = int_of_u64 ((speed + (2 ^ 64 - target)) % 2 ^ 64)

-- The loop, with its test `f < t` behind each move of a bound. `t` can be -1, so it is kept as `t1`,
-- its successor. The result is the index and the
-- state of the last look. The first argument is fuel, which ends in a fault.
pub binary_search : ℕ → List MachineState → ℕ → ℕ → ℕ → Outcome (ℕ × MachineState)
binary_search zero states target f t1 = fault
binary_search (suc fuel) states target f t1 =
    let i = (t1 + f - 1) / 2 in
    need (get_elem? states i) >>= λ state. elim (state.speed == target) [
      | true ↦ ok (i, state)
      | false ↦ elim (ltb state.speed target) [
        | true ↦ elim (ltb (i + 1 + 1) t1) [
          | true ↦ binary_search fuel states target (i + 1) t1
          | false ↦ ok (i, state)
        ]
        | false ↦ elim (ltb (f + 1) i) [
          | true ↦ binary_search fuel states target f i
          | false ↦ ok (i, state)
        ]
      ]
    ]

-- `state2`, on the other side of the speed that is asked for: by the sign of `d`.
abbrev pub neighbour : List MachineState → ℕ → ℤ → Option MachineState
neighbour states i (pos zero) = none
neighbour states i (pos (suc n)) = if ltb 0 i then get_elem? states (i - 1) else none
neighbour states i (negsuc n) =
    if ltb (i + 1) (length states) then get_elem? states (i + 1) else none

-- The neighbour, if it is closer than the state that the loop has looked at last.
pub closer : List MachineState → ℕ → ℕ → MachineState → MachineState
closer states target i state =
    let d = difference state.speed target in
    elim (neighbour states i d) [
      | none ↦ state
      | some state2 ↦ if ltb (abs (difference state2.speed target)) (abs d) then state2 else state
    ]

-- The state that `machine_speed_act` settles on.
pub choose : List MachineState → ℕ → Outcome MachineState
unfolding binary_search closer
choose states target = do
  (i, state) ← binary_search (length states) states target 0 (length states)
  ok (closer states target i state)

-- An `unsigned long` stored as `int64_t`.
abbrev pub int64_of_u64 : ℕ → ℤ
int64_of_u64 n =
    let low = n % 2 ^ 64 in if ltb low (2 ^ 63) then pos low else negsuc (2 ^ 64 - 1 - low)

-- The loop over the cores from `i`, of which `n` are left. Returns the table and the last `i`.
pub set_cores : ℕ → ℕ → MachineState → List (Option ℕ) → List Actuator → Outcome (List Actuator × ℕ)
set_cores zero i state freq_acts controls = ok (controls, i)
set_cores (suc n) i state freq_acts controls = need (get_elem? state.cores i) >>= λ frequency.
    elim (ltb 0 frequency) [
      | false ↦ ok (controls, i)
      | true ↦ do
        p ← need (get_elem? freq_acts i)
        act ← actuator_at controls p
        set_cores n (suc i) state freq_acts
            (update_at controls p (record act { set_value = int64_of_u64 frequency }))
    ]

-- `act` points to the machine speed actuator.
pub machine_speed_act : Option ℕ → List Actuator → Outcome (List Actuator)
unfolding choose set_cores
machine_speed_act act controls = do
  speed_act ← actuator_at controls act
  data_of ← need (machine_data_of speed_act)
  core_act ← actuator_at controls data_of.core_act
  state ← choose data_of.states (u64_of_int speed_act.set_value)
  (controls', n) ← set_cores (pos_part core_act.max) 0 state data_of.freq_acts controls
  core_act' ← actuator_at controls' data_of.core_act
  ok (update_at controls' data_of.core_act (record core_act' { set_value = pos n }))
