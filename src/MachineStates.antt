-- ===== src/MachineStates.antt =====
-- src/machine_states.c: the machine states of a multi-core processor. A state gives each core a
-- frequency (0 for a core that is off), and carries the speed and the power computed from them.
--
-- In C a state is a row of `unsigned long`: speed, power, then one cell for each core. Here it is a
-- record whose list `cores` has one element for each core, so that a loop to `core_count` walks that
-- list. `int` and `unsigned long` products and sums keep their wrap-around.
pub mod Power
pub mod Assignments
pub mod Generate
pub mod Redundant
pub mod Order
pub mod Pareto
pub mod Fixture
mod Tests
use heartbeats.Base.{
  ℕ, zero, suc, ◌+◌, ◌-◌, ◌*◌, ◌/◌, ◌%◌, ◌^◌, Bool, true, false, not, ◌&&◌, Option, none, some,
  List, [], ◌∷◌, ◌++◌, ltb, leb, ◌==◌, if◌then◌else◌, ◌>>=◌, length, get_elem?, store, drop, ℤ, pos,
  negsuc, add64,
}

pub record MachineState : Type 0 where
  pub speed : ℕ
  pub power : ℕ
  pub cores : List ℕ

-- `ipow`, on the bit patterns of `int`. The first argument is fuel; `none` means that it ran out.
ipow_loop : ℕ → ℕ → ℕ → ℕ → Option ℕ
ipow_loop zero result base exp = none
ipow_loop (suc fuel) result base exp =
    let rest =
      ipow_loop fuel (if exp % 2 == 1 then result * base % 2 ^ 32 else result)
        (base * base % 2 ^ 32) (exp / 2) in
    if exp == 0 then some result else rest

pub ipow : ℕ → ℕ → Option ℕ
unfolding ipow_loop
ipow base exp = ipow_loop (exp + 1) 1 base exp

-- The loop of `calculate_state_properties`, from its `speed` and `power`.
pub add_cores : List ℕ → ℕ → ℕ → ℕ × ℕ
add_cores [] speed power = (speed, power)
add_cores (core ∷ cores) speed power =
    add_cores cores (add64 speed core)
      (add64 power (add64 (if ltb 0 core then 1000000 else 0) core))

unfoldable pub calculate_state_properties : MachineState → MachineState
unfolding add_cores
calculate_state_properties state =
    let (speed, power) = add_cores state.cores 0 0 in
    record state { speed = speed / 10000; power = power / 10000 }

-- What the recursion of `generate_machine_states_internal` updates: the scratch state, and the
-- states written through `*state_cursor` so far.
pub record Generation : Type 0 where
  pub state : MachineState
  pub written : List MachineState

-- `memcpy(*state_cursor, state, …)` and the step of the cursor, in a block of `capacity` states.
pub emit : ℕ → Generation → Option Generation
emit capacity g =
    if ltb (length g.written) capacity
    then some (record g { written = g.written ++ (g.state ∷ []) })
    else none

-- `state[CORE_IDX(core)] = frequency`
pub set_core : ℕ → ℕ → Generation → Option Generation
set_core core frequency g = do
  cores ← store g.state.cores core frequency
  some (record g { state = record g.state { cores = cores } })

pub for_each {ℓ} : {S : Type ℓ} → List ℕ → (ℕ → S → Option S) → S → Option S
for_each [] body s = some s
for_each (x ∷ xs) body s = body x s >>= for_each xs body

-- The loop goes over the available frequencies and then 0. The first argument is fuel for the depth
-- of the recursion.
pub generate_machine_states_internal : ℕ → ℕ → ℕ → List ℕ → ℕ → Generation → Option Generation
unfolding emit set_core for_each calculate_state_properties
generate_machine_states_internal zero capacity core_count freq_array core g = none
generate_machine_states_internal (suc fuel) capacity core_count freq_array core g =
    for_each (freq_array ++ (0 ∷ []))
      (λ frequency g. set_core core frequency g >>= λ g'. elim (core == core_count - 1) [
        | true ↦ emit capacity (record g' { state = calculate_state_properties g'.state })
        | false ↦ generate_machine_states_internal fuel capacity core_count freq_array (core + 1) g'
      ])
      g

-- Returns the states, and the count stored through `state_count`, which sizes their block.
-- `scratch` is the state that `malloc` returned, with any contents.
unfoldable pub create_machine_states : MachineState → ℕ → List ℕ → Option (List MachineState × ℕ)
unfolding ipow generate_machine_states_internal
create_machine_states scratch core_count freq_array = do
  state_count ← ipow (length freq_array + 1) core_count
  g ←
      generate_machine_states_internal core_count state_count core_count freq_array 0
        (record { state = scratch; written = [] })
  some (g.written, state_count)

unfoldable pub compare_states_on_speed : MachineState → MachineState → ℤ
compare_states_on_speed a b =
    if ltb a.speed b.speed
    then negsuc 0
    else if ltb b.speed a.speed
    then pos 1
    else if ltb b.power a.power
    then negsuc 0
    else if ltb a.power b.power
    then pos 1
    else pos 0

redundant_loop : List ℕ → ℕ → Bool
redundant_loop [] last = false
redundant_loop (core ∷ cores) last = if ltb last core then true else redundant_loop cores core

-- The loop starts at ULONG_MAX.
unfoldable pub redundant_state : MachineState → Bool
unfolding redundant_loop
redundant_state state = redundant_loop state.cores (2 ^ 64 - 1)

-- The first loop of `pareto_optimal`, at its `i`: down to 1, while the speed is not lower. The rows
-- it reads stand before the state's own.
none_cheaper_before : MachineState → List MachineState → ℕ → Bool
none_cheaper_before state states zero = true
none_cheaper_before state states (suc i) = elim (get_elem? states (suc i)) [
  | none ↦ true
  | some other ↦
      if leb state.speed other.speed
      then (if ltb other.power state.power then false else none_cheaper_before state states i)
      else true
]

-- The second loop, over the states behind.
none_cheaper_after : MachineState → List MachineState → Bool
none_cheaper_after state [] = true
none_cheaper_after state (other ∷ others) =
    if ltb other.power state.power then false else none_cheaper_after state others

unfoldable pub pareto_optimal : MachineState → ℕ → List MachineState → Bool
unfolding none_cheaper_before none_cheaper_after
pareto_optimal state index states =
    none_cheaper_before state states (index - 1)
    && none_cheaper_after state (drop (index + 1) states)

equivalent_before : MachineState → List MachineState → ℕ → Bool
equivalent_before state states zero = false
equivalent_before state states (suc i) = elim (get_elem? states (suc i)) [
  | none ↦ false
  | some other ↦
      if leb state.speed other.speed
      then (if other.power == state.power then true else equivalent_before state states i)
      else false
]

unfoldable pub drop_equivalent : MachineState → ℕ → List MachineState → Bool
unfolding equivalent_before
drop_equivalent state index states = equivalent_before state states (index - 1)
