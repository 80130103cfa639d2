-- ===== src/MachineStates/Order.antt =====
-- The order that `qsort` is given, and what the program relies on of `qsort`.
use mathlib.Core.List.{Perm}
use heartbeats.Base.{ℕ, ◌≤◌, ◌<◌, ◌≡◌, ◌↔◌, ◌⊎◌, some, List, arith, get_elem?, pos, ◌≤ℤ◌, ◌-ℤ◌}
use heartbeats.MachineStates.{MachineState, compare_states_on_speed}

-- `a` may stand before `b`.
abbrev pub InOrder : MachineState → MachineState → Type 0
InOrder a b = compare_states_on_speed a b ≤ℤ pos 0

pub InOrder-iff :
    (a b : MachineState)
    → InOrder a b ↔ ((a.speed < b.speed) ⊎ ((a.speed ≡ b.speed) × (b.power ≤ a.power)))
unfolding compare_states_on_speed
InOrder-iff a b = ground arith

pub InOrder-speed : (a b : MachineState) → InOrder a b → a.speed ≤ b.speed
unfolding compare_states_on_speed
InOrder-speed a b h = ground arith

pub InOrder-power : (a b : MachineState) → InOrder a b → b.speed ≤ a.speed → b.power ≤ a.power
unfolding compare_states_on_speed
InOrder-power a b h = ground arith

-- The comparison is one that `qsort` admits: swapping the states negates its result, it is
-- transitive, and it is 0 exactly for states of one speed and one power.
pub compare_states_on_speed-order :
    (a b c : MachineState)
    → (compare_states_on_speed b a ≡ pos 0 -ℤ compare_states_on_speed a b)
      × (InOrder a b → InOrder b c → InOrder a c)
      × ((compare_states_on_speed a b ≡ pos 0) ↔ ((a.speed ≡ b.speed) × (a.power ≡ b.power)))
unfolding compare_states_on_speed ◌-ℤ◌
compare_states_on_speed-order a b c = ground arith

abbrev pub IsSorted : List MachineState → Type 0
IsSorted states =
    (i j : ℕ) (a b : MachineState)
    → i < j
    → get_elem? states i ≡ some a
    → get_elem? states j ≡ some b
    → InOrder a b

-- `qsort` of the C library, at this comparison: it sorts, and it permutes.
pub record IsQsort (qsort : List MachineState → List MachineState) : Type 0 where
  pub sorted : (states : List MachineState) → IsSorted (qsort states)
  pub permutes : (states : List MachineState) → Perm (qsort states) states
