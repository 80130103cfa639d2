-- ===== src/MachineStates/Assignments.antt =====
-- The independent description of what the generator writes: every assignment of a frequency to each
-- core, in lexicographic order, with its speed and power in closed form.
use native.Mathlib.Nat.{pow-suc, pow-zero, mul_comm}
use heartbeats.Base.{
  ℕ, zero, suc, ◌+◌, ◌*◌, ◌/◌, ◌%◌, ◌^◌, ◌<◌, ◌≡◌, refl, ap, List, [], ◌∷◌, ◌++◌, map, arith, ltb,
  if◌then◌else◌, length, length-append, add64,
}
use heartbeats.MachineStates.{MachineState, add_cores, calculate_state_properties}

-- The assignments that give the next core one of `picks` and extend it by one of `rests`.
abbrev pub extend : List ℕ → List (List ℕ) → List (List ℕ)
extend [] rests = []
extend (f ∷ picks) rests = map (λ r. f ∷ r) rests ++ extend picks rests

abbrev pub assignments : ℕ → List ℕ → List (List ℕ)
assignments zero choices = [] ∷ []
assignments (suc n) choices = extend choices (assignments n choices)

pub length-map {ℓ κ} :
    {A : Type ℓ} {B : Type κ} (f : A → B) (xs : List A) → length (map f xs) ≡ length xs
length-map f [] = refl
length-map f (x ∷ xs) = ap suc (length-map f xs)

length-extend :
    (picks : List ℕ) (rests : List (List ℕ))
    → length (extend picks rests) ≡ length picks * length rests
length-extend [] rests = omega arith
length-extend (f ∷ picks) rests = omega (
  arith,
  length-append (map (λ r. f ∷ r) rests) (extend picks rests),
  length-map (λ (r : List ℕ). f ∷ r) rests,
  length-extend picks rests,
)

pub length-assignments :
    (n : ℕ) (choices : List ℕ) → length (assignments n choices) ≡ length choices ^ n
length-assignments zero choices = rw (pow-zero) refl
length-assignments (suc n) choices = rw (
  length-extend choices (assignments n choices),
  length-assignments n choices,
  pow-suc,
  mul_comm (length choices) (length choices ^ n),
)

abbrev pub sum : List ℕ → ℕ
sum [] = 0
sum (x ∷ xs) = x + sum xs

-- The number of cores that are on.
abbrev pub running : List ℕ → ℕ
running [] = 0
running (x ∷ xs) = (if ltb 0 x then 1 else 0) + running xs

-- The state with these frequencies, and the properties that the made-up model gives it.
abbrev pub state_of : List ℕ → MachineState
state_of cores = record {
  speed = sum cores % 2 ^ 64 / 10000;
  power = (1000000 * running cores + sum cores) % 2 ^ 64 / 10000;
  cores = cores;
}

add_cores_lem :
    (cores : List ℕ) (speed power : ℕ)
    → speed < 2 ^ 64
    → power < 2 ^ 64
    → add_cores cores speed power
      ≡ ((speed + sum cores) % 2 ^ 64, (power + (1000000 * running cores + sum cores)) % 2 ^ 64)
unfolding add_cores
add_cores_lem [] speed power h k = ground arith
add_cores_lem (c ∷ cores) speed power h k = ground (
  arith,
  add_cores_lem cores (add64 speed c) (add64 power (add64 (if ltb 0 c then 1000000 else 0) c)),
)

-- `calculate_state_properties` gives a state the speed and power of its frequencies: their sum, and
-- that sum plus 1000000 for each core that is on, modulo 2^64 and scaled down by 10000. What the
-- state held there before does not matter.
pub calculate_state_properties_lem :
    (state : MachineState) → calculate_state_properties state ≡ state_of state.cores
unfolding calculate_state_properties
calculate_state_properties_lem state = ground (arith, add_cores_lem state.cores 0 0)
