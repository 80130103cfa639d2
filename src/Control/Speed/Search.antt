-- ===== src/Control/Speed/Search.antt =====
-- The loop of `machine_speed_act`, and its differences of speeds.
use heartbeats.Base.{
  ℕ, zero, suc, ◌+◌, ◌-◌, ◌/◌, ◌%◌, ◌^◌, ◌≤◌, ◌<◌, ◌≡◌, refl, inl, inr, true, false, some, List,
  arith, length, get_elem?, get_elem?-some, pos, negsuc, int_of_u64, Bool-cases, ltb, ◌==◌,
  order_cases,
}
use heartbeats.MachineStates.{MachineState}
use heartbeats.Control.Outcome.{ok}
use heartbeats.Control.Speed.{difference, binary_search, abs}

pub difference_up :
    (speed target : ℕ)
    → target ≤ speed
    → speed < 2 ^ 31
    → difference speed target ≡ pos (speed - target)
unfolding difference int_of_u64
difference_up speed target h small =
    let e : (speed + (2 ^ 64 - target)) % 2 ^ 64 ≡ speed - target = omega arith in
    rw e (ground arith)

pub difference_down :
    (speed target : ℕ)
    → speed < target
    → target < 2 ^ 31
    → difference speed target ≡ negsuc (target - speed - 1)
unfolding difference int_of_u64
difference_down speed target h small =
    let e : (speed + (2 ^ 64 - target)) % 2 ^ 64 ≡ 2 ^ 64 - (target - speed) = omega arith in
    rw e (ground arith)

abbrev pub gap : ℕ → ℕ → ℕ
gap a b = a - b + (b - a)

pub difference-gap :
    (speed target : ℕ)
    → speed < 2 ^ 31
    → target < 2 ^ 31
    → abs (difference speed target) ≡ gap speed target
difference-gap speed target small low = elim (Bool-cases (ltb speed target)) [
  | inl less ↦ let e = difference_down speed target (ground arith) low in rw e (ground arith)
  | inr not_less ↦ let e = difference_up speed target (ground arith) small in rw e (ground arith)
]

-- A table of states in the order of their speeds, no speed twice, each below 2^31.
pub record IsTable (states : List MachineState) : Type 0 where
  pub rising :
      (i j : ℕ) (a b : MachineState)
      → i < j
      → get_elem? states i ≡ some a
      → get_elem? states j ≡ some b
      → a.speed < b.speed
  pub small : (i : ℕ) (a : MachineState) → get_elem? states i ≡ some a → a.speed < 2 ^ 31

-- What the last look of the loop has found.
pub record Lands (states : List MachineState) (target i : ℕ) (state : MachineState) : Type 0 where
  pub inside : get_elem? states i ≡ some state
  pub above :
      state.speed < target
      → (j : ℕ) (other : MachineState) → i + 1 < j
      → get_elem? states j ≡ some other
      → target < other.speed
  pub below :
      target < state.speed
      → (j : ℕ) (other : MachineState) → j + 1 < i
      → get_elem? states j ≡ some other
      → other.speed < target

module _ (states : List MachineState) (table : IsTable states) (target : ℕ) where
  abbrev pub Below : ℕ → Type 0
  Below f =
      (j : ℕ) (other : MachineState)
      → j < f
      → get_elem? states j ≡ some other
      → other.speed < target

  abbrev pub Above : ℕ → Type 0
  Above t1 =
      (j : ℕ) (other : MachineState)
      → t1 ≤ j
      → get_elem? states j ≡ some other
      → target < other.speed

  pub rising_le :
      (i j : ℕ) (a b : MachineState)
      → i ≤ j
      → get_elem? states i ≡ some a
      → get_elem? states j ≡ some b
      → a.speed ≤ b.speed
  rising_le i j a b h e e' = elim (Bool-cases (ltb i j)) [
    | inl before ↦
        let r : a.speed < b.speed = table.rising i j a b (ground arith) e e' in omega arith
    | inr at ↦ let same : i ≡ j = ground arith in grind arith
  ]

  Below-next :
      (i : ℕ) (state : MachineState)
      → get_elem? states i ≡ some state
      → state.speed < target
      → Below (i + 1)
  Below-next i state e low j other h e' =
      let r = rising_le j i other state (omega arith) e' e in omega arith

  Above-next :
      (i : ℕ) (state : MachineState)
      → get_elem? states i ≡ some state
      → target < state.speed
      → Above i
  Above-next i state e high j other h e' =
      let r = rising_le i j state other (omega arith) e e' in omega arith

  abbrev pub Found : ℕ → ℕ → ℕ → Type 0
  Found fuel f t1 =
      (i : ℕ) × (state : MachineState) × (binary_search fuel states target f t1 ≡ ok (i, state))
      × Lands states target i state

  -- One look, at the state `state` of index `i`, if the looks that can follow find a state.
  look-Lands :
      (fuel f t1 i : ℕ) (state : MachineState)
      → i ≡ (t1 + f - 1) / 2
      → get_elem? states i ≡ some state
      → Below f
      → Above t1
      → (state.speed < target → i + 1 + 1 < t1 → Found fuel (i + 1) t1)
      → (target < state.speed → f + 1 < i → Found fuel f i)
      → Found (suc fuel) f t1
  unfolding binary_search
  look-Lands fuel f t1 i state middle e low high up_found down_found =
      elim (order_cases state.speed target) [
        | inl less ↦
            let up : ltb state.speed target ≡ true = ground arith in
            let differ : (state.speed == target) ≡ false = ground arith in
            elim (Bool-cases (ltb (i + 1 + 1) t1)) [
              | inl more ↦
                  let (k, chosen, found, lands) = up_found less (ground arith) in
                  (k, chosen, ground (arith, found), lands)
              | inr last ↦ (
                i,
                state,
                ground arith,
                record {
                  inside = e;
                  above = λ _ j other h e'. high j other (ground arith) e';
                  below = λ h. absurd (omega arith);
                },
              )
            ]
        | inr (inl equal) ↦
            let same : (state.speed == target) ≡ true = ground arith in
            (
              i,
              state,
              ground arith,
              record {
                inside = e;
                above = λ h. absurd (omega arith);
                below = λ h. absurd (omega arith);
              },
            )
        | inr (inr greater) ↦
            let up : ltb state.speed target ≡ false = ground arith in
            let differ : (state.speed == target) ≡ false = ground arith in
            elim (Bool-cases (ltb (f + 1) i)) [
              | inl more ↦
                  let (k, chosen, found, lands) = down_found greater (ground arith) in
                  (k, chosen, ground (arith, found), lands)
              | inr last ↦ (
                i,
                state,
                ground arith,
                record {
                  inside = e;
                  above = λ h. absurd (omega arith);
                  below = λ _ j other h e'. low j other (ground arith) e';
                },
              )
            ]
      ]

  -- The loop ends, inside the table, where its fuel covers the range that is left.
  pub binary_search-Lands :
      (fuel f t1 : ℕ)
      → f < t1
      → t1 ≤ length states
      → t1 ≤ fuel + f
      → Below f
      → Above t1
      → Found fuel f t1
  binary_search-Lands zero f t1 range inside enough low high = absurd (omega arith)
  binary_search-Lands (suc fuel) f t1 range inside enough low high =
      let i = (t1 + f - 1) / 2 in
      let (state, e) = get_elem?-some states i (omega arith) in
      look-Lands fuel f t1 i state refl e low high
        (λ less more.
          binary_search-Lands fuel (i + 1) t1 (omega arith) inside (omega arith)
            (Below-next i state e less) high)
        (λ greater more.
          binary_search-Lands fuel f i (omega arith) (omega arith) (omega arith) low
            (Above-next i state e greater))
