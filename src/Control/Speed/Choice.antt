-- ===== src/Control/Speed/Choice.antt =====
-- Which state the search of `machine_speed_act` settles on.
use heartbeats.Base.{
  ℕ, suc, ◌+◌, ◌-◌, ◌^◌, ◌≤◌, ◌<◌, ◌≡◌, refl, ap, ◌∙◌, ◌⊎◌, inl, inr, true, false, some, List,
  arith, length, get_elem?, get_elem?-some, get_elem?_fault, if◌then◌else◌, pos, Bool-cases, ltb,
  order_cases,
}
use heartbeats.MachineStates.{MachineState}
use heartbeats.Control.Outcome.{ok}
use heartbeats.Control.Speed.{closer, choose}
use heartbeats.Control.Speed.Search.{
  IsTable, Lands, gap, difference_up, difference_down, difference-gap, rising_le,
  binary_search-Lands,
}

-- No speed of the table stands between the chosen one and the one that was asked for.
pub record Brackets (states : List MachineState) (target : ℕ) (state : MachineState) : Type 0 where
  pub place : ℕ
  pub member : get_elem? states place ≡ some state
  pub from_below :
      (j : ℕ) (other : MachineState)
      → get_elem? states j ≡ some other
      → other.speed ≤ target
      → other.speed ≤ state.speed
  pub from_above :
      (j : ℕ) (other : MachineState)
      → get_elem? states j ≡ some other
      → target ≤ other.speed
      → state.speed ≤ other.speed

module _ (states : List MachineState) (table : IsTable states) (target : ℕ) where
  module _ (short : target < 2 ^ 31) (i : ℕ) (state : MachineState)
      (lands : Lands states target i state) where
    -- The state that `closer` returns, where there is a neighbour `next`.
    abbrev pick : MachineState → MachineState
    pick next = if ltb (gap next.speed target) (gap state.speed target) then next else state

    low : state.speed < 2 ^ 31
    low = table.small i state lands.inside

    closer_up :
        state.speed < target
        → (next : MachineState) → get_elem? states (i + 1) ≡ some next
        → closer states target i state ≡ pick next
    unfolding closer
    closer_up less next e =
        let d = difference_down state.speed target less short in
        let there = difference-gap next.speed target (table.small (i + 1) next e) short in
        let here = difference-gap state.speed target low short in
        let more : ltb (i + 1) (length states) ≡ true = grind (arith, get_elem?_fault) in
        rw (closer, d, more, e, there, here) refl

    closer_down :
        target < state.speed
        → 0 < i
        → (next : MachineState) → get_elem? states (i - 1) ≡ some next
        → closer states target i state ≡ pick next
    unfolding closer
    closer_down greater first next e =
        let sign : state.speed - target ≡ suc (state.speed - target - 1) = omega arith in
        let d = difference_up state.speed target (omega arith) low ∙ ap pos sign in
        let there = difference-gap next.speed target (table.small (i - 1) next e) short in
        let here = difference-gap state.speed target low short in
        let more : ltb 0 i ≡ true = ground arith in rw (closer, d, more, e, there, here) refl

    closer_end :
        (state.speed < target) × (length states ≤ i + 1)
          ⊎ ((target < state.speed) × (i ≡ 0) ⊎ (state.speed ≡ target))
        → closer states target i state ≡ state
    unfolding closer
    closer_end (inl (less, end)) =
        let d = difference_down state.speed target less short in
        let more : ltb (i + 1) (length states) ≡ false = ground arith in rw (closer, d, more) refl
    closer_end (inr (inl (greater, first))) =
        let d = difference_up state.speed target (omega arith) low in
        let sign : state.speed - target ≡ suc (state.speed - target - 1) = omega arith in
        let more : ltb 0 i ≡ false = ground arith in rw (closer, d, sign, more) refl
    closer_end (inr (inr equal)) =
        let d = difference_up state.speed target (omega arith) low in
        let sign : state.speed - target ≡ 0 = omega arith in rw (closer, d, sign) refl

    -- Where another state stands, when the last look was below the speed that is asked for.
    beyond :
        state.speed < target
        → (next : MachineState) → get_elem? states (i + 1) ≡ some next
        → (j : ℕ) (other : MachineState) → get_elem? states j ≡ some other
        → (other.speed ≤ state.speed)
          ⊎ ((other.speed ≡ next.speed) ⊎ ((next.speed < other.speed) × (target < other.speed)))
    beyond less next e j other e' = elim (order_cases j (i + 1)) [
      | inl before ↦
          inl (rising_le states table target j i other state (omega arith) e' lands.inside)
      | inr (inl at) ↦
          let up = rising_le states table target j (i + 1) other next (omega arith) e' e in
          let down = rising_le states table target (i + 1) j next other (omega arith) e e' in
          inr (inl (omega arith))
      | inr (inr after) ↦
          inr
            (inr (table.rising (i + 1) j next other after e e', lands.above less j other after e'))
    ]

    -- The same, when it was above.
    before :
        target < state.speed
        → 0 < i
        → (next : MachineState) → get_elem? states (i - 1) ≡ some next
        → (j : ℕ) (other : MachineState) → get_elem? states j ≡ some other
        → (state.speed ≤ other.speed)
          ⊎ ((other.speed ≡ next.speed) ⊎ ((other.speed < next.speed) × (other.speed < target)))
    before greater first next e j other e' = elim (order_cases j (i - 1)) [
      | inl under ↦ inr (
          inr (
            table.rising j (i - 1) other next under e' e,
            lands.below greater j other (omega arith) e',
          ))
      | inr (inl at) ↦
          let up = rising_le states table target j (i - 1) other next (omega arith) e' e in
          let down = rising_le states table target (i - 1) j next other (omega arith) e e' in
          inr (inl (omega arith))
      | inr (inr after) ↦
          inl (rising_le states table target i j state other (omega arith) lands.inside e')
    ]

    pick_up :
        state.speed < target
        → (next : MachineState) → get_elem? states (i + 1) ≡ some next
        → Brackets states target (pick next)
    pick_up less next e =
        let climbs = table.rising i (i + 1) state next (omega arith) lands.inside e in
        elim (Bool-cases (ltb (gap next.speed target) (gap state.speed target))) [
          | inl near ↦ rw near (record {
            place = i + 1;
            member = e;
            from_below = λ j other e' h. ground (arith, beyond less next e j other e');
            from_above = λ j other e' h. ground (arith, beyond less next e j other e');
          })
          | inr far ↦ rw far (record {
            place = i;
            member = lands.inside;
            from_below = λ j other e' h. ground (arith, beyond less next e j other e');
            from_above = λ j other e' h. omega arith;
          })
        ]

    pick_down :
        target < state.speed
        → 0 < i
        → (next : MachineState) → get_elem? states (i - 1) ≡ some next
        → Brackets states target (pick next)
    pick_down greater first next e =
        let climbs = table.rising (i - 1) i next state (omega arith) e lands.inside in
        elim (Bool-cases (ltb (gap next.speed target) (gap state.speed target))) [
          | inl near ↦ rw near (record {
            place = i - 1;
            member = e;
            from_below = λ j other e' h. ground (arith, before greater first next e j other e');
            from_above = λ j other e' h. ground (arith, before greater first next e j other e');
          })
          | inr far ↦ rw far (record {
            place = i;
            member = lands.inside;
            from_below = λ j other e' h. omega arith;
            from_above = λ j other e' h. ground (arith, before greater first next e j other e');
          })
        ]

    -- The state at `i`, where no other state can be nearer.
    still :
        ((j : ℕ) (other : MachineState)
          → get_elem? states j ≡ some other
          → (other.speed ≤ target → other.speed ≤ state.speed)
            × (target ≤ other.speed → state.speed ≤ other.speed))
        → Brackets states target state
    still near = record {
      place = i;
      member = lands.inside;
      from_below = λ j other e' h. (near j other e').0 h;
      from_above = λ j other e' h. (near j other e').1 h;
    }

    closer-Brackets : Brackets states target (closer states target i state)
    closer-Brackets = elim (order_cases state.speed target) [
      | inl less ↦ elim (Bool-cases (ltb (i + 1) (length states))) [
        | inl more ↦
            let (next, e) = get_elem?-some states (i + 1) (ground arith) in
            rw (closer_up less next e) (pick_up less next e)
        | inr last ↦ rw (closer_end (inl (less, ground arith))) (
            still (λ j other e'.
              let r =
                rising_le states table target j i other state (grind (arith, get_elem?_fault)) e'
                  lands.inside in
              (λ h. r, λ h. omega arith)))
      ]
      | inr (inl equal) ↦
          rw (closer_end (inr (inr equal)))
            (still (λ j other e'. (λ h. omega arith, λ h. omega arith)))
      | inr (inr greater) ↦ elim (Bool-cases (ltb 0 i)) [
        | inl more ↦
            let (next, e) = get_elem?-some states (i - 1) (grind (arith, get_elem?_fault)) in
            rw (closer_down greater (ground arith) next e) (pick_down greater (ground arith) next e)
        | inr first ↦ rw (closer_end (inr (inl (greater, ground arith)))) (
            still (λ j other e'.
              let r =
                rising_le states table target i j state other (ground arith) lands.inside e' in
              (λ h. omega arith, λ h. r)))
      ]
    ]

  exact :
      (state : MachineState)
      → Brackets states target state
      → (j : ℕ) (other : MachineState) → get_elem? states j ≡ some other
      → other.speed ≡ target
      → state ≡ other
  exact state near j other e same =
      let up = near.from_below j other e (omega arith) in
      let down = near.from_above j other e (omega arith) in
      elim (order_cases near.place j) [
        | inl less ↦
            let r = table.rising near.place j state other less near.member e in absurd (omega arith)
        | inr (inl equal) ↦
            let there : get_elem? states near.place ≡ some other = rw equal e in
            let found = near.member in grind arith
        | inr (inr greater) ↦
            let r = table.rising j near.place other state greater e near.member in
            absurd (omega arith)
      ]

  -- In a table of states with rising speeds below 2^31, which is not empty, the search ends for every
  -- speed below 2^31 that is asked for. It settles on a state of the table such that no speed of the
  -- table lies between its speed and the one asked for; an exact match is found where there is one.
  pub choose-Brackets :
      target < 2 ^ 31
      → 0 < length states
      → (state : MachineState) × (choose states target ≡ ok state)
        × Brackets states target state
        × ((j : ℕ) (other : MachineState)
            → get_elem? states j ≡ some other
            → other.speed ≡ target
            → state ≡ other)
  unfolding choose
  choose-Brackets short some_state =
      let (i, state, found, lands) =
        binary_search-Lands states table target (length states) 0 (length states) some_state
          (omega arith) (omega arith) (λ j other h e. absurd (omega arith))
          (λ j other h e. grind (arith, get_elem?_fault)) in
      let near = closer-Brackets short i state lands in
      (closer states target i state, rw found refl, near, exact (closer states target i state) near)
