-- ===== src/MachineStates/Pareto.antt =====
-- `pareto_optimal` and `drop_equivalent` on a sorted list of states.
use mathlib.Core.Bool.{false≢true}
use heartbeats.Base.{
  leb, ◌==◌, if◌then◌else◌, Bool-cases, ℕ, zero, suc, ◌+◌, ◌-◌, ◌≤◌, ◌<◌, ◌≡◌, refl, ◌∙◌, sym, ◌↔◌,
  inl, inr, true, false, none, some, List, [], ◌∷◌, ap, arith, get_elem?, drop, Option-cases,
  dec_lt,
}
use heartbeats.MachineStates.{
  MachineState, none_cheaper_before, none_cheaper_after, pareto_optimal, equivalent_before,
  drop_equivalent,
}
use heartbeats.MachineStates.Order.{IsSorted, InOrder-speed, InOrder-power}

-- No listed state is at least as fast for less power.
abbrev pub NotUndercut : List MachineState → MachineState → Type 0
NotUndercut states st =
    (j : ℕ) (other : MachineState)
    → get_elem? states j ≡ some other
    → st.speed ≤ other.speed
    → st.power ≤ other.power

-- A state before `index`, other than the first of the list, with the same speed and power.
abbrev pub HasTwin : List MachineState → MachineState → ℕ → Type 0
HasTwin states st index =
    (j : ℕ) × (other : MachineState) × (0 < j)
    × (j < index)
    × (get_elem? states j ≡ some other)
    × (other.speed ≡ st.speed)
    × (other.power ≡ st.power)

pub get_elem?-drop :
    (xs : List MachineState) (n j : ℕ) → get_elem? (drop n xs) j ≡ get_elem? xs (n + j)
get_elem?-drop xs zero j = let e : j ≡ zero + j = omega arith in ap (λ t. get_elem? xs t) e
get_elem?-drop [] (suc n) j = refl
get_elem?-drop (x ∷ xs) (suc n) j =
    let e : suc (n + j) ≡ suc n + j = omega arith in
    get_elem?-drop xs n j ∙ ap (λ t. get_elem? (x ∷ xs) t) e

-- A place before one that is filled is filled.
get_elem?_inside :
    (xs : List MachineState) (i j : ℕ) {b : MachineState}
    → i < j
    → get_elem? xs i ≡ none
    → get_elem? xs j ≡ some b
    → ⊥
get_elem?_inside [] i j p e e' = cc
get_elem?_inside (x ∷ xs) zero j p e e' = cc
get_elem?_inside (x ∷ xs) (suc i) zero p e e' = elim p [ ]
get_elem?_inside (x ∷ xs) (suc i) (suc j) p e e' = get_elem?_inside xs i j (omega arith) e e'

after-le :
    (st : MachineState) (xs : List MachineState)
    → none_cheaper_after st xs ≡ true
    → (j : ℕ) (other : MachineState) → get_elem? xs j ≡ some other
    → st.power ≤ other.power
unfolding none_cheaper_after
after-le st [] h j other e = ground arith
after-le st (x ∷ xs) h zero other e = ground arith
after-le st (x ∷ xs) h (suc j) other e =
    let rest : none_cheaper_after st xs ≡ true = ground arith in after-le st xs rest j other e

le-after :
    (st : MachineState) (xs : List MachineState)
    → ((j : ℕ) (other : MachineState) → get_elem? xs j ≡ some other → st.power ≤ other.power)
    → none_cheaper_after st xs ≡ true
unfolding none_cheaper_after
le-after st [] h = refl
le-after st (x ∷ xs) h = ground (arith, h 0 x refl, le-after st xs (λ j. h (suc j)))

le-before :
    (st : MachineState) (states : List MachineState)
    → ((j : ℕ) (other : MachineState)
        → get_elem? states j ≡ some other
        → st.speed ≤ other.speed
        → st.power ≤ other.power)
    → (i : ℕ) → none_cheaper_before st states i ≡ true
unfolding none_cheaper_before
le-before st states h zero = refl
le-before st states h (suc i) = elim (Option-cases (get_elem? states (suc i))) [
  | inl e ↦ rw (none_cheaper_before, e)
  | inr (other, e) ↦
      rw (none_cheaper_before, e) (ground (arith, h (suc i) other e, le-before st states h i))
]

module _ (states : List MachineState) (sorted : IsSorted states) where
  later_speed :
      (i j : ℕ) (a b : MachineState)
      → i < j
      → get_elem? states i ≡ some a
      → get_elem? states j ≡ some b
      → a.speed ≤ b.speed
  later_speed i j a b p e e' = InOrder-speed a b (sorted i j a b p e e')

  module _ (st : MachineState) (index : ℕ) (here : get_elem? states index ≡ some st) where
    optimal→NotUndercut : pareto_optimal st index states ≡ true → NotUndercut states st
    unfolding pareto_optimal
    optimal→NotUndercut h j other e fast = elim (dec_lt j index) [
      | yes before ↦ InOrder-power other st (sorted j index other st before e here) fast
      | no from ↦ elim (dec_lt index j) [
        | yes after ↦
            let behind : none_cheaper_after st (drop (index + 1) states) ≡ true = ground arith in
            let place : index + 1 + (j - (index + 1)) ≡ j = omega arith in
            after-le st (drop (index + 1) states) behind (j - (index + 1)) other (
              get_elem?-drop states (index + 1) (j - (index + 1))
              ∙ (ap (λ t. get_elem? states t) place ∙ e))
        | no upto ↦
            let same : index ≡ j = omega arith in
            let e' : some st ≡ some other = sym here ∙ (ap (λ t. get_elem? states t) same ∙ e) in
            ground arith
      ]
    ]

    NotUndercut→optimal : NotUndercut states st → pareto_optimal st index states ≡ true
    unfolding pareto_optimal
    NotUndercut→optimal h = rw (
      le-before st states h (index - 1),
      le-after st (drop (index + 1) states) (λ j other e.
          let at : get_elem? states (index + 1 + j) ≡ some other =
            sym (get_elem?-drop states (index + 1) j) ∙ e in
          h (index + 1 + j) other at
            (later_speed index (index + 1 + j) st other (omega arith) here at)),
    )

    -- On a sorted list `pareto_optimal` accepts a state exactly when no listed state is at least as
    -- fast for strictly less power.
    pub pareto_optimal-NotUndercut : (pareto_optimal st index states ≡ true) ↔ NotUndercut states st
    pareto_optimal-NotUndercut = (optimal→NotUndercut, NotUndercut→optimal)

    module _ (i : ℕ) where
      walk_out : get_elem? states (suc i) ≡ none → equivalent_before st states (suc i) ≡ false
      unfolding equivalent_before
      walk_out e = rw (equivalent_before, e)

      walk_step :
          (other : MachineState)
          → get_elem? states (suc i) ≡ some other
          → equivalent_before st states (suc i) ≡ (
              if leb st.speed other.speed
              then (if other.power == st.power then true else equivalent_before st states i)
              else false)
      unfolding equivalent_before
      walk_step other e = rw (equivalent_before, e)

    -- What the walk from `i` down finds.
    equivalent_before-HasTwin :
        (i : ℕ) → i < index → equivalent_before st states i ≡ true → HasTwin states st index
    unfolding equivalent_before
    equivalent_before-HasTwin zero p h = absurd (false≢true h)
    equivalent_before-HasTwin (suc i) p h = elim (Option-cases (get_elem? states (suc i))) [
      | inl e ↦ absurd (false≢true (sym (walk_out i e) ∙ h))
      | inr (other, e) ↦
          let slow : other.speed ≤ st.speed = later_speed (suc i) index other st p e here in
          let h' = sym (walk_step i other e) ∙ h in
          elim (Bool-cases (leb st.speed other.speed)) [
            | inr stop ↦ absurd (false≢true (rw stop at h'))
            | inl fast ↦ elim (Bool-cases (other.power == st.power)) [
              | inl twin ↦ (suc i, other, omega arith, p, e, ground arith, ground arith)
              | inr differ ↦ equivalent_before-HasTwin i (omega arith) (rw (fast, differ) at h')
            ]
          ]
    ]

    HasTwin-equivalent_before :
        (i j : ℕ) (other : MachineState)
        → 0 < j
        → j ≤ i
        → i < index
        → get_elem? states j ≡ some other
        → other.speed ≡ st.speed
        → other.power ≡ st.power
        → equivalent_before st states i ≡ true
    HasTwin-equivalent_before zero j other pos p q e same_speed same_power = absurd (omega arith)
    HasTwin-equivalent_before (suc i) j other pos p q e same_speed same_power =
        elim (dec_lt j (suc i)) [
          | yes below ↦ elim (Option-cases (get_elem? states (suc i))) [
            | inl out ↦ absurd (none_inside out)
            | inr (next, e') ↦
                let fast : other.speed ≤ next.speed = later_speed j (suc i) other next below e e' in
                ground (
                  arith,
                  walk_step i next e',
                  HasTwin-equivalent_before i j other pos (omega arith) (omega arith) e same_speed
                      same_power,
                )
          ]
          | no above ↦
              let same : j ≡ suc i = omega arith in
              ground (arith, walk_step i other (ap (λ t. get_elem? states t) (sym same) ∙ e))
        ]
      where
        none_inside : get_elem? states (suc i) ≡ none → ⊥
        none_inside out = get_elem?_inside states (suc i) index q out here

    -- On a sorted list `drop_equivalent` answers yes exactly when an earlier state, not the first of
    -- the list, has the same speed and power.
    pub drop_equivalent-HasTwin : (drop_equivalent st index states ≡ true) ↔ HasTwin states st index
    unfolding drop_equivalent equivalent_before
    drop_equivalent-HasTwin = (
      λ h. elim (dec_lt 0 index) [
        | yes p ↦ equivalent_before-HasTwin (index - 1) (omega arith) h
        | no p ↦
            let first : index - 1 ≡ 0 = omega arith in
            absurd (false≢true (rw (first, equivalent_before) at h))
      ],
      λ t.
          HasTwin-equivalent_before (index - 1) t.0 t.1 t.2 (omega arith) (omega arith) t.4 t.5 t.6,
    )
