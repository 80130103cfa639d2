-- ===== src/Control/Speed/Init/Filter.antt =====
-- Which states the filter of `machine_speed_init` leaves, by their index in the sorted list.
use heartbeats.Base.{
  ℕ, suc, ◌+◌, ◌≤◌, ◌≡◌, refl, sym, ap, ◌∙◌, inl, inr, true, false, some, List, [], ◌∷◌, arith,
  get_elem?, get_elem?_cons, subst, Bool-cases,
}
use heartbeats.MachineStates.{MachineState}
use heartbeats.Control.Speed.Init.{keeps, filter_from}

-- A state that the filter has kept, and its index in the sorted list.
pub record IsKept (all_states : List MachineState) (i : ℕ) (state : MachineState) : Type 0 where
  pub inside : get_elem? all_states i ≡ some state
  pub kept : keeps all_states i state ≡ true

module _ (all_states : List MachineState) where
  -- `states` is what is left of the list from index `i`.
  abbrev pub IsRest : ℕ → List MachineState → Type 0
  IsRest i states = (j : ℕ) → get_elem? states j ≡ get_elem? all_states (i + j)

  pub IsRest-next :
      (i : ℕ) (first : MachineState) (states : List MachineState)
      → IsRest i (first ∷ states)
      → IsRest (suc i) states
  IsRest-next i first states same j =
      let shift : i + suc j ≡ suc i + j = omega arith in
      same (suc j) ∙ ap (λ n. get_elem? all_states n) shift

  rest_first :
      (i : ℕ) (first : MachineState) (states : List MachineState)
      → IsRest i (first ∷ states)
      → get_elem? all_states i ≡ some first
  rest_first i first states same =
      let shift : i + 0 ≡ i = omega arith in
      sym (ap (λ n. get_elem? all_states n) shift) ∙ sym (same 0)

  pub first-IsKept :
      (i : ℕ) (first : MachineState) (states : List MachineState)
      → IsRest i (first ∷ states)
      → keeps all_states i first ≡ true
      → (state : MachineState) → first ≡ state
      → IsKept all_states i state
  first-IsKept i first states same h state equal =
      subst (λ s. IsKept all_states i s) equal
        (record { inside = rest_first i first states same; kept = h })

  pub filter_kept :
      (i : ℕ) (first : MachineState) (states : List MachineState)
      → keeps all_states i first ≡ true
      → filter_from all_states i (first ∷ states) ≡ first ∷ filter_from all_states (suc i) states
  unfolding filter_from
  filter_kept i first states h = rw (filter_from, h) refl

  pub filter_dropped :
      (i : ℕ) (first : MachineState) (states : List MachineState)
      → keeps all_states i first ≡ false
      → filter_from all_states i (first ∷ states) ≡ filter_from all_states (suc i) states
  unfolding filter_from
  filter_dropped i first states h = rw (filter_from, h) refl

  -- A state that the filter leaves was kept at some index.
  pub filter_from-IsKept :
      (i : ℕ) (states : List MachineState)
      → IsRest i states
      → (k : ℕ) (state : MachineState) → get_elem? (filter_from all_states i states) k ≡ some state
      → (j : ℕ) × (i ≤ j) × IsKept all_states j state
  unfolding filter_from
  filter_from-IsKept i [] same k state e = absurd (ground arith)
  filter_from-IsKept i (first ∷ states) same k state e =
      elim (Bool-cases (keeps all_states i first)) [
        | inl kept ↦
            elim (get_elem?_cons first (filter_from all_states (suc i) states) k state
              (ap (λ l. get_elem? l k) (sym (filter_kept i first states kept)) ∙ e)) [
                | inl (head, equal) ↦
                    (i, omega arith, first-IsKept i first states same kept state equal)
                | inr (k', tail, e') ↦
                    let (j, after, is_kept) =
                      filter_from-IsKept (suc i) states (IsRest-next i first states same) k' state
                        e' in
                    (j, omega arith, is_kept)
              ]
        | inr dropped ↦
            let (j, after, is_kept) =
              filter_from-IsKept (suc i) states (IsRest-next i first states same) k state
                (ap (λ l. get_elem? l k) (sym (filter_dropped i first states dropped)) ∙ e) in
            (j, omega arith, is_kept)
      ]

  -- A state that is kept at some index is left.
  pub filter_from_complete :
      (i : ℕ) (states : List MachineState)
      → IsRest i states
      → (j : ℕ) (state : MachineState) → get_elem? states j ≡ some state
      → keeps all_states (i + j) state ≡ true
      → (k : ℕ) × (get_elem? (filter_from all_states i states) k ≡ some state)
  filter_from_complete i [] same j state e h = absurd (ground arith)
  filter_from_complete i (first ∷ states) same j state e h =
      elim (get_elem?_cons first states j state e) [
        | inl (head, equal) ↦
            let at : i + j ≡ i = omega arith in
            let here : keeps all_states i first ≡ true = cc in
            (0, ap (λ l. get_elem? l 0) (filter_kept i first states here) ∙ ap some equal)
        | inr (j', tail, e') ↦
            let at : i + j ≡ suc i + j' = omega arith in
            let there : keeps all_states (suc i + j') state ≡ true = cc in
            let (k, found) =
              filter_from_complete (suc i) states (IsRest-next i first states same) j' state e'
                there in
            elim (Bool-cases (keeps all_states i first)) [
              | inl kept ↦
                  (suc k, ap (λ l. get_elem? l (suc k)) (filter_kept i first states kept) ∙ found)
              | inr dropped ↦
                  (k, ap (λ l. get_elem? l k) (filter_dropped i first states dropped) ∙ found)
            ]
      ]
