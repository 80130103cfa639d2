-- ===== src/Control/Speed/Init/Table.antt =====
-- What is right about the table that the filter of `machine_speed_init` leaves.
use heartbeats.Base.{
  ℕ, zero, suc, ◌+◌, ◌^◌, ◌<◌, ◌≡◌, sym, ap, ◌∙◌, inl, inr, true, false, some, List, [], ◌∷◌, arith,
  get_elem?, get_elem?_cons, Bool-cases, order_cases,
}
use mathlib.Core.Bool.{false≢true}
use heartbeats.MachineStates.{MachineState, redundant_state, drop_equivalent, pareto_optimal}
use heartbeats.MachineStates.Order.{IsSorted, InOrder-speed, InOrder-power}
use heartbeats.MachineStates.Pareto.{
  NotUndercut, HasTwin, pareto_optimal-NotUndercut, drop_equivalent-HasTwin,
}
use heartbeats.Control.Speed.Init.{keeps, filter_from, filter_states}
use heartbeats.Control.Speed.Search.{IsTable}
use heartbeats.Control.Speed.Init.Filter.{
  IsKept, IsRest, IsRest-next, first-IsKept, filter_kept, filter_dropped, filter_from-IsKept,
  filter_from_complete,
}

keeps_parts :
    (all_states : List MachineState) (i : ℕ) (state : MachineState)
    → keeps all_states i state ≡ true
    → (redundant_state state ≡ false)
      × (drop_equivalent state i all_states ≡ false)
      × (pareto_optimal state i all_states ≡ true)
      × (0 < state.speed)
unfolding keeps
keeps_parts all_states i state h = ground arith

keeps_all :
    (all_states : List MachineState) (i : ℕ) (state : MachineState)
    → redundant_state state ≡ false
    → drop_equivalent state i all_states ≡ false
    → pareto_optimal state i all_states ≡ true
    → 0 < state.speed
    → keeps all_states i state ≡ true
unfolding keeps
keeps_all all_states i state shape unique best fast = ground arith

-- The filter starts from a list whose first state has no speed, as the one where all cores are off.
abbrev pub StartsAtRest : List MachineState → Type 0
StartsAtRest all_states =
    (first : MachineState) → get_elem? all_states 0 ≡ some first → first.speed ≡ 0

module _ (all_states : List MachineState) (sorted : IsSorted all_states) where
  kept_rise :
      StartsAtRest all_states
      → (i j : ℕ) (a b : MachineState) → IsKept all_states i a
      → IsKept all_states j b
      → i < j
      → a.speed < b.speed
  kept_rise rest zero j a b early later p =
      let (shape, unique, best, fast) = keeps_parts all_states 0 a early.kept in
      let slow = rest a early.inside in absurd (omega arith)
  kept_rise rest (suc i) j a b early later p =
      let order = sorted (suc i) j a b p early.inside later.inside in
      let (shape, unique, best, fast) = keeps_parts all_states j b later.kept in
      let (shape', unique', best', fast') = keeps_parts all_states (suc i) a early.kept in
      elim (order_cases a.speed b.speed) [
        | inl less ↦ less
        | inr (inl equal) ↦
            let down = InOrder-power a b order (omega arith) in
            let up =
              (pareto_optimal-NotUndercut all_states sorted a (suc i) early.inside).0 best' j b
                later.inside (omega arith) in
            let twin : HasTwin all_states b j =
              (suc i, a, omega arith, p, early.inside, equal, omega arith) in
            let dropped = (drop_equivalent-HasTwin all_states sorted b j later.inside).1 twin in
            absurd (false≢true (sym unique ∙ dropped))
        | inr (inr greater) ↦ let h = InOrder-speed a b order in absurd (omega arith)
      ]

module _ (all_states : List MachineState) where
  no_state : (i k : ℕ) (a : MachineState) → get_elem? (filter_from all_states i []) k ≡ some a → ⊥
  unfolding filter_from
  no_state i k a e = ground arith

  filter_from-rising :
      IsSorted all_states
      → StartsAtRest all_states
      → (i : ℕ) (states : List MachineState) → IsRest all_states i states
      → (k l : ℕ) (a b : MachineState) → k < l
      → get_elem? (filter_from all_states i states) k ≡ some a
      → get_elem? (filter_from all_states i states) l ≡ some b
      → a.speed < b.speed
  filter_from-rising sorted rest i [] same k l a b p e e' = absurd (no_state i k a e)
  filter_from-rising sorted rest i (first ∷ states) same k l a b p e e' =
      let next = IsRest-next all_states i first states same in
      let tail = filter_from all_states (suc i) states in
      elim (Bool-cases (keeps all_states i first)) [
        | inr dropped ↦
            let same_list =
              ap (λ s. get_elem? s) (sym (filter_dropped all_states i first states dropped)) in
            filter_from-rising sorted rest (suc i) states next k l a b p
              (ap (λ f. f k) same_list ∙ e) (ap (λ f. f l) same_list ∙ e')
        | inl kept ↦
            let same_list =
              ap (λ s. get_elem? s) (sym (filter_kept all_states i first states kept)) in
            elim (get_elem?_cons first tail l b (ap (λ f. f l) same_list ∙ e')) [
              | inl (head, equal) ↦ absurd (omega arith)
              | inr (l', behind, e2) ↦
                  elim (get_elem?_cons first tail k a (ap (λ f. f k) same_list ∙ e)) [
                    | inl (head, equal) ↦
                        let (j, after, later) =
                          filter_from-IsKept all_states (suc i) states next l' b e2 in
                        let early = first-IsKept all_states i first states same kept a equal in
                        kept_rise all_states sorted rest i j a b early later (omega arith)
                    | inr (k', ahead, e1) ↦
                        filter_from-rising sorted rest (suc i) states next k' l' a b (omega arith)
                          e1 e2
                  ]
            ]
      ]

  whole-IsRest : IsRest all_states 0 all_states
  whole-IsRest j = ap (λ n. get_elem? all_states n) (omega arith)

  -- A state that the filter leaves: its cores do not speed up, none is cheaper at its speed or above,
  -- and its speed is not 0.
  pub record IsWorth (state : MachineState) : Type 0 where
    pub place : ℕ
    pub member : get_elem? all_states place ≡ some state
    pub shape : redundant_state state ≡ false
    pub best : NotUndercut all_states state
    pub fast : 0 < state.speed

  pub record IsFiltered (states : List MachineState) : Type 0 where
    pub table : IsTable states
    pub sound : (k : ℕ) (state : MachineState) → get_elem? states k ≡ some state → IsWorth state
    pub complete :
        (state : MachineState) (worth : IsWorth state)
        → (HasTwin all_states state worth.place → ⊥)
        → (k : ℕ) × (get_elem? states k ≡ some state)

  -- From a sorted list of states that starts with one of speed 0, and has no speed of 2^31 or more,
  -- the filter makes a table of strictly rising speeds. Each state in it is in the list, is not
  -- redundant, is not undercut by a listed state, and has a speed; and each such state of the list
  -- without an equal one before it is in the table.
  pub filter_states-IsFiltered :
      IsSorted all_states
      → StartsAtRest all_states
      → ((i : ℕ) (a : MachineState) → get_elem? all_states i ≡ some a → a.speed < 2 ^ 31)
      → IsFiltered (filter_states all_states)
  unfolding filter_states
  filter_states-IsFiltered sorted rest small = record {
    table = record {
      rising = filter_from-rising sorted rest 0 all_states whole-IsRest;
      small = λ k a e.
          let (j, after, kept) = filter_from-IsKept all_states 0 all_states whole-IsRest k a e in
          small j a kept.inside;
    };
    sound = λ k a e.
        let (j, after, kept) = filter_from-IsKept all_states 0 all_states whole-IsRest k a e in
        let (shape, unique, best, fast) = keeps_parts all_states j a kept.kept in
        record {
          place = j;
          member = kept.inside;
          shape = shape;
          best = (pareto_optimal-NotUndercut all_states sorted a j kept.inside).0 best;
          fast = fast;
        };
    complete = λ a worth alone.
        let unique : drop_equivalent a worth.place all_states ≡ false =
          elim (Bool-cases (drop_equivalent a worth.place all_states)) [
            | inl dropped ↦ absurd (
                alone (
                  (drop_equivalent-HasTwin all_states sorted a worth.place worth.member).0 dropped))
            | inr kept ↦ kept
          ] in
        let best : pareto_optimal a worth.place all_states ≡ true =
          (pareto_optimal-NotUndercut all_states sorted a worth.place worth.member).1 worth.best in
        let at : worth.place ≡ 0 + worth.place = omega arith in
        let keep : keeps all_states (0 + worth.place) a ≡ true =
          ap (λ n. keeps all_states n a) (sym at)
          ∙ keeps_all all_states worth.place a worth.shape unique best worth.fast in
        filter_from_complete all_states 0 all_states whole-IsRest worth.place a worth.member keep;
  }
