-- ===== src/Control/Speed/Init/Top.antt =====
-- The filter leaves a state of the highest speed.
use mathlib.Core.Option.{some-injective}
use heartbeats.Base.{
  ℕ, zero, suc, ◌+◌, ◌≤◌, ◌<◌, ◌≡◌, ◌≢◌, refl, ap, ◌∙◌, sym, inl, inr, Bool, true, false, not, ◌&&◌,
  ◌||◌, some, List, [], ◌∷◌, arith, ltb, ◌==◌, get_elem?, get_elem?_cons, ==_iff, Bool-cases,
}
use heartbeats.MachineStates.{MachineState, redundant_state, drop_equivalent, pareto_optimal}
use heartbeats.MachineStates.Order.{IsSorted}
use heartbeats.MachineStates.Pareto.{pareto_optimal-NotUndercut, drop_equivalent-HasTwin}
use heartbeats.Control.Speed.Init.{keeps, filter_states}
use heartbeats.Control.Speed.Init.Filter.{filter_from_complete}

abbrev pub all {ℓ} : {A : Type ℓ} → (A → Bool) → List A → Bool
all f [] = true
all f (x ∷ xs) = f x && all f xs

abbrev pub any {ℓ} : {A : Type ℓ} → (A → Bool) → List A → Bool
any f [] = false
any f (x ∷ xs) = f x || any f xs

module _ (top power : ℕ) where
  -- Slower than `top`, or at `top` with the one power and frequencies that do not rise.
  abbrev pub is_ranked : MachineState → Bool
  is_ranked s =
      ltb s.speed top || ((s.speed == top) && (s.power == power) && not (redundant_state s))

  abbrev pub is_top : MachineState → Bool
  is_top s = s.speed == top

  -- The first state of speed `top`.
  record HasFirst (states : List MachineState) : Type 0 where
    at : ℕ
    state : MachineState
    found : get_elem? states at ≡ some state
    fast : state.speed ≡ top
    before : (j : ℕ) (s : MachineState) → j < at → get_elem? states j ≡ some s → s.speed ≢ top

  any-HasFirst : (states : List MachineState) → any is_top states ≡ true → HasFirst states
  any-HasFirst [] h = absurd (ground arith)
  any-HasFirst (s ∷ states) h = elim (Bool-cases (s.speed == top)) [
    | inl here ↦ record {
      at = 0;
      state = s;
      found = refl;
      fast = (==_iff s.speed top).0 here;
      before = λ j s' p e. elim p [ ];
    }
    | inr other ↦
        let later : any is_top states ≡ true = ground arith in
        let rest = any-HasFirst states later in
        record {
          at = suc rest.at;
          state = rest.state;
          found = rest.found;
          fast = rest.fast;
          before = λ j s' p e. elim (get_elem?_cons s states j s' e) [
            | inl (z, same) ↦
                λ fast. absurd (ground (arith, ap (λ (x : MachineState). x.speed) same))
            | inr (j', next, e') ↦ rest.before j' s' (omega arith) e'
          ];
        }
  ]

  all-ranked :
      (states : List MachineState) (i : ℕ) (s : MachineState)
      → all is_ranked states ≡ true
      → get_elem? states i ≡ some s
      → is_ranked s ≡ true
  all-ranked [] i s h e = absurd (ground arith)
  all-ranked (x ∷ states) zero s h e =
      let here : is_ranked x ≡ true = ground arith in
      ap is_ranked (sym (some-injective x s e)) ∙ here
  all-ranked (x ∷ states) (suc i) s h e = all-ranked states i s (ground arith) e

  ranked_top :
      (s : MachineState)
      → is_ranked s ≡ true
      → top ≤ s.speed
      → (s.power ≡ power) × (redundant_state s ≡ false)
  ranked_top s h fast = (ground arith, ground arith)

  -- From a sorted list in which every state is slower than `top`, or has that speed, the one power,
  -- and frequencies that do not rise, and which has a state of that speed, the filter leaves one.
  pub filter_states-top :
      (states : List MachineState)
      → IsSorted states
      → 0 < top
      → all is_ranked states ≡ true
      → any is_top states ≡ true
      → (k : ℕ) × (s : MachineState) × (get_elem? (filter_states states) k ≡ some s)
        × (s.speed ≡ top)
  unfolding filter_states keeps
  filter_states-top states sorted fast ranked there =
      let one = any-HasFirst states there in
      let (same_power, shape) =
        ranked_top one.state (all-ranked states one.at one.state ranked one.found)
          (omega (arith, one.fast)) in
      let unique : drop_equivalent one.state one.at states ≡ false =
        elim (Bool-cases (drop_equivalent one.state one.at states)) [
          | inr kept ↦ kept
          | inl dropped ↦
              let (j, other, positive, low, e, speed, equal) =
                (drop_equivalent-HasTwin states sorted one.state one.at one.found).0 dropped in
              absurd (one.before j other low e (speed ∙ one.fast))
        ] in
      let best : pareto_optimal one.state one.at states ≡ true =
        (pareto_optimal-NotUndercut states sorted one.state one.at one.found).1 (λ j other e up.
          let (other_power, other_shape) =
            ranked_top other (all-ranked states j other ranked e) (omega (arith, one.fast)) in
          omega (arith, same_power, other_power)) in
      let same_place : 0 + one.at ≡ one.at = omega arith in
      let keep : keeps states (0 + one.at) one.state ≡ true =
        ap (λ n. keeps states n one.state) same_place
        ∙ rw (shape, unique, best) (ground (arith, one.fast)) in
      let (k, e) =
        filter_from_complete states 0 states (λ j. ap (λ n. get_elem? states n) (omega arith))
          one.at one.state one.found keep in
      (k, one.state, e, one.fast)
