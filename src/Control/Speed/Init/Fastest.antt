-- ===== src/Control/Speed/Init/Fastest.antt =====
-- Of the states that the generator makes, the one with all cores at the highest frequency is the fastest,
-- and the filter leaves its speed.
use mathlib.Core.List.{foldr, Perm}
use mathlib.Core.List.Perm
use mathlib.Core.Bool.{Bool-set}
use heartbeats.Base.{
  ℕ, zero, suc, ◌*◌, ◌^◌, ◌≤◌, ◌<◌, ◌≡◌, refl, ap, ◌∙◌, sym, inl, inr, Bool, true, false, ◌&&◌,
  ◌||◌, some, List, [], ◌∷◌, ◌++◌, map, arith, ◌==◌, get_elem?, replicate,
}
use heartbeats.MachineStates.{MachineState, redundant_state}
use heartbeats.MachineStates.Order.{IsSorted}
use heartbeats.MachineStates.Redundant.{redundant_state-IsDescending}
use heartbeats.MachineStates.Assignments.{assignments, state_of, sum}
use heartbeats.Control.Speed.Init.{filter_states}
use heartbeats.Control.Speed.Init.Top.{all, any, is_ranked, is_top, filter_states-top}
use heartbeats.Control.Speed.Init.Picks.{
  AllOf, AnyOf, AllOf-append, AnyOf-append, IsPick, IsShort, IsFull, assignments-IsShort,
  assignments-IsFull,
}

module _ {A : Type 0} (f : A → Bool) where
  all-foldr : (xs : List A) → all f xs ≡ foldr (λ x b. f x && b) true xs
  all-foldr [] = refl
  all-foldr (x ∷ xs) = ap (λ b. f x && b) (all-foldr xs)

  any-foldr : (xs : List A) → any f xs ≡ foldr (λ x b. f x || b) false xs
  any-foldr [] = refl
  any-foldr (x ∷ xs) = ap (λ b. f x || b) (any-foldr xs)

  -- A permutation does not change what holds of all elements, or of one.
  all-Perm : {xs ys : List A} → Perm xs ys → all f xs ≡ all f ys
  all-Perm {xs} {ys} p =
      all-foldr xs
      ∙ (Perm.foldr-eq Bool-set (λ x b. f x && b) (λ a b x. ground arith) p true
          ∙ sym (all-foldr ys))

  any-Perm : {xs ys : List A} → Perm xs ys → any f xs ≡ any f ys
  any-Perm {xs} {ys} p =
      any-foldr xs
      ∙ (Perm.foldr-eq Bool-set (λ x b. f x || b) (λ a b x. ground arith) p false
          ∙ sym (any-foldr ys))

module _ (f : ℕ) where
  -- The speed and the power of the state with all cores at `f`.
  abbrev pub top_speed : ℕ → ℕ
  top_speed n = (state_of (replicate n f)).speed

  abbrev top_power : ℕ → ℕ
  top_power n = (state_of (replicate n f)).power

  full_cell : (n i a : ℕ) → get_elem? (replicate n f) i ≡ some a → a ≡ f
  full_cell zero i a e = absurd (ground arith)
  full_cell (suc n) zero a e = ground arith
  full_cell (suc n) (suc i) a e = full_cell n i a e

  full_shape : (n : ℕ) → f < 2 ^ 64 → redundant_state (state_of (replicate n f)) ≡ false
  full_shape n small =
      (redundant_state-IsDescending (state_of (replicate n f))
          (λ i a e. omega (arith, full_cell n i a e))).1
        (λ i j a b p e e'. omega (arith, full_cell n i a e, full_cell n j b e'))

  module _ (n : ℕ) (word : f < 2 ^ 64) (small : sum (replicate n f) < 2 ^ 31 * 10000) where
    full-ranked : is_ranked (top_speed n) (top_power n) (state_of (replicate n f)) ≡ true
    full-ranked = rw (full_shape n word) (ground arith)

    short-ranked :
        (cores : List ℕ)
        → IsShort f n cores
        → is_ranked (top_speed n) (top_power n) (state_of cores) ≡ true
    short-ranked cores (inl e) =
        ap (λ cs. is_ranked (top_speed n) (top_power n) (state_of cs)) e ∙ full-ranked
    short-ranked cores (inr low) =
        let slower : (state_of cores).speed < top_speed n = omega arith in ground arith

    all_ranked :
        (rows : List (List ℕ))
        → AllOf (IsShort f n) rows
        → all (is_ranked (top_speed n) (top_power n)) (map state_of rows) ≡ true
    all_ranked [] h = refl
    all_ranked (row ∷ rows) (here, h) = rw (short-ranked row here, all_ranked rows h) refl

    any_top :
        (rows : List (List ℕ))
        → AnyOf (IsFull f n) rows
        → any (is_top (top_speed n) (top_power n)) (map state_of rows) ≡ true
    any_top [] h = elim h [ ]
    any_top (row ∷ rows) (inl e) =
        let here : is_top (top_speed n) (top_power n) (state_of row) ≡ true =
          ap (λ cs. (state_of cs).speed == top_speed n) e ∙ ground arith in
        rw here refl
    any_top (row ∷ rows) (inr h) = rw (any_top rows h) (ground arith)

    -- Where `sorted` is a sorted permutation of the states that the generator makes, the highest
    -- frequency is 10 MHz at least and as far from the others, and the sum over the cores is below
    -- 2^31 times 10000, the filter leaves a state with the speed of all cores at the highest frequency:
    -- the table of the machine speed actuator is not empty, and has that speed.
    pub filter_states-fastest :
        (freqs : List ℕ) (sorted : List MachineState)
        → IsSorted sorted
        → Perm sorted (map state_of (assignments n (freqs ++ (0 ∷ []))))
        → 0 < top_speed n
        → 10000 ≤ f
        → AllOf (IsPick f) freqs
        → AnyOf (λ c. c ≡ f) freqs
        → (k : ℕ) × (s : MachineState) × (get_elem? (filter_states sorted) k ≡ some s)
          × (s.speed ≡ top_speed n)
    filter_states-fastest freqs sorted in_order permutes fast high picks full =
        let choices = freqs ++ (0 ∷ []) in
        let picks' = AllOf-append (IsPick f) freqs (0 ∷ []) picks (inr (omega arith), tt) in
        let full' = AnyOf-append (λ c. c ≡ f) freqs (0 ∷ []) (inl full) in
        filter_states-top (top_speed n) (top_power n) sorted in_order fast
          (all-Perm (is_ranked (top_speed n) (top_power n)) permutes
            ∙ all_ranked (assignments n choices) (assignments-IsShort f n choices picks'))
          (any-Perm (is_top (top_speed n) (top_power n)) permutes
            ∙ any_top (assignments n choices) (assignments-IsFull f n choices full'))
