-- ===== src/Control/Speed/Init/Picks.antt =====
-- What the generator's assignments sum up to, beside the one that gives all cores the highest frequency.
use heartbeats.Base.{
  ℕ, zero, suc, ◌+◌, ◌≤◌, ◌≡◌, refl, ap, ap₂, ◌⊎◌, inl, inr, List, [], ◌∷◌, ◌++◌, map, arith,
  replicate,
}
use heartbeats.MachineStates.Assignments.{assignments, extend, sum}

abbrev pub AllOf : {A : Type 0} → (A → Type 0) → List A → Type 0
AllOf P [] = Unit {0}
AllOf P (x ∷ xs) = P x × AllOf P xs

abbrev pub AnyOf : {A : Type 0} → (A → Type 0) → List A → Type 0
AnyOf P [] = ⊥
AnyOf P (x ∷ xs) = P x ⊎ AnyOf P xs

module _ {A : Type 0} (P : A → Type 0) where
  pub AllOf-append : (xs ys : List A) → AllOf P xs → AllOf P ys → AllOf P (xs ++ ys)
  AllOf-append [] ys h k = k
  AllOf-append (x ∷ xs) ys (here, h) k = (here, AllOf-append xs ys h k)

  pub AnyOf-append : (xs ys : List A) → AnyOf P xs ⊎ AnyOf P ys → AnyOf P (xs ++ ys)
  AnyOf-append [] ys (inl x) = elim x [ ]
  AnyOf-append [] ys (inr k) = k
  AnyOf-append (x ∷ xs) ys (inl (inl here)) = inl here
  AnyOf-append (x ∷ xs) ys (inl (inr h)) = inr (AnyOf-append xs ys (inl h))
  AnyOf-append (x ∷ xs) ys (inr k) = inr (AnyOf-append xs ys (inr k))

module _ (f : ℕ) where
  -- The highest frequency, or one that is lower by 10 MHz at least.
  abbrev pub IsPick : ℕ → Type 0
  IsPick c = (c ≡ f) ⊎ (c + 10000 ≤ f)

  abbrev pub IsShort : ℕ → List ℕ → Type 0
  IsShort n cores = (cores ≡ replicate n f) ⊎ (sum cores + 10000 ≤ sum (replicate n f))

  longer : (n c : ℕ) (cores : List ℕ) → IsPick c → IsShort n cores → IsShort (suc n) (c ∷ cores)
  longer n c cores (inl e) (inl e') = inl (ap₂ (λ x xs. x ∷ xs) e e')
  longer n c cores (inl e) (inr low) = inr (omega (arith, e, low))
  longer n c cores (inr less) (inl e') = inr (omega (arith, less, ap sum e'))
  longer n c cores (inr less) (inr low) = inr (omega (arith, less, low))

  all_longer :
      (n c : ℕ) (rests : List (List ℕ))
      → IsPick c
      → AllOf (IsShort n) rests
      → AllOf (IsShort (suc n)) (map (λ r. c ∷ r) rests)
  all_longer n c [] pick h = tt
  all_longer n c (r ∷ rests) pick (here, h) = (longer n c r pick here, all_longer n c rests pick h)

  extend-IsShort :
      (n : ℕ) (picks : List ℕ) (rests : List (List ℕ))
      → AllOf IsPick picks
      → AllOf (IsShort n) rests
      → AllOf (IsShort (suc n)) (extend picks rests)
  extend-IsShort n [] rests h k = tt
  extend-IsShort n (c ∷ picks) rests (here, h) k =
      AllOf-append (IsShort (suc n)) (map (λ r. c ∷ r) rests) (extend picks rests)
        (all_longer n c rests here k) (extend-IsShort n picks rests h k)

  pub assignments-IsShort :
      (n : ℕ) (choices : List ℕ) → AllOf IsPick choices → AllOf (IsShort n) (assignments n choices)
  assignments-IsShort zero choices h = (inl refl, tt)
  assignments-IsShort (suc n) choices h =
      extend-IsShort n choices (assignments n choices) h (assignments-IsShort n choices h)

  abbrev pub IsFull : ℕ → List ℕ → Type 0
  IsFull n cores = cores ≡ replicate n f

  any_longer :
      (n c : ℕ) (rests : List (List ℕ))
      → c ≡ f
      → AnyOf (IsFull n) rests
      → AnyOf (IsFull (suc n)) (map (λ r. c ∷ r) rests)
  any_longer n c [] e h = elim h [ ]
  any_longer n c (r ∷ rests) e (inl here) = inl (ap₂ (λ x xs. x ∷ xs) e here)
  any_longer n c (r ∷ rests) e (inr h) = inr (any_longer n c rests e h)

  extend-IsFull :
      (n : ℕ) (picks : List ℕ) (rests : List (List ℕ))
      → AnyOf (λ c. c ≡ f) picks
      → AnyOf (IsFull n) rests
      → AnyOf (IsFull (suc n)) (extend picks rests)
  extend-IsFull n [] rests h k = elim h [ ]
  extend-IsFull n (c ∷ picks) rests (inl e) k =
      AnyOf-append (IsFull (suc n)) (map (λ r. c ∷ r) rests) (extend picks rests)
        (inl (any_longer n c rests e k))
  extend-IsFull n (c ∷ picks) rests (inr h) k =
      AnyOf-append (IsFull (suc n)) (map (λ r. c ∷ r) rests) (extend picks rests)
        (inr (extend-IsFull n picks rests h k))

  pub assignments-IsFull :
      (n : ℕ) (choices : List ℕ)
      → AnyOf (λ c. c ≡ f) choices
      → AnyOf (IsFull n) (assignments n choices)
  assignments-IsFull zero choices h = inl refl
  assignments-IsFull (suc n) choices h =
      extend-IsFull n choices (assignments n choices) h (assignments-IsFull n choices h)
