-- ===== src/MachineStates/Redundant.antt =====
-- `redundant_state` tells the states whose frequencies fall along the cores.
use heartbeats.Base.{
  ℕ, zero, suc, ◌-◌, ◌^◌, ◌≤◌, ◌<◌, ◌≡◌, refl, ◌↔◌, false, some, List, [], ◌∷◌, arith, get_elem?,
}
use heartbeats.MachineStates.{MachineState, redundant_loop, redundant_state}

abbrev pub IsDescending : List ℕ → Type 0
IsDescending cores =
    (i j a b : ℕ) → i < j → get_elem? cores i ≡ some a → get_elem? cores j ≡ some b → b ≤ a

-- No element is above `last`.
abbrev pub Below : ℕ → List ℕ → Type 0
Below last cores = (i a : ℕ) → get_elem? cores i ≡ some a → a ≤ last

loop-Below : (cores : List ℕ) (last : ℕ) → redundant_loop cores last ≡ false → Below last cores
unfolding redundant_loop
loop-Below [] last h i a e = ground arith
loop-Below (c ∷ cores) last h zero a e = ground arith
loop-Below (c ∷ cores) last h (suc i) a e =
    let rest : redundant_loop cores c ≡ false = ground arith in
    ground (arith, loop-Below cores c rest i a e)

loop-IsDescending :
    (cores : List ℕ) (last : ℕ) → redundant_loop cores last ≡ false → IsDescending cores
unfolding redundant_loop
loop-IsDescending [] last h i j a b p e e' = ground arith
loop-IsDescending (c ∷ cores) last h i zero a b p e e' = elim p [ ]
loop-IsDescending (c ∷ cores) last h zero (suc j) a b p e e' =
    let rest : redundant_loop cores c ≡ false = ground arith in
    ground (arith, loop-Below cores c rest j b e')
loop-IsDescending (c ∷ cores) last h (suc i) (suc j) a b p e e' =
    loop-IsDescending cores c (ground arith) i j a b (omega arith) e e'

descending_loop :
    (cores : List ℕ) (last : ℕ)
    → Below last cores
    → IsDescending cores
    → redundant_loop cores last ≡ false
unfolding redundant_loop
descending_loop [] last below d = refl
descending_loop (c ∷ cores) last below d = ground (
  arith,
  below 0 c refl,
  descending_loop cores c (λ i a e. d 0 (suc i) c a (omega arith) refl e)
      (λ i j a b p. d (suc i) (suc j) a b (omega arith)),
)

-- Of a state whose frequencies are 64-bit numbers, `redundant_state` answers no exactly when they do
-- not rise from one core to a later one.
pub redundant_state-IsDescending :
    (state : MachineState)
    → Below (2 ^ 64 - 1) state.cores
    → (redundant_state state ≡ false) ↔ IsDescending state.cores
unfolding redundant_state
redundant_state-IsDescending state words =
    (loop-IsDescending state.cores (2 ^ 64 - 1), descending_loop state.cores (2 ^ 64 - 1) words)
