-- ===== src/MachineStates/Power.antt =====
-- `ipow` computes powers modulo 2^32.
use native.Mathlib.Nat.{
  pow-suc, pow-zero, mul_comm, mod-add-div, add-mul-mod_self_left, mod-eq_of_lt,
}
use heartbeats.Base.{
  ℕ, zero, suc, ◌+◌, ◌*◌, ◌/◌, ◌%◌, ◌^◌, ◌<◌, ◌≡◌, ap, ◌∙◌, sym, some, arith, Bool-cases, ◌==◌, inl,
  inr, ==_iff,
}
use heartbeats.MachineStates.{ipow_loop, ipow}

mod-mul-mod : (a b m : ℕ) → a % m * b % m ≡ a * b % m
mod-mul-mod a b m =
    sym (add-mul-mod_self_left (a % m * b) m (a / m * b))
    ∙ ap (λ t. t % m) (omega (arith, ap (λ (t : ℕ). t * b) (mod-add-div a m)))

mul-mod-mod : (a b m : ℕ) → a * (b % m) % m ≡ a * b % m
mul-mod-mod a b m = rw (mul_comm a (b % m), mod-mul-mod b a m, mul_comm b a)

pow-mod : (b k m : ℕ) → (b % m) ^ k % m ≡ b ^ k % m
pow-mod b zero m = rw (pow-zero, pow-zero)
pow-mod b (suc k) m =
    rw (pow-suc (b % m) k, pow-suc b k, mul-mod-mod, ← mod-mul-mod ((b % m) ^ k) b m, pow-mod b k m)
      (mod-mul-mod (b ^ k) b m)

pow-square : (b k : ℕ) → (b * b) ^ k ≡ b ^ (k + k)
pow-square b zero = rw (pow-zero (b * b), pow-zero b)
pow-square b (suc k) =
    let e : suc k + suc k ≡ suc (suc (k + k)) = omega arith in
    rw (e, pow-suc, pow-suc, pow-suc, pow-square b k) (omega arith)

pow-even : (b e : ℕ) → e % 2 ≡ 0 → (b * b) ^ (e / 2) ≡ b ^ e
pow-even b e h = pow-square b (e / 2) ∙ ap (λ t. b ^ t) (omega arith)

pow-odd : (b e : ℕ) → e % 2 ≡ 1 → b * (b * b) ^ (e / 2) ≡ b ^ e
pow-odd b e h =
    let half : suc (e / 2 + e / 2) ≡ e = omega arith in
    rw (pow-square b (e / 2))
      (mul_comm b (b ^ (e / 2 + e / 2)) ∙ sym (pow-suc b (e / 2 + e / 2)) ∙ ap (λ t. b ^ t) half)

-- One round leaves `result * base ^ exp` as it was, modulo `m`.
round_odd : (r b e m : ℕ) → e % 2 ≡ 1 → r * b % m * (b * b % m) ^ (e / 2) % m ≡ r * b ^ e % m
round_odd r b e m h =
    mod-mul-mod (r * b) ((b * b % m) ^ (e / 2)) m
    ∙ sym (mul-mod-mod (r * b) ((b * b % m) ^ (e / 2)) m)
    ∙ ap (λ t. r * b * t % m) (pow-mod (b * b) (e / 2) m)
    ∙ mul-mod-mod (r * b) ((b * b) ^ (e / 2)) m
    ∙ ap (λ t. t % m) (omega (arith, ap (λ (t : ℕ). r * t) (pow-odd b e h)))

round_even : (r b e m : ℕ) → e % 2 ≡ 0 → r * (b * b % m) ^ (e / 2) % m ≡ r * b ^ e % m
round_even r b e m h =
    sym (mul-mod-mod r ((b * b % m) ^ (e / 2)) m)
    ∙ ap (λ t. r * t % m) (pow-mod (b * b) (e / 2) m)
    ∙ mul-mod-mod r ((b * b) ^ (e / 2)) m
    ∙ ap (λ t. r * t % m) (pow-even b e h)

ipow_loop_lem : (f r b e : ℕ) → e < f → r < 2 ^ 32 → ipow_loop f r b e ≡ some (r * b ^ e % 2 ^ 32)
unfolding ipow_loop
ipow_loop_lem zero r b e h k = elim h [ ]
ipow_loop_lem (suc f) r b e h k = elim (Bool-cases (e == 0)) [
  | inl done ↦ rw (done, (==_iff e 0).0 done, pow-zero) (ap some (omega arith))
  | inr more ↦ rw more (elim (Bool-cases (e % 2 == 1)) [
    | inl odd ↦
        rw
          (
            odd,
            ipow_loop_lem f (r * b % 2 ^ 32) (b * b % 2 ^ 32) (e / 2) (ground arith) (omega arith),
          )
          (ap some (round_odd r b e (2 ^ 32) (ground arith)))
    | inr even ↦
        rw (even, ipow_loop_lem f r (b * b % 2 ^ 32) (e / 2) (ground arith) k)
          (ap some (round_even r b e (2 ^ 32) (ground arith)))
  ])
]

-- `ipow` returns, and its result is the power modulo 2^32, for every base and exponent.
pub ipow_lem : (base exp : ℕ) → ipow base exp ≡ some (base ^ exp % 2 ^ 32)
unfolding ipow
ipow_lem base exp =
    ipow_loop_lem (exp + 1) 1 base exp (omega arith) (omega arith) ∙ ap some (omega arith)

pub ipow_exact : (base exp : ℕ) → base ^ exp < 2 ^ 32 → ipow base exp ≡ some (base ^ exp)
ipow_exact base exp h = ipow_lem base exp ∙ ap some (mod-eq_of_lt h)
