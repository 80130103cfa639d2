-- ===== src/Double.antt =====
-- The C type `double`, which the processor implements: the operations that the code uses, and no law
-- of arithmetic. The theorems take them as an argument.
use heartbeats.Base.{
  ◌+◌, ◌*◌, ◌/◌, Bool, ℤ, pos, negsuc, pos_part, neg_part, sub_ℕ, ◌+ℤ◌, ◌-ℤ◌, ltb_ℤ, eqb_ℤ,
}

pub record Double (D : Type 0) : Type 0 where
  -- `(double) n`
  pub of_int : ℤ → D
  pub add : D → D → D
  pub sub : D → D → D
  pub mul : D → D → D
  pub div : D → D → D
  pub lt : D → D → Bool
  pub eq : D → D → Bool
  -- `(float) x`, widened again
  pub narrow : D → D
  -- `(int64_t) x`, toward zero
  pub to_int : D → ℤ

mul_ℤ : ℤ → ℤ → ℤ
mul_ℤ a b =
    sub_ℕ (pos_part a * pos_part b + neg_part a * neg_part b)
      (pos_part a * neg_part b + neg_part a * pos_part b)

div_ℤ : ℤ → ℤ → ℤ
div_ℤ (pos a) (pos b) = pos (a / b)
div_ℤ (pos a) (negsuc b) = sub_ℕ 0 (a / (b + 1))
div_ℤ (negsuc a) (pos b) = sub_ℕ 0 ((a + 1) / b)
div_ℤ (negsuc a) (negsuc b) = pos ((a + 1) / (b + 1))

-- Whole numbers in place of `double`, for runs.
instance unfoldable pub whole : Double ℤ
unfolding mul_ℤ div_ℤ ◌+ℤ◌ ◌-ℤ◌
whole = record {
  of_int = λ n. n;
  add = ◌+ℤ◌;
  sub = ◌-ℤ◌;
  mul = mul_ℤ;
  div = div_ℤ;
  lt = ltb_ℤ;
  eq = eqb_ℤ;
  narrow = λ x. x;
  to_int = λ x. x;
}
