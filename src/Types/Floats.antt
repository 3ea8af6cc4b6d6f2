-- ===== src/Types/Floats.antt =====
-- Go's float64: a type with its operations, and the facts of IEEE 754 that the proofs rely on.
-- `exact` is an instance by fractions, on which the facts hold.
pub mod Order
use trimon.Base.{
  ℕ, ◌+◌, ◌-◌, ◌*◌, ◌/◌, ◌^◌, ◌≤◌, ◌<◌, ◌≡◌, ap, ◌∙◌, Bool, false, ◌&&◌, arith, ltb, leb, ◌==◌,
  if◌then◌else◌,
}
use trimon.Base.Int.{ℤ, pos, pos_part}

-- `trunc` is the conversion to `int`, towards zero.
pub record FloatOps (F : Type 0) : Type 0 where
  pub of_ℤ : ℤ → F
  pub add : F → F → F
  pub sub : F → F → F
  pub mul : F → F → F
  pub div : F → F → F
  pub sqrt : F → F
  pub trunc : F → ℤ
  pub nan : F
  pub lt : F → F → Bool
  pub le : F → F → Bool
  pub eq : F → F → Bool

-- Integers up to this one are represented exactly.
abbrev pub max_exact : ℕ
max_exact = 2 ^ 53

module _ {F : Type 0} (fl : FloatOps F) where
  abbrev pub of_ℕ : ℕ → F
  of_ℕ n = fl.of_ℤ (pos n)

  -- 1 - a / b, on counts.
  abbrev pub one_minus_ratio : ℕ → ℕ → F
  one_minus_ratio a b = fl.sub (of_ℕ 1) (fl.div (of_ℕ a) (of_ℕ b))

  -- Small integers are exact, a quotient of equals is 1, and 1 minus a proper fraction of counts
  -- rounds neither to 0 nor to 1.
  pub record FloatLaws : Type 0 where
    pub eq_int : (a b : ℕ) → a ≤ max_exact → b ≤ max_exact → fl.eq (of_ℕ a) (of_ℕ b) ≡ (a == b)
    pub le_int : (a b : ℕ) → a ≤ max_exact → b ≤ max_exact → fl.le (of_ℕ a) (of_ℕ b) ≡ leb a b
    pub sub_int : (a b : ℕ) → a ≤ max_exact → b ≤ a → fl.sub (of_ℕ a) (of_ℕ b) ≡ of_ℕ (a - b)
    pub div_self : (a : ℕ) → 0 < a → a ≤ max_exact → fl.div (of_ℕ a) (of_ℕ a) ≡ of_ℕ 1
    pub zero_div : (b : ℕ) → 0 < b → b ≤ max_exact → fl.div (of_ℕ 0) (of_ℕ b) ≡ of_ℕ 0
    pub proper_ne_zero :
        (a b : ℕ) → 0 < a → a < b → b ≤ max_exact → fl.eq (one_minus_ratio a b) (of_ℕ 0) ≡ false
    pub proper_lt_one :
        (a b : ℕ) → 0 < a → a < b → b ≤ max_exact → fl.le (of_ℕ 1) (one_minus_ratio a b) ≡ false

-- A fraction that is not negative; `den` is 0 for what has no value.
pub record Frac : Type 0 where
  pub num : ℕ
  pub den : ℕ

abbrev frac : ℕ → ℕ → Frac
frac n d = if n == d then record { num = 1; den = 1 } else record { num = n; den = d }

abbrev pub exact : FloatOps Frac
exact = record {
  of_ℤ = λ a. record { num = pos_part a; den = 1 };
  add = λ p q. record { num = p.num * q.den + q.num * p.den; den = p.den * q.den };
  sub = λ p q. record { num = p.num * q.den - q.num * p.den; den = p.den * q.den };
  mul = λ p q. record { num = p.num * q.num; den = p.den * q.den };
  div = λ p q.
      if p.num == 0 then record { num = 0; den = 1 } else frac (p.num * q.den) (p.den * q.num);
  sqrt = λ p. p;
  trunc = λ p. pos (p.num / p.den);
  nan = record { num = 0; den = 0 };
  lt = λ p q. ltb 0 p.den && ltb 0 q.den && ltb (p.num * q.den) (q.num * p.den);
  le = λ p q. ltb 0 p.den && ltb 0 q.den && leb (p.num * q.den) (q.num * p.den);
  eq = λ p q. ltb 0 p.den && ltb 0 q.den && (p.num * q.den == q.num * p.den);
}

exact-proper :
    (a b : ℕ) → 0 < a → a < b → one_minus_ratio exact a b ≡ record { num = b - a; den = b }
exact-proper a b h k = ground arith

at_zero : (n d : ℕ) → 0 < n → exact.eq (record { num = n; den = d }) (of_ℕ exact 0) ≡ false
at_zero n d h = ground arith

at_one : (n d : ℕ) → n < d → exact.le (of_ℕ exact 1) (record { num = n; den = d }) ≡ false
at_one n d h = ground arith

-- The facts hold of the fractions.
pub exact-FloatLaws : FloatLaws exact
exact-FloatLaws = record {
  eq_int = λ a b h k. ground arith;
  le_int = λ a b h k. ground arith;
  sub_int = λ a b h k. ground arith;
  div_self = λ a h k. ground arith;
  zero_div = λ b h k. ground arith;
  proper_ne_zero = λ a b h k l.
      ap (λ q. exact.eq q (of_ℕ exact 0)) (exact-proper a b h k) ∙ at_zero (b - a) b (omega arith);
  proper_lt_one = λ a b h k l.
      ap (exact.le (of_ℕ exact 1)) (exact-proper a b h k) ∙ at_one (b - a) b (omega arith);
}
