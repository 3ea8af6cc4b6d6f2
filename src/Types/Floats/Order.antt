-- ===== src/Types/Floats/Order.antt =====
-- The order of Go's float64 under the arithmetic of internal/probe/stats.go: facts of IEEE 754, which
-- rounds an exact result to the nearest float and so never past a float.
use native.Mathlib.Nat.{mul-le-mul_left}
use trimon.Base.{zero, suc, ℕ, ◌*◌, ◌≤◌, ◌<◌, ◌≡◌, true, arith}
use trimon.Types.Floats.{FloatOps, of_ℕ, max_exact, Frac, exact}

module _ {F : Type 0} (fl : FloatOps F) where
  -- A quotient of counts is on the side of an integer that the exact quotient is on, and a product
  -- with 1 / b keeps the order.
  pub record OrderLaws : Type 0 where
    pub quotient_ge :
        (a b s : ℕ)
        → 0 < b
        → b ≤ max_exact
        → s ≤ max_exact
        → a * b ≤ s
        → fl.le (of_ℕ fl a) (fl.div (of_ℕ fl s) (of_ℕ fl b)) ≡ true
    pub quotient_le :
        (a b s : ℕ)
        → 0 < b
        → b ≤ max_exact
        → a ≤ max_exact
        → s ≤ a * b
        → fl.le (fl.div (of_ℕ fl s) (of_ℕ fl b)) (of_ℕ fl a) ≡ true
    pub scale :
        (x y : F) (b : ℕ)
        → 0 < b
        → b ≤ max_exact
        → fl.le x y ≡ true
        → let c = fl.div (of_ℕ fl 1) (of_ℕ fl b) in fl.le (fl.mul x c) (fl.mul y c) ≡ true

exact-quotient_ge :
    (a b s : ℕ)
    → 0 < b
    → a * b ≤ s
    → exact.le (of_ℕ exact a) (exact.div (of_ℕ exact s) (of_ℕ exact b)) ≡ true
exact-quotient_ge zero b s h m = ground (arith, h, m)
exact-quotient_ge (suc zero) b s h m = ground (arith, h, m)
exact-quotient_ge (suc (suc a)) b s h m = ground (arith, h, m)

scaled : (a d a' d' b : ℕ) → a * d' ≤ a' * d → a * 1 * (d' * b) ≤ a' * 1 * (d * b)
scaled a d a' d' b h = omega (arith, mul-le-mul_left b h)

exact-scale :
    (x y : Frac) (b : ℕ)
    → 0 < b
    → exact.le x y ≡ true
    → let c = exact.div (of_ℕ exact 1) (of_ℕ exact b) in
      exact.le (exact.mul x c) (exact.mul y c) ≡ true
exact-scale x y zero h e = elim h [ ]
exact-scale x y (suc zero) h e = ground (arith, e)
exact-scale x y (suc (suc b)) h e = ground (arith, e, scaled x.num x.den y.num y.den (suc (suc b)))

-- The facts hold of the fractions.
pub exact-OrderLaws : OrderLaws exact
exact-OrderLaws = record {
  quotient_ge = λ a b s h k l m. exact-quotient_ge a b s h m;
  quotient_le = λ a b s h k l m. ground (arith, h, m);
  scale = λ x y b h k e. exact-scale x y b h e;
}
