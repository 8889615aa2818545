-- ===== src/Base/Real.antt =====
-- `bench_real` and `bench_complex` (libbench/bench-user.h). The floating-point operations are a
-- parameter: the programs of the development hold for any type that has them.
use Prim.Native.Nat.{ℕ}
use mathlib.Core.Path.{◌≡◌}
use mathlib.Core.Bool.{Bool}

pub record Real {ℓ} (R : Type ℓ) : Type ℓ where
  pub zero : R
  pub one : R
  pub neg : R → R
  pub add : R → R → R
  pub sub : R → R → R
  pub mul : R → R → R
  pub div : R → R → R
  pub of_ℕ : ℕ → R
  -- `x < y`; a NaN is below nothing and above nothing
  pub lt : R → R → Bool

pub record Complex {ℓ} (R : Type ℓ) : Type ℓ where
  pub re : R
  pub im : R

-- A sign, +1 or -1: multiplying by its negation twice gives every number back, and the sign itself
-- times a number is the negation of that. Rounding does not enter, so floats obey this.
pub record IsUnit {ℓ} {R : Type ℓ} ⦃r : Real R⦄ (sign : R) : Type ℓ where
  pub twice : (x : R) → r.mul (r.neg sign) (r.mul (r.neg sign) x) ≡ x
  pub opposite : (x : R) → r.mul sign x ≡ r.neg (r.mul (r.neg sign) x)

-- What the code uses of <math.h>, and the constant `K2PI`.
pub record Libm {ℓ} (R : Type ℓ) : Type ℓ where
  pub half : R
  pub two_pi : R
  pub sin : R → R
  pub cos : R → R
  pub sqrt : R → R
  pub is_nan : R → Bool
