-- ===== src/Base/Bits.antt =====
-- `&` at variables: its lowest binary digit, and two uses of that.
use Prim.Native.Nat.{
  ℕ, zero, suc, ◌+◌, ◌*◌, ◌/◌, ◌%◌, ◌≤◌, ◌<◌, min, bit_and, digits, bit_and-bitwise,
}
use mathlib.Core.Path.{◌≡◌, refl}
use mathlib.Core.WellFounded
use native.Mathlib.Omega.{arith}
use bench_fft.Base.Order.{lt_wf}

abbrev and_digits : ℕ → ℕ → ℕ → ℕ
and_digits = digits (λ _. zero) min

and_digits-zero : (f b : ℕ) → and_digits f zero b ≡ 0
and_digits-zero zero b = refl
and_digits-zero (suc f) b = refl

-- Any two fuels that cover the first argument agree.
and_digits_stable : (f g a b : ℕ) → a ≤ f → a ≤ g → and_digits f a b ≡ and_digits g a b
and_digits_stable f g zero b p q = omega (arith, and_digits-zero f b, and_digits-zero g b)
and_digits_stable zero g (suc a) b p q = absurd (omega arith)
and_digits_stable (suc f) zero (suc a) b p q = absurd (omega arith)
and_digits_stable (suc f) (suc g) (suc a) b p q =
    omega (arith, and_digits_stable f g (suc a / 2) (b / 2) (omega arith) (omega arith))

zero-and : (b : ℕ) → bit_and 0 b ≡ 0
zero-and b = bit_and-bitwise 0 b

pub and_low : (a b : ℕ) → bit_and a b ≡ 2 * bit_and (a / 2) (b / 2) + min (a % 2) (b % 2)
and_low zero b = omega (arith, zero-and b, zero-and (b / 2))
and_low (suc a) b =
    let stable = and_digits_stable a (suc a / 2) (suc a / 2) (b / 2) (omega arith) (omega arith) in
    omega (arith, bit_and-bitwise (suc a) b, bit_and-bitwise (suc a / 2) (b / 2), stable)

pub and_self : (a : ℕ) → bit_and a a ≡ a
and_self a = WellFounded.induction lt_wf {C = λ n. bit_and n n ≡ n} a step
  where
    step : (n : ℕ) → ((m : ℕ) → m < n → bit_and m m ≡ m) → bit_and n n ≡ n
    step zero ih = zero-and 0
    step (suc n) ih = omega (arith, and_low (suc n) (suc n), ih (suc n / 2) (omega arith))

pub and-one : (a : ℕ) → bit_and a 1 ≡ a % 2
and-one a = omega (arith, and_low a 1, and-zero (a / 2))
  where
    and-zero : (n : ℕ) → bit_and n 0 ≡ 0
    and-zero n = WellFounded.induction lt_wf {C = λ k. bit_and k 0 ≡ 0} n λ k ih. below k ih
      where
        below : (k : ℕ) → ((m : ℕ) → m < k → bit_and m 0 ≡ 0) → bit_and k 0 ≡ 0
        below zero ih = zero-and 0
        below (suc k) ih = omega (arith, and_low (suc k) 0, ih (suc k / 2) (omega arith))
