-- ===== src/Base/Exact.antt =====
-- The integers in place of the reals, for tests: exact sums and products, and a quotient that cuts
-- off.
use Prim.Native.Nat.{◌+◌, ◌/◌}
use mathlib.Core.Path.{◌≡◌}
use native.Mathlib.Omega.{arith}
use bench_fft.Base.Int.{ℤ, ◌+ℤ◌, ◌-ℤ◌, ◌*ℤ◌, negate, ltb_ℤ, pos_part, neg_part, sub_ℕ}
use bench_fft.Base.Int.ℤ.{pos, negsuc}
use bench_fft.Base.Tests.{if◌then◌else◌}
use bench_fft.Base.Real.{Real, IsUnit}

abbrev quotient : ℤ → ℤ → ℤ
quotient a b =
    let q = (pos_part a + neg_part a) / (pos_part b + neg_part b) in
    if ltb_ℤ (a *ℤ b) (pos 0) then sub_ℕ 0 q else pos q

instance unfoldable pub integers : Real ℤ
integers = record {
  zero = pos 0;
  one = pos 1;
  neg = negate;
  add = ◌+ℤ◌;
  sub = ◌-ℤ◌;
  mul = ◌*ℤ◌;
  div = quotient;
  of_ℕ = pos;
  lt = ltb_ℤ;
}

times_one : (x : ℤ) → pos 1 *ℤ (pos 1 *ℤ x) ≡ x
unfolding ◌*ℤ◌
times_one x = ground arith

opposite_one : (x : ℤ) → negsuc 0 *ℤ x ≡ negate (pos 1 *ℤ x)
unfolding ◌*ℤ◌ negate
opposite_one x = ground arith

pub minus_one-IsUnit : IsUnit ⦃r = integers⦄ (negsuc 0)
unfolding integers negate
minus_one-IsUnit = record { twice = times_one; opposite = opposite_one }
