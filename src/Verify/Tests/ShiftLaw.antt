-- ===== src/Verify/Tests/ShiftLaw.antt =====
-- The shift theorem of the two-point transform.
use bench_fft.Base.{ℕ, ◌≡◌, ◌⊎◌, ap₂, ◌∙◌, arith, inl, inr}
use bench_fft.Base.Int.{ℤ}
use bench_fft.Base.Exact.{integers}
use bench_fft.Base.Real.{Complex}
use bench_fft.Arrays.{complex_add, complex_sub}
use bench_fft.Verify.Rows.Rotate.{rotated}
use bench_fft.Verify.Rows.Phase.{shifted}
use bench_fft.Verify.Rows.Shape.{rest}
use bench_fft.Verify.Symmetry.Mirror.{volume}
use bench_fft.Verify.Trials.{Shift}
use bench_fft.Verify.Trials.Exact.Shifts.{HasShift, ObeysShift}
use bench_fft.Verify.Tests.Ring.{plus_comm, plus_negated, minus_negated, negated_minus}
use bench_fft.Verify.Tests.TwoPoint.{
  half_turns, two_points, dft, complex_path, below_two, turned_first, turned_second,
}

time_first :
    (sign : ℤ) (x : ℕ → Complex ℤ)
    → shifted ⦃r = integers⦄ ⦃libm = half_turns⦄ 2 1 sign (dft (λ q. x (rotated 2 1 q))) 0 ≡ dft x 0
unfolding dft integers
time_first sign x =
    turned_first (complex_add ⦃r = integers⦄ (x 1) (x 0)) sign
    ∙ complex_path (plus_comm (x 1).re (x 0).re) (plus_comm (x 1).im (x 0).im)

time_second :
    (sign : ℤ) (x : ℕ → Complex ℤ)
    → shifted ⦃r = integers⦄ ⦃libm = half_turns⦄ 2 1 sign (dft (λ q. x (rotated 2 1 q))) 1 ≡ dft x 1
unfolding dft integers
time_second sign x =
    turned_second (complex_sub ⦃r = integers⦄ (x 1) (x 0)) sign
    ∙ complex_path (negated_minus (x 1).re (x 0).re) (negated_minus (x 1).im (x 0).im)

freq_first :
    (sign : ℤ) (x : ℕ → Complex ℤ)
    → dft (shifted ⦃r = integers⦄ ⦃libm = half_turns⦄ 2 1 sign x) (rotated 2 1 0) ≡ dft x 0
unfolding dft integers
freq_first sign x =
    ap₂ (complex_sub ⦃r = integers⦄) (turned_first (x 0) sign) (turned_second (x 1) sign)
    ∙ complex_path (minus_negated (x 0).re (x 1).re) (minus_negated (x 0).im (x 1).im)

freq_second :
    (sign : ℤ) (x : ℕ → Complex ℤ)
    → dft (shifted ⦃r = integers⦄ ⦃libm = half_turns⦄ 2 1 sign x) (rotated 2 1 1) ≡ dft x 1
unfolding dft integers
freq_second sign x =
    ap₂ (complex_add ⦃r = integers⦄) (turned_first (x 0) sign) (turned_second (x 1) sign)
    ∙ complex_path (plus_negated (x 0).re (x 1).re) (plus_negated (x 0).im (x 1).im)

pub dft-ObeysShift :
    (which : Shift) (sign : ℤ)
    → ObeysShift ⦃r = integers⦄ ⦃libm = half_turns⦄ which two_points sign dft
unfolding rest volume
dft-ObeysShift Shift.time_shift sign dim x i lt suited below =
    at_dim (omega arith) (below_two i below)
  where
    at_dim :
        dim ≡ 0
        → (i ≡ 0) ⊎ (i ≡ 1)
        → HasShift ⦃r = integers⦄ ⦃libm = half_turns⦄ Shift.time_shift two_points sign dft dim x i
    at_dim e (inl first) = rw (e, first) (time_first sign x)
    at_dim e (inr second) = rw (e, second) (time_second sign x)
dft-ObeysShift Shift.freq_shift sign dim x i lt suited below =
    at_dim (omega arith) (below_two i below)
  where
    at_dim :
        dim ≡ 0
        → (i ≡ 0) ⊎ (i ≡ 1)
        → HasShift ⦃r = integers⦄ ⦃libm = half_turns⦄ Shift.freq_shift two_points sign dft dim x i
    at_dim e (inl first) = rw (e, first) (freq_first (integers.neg sign) x)
    at_dim e (inr second) = rw (e, second) (freq_second (integers.neg sign) x)
