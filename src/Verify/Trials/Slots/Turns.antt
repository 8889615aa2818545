-- ===== src/Verify/Trials/Slots/Turns.antt =====
-- `arol` and `aphase_shift` on the table of the arrays.
use native.Mathlib.Nat.{mod-lt, div-lt_iff_lt-mul}
use mathlib.Core.Path.{subst}
use bench_fft.Base.{
  ℕ, ◌+◌, ◌*◌, ◌/◌, ◌%◌, ◌^◌, ◌<◌, ◌≤◌, ◌≡◌, ◌≢◌, ap, arith, Buffer, count-IsWritten,
  values-IsWritten,
}
use bench_fft.Base.Real.{Real, Complex, Libm}
use bench_fft.Arrays.{complex_mul}
use bench_fft.Arrays.Laws.{IsDisjoint}
use bench_fft.Verify.{twiddle, arol, aphase_shift}
use bench_fft.Verify.Rows.{flat_lt}
use bench_fft.Verify.Rows.Rotate.{rotated, arol-IsWritten}
use bench_fft.Verify.Rows.Phase.{shifted, aphase_shift-IsWritten}
use bench_fft.Verify.Trials.{Work}
use bench_fft.Verify.Trials.Slots.{Table, IsLaid, Represents, address, update, written-Represents}

-- A rotated place is a place of the array.
pub rotated_lt :
    (n_before n n_after q : ℕ)
    → 1 ≤ n
    → 1 ≤ n_after
    → q < n_before * n * n_after
    → rotated n n_after q < n_before * n * n_after
rotated_lt n_before n n_after q pos pos' lt =
    let row = (div-lt_iff_lt-mul {k = n_after} {x = q} {y = n_before * n} pos').1 lt in
    let block = (div-lt_iff_lt-mul {k = n} {x = q / n_after} {y = n_before} pos).1 row in
    flat_lt (q / n_after / n * n + (q / n_after % n + 1) % n) (q % n_after) (n_before * n) n_after
      (flat_lt (q / n_after / n) ((q / n_after % n + 1) % n) n_before n block
        (mod-lt (q / n_after % n + 1) {m = n} pos))
      (mod-lt q {m = n_after} pos')

module _ {R : Type 0} ⦃r : Real R⦄ (size : ℕ) (mine : ℕ → Type 0) (w : Work)
    (laid : IsLaid size mine w) (table : Table R) (mem : Buffer (Complex R))
    (h : Represents size w table mem) (n_before n n_after : ℕ)
    (splits : n_before * n * n_after ≡ size) (fits : size ≤ 2 ^ 32) (b a : ℕ) (lt : b < 7)
    (lt' : a < 7) (ne : a ≢ b) where
  apart : IsDisjoint (n_before * n * n_after) (address w a) (address w b)
  apart = rw splits (laid.apart a b lt' lt ne)

  small : n_before * n * n_after ≤ 2 ^ 32
  small = omega (arith, splits)

  pub arol-Represents :
      1 ≤ n
      → 1 ≤ n_after
      → n ≤ 2 ^ 32
      → Represents size w
          (update table b (λ q. table a (rotated n n_after q)))
          (arol (address w b) (address w a) n n_before n_after mem)
  arol-Represents pos pos' narrow = written-Represents size mine w laid table mem _ b _ lt h (
      values-IsWritten (address w b) _ mem
        (λ q below. h a (rotated n n_after q) lt' (
          subst (λ m. rotated n n_after q < m) splits
            (rotated_lt n_before n n_after q pos pos' (omega (arith, splits)))))
        (count-IsWritten (address w b) _ mem splits (
          arol-IsWritten n_before n n_after (address w a) (address w b) mem pos small apart
            narrow)))

  pub aphase_shift-Represents :
      ⦃libm : Libm R⦄ (sign : R)
      → Represents size w
          (update table b (shifted n n_after sign (table a)))
          (aphase_shift (address w b) (address w a) n n_before n_after sign mem)
  aphase_shift-Represents sign = written-Represents size mine w laid table mem _ b _ lt h (
      values-IsWritten (address w b) _ mem
        (λ q below. ap (λ x. complex_mul x (twiddle n sign (q / n_after % n))) (h a q lt' below))
        (count-IsWritten (address w b) _ mem splits (
          aphase_shift-IsWritten n_before n n_after (address w a) (address w b) sign mem small
            apart)))
