-- ===== src/Hermitian/Fftpack.antt =====
-- The fftpack format: real and imaginary part of each element in turn.
pub mod Gather
pub mod Spread
pub mod Format
use bench_fft.Base.{
  ℕ, zero, suc, ◌+◌, ◌-◌, ◌*◌, ◌/◌, ◌%◌, ◌<◌, ◌≡◌, ◌≢◌, ◌⊎◌, inl, inr, refl, ap, ◌∙◌, arith, true,
  ◌==◌, Bool-cases, ==→≡, Buffer, store, store_same, store_other, loop_below, IsApart, IsPaired,
  pair, pairs-IsPaired, if◌then◌else◌,
}
use bench_fft.Base.Real.{Real, Complex}
use bench_fft.Arrays.Rows.{Cursor}
use bench_fft.Hermitian.{
  size_1d, rounds, conjugate, real_number, signed, to_fftpack, of_fftpack, copy_c2h_1d_fftpack,
  copy_h2c_1d_fftpack,
}
use bench_fft.Hermitian.Sweep.{sweep, IsSwept, sweep-IsSwept}
use bench_fft.Hermitian.Spec.{IsFormat, ran, Layout, IsHalf, IsWhole}
use bench_fft.Hermitian.Halfcomplex.{one_before, middle_round}

pub fftpack_covers :
    (n j : ℕ)
    → 0 < n
    → j < n
    → (j ≡ 0)
      ⊎ ((k : ℕ) × (0 < k) × (2 * k < n) × (j ≡ 2 * k - 1))
      ⊎ ((k : ℕ) × (0 < k) × (2 * k < n) × (j ≡ 2 * k))
      ⊎ ((k : ℕ) × (0 < k) × (2 * k ≡ n) × (j ≡ n - 1))
fftpack_covers n j h lt = elim (Bool-cases (j == 0)) [
  | inl start ↦ inl (==→≡ j 0 start)
  | inr later ↦ elim (Bool-cases (j % 2 == 0)) [
    | inl even ↦ inr (inr (inl (j / 2, ground arith, ground arith, ground arith)))
    | inr odd ↦ elim (Bool-cases (j + 1 == n)) [
      | inl last ↦ inr (inr (inr (j / 2 + 1, omega arith, ground arith, ground arith)))
      | inr early ↦ inr (inl (j / 2 + 1, omega arith, ground arith, ground arith))
    ]
  ]
]

abbrev pub fftpack : Layout
fftpack = record {
  real_at = λ n k. 2 * k - 1;
  imag_at = λ n k. 2 * k;
  middle_at = λ n. n - 1;
  IsHeld = λ n. 0 < n;
  positive = λ n h. h;
  covers = fftpack_covers;
}
