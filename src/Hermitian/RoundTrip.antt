-- ===== src/Hermitian/RoundTrip.antt =====
-- Copying to each format and back.
use bench_fft.Base.{ℕ, ◌+◌, ◌<◌, ◌≡◌}
use bench_fft.Base.Real.{Real, IsUnit}
use bench_fft.Base.Outcome.{ok, ◌>>=◌}
use bench_fft.Problem.{Problem}
use bench_fft.Arrays.{Memory}
use bench_fft.Hermitian.{
  size_1d, copy_c2h_1d_halfcomplex, copy_h2c_1d_halfcomplex, copy_c2h_1d_fftpack,
  copy_h2c_1d_fftpack, copy_c2h_1d_packed, copy_h2c_1d_packed,
}
use bench_fft.Hermitian.Spec.{Is1d, IsHermitian, c2h-h2c, h2c-c2h}
use bench_fft.Hermitian.Halfcomplex.{halfcomplex, halfcomplex-IsFormat}
use bench_fft.Hermitian.Fftpack.{fftpack}
use bench_fft.Hermitian.Fftpack.Format.{fftpack-IsFormat}
use bench_fft.Hermitian.Packed.{packed, packed-IsFormat}

module _ {R : Type 0} ⦃r : Real R⦄ (p : Problem) (sign : R) (unit : IsUnit sign) (base : ℕ)
    (mem : Memory R) where
  -- For a one-dimensional real problem in the halfcomplex format, of positive size: spreading any reals of
  -- the output into the complex array that they stand for, and gathering that into the input, ends
  -- without a failed assertion and reproduces every real. The sign is one whose negation, as a
  -- factor, undoes itself, as -1 and 1 are.
  pub gather-spread_halfcomplex :
      Is1d halfcomplex p
      → (new : Memory R) × ((copy_h2c_1d_halfcomplex p base sign mem
            >>= copy_c2h_1d_halfcomplex p base sign)
          ≡ ok new)
        × ((j : ℕ) → j < size_1d p → new.reals (p.input + j) ≡ mem.reals (p.output + j))
  gather-spread_halfcomplex d = c2h-h2c halfcomplex-IsFormat p sign unit d base mem

  -- For a one-dimensional real problem in the halfcomplex format, of positive size, whose output is its
  -- input: gathering a Hermitian complex array and spreading it again ends without a failed
  -- assertion and reproduces every element of the array.
  pub spread-gather_halfcomplex :
      Is1d halfcomplex p
      → p.output ≡ p.input
      → IsHermitian (size_1d p) (λ k. mem.complexes (base + k))
      → (new : Memory R) × ((copy_c2h_1d_halfcomplex p base sign mem
            >>= copy_h2c_1d_halfcomplex p base sign)
          ≡ ok new)
        × ((k : ℕ) → k < size_1d p → new.complexes (base + k) ≡ mem.complexes (base + k))
  spread-gather_halfcomplex d = h2c-c2h halfcomplex-IsFormat p sign unit d base mem

  -- For a one-dimensional real problem in the fftpack format, of positive size: spreading any reals of
  -- the output into the complex array that they stand for, and gathering that into the input, ends
  -- without a failed assertion and reproduces every real. The sign is one whose negation, as a
  -- factor, undoes itself, as -1 and 1 are.
  pub gather-spread_fftpack :
      Is1d fftpack p
      → (new : Memory R) × ((copy_h2c_1d_fftpack p base sign mem
            >>= copy_c2h_1d_fftpack p base sign)
          ≡ ok new)
        × ((j : ℕ) → j < size_1d p → new.reals (p.input + j) ≡ mem.reals (p.output + j))
  gather-spread_fftpack d = c2h-h2c fftpack-IsFormat p sign unit d base mem

  -- For a one-dimensional real problem in the fftpack format, of positive size, whose output is its
  -- input: gathering a Hermitian complex array and spreading it again ends without a failed
  -- assertion and reproduces every element of the array.
  pub spread-gather_fftpack :
      Is1d fftpack p
      → p.output ≡ p.input
      → IsHermitian (size_1d p) (λ k. mem.complexes (base + k))
      → (new : Memory R) × ((copy_c2h_1d_fftpack p base sign mem
            >>= copy_h2c_1d_fftpack p base sign)
          ≡ ok new)
        × ((k : ℕ) → k < size_1d p → new.complexes (base + k) ≡ mem.complexes (base + k))
  spread-gather_fftpack d = h2c-c2h fftpack-IsFormat p sign unit d base mem

  -- For a one-dimensional real problem in the packed format, of positive even size: spreading any reals of
  -- the output into the complex array that they stand for, and gathering that into the input, ends
  -- without a failed assertion and reproduces every real. The sign is one whose negation, as a
  -- factor, undoes itself, as -1 and 1 are.
  pub gather-spread_packed :
      Is1d packed p
      → (new : Memory R) × ((copy_h2c_1d_packed p base sign mem >>= copy_c2h_1d_packed p base sign)
          ≡ ok new)
        × ((j : ℕ) → j < size_1d p → new.reals (p.input + j) ≡ mem.reals (p.output + j))
  gather-spread_packed d = c2h-h2c packed-IsFormat p sign unit d base mem

  -- For a one-dimensional real problem in the packed format, of positive even size, whose output is its
  -- input: gathering a Hermitian complex array and spreading it again ends without a failed
  -- assertion and reproduces every element of the array.
  pub spread-gather_packed :
      Is1d packed p
      → p.output ≡ p.input
      → IsHermitian (size_1d p) (λ k. mem.complexes (base + k))
      → (new : Memory R) × ((copy_c2h_1d_packed p base sign mem >>= copy_h2c_1d_packed p base sign)
          ≡ ok new)
        × ((k : ℕ) → k < size_1d p → new.complexes (base + k) ≡ mem.complexes (base + k))
  spread-gather_packed d = h2c-c2h packed-IsFormat p sign unit d base mem
