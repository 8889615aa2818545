-- ===== src/Hermitian/Tests.antt =====
-- The transform of four reals, on which the copies are tried.
use bench_fft.Base.{
  inl, inr, ◌⊎◌, ℕ, ◌+◌, ◌<◌, ◌≡◌, refl, arith, [], ◌∷◌, Buffer, ◌==◌, if◌then◌else◌, false,
}
use bench_fft.Base.Int.{ℤ, negate}
use bench_fft.Base.Int.ℤ.{pos, negsuc}
use bench_fft.Base.Real.{Complex}
use bench_fft.Base.Exact.{integers, minus_one-IsUnit}
use bench_fft.Base.Outcome.{ok, ◌>>=◌}
use bench_fft.Problem.{Kind, Problem}
use bench_fft.Arrays.{Memory}
use bench_fft.Hermitian.{
  copy_c2h_1d_halfcomplex, copy_h2c_1d_halfcomplex, copy_c2h_1d_packed, copy_h2c_1d_packed,
}
use bench_fft.Hermitian.Spec.{Is1d, IsHermitian}
use bench_fft.Hermitian.Halfcomplex.{halfcomplex}
use bench_fft.Hermitian.Fftpack.{fftpack}
use bench_fft.Hermitian.Packed.{packed}
use bench_fft.Hermitian.UnpackedRi.{copy_c2h_1d_unpacked_ri, copy_h2c_1d_unpacked_ri}
use bench_fft.Hermitian.UnpackedRi.Laws.{IsMirrored, spread-gather_unpacked_ri}
use bench_fft.Hermitian.RoundTrip.{
  gather-spread_halfcomplex, spread-gather_halfcomplex, gather-spread_packed,
}

abbrev four : Problem
four = record {
  kind = Kind.problem_real;
  dims = record { rank = 1; n = 4 ∷ []; size = 4 };
  vector = record { rank = 0; n = []; size = 1 };
  phys_size = 4;
  sign = negsuc 0;
  in_place = false;
  split = false;
  input = 100;
  output = 100;
  pstring = [];
  userinfo = 0;
}

abbrev complex : ℤ → ℤ → Complex ℤ
complex x y = record { re = x; im = y }

-- The transform of 1, 2, 3, 4.
abbrev spectrum : Buffer (Complex ℤ)
spectrum k =
    if k == 0
    then complex (pos 10) (pos 0)
    else if k == 1
    then complex (negsuc 1) (pos 2)
    else if k == 3
    then complex (negsuc 1) (negsuc 1)
    else complex (negsuc 1) (pos 0)

abbrev arrays : Memory ℤ
arrays = record { reals = λ j. pos j; complexes = spectrum }

spectrum-IsHermitian : IsHermitian ⦃r = integers⦄ 4 (λ k. spectrum (0 + k))
unfolding integers negate
spectrum-IsHermitian = record {
  first = refl;
  mirrored = λ k lo hi. let one : k ≡ 1 = omega arith in rw one;
  middle = λ k lo e. let two : k ≡ 2 = omega arith in rw two;
}

four-Is1d-halfcomplex : Is1d halfcomplex four
four-Is1d-halfcomplex = record { rank = refl; kind = refl; held = omega arith }

four-Is1d-fftpack : Is1d fftpack four
four-Is1d-fftpack = record { rank = refl; kind = refl; held = omega arith }

four-Is1d-packed : Is1d packed four
four-Is1d-packed = record { rank = refl; kind = refl; held = omega arith }

gather-spread_halfcomplex_example :
    (new : Memory ℤ) × ((copy_h2c_1d_halfcomplex four 0 (negsuc 0) arrays
        >>= copy_c2h_1d_halfcomplex four 0 (negsuc 0))
      ≡ ok new)
    × ((j : ℕ) → j < 4 → new.reals (100 + j) ≡ arrays.reals (100 + j))
gather-spread_halfcomplex_example =
    gather-spread_halfcomplex four (negsuc 0) minus_one-IsUnit 0 arrays four-Is1d-halfcomplex

spread-gather_halfcomplex_example :
    (new : Memory ℤ) × ((copy_c2h_1d_halfcomplex four 0 (negsuc 0) arrays
        >>= copy_h2c_1d_halfcomplex four 0 (negsuc 0))
      ≡ ok new)
    × ((k : ℕ) → k < 4 → new.complexes (0 + k) ≡ spectrum (0 + k))
spread-gather_halfcomplex_example =
    spread-gather_halfcomplex four (negsuc 0) minus_one-IsUnit 0 arrays four-Is1d-halfcomplex refl
      spectrum-IsHermitian

gather-spread_packed_example :
    (new : Memory ℤ) × ((copy_h2c_1d_packed four 0 (negsuc 0) arrays
        >>= copy_c2h_1d_packed four 0 (negsuc 0))
      ≡ ok new)
    × ((j : ℕ) → j < 4 → new.reals (100 + j) ≡ arrays.reals (100 + j))
gather-spread_packed_example =
    gather-spread_packed four (negsuc 0) minus_one-IsUnit 0 arrays four-Is1d-packed

below_four : (k : ℕ) → 0 < k → k < 4 → (k ≡ 1) ⊎ (k ≡ 2) ⊎ (k ≡ 3)
below_four k lo hi = ground arith

spectrum-IsMirrored : IsMirrored ⦃r = integers⦄ 4 (negsuc 0) (λ k. spectrum (0 + k))
unfolding integers negate
spectrum-IsMirrored k lo hi = elim (below_four k lo hi) [
  | inl one ↦ rw one
  | inr (inl two) ↦ rw two
  | inr (inr three) ↦ rw three
]

spread-gather_unpacked_ri_example :
    (new : Memory ℤ) × ((copy_c2h_1d_unpacked_ri four 0 (negsuc 0) arrays
        >>= copy_h2c_1d_unpacked_ri four 0 (negsuc 0))
      ≡ ok new)
    × ((k : ℕ) → k < 4 → new.complexes (0 + k) ≡ spectrum (0 + k))
spread-gather_unpacked_ri_example =
    spread-gather_unpacked_ri four (negsuc 0) 0 arrays minus_one-IsUnit four-Is1d-halfcomplex refl
      spectrum-IsMirrored
