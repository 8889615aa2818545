-- ===== src/Arrays/Tests.antt =====
-- Small arrays on which the routines are tried.
use bench_fft.Base.{◌+◌, ◌*◌, ◌≡◌, refl, arith, inl, inr, [], ◌∷◌, Buffer, IsWritten, false}
use bench_fft.Base.Int.{ℤ}
use bench_fft.Base.Int.ℤ.{pos, negsuc}
use bench_fft.Base.Real.{Complex}
use bench_fft.Base.Exact.{integers}
use bench_fft.Base.Outcome.{ok, assertion_failed, ◌>>=◌}
use bench_fft.Problem.{Kind, Problem}
use bench_fft.Arrays.{Memory, copy_ri2c, copy_c2ri, problem_ccopy_from}
use bench_fft.Arrays.Laws.{ri2c-c2ri, problem_ccopy_from-cases}
use bench_fft.Arrays.Rows.{row_count, copy_c2r_unpacked, copy_r2c_unpacked}
use bench_fft.Arrays.Rows.Laws.{IsRows, copy_c2r_unpacked-IsRows, r2c-c2r_unpacked}

abbrev ramp : Buffer (Complex ℤ)
ramp k = record { re = pos k; im = negsuc k }

abbrev arrays : Memory ℤ
arrays = record { reals = λ j. pos 0; complexes = ramp }

-- Two rows of three, each padded to four.
abbrev matrix : Problem
matrix = record {
  kind = Kind.problem_real;
  dims = record { rank = 2; n = 2 ∷ 3 ∷ []; size = 6 };
  vector = record { rank = 0; n = []; size = 1 };
  phys_size = 8;
  sign = negsuc 0;
  in_place = false;
  split = false;
  input = 50;
  output = 50;
  pstring = [];
  userinfo = 0;
}

ri2c-c2ri_example :
    IsWritten 30 5
      (λ i. ramp (7 + i))
      ramp
      (copy_ri2c 10 20 30 5 (copy_c2ri 7 10 20 5 arrays)).complexes
ri2c-c2ri_example = ri2c-c2ri 7 10 20 30 5 arrays (inl (omega arith))

problem_ccopy_from-cases_example :
    (matrix.kind ≡ Kind.problem_complex
      → (new : Memory ℤ) × (problem_ccopy_from matrix 0 arrays ≡ ok new)
        × IsWritten 50 6 (λ i. ramp (0 + i)) ramp new.complexes)
    × (matrix.kind ≡ Kind.problem_real
        → matrix.sign ≡ negsuc 0
        → (new : Memory ℤ) × (problem_ccopy_from matrix 0 arrays ≡ ok new)
          × IsWritten 50 6 (λ i. (ramp (0 + i)).re) arrays.reals new.reals)
    × (matrix.kind ≡ Kind.problem_real
        → matrix.sign ≡ pos 1
        → problem_ccopy_from matrix 0 arrays ≡ assertion_failed)
problem_ccopy_from-cases_example =
    problem_ccopy_from-cases matrix 0 arrays (inr (inl (omega arith)))

copy_c2r_unpacked-IsRows_example :
    (new : Memory ℤ) × (copy_c2r_unpacked matrix 0 arrays ≡ ok new)
    × (new.complexes ≡ ramp)
    × IsRows 50 (row_count matrix) 3 4 (λ i k. (ramp (0 + i * 3 + k)).re) arrays.reals new.reals
copy_c2r_unpacked-IsRows_example = copy_c2r_unpacked-IsRows matrix (omega arith) refl 0 arrays

r2c-c2r_unpacked_example :
    (new : Memory ℤ) × ((copy_c2r_unpacked matrix 0 arrays >>= copy_r2c_unpacked matrix 200)
      ≡ ok new)
    × IsRows 200
        (row_count matrix)
        3
        3
        (λ i k. record { re = (ramp (0 + i * 3 + k)).re; im = pos 0 })
        ramp
        new.complexes
unfolding integers
r2c-c2r_unpacked_example = r2c-c2r_unpacked matrix (omega arith) refl 0 200 arrays refl
