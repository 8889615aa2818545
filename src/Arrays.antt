-- ===== src/Arrays.antt =====
-- The array routines of libbench: zero.c, aset.c, acopy.c, ascale.c, caset.c, cacopy.c, cascale.c, caadd.c,
-- casub.c, copy-ri2c.c, copy-c2ri.c, unnormalize.c and the copies between the arrays of a problem and
-- those of the verifier. Arrays are addresses into a memory, so two of them may overlap.
pub mod Laws
pub mod Rows
mod Tests
use bench_fft.Base.{
  ℕ, zero, suc, ◌+◌, ◌-◌, ◌*◌, ◌/◌, ◌%◌, ◌^◌, Bool, true, false, ltb, ◌==◌, leb, loop_below, Buffer,
  store, get_or, if◌then◌else◌,
}
use bench_fft.Base.Int.{ℤ, eqb_ℤ}
use bench_fft.Base.Int.ℤ.{negsuc}
use bench_fft.Base.Real.{Real, Complex}
use bench_fft.Base.Outcome.{Outcome, ok, assertion_failed, ◌>>=◌, ◌>>◌, bench_assert}
use bench_fft.Problem.{Kind, Problem, Sizes}

-- The memory by the type of its cells.
pub record Memory (R : Type 0) : Type 0 where
  pub reals : Buffer R
  pub complexes : Buffer (Complex R)

abbrev pub is_real : Kind → Bool
is_real Kind.problem_real = true
is_real Kind.problem_complex = false

module _ {R : Type 0} ⦃r : Real R⦄ where
  unfoldable pub aset : ℕ → ℕ → R → Buffer R → Buffer R
  aset a n x mem = loop_below n (λ i m. store m (a + i) x) mem

  unfoldable pub acopy : ℕ → ℕ → ℕ → Buffer R → Buffer R
  acopy a b n mem = loop_below n (λ i m. store m (b + i) (m (a + i))) mem

  unfoldable pub ascale : ℕ → ℕ → R → Buffer R → Buffer R
  ascale a n alpha mem = loop_below n (λ i m. store m (a + i) (r.mul (m (a + i)) alpha)) mem

  unfoldable pub caset : ℕ → ℕ → Complex R → Buffer (Complex R) → Buffer (Complex R)
  caset a n x mem = loop_below n (λ i m. store m (a + i) x) mem

  unfoldable pub cacopy : ℕ → ℕ → ℕ → Buffer (Complex R) → Buffer (Complex R)
  cacopy a b n mem = loop_below n (λ i m. store m (b + i) (m (a + i))) mem

  abbrev pub complex_add : Complex R → Complex R → Complex R
  complex_add x y = record { re = r.add x.re y.re; im = r.add x.im y.im }

  abbrev pub complex_sub : Complex R → Complex R → Complex R
  complex_sub x y = record { re = r.sub x.re y.re; im = r.sub x.im y.im }

  abbrev pub complex_mul : Complex R → Complex R → Complex R
  complex_mul a alpha = record {
    re = r.sub (r.mul a.re alpha.re) (r.mul a.im alpha.im);
    im = r.add (r.mul a.re alpha.im) (r.mul a.im alpha.re);
  }

  unfoldable pub cascale : ℕ → ℕ → Complex R → Buffer (Complex R) → Buffer (Complex R)
  cascale a n alpha mem = loop_below n (λ i m. store m (a + i) (complex_mul (m (a + i)) alpha)) mem

  unfoldable pub caadd : ℕ → ℕ → ℕ → ℕ → Buffer (Complex R) → Buffer (Complex R)
  caadd c a b n mem =
      loop_below n (λ i m. store m (c + i) (complex_add (m (a + i)) (m (b + i)))) mem

  unfoldable pub casub : ℕ → ℕ → ℕ → ℕ → Buffer (Complex R) → Buffer (Complex R)
  casub c a b n mem =
      loop_below n (λ i m. store m (c + i) (complex_sub (m (a + i)) (m (b + i)))) mem

  unfoldable pub copy_ri2c : ℕ → ℕ → ℕ → ℕ → Memory R → Memory R
  copy_ri2c rin iin out n mem = record mem {
    complexes =
        loop_below n
          (λ i m. store m (out + i) (record { re = mem.reals (rin + i); im = mem.reals (iin + i) }))
          mem.complexes;
  }

  unfoldable pub copy_c2ri : ℕ → ℕ → ℕ → ℕ → Memory R → Memory R
  copy_c2ri input rout iout n mem = record mem {
    reals =
        loop_below n
          (λ i m.
            store (store m (rout + i) (mem.complexes (input + i)).re) (iout + i)
              (mem.complexes (input + i)).im)
          mem.reals;
  }

  unfoldable pub copy_c2r_packed : Problem → ℕ → Memory R → Memory R
  copy_c2r_packed p input mem = record mem {
    reals =
        loop_below p.dims.size (λ i m. store m (p.input + i) (mem.complexes (input + i)).re)
          mem.reals;
  }

  unfoldable pub copy_r2c_packed : Problem → ℕ → Memory R → Memory R
  copy_r2c_packed p out mem = record mem {
    complexes =
        loop_below p.dims.size
          (λ i m. store m (out + i) (record { re = mem.reals (p.output + i); im = r.zero }))
          mem.complexes;
  }

  abbrev pub copy_c2c_from : Problem → ℕ → Memory R → Memory R
  copy_c2c_from p input mem = record mem {
    complexes = cacopy input p.input p.dims.size mem.complexes;
  }

  abbrev pub copy_c2c_to : Problem → ℕ → Memory R → Memory R
  copy_c2c_to p out mem = record mem { complexes = cacopy p.output out p.dims.size mem.complexes }

  abbrev pub copy_c2r : Problem → ℕ → Memory R → Memory R
  copy_c2r = copy_c2r_packed

  abbrev pub copy_r2c : Problem → ℕ → Memory R → Memory R
  copy_r2c = copy_r2c_packed

  -- There is no standard way to copy a Hermitian array: the default is a failed assertion.
  abbrev pub copy_c2h : Problem → ℕ → Memory R → Outcome (Memory R)
  copy_c2h p input mem = assertion_failed

  abbrev pub copy_h2c : Problem → ℕ → Memory R → Outcome (Memory R)
  copy_h2c p out mem = assertion_failed

  -- The hooks that a driver may override do nothing by default.
  abbrev pub after_problem_ccopy_from : Problem → ℕ → Memory R → Memory R
  after_problem_ccopy_from p input mem = mem

  abbrev pub after_problem_ccopy_to : Problem → ℕ → Memory R → Memory R
  after_problem_ccopy_to p out mem = mem

  unfoldable pub problem_ccopy_from : Problem → ℕ → Memory R → Outcome (Memory R)
  problem_ccopy_from p input mem = do
    copied ←
        (if is_real p.kind
          then (if eqb_ℤ p.sign (negsuc 0) then ok (copy_c2r p input mem) else copy_c2h p input mem)
          else ok (copy_c2c_from p input mem))
    ok (after_problem_ccopy_from p input copied)

  unfoldable pub problem_ccopy_to : Problem → ℕ → Memory R → Outcome (Memory R)
  problem_ccopy_to p out mem = do
    copied ←
        (if is_real p.kind
          then (if eqb_ℤ p.sign (negsuc 0) then copy_h2c p out mem else ok (copy_r2c p out mem))
          else ok (copy_c2c_to p out mem))
    ok (after_problem_ccopy_to p out copied)

  unfoldable pub unnormalize : Problem → ℕ → ℤ → Buffer (Complex R) → Buffer (Complex R)
  unnormalize p out which_sign mem =
      if eqb_ℤ p.sign which_sign
      then cascale out p.dims.size (record { re = r.of_ℕ p.dims.size; im = r.zero }) mem
      else mem

  -- The two calls of either branch, the output first.
  unfoldable pub problem_zero : Problem → Memory R → Memory R
  problem_zero p mem =
      if is_real p.kind
      then record mem {
        reals = aset p.input p.phys_size r.zero (aset p.output p.phys_size r.zero mem.reals);
      }
      else record mem {
        complexes =
            caset p.input p.phys_size (record { re = r.zero; im = r.zero })
              (caset p.output p.phys_size (record { re = r.zero; im = r.zero }) mem.complexes);
      }
