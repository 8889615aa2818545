-- ===== src/Verify.antt =====
-- The correctness test of libbench/verify.c: its arrays, its comparison and the run of one transform.
-- The tests proper are in Trials, the calls around them in Run.
pub mod Laws
pub mod Symmetry
pub mod Rows
pub mod Transform
pub mod Trials
pub mod Run
pub mod Tests
use bench_fft.Base.{
  ℕ, zero, suc, ◌+◌, ◌-◌, ◌*◌, ◌/◌, ◌%◌, ◌^◌, Bool, true, false, ltb, ◌==◌, not, loop_below, Buffer,
  store, if◌then◌else◌, List, [], ◌∷◌,
}
use bench_fft.Base.Real.{Real, Complex, Libm}
use bench_fft.Base.Outcome.{Outcome, ok, exit_failure, ◌>>=◌, ◌>>◌, bench_assert, loop_while_ok}
use bench_fft.Problem.{Problem}
use bench_fft.Arrays.{Memory}

-- The memory, and how many numbers `drand48` has given.
pub record Session (R : Type 0) : Type 0 where
  pub memory : Memory R
  pub drawn : ℕ

-- The hooks of a driver: copying a problem in, the transform run a number of times, copying it out.
pub record Driver (R : Type 0) : Type 0 where
  pub ccopy_from : Problem → ℕ → Memory R → Outcome (Memory R)
  pub doit : ℕ → Problem → Memory R → Outcome (Memory R)
  pub ccopy_to : Problem → ℕ → Memory R → Outcome (Memory R)

pub record Worst (R : Type 0) : Type 0 where
  pub mag : R
  pub error : R

module _ {R : Type 0} where
  abbrev pub with_complexes : Buffer (Complex R) → Session R → Session R
  with_complexes c s = record s { memory = record s.memory { complexes = c } }

  unfoldable pub do_fft : Driver R → Problem → ℕ → ℕ → Session R → Outcome (Session R)
  do_fft d p input out s = do
    copied ← d.ccopy_from p input s.memory
    done ← d.doit 1 p copied
    result ← d.ccopy_to p out done
    ok (record s { memory = result })

module _ {R : Type 0} ⦃r : Real R⦄ where
  abbrev pub dabs : R → R
  dabs x = if r.lt x r.zero then r.neg x else x

  abbrev pub dmax : R → R → R
  dmax x y = if r.lt y x then x else y

  abbrev pub dmin : R → R → R
  dmin x y = if r.lt x y then x else y

  abbrev pub norm2 : R → R → R
  norm2 x y = dmax (dabs x) (dabs y)

  abbrev pub worse : Buffer (Complex R) → ℕ → ℕ → ℕ → Worst R → Worst R
  worse mem a b i w = record {
    mag =
        dmax w.mag (
          dmin (norm2 (mem (a + i)).re (mem (a + i)).im) (norm2 (mem (b + i)).re (mem (b + i)).im));
    error =
        dmax w.error (
          norm2 (r.sub (mem (a + i)).re (mem (b + i)).re)
            (r.sub (mem (a + i)).im (mem (b + i)).im));
  }

  unfoldable pub mkreal : ℕ → ℕ → Buffer (Complex R) → Buffer (Complex R)
  mkreal a n mem = loop_below n (λ i m. store m (a + i) (record (m (a + i)) { im = r.zero })) mem

  unfoldable pub asub : ℕ → ℕ → ℕ → ℕ → Buffer (Complex R) → Buffer (Complex R)
  asub c a b n mem =
      loop_below n
        (λ i m. store m (c + i) (record {
          re = r.sub (m (a + i)).re (m (b + i)).re;
          im = r.sub (m (a + i)).im (m (b + i)).im;
        }))
        mem

-- `(ib * n + i) * n_after + ia`, an index of 32 bits.
abbrev pub index : ℕ → ℕ → ℕ → ℕ → ℕ → ℕ
index n n_after ib i ia = ((ib * n + i) * n_after + ia) % 2 ^ 32

-- `n - 1` of an `unsigned int`.
abbrev pub minus_one : ℕ → ℕ
minus_one n = (n + (2 ^ 32 - 1)) % 2 ^ 32

module _ {A : Type 0} where
  abbrev pub arol_row : ℕ → ℕ → ℕ → ℕ → ℕ → Buffer A → Buffer A
  arol_row b a n n_after ib mem =
      loop_below n_after
        (λ ia m.
          store m (b + index n n_after ib (minus_one n) ia) (m (a + index n n_after ib 0 ia)))
        (loop_below (minus_one n)
          (λ i m.
            loop_below n_after
              (λ ia m'.
                store m' (b + index n n_after ib i ia) (m' (a + index n n_after ib (i + 1) ia)))
              m)
          mem)

  unfoldable pub arol : ℕ → ℕ → ℕ → ℕ → ℕ → Buffer A → Buffer A
  arol b a n n_before n_after mem = loop_below n_before (arol_row b a n n_after) mem

module _ {R : Type 0} ⦃r : Real R⦄ ⦃libm : Libm R⦄ where
  -- The sine, times the sign, and the cosine of a row.
  abbrev pub twiddle : ℕ → R → ℕ → Complex R
  twiddle n sign j =
      let twopin = r.div libm.two_pi (r.of_ℕ n) in
      record {
        re = libm.cos (r.mul (r.of_ℕ j) twopin);
        im = r.mul sign (libm.sin (r.mul (r.of_ℕ j) twopin));
      }

  abbrev pub write_re : ℕ → ℕ → Complex R → Buffer (Complex R) → Buffer (Complex R)
  write_re to from w m =
      store m to (record (m to) { re = r.sub (r.mul (m from).re w.re) (r.mul (m from).im w.im) })

  abbrev pub write_im : ℕ → ℕ → Complex R → Buffer (Complex R) → Buffer (Complex R)
  write_im to from w m =
      store m to (record (m to) { im = r.add (r.mul (m from).re w.im) (r.mul (m from).im w.re) })

  -- The real part is written first, and the imaginary part from what then stands in memory.
  unfoldable pub shift_cell : ℕ → ℕ → Complex R → Buffer (Complex R) → Buffer (Complex R)
  shift_cell to from w m = write_im to from w (write_re to from w m)

  abbrev pub shift_row : ℕ → ℕ → ℕ → ℕ → R → ℕ → ℕ → Buffer (Complex R) → Buffer (Complex R)
  shift_row b a n n_after sign jb j mem =
      loop_below n_after
        (λ ja m.
          shift_cell (b + index n n_after jb j ja) (a + index n n_after jb j ja) (twiddle n sign j)
            m)
        mem

  unfoldable pub aphase_shift : ℕ → ℕ → ℕ → ℕ → ℕ → R → Buffer (Complex R) → Buffer (Complex R)
  aphase_shift b a n n_before n_after sign mem =
      loop_below n_before (λ jb m. loop_below n (shift_row b a n n_after sign jb) m) mem

  unfoldable pub cerror : ℕ → ℕ → ℕ → Buffer (Complex R) → Outcome R
  cerror a b n mem = do
    let w = loop_below n (worse mem a b) (record { mag = r.zero; error = r.zero })
    let error = r.div w.error w.mag
    bench_assert (not (libm.is_nan error))
    ok error

  -- The report calls `cerror` for each element if the program is verbose.
  unfoldable pub acmp : ℕ → ℕ → ℕ → ℕ → R → Buffer (Complex R) → Outcome R
  acmp verbose a b n tol mem = do
    d ← cerror a b n mem
    if r.lt tol d
        then ((if ltb 2 verbose
              then loop_while_ok n (λ i _. cerror (a + i) (b + i) 1 mem) d
              else ok d)
            >>= λ _. exit_failure)
        else ok d

module _ {R : Type 0} ⦃r : Real R⦄ ⦃libm : Libm R⦄ (drand48 : ℕ → R) where
  abbrev pub random_at : ℕ → R
  random_at k = r.sub (drand48 k) libm.half

  -- The next number of the generator.
  unfoldable pub bench_drand : Session R → R × Session R
  bench_drand s = (random_at s.drawn, record s { drawn = s.drawn + 1 })

  unfoldable pub arand : ℕ → ℕ → Session R → Session R
  arand a n s =
      loop_below n
        (λ i t.
          let re = bench_drand t in
          let im = bench_drand re.1 in
          with_complexes (store im.1.memory.complexes (a + i) (record { re = re.0; im = im.0 }))
            im.1)
        s
