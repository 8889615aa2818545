-- ===== src/Verify/Run.antt =====
-- The runs of the correctness and accuracy tests of libbench/verify.c: their arrays, their calls and what they
-- report.
pub mod Passes
pub mod Leak
use bench_fft.Base.{
  ℕ, zero, suc, ◌+◌, ◌*◌, ◌%◌, ◌^◌, Bool, true, false, ◌||◌, not, ◌==◌, get_or, if◌then◌else◌, List,
  Buffer,
}
use bench_fft.Base.Int.{ℤ, eqb_ℤ, pos_part}
use bench_fft.Base.Int.ℤ.{pos, negsuc}
use bench_fft.Base.Real.{Real, Complex, Libm}
use bench_fft.Base.Outcome.{Outcome, ok, ◌>>=◌, ◌>>◌, bench_assert, loop_while_ok}
use bench_fft.Problem.{Problem, problem_parse}
use bench_fft.Problem.Storage.{
  Heap, Allocator, Object, bench_malloc, bench_free, problem_create, problem_alloc, problem_destroy,
}
use bench_fft.Arrays.{is_real, problem_zero}
use bench_fft.Verify.{Session, Driver, with_complexes, do_fft, dmax, mkreal, arand}
use bench_fft.Verify.Symmetry.{mkhermitian}
use bench_fft.Verify.Trials.{Work, Shift, Setting, linear, impulse, tf_shift}

-- The heap and the session of a run.
pub record World (R : Type 0) : Type 0 where
  pub heap : Heap
  pub session : Session R

-- What `do_verify` prints if the program is verbose.
pub record Errors (R : Type 0) : Type 0 where
  pub el : R
  pub ei : R
  pub es : R

-- The array `err` of `do_accuracy`: errors in three norms, forward and backward.
pub record Norms (R : Type 0) : Type 0 where
  pub l1 : R
  pub l2 : R
  pub linf : R
  pub back_l1 : R
  pub back_l2 : R
  pub back_linf : R

-- What the runs are given: the C library's allocator and generator, the sizes of the C types, and the
-- driver, its `setup` and `done` included.
pub record Machine (R : Type 0) : Type 0 where
  pub malloc : Allocator
  pub sizeof_problem : ℕ
  pub sizeof_real : ℕ
  pub drand48 : ℕ → R
  pub verbose : ℕ
  pub driver : Driver R
  pub can_do : Problem → Bool
  pub setup : Object → World R → Outcome (Object × World R)
  pub done : Object → World R → Outcome (World R)

module _ {R : Type 0} where
  -- `n * sizeof(bench_complex)`, a `size_t`.
  abbrev pub complex_bytes : Machine R → ℕ → ℕ
  complex_bytes c n = (n * (2 * c.sizeof_real)) % 2 ^ 64

  unfoldable pub alloc_work : Machine R → ℕ → Heap → Outcome (Work × Heap)
  alloc_work c bytes h = do
    (in_a, h1) ← bench_malloc c.malloc bytes h
    (in_b, h2) ← bench_malloc c.malloc bytes h1
    (in_c, h3) ← bench_malloc c.malloc bytes h2
    (out_a, h4) ← bench_malloc c.malloc bytes h3
    (out_b, h5) ← bench_malloc c.malloc bytes h4
    (out_c, h6) ← bench_malloc c.malloc bytes h5
    (tmp, h7) ← bench_malloc c.malloc bytes h6
    ok (
      record {
        in_a = in_a;
        in_b = in_b;
        in_c = in_c;
        out_a = out_a;
        out_b = out_b;
        out_c = out_c;
        tmp = tmp;
      },
      h7,
    )

unfoldable pub free_work : Work → Heap → Outcome Heap
free_work w h = do
  h1 ← bench_free w.tmp h
  h2 ← bench_free w.out_c h1
  h3 ← bench_free w.out_b h2
  h4 ← bench_free w.out_a h3
  h5 ← bench_free w.in_c h4
  h6 ← bench_free w.in_b h5
  bench_free w.in_a h6

module _ {R : Type 0} ⦃r : Real R⦄ ⦃libm : Libm R⦄ (c : Machine R) where
  abbrev pub setting : Work → Setting R
  setting w = record { verbose = c.verbose; drand48 = c.drand48; driver = c.driver; work = w }

  -- The three kinds of tests, one after the other.
  unfoldable pub trials : Work → Problem → ℕ → R → Session R → Outcome (Errors R × Session R)
  trials w p rounds tol s = do
    (el, s1) ← linear (setting w) p tol rounds s
    (ei, s2) ← impulse (setting w) p tol rounds s1
    (es, s3) ←
        (if not (is_real p.kind) || eqb_ℤ p.sign (negsuc 0)
          then tf_shift (setting w) p tol Shift.time_shift rounds s2
          else ok (r.zero, s2))
    (es', s4) ←
        (if not (is_real p.kind) || eqb_ℤ p.sign (pos 1)
          then (tf_shift (setting w) p tol Shift.freq_shift rounds s3 >>= λ st.
              ok (dmax es st.0, st.1))
          else ok (es, s3))
    ok (record { el = el; ei = ei; es = es' }, s4)

  unfoldable pub do_verify : Problem → ℕ → R → World R → Outcome (Errors R × World R)
  do_verify p rounds tol world = do
    (w, h) ← alloc_work c (complex_bytes c p.dims.size) world.heap
    (errors, s) ← trials w p (if rounds == 0 then 20 else rounds) tol world.session
    h' ← free_work w h
    ok (errors, record { heap = h'; session = s })

  -- An `int` as a number.
  abbrev pub of_int : ℤ → R
  of_int (pos n) = r.of_ℕ n
  of_int (negsuc n) = r.neg (r.of_ℕ (suc n))

  -- `fftaccuracy` of mp.c is a parameter; it reads the input, the output and the sign.
  unfoldable pub accuracy_round :
      (ℕ → Buffer (Complex R) → ℕ → ℕ → ℤ → Norms R)
      → Problem
      → ℕ
      → ℕ
      → Norms R × Session R
      → Outcome (Norms R × Session R)
  accuracy_round fftaccuracy p a b st = do
    let n = get_or p.dims.n 0 0
    let s = arand c.drand48 a n st.1
    let m =
        if is_real p.kind
        then (if eqb_ℤ p.sign (negsuc 0)
            then mkreal a n s.memory.complexes
            else mkhermitian p.dims.n a s.memory.complexes)
        else s.memory.complexes
    s' ← do_fft c.driver p a b (with_complexes m s)
    let err = fftaccuracy n s'.memory.complexes a b p.sign
    let t = st.0
    ok (
      record {
        l1 = r.add t.l1 err.l1;
        l2 = r.add t.l2 (r.mul err.l2 err.l2);
        linf = dmax t.linf err.linf;
        back_l1 = r.add t.back_l1 err.back_l1;
        back_l2 = r.add t.back_l2 (r.mul err.back_l2 err.back_l2);
        back_linf = dmax t.back_linf err.back_linf;
      },
      s',
    )

  abbrev pub no_norms : Norms R
  no_norms = record {
    l1 = r.zero;
    l2 = r.zero;
    linf = r.zero;
    back_l1 = r.zero;
    back_l2 = r.zero;
    back_linf = r.zero;
  }

  -- The means over the rounds that are printed.
  abbrev pub averaged : ℤ → Norms R → Norms R
  averaged rounds t = record t {
    l1 = r.div t.l1 (of_int rounds);
    l2 = libm.sqrt (r.div t.l2 (of_int rounds));
    back_l1 = r.div t.back_l1 (of_int rounds);
    back_l2 = libm.sqrt (r.div t.back_l2 (of_int rounds));
  }

  -- The arrays `a` and `b` are not freed.
  unfoldable pub do_accuracy :
      (ℕ → Buffer (Complex R) → ℕ → ℕ → ℤ → Norms R)
      → Problem
      → ℤ
      → World R
      → Outcome (Norms R × World R)
  do_accuracy fftaccuracy p rounds world = do
    bench_assert (p.dims.rank == 1)
    bench_assert (p.vector.rank == 0)
    let bytes = complex_bytes c (get_or p.dims.n 0 0)
    (a, h) ← bench_malloc c.malloc bytes world.heap
    (b, h') ← bench_malloc c.malloc bytes h
    (t, s) ←
        loop_while_ok (pos_part rounds) (λ _. accuracy_round fftaccuracy p a b)
          (no_norms, world.session)
    ok (averaged rounds t, record { heap = h'; session = s })

  -- `verify` and `accuracy` differ in the test that they run on the problem.
  unfoldable pub with_problem :
      {A : Type 0}
      → List ℕ
      → (Problem → World R → Outcome (A × World R))
      → World R
      → Outcome (A × World R)
  with_problem param test world = do
    p ← problem_parse param
    (o, h) ← problem_create c.malloc c.sizeof_problem p world.heap
    bench_assert (c.can_do o.problem)
    (o', h') ← problem_alloc c.malloc c.sizeof_real o h
    let s = world.session
    let zeroed = record s { memory = problem_zero o'.problem s.memory }
    (o'', w) ← c.setup o' (record { heap = h'; session = zeroed })
    (result, w') ← test o''.problem w
    w'' ← c.done o'' w'
    h'' ← problem_destroy o'' w''.heap
    ok (result, record w'' { heap = h'' })

  abbrev pub verify : List ℕ → ℕ → R → World R → Outcome (Errors R × World R)
  verify param rounds tol = with_problem param (λ p. do_verify p rounds tol)

  abbrev pub accuracy :
      (ℕ → Buffer (Complex R) → ℕ → ℕ → ℤ → Norms R)
      → List ℕ
      → ℤ
      → World R
      → Outcome (Norms R × World R)
  accuracy fftaccuracy param rounds = with_problem param (λ p. do_accuracy fftaccuracy p rounds)
