-- ===== src/Verify/Trials.antt =====
-- The three tests of libbench/verify.c: linearity, impulse response, and time or frequency shift.
pub mod Slots
pub mod Exact
use bench_fft.Base.{
  ℕ, zero, suc, ◌+◌, ◌*◌, ◌/◌, ◌%◌, ◌^◌, Bool, true, false, get_or, store, if◌then◌else◌,
}
use bench_fft.Base.Int.{ℤ, eqb_ℤ}
use bench_fft.Base.Int.ℤ.{negsuc}
use bench_fft.Base.Real.{Real, Complex, Libm}
use bench_fft.Base.Outcome.{Outcome, ok, ◌>>=◌, ◌>>◌, loop_while_ok}
use bench_fft.Problem.{Kind, Problem}
use bench_fft.Arrays.{is_real, caset, cascale, caadd}
use bench_fft.Verify.{
  Session, Driver, with_complexes, do_fft, dmax, mkreal, asub, arol, aphase_shift, acmp,
  bench_drand, arand,
}
use bench_fft.Verify.Symmetry.{mkhermitian}

-- The arrays that the tests work in.
pub record Work : Type 0 where
  pub in_a : ℕ
  pub in_b : ℕ
  pub in_c : ℕ
  pub out_a : ℕ
  pub out_b : ℕ
  pub out_c : ℕ
  pub tmp : ℕ

pub data Shift : Type 0 where
  time_shift freq_shift : Shift

-- What the tests run with: the level of detail of the reports, the generator, the driver and the
-- arrays.
pub record Setting (R : Type 0) : Type 0 where
  pub verbose : ℕ
  pub drand48 : ℕ → R
  pub driver : Driver R
  pub work : Work

-- The variables of `tf_shift`'s outer loop.
pub record Dims (R : Type 0) : Type 0 where
  pub n_before : ℕ
  pub n_after : ℕ
  pub e : R
  pub session : Session R

module _ {R : Type 0} ⦃r : Real R⦄ ⦃libm : Libm R⦄ (cfg : Setting R) (p : Problem) (tol : R) where
  abbrev pub compared : ℕ → ℕ → R → Session R → Outcome (R × Session R)
  compared a b e s = do
    d ← acmp cfg.verbose a b p.dims.size tol s.memory.complexes
    ok (dmax e d, s)

  -- The real parts first; the imaginary parts are drawn for complex problems only.
  abbrev pub factors : Session R → Complex R × Complex R × Session R
  factors s =
      let alpha_re = bench_drand cfg.drand48 s in
      let beta_re = bench_drand cfg.drand48 alpha_re.1 in
      let alpha_im = bench_drand cfg.drand48 beta_re.1 in
      let beta_im = bench_drand cfg.drand48 alpha_im.1 in
      if is_real p.kind
      then (
        record { re = alpha_re.0; im = r.zero },
        record { re = beta_re.0; im = r.zero },
        beta_re.1,
      )
      else (
        record { re = alpha_re.0; im = alpha_im.0 },
        record { re = beta_re.0; im = beta_im.0 },
        beta_im.1,
      )

  unfoldable pub linear_round : R × Session R → Outcome (R × Session R)
  linear_round st = do
    let w = cfg.work
    let n = p.dims.size
    let f = factors st.1
    let s = arand cfg.drand48 w.in_b n (arand cfg.drand48 w.in_a n f.2)
    s' ← do_fft cfg.driver p w.in_a w.out_a s
    s'' ← do_fft cfg.driver p w.in_b w.out_b s'
    let m = cascale w.out_b n f.1 (cascale w.out_a n f.0 s''.memory.complexes)
    let m' = cascale w.in_a n f.0 (caadd w.tmp w.out_a w.out_b n m)
    let m'' = caadd w.in_c w.in_a w.in_b n (cascale w.in_b n f.1 m')
    s''' ← do_fft cfg.driver p w.in_c w.out_c (with_complexes m'' s'')
    compared w.out_c w.tmp st.0 s'''

  unfoldable pub linear : ℕ → Session R → Outcome (R × Session R)
  linear rounds s = loop_while_ok rounds (λ _. linear_round) (r.zero, s)

  unfoldable pub impulse_round : R × Session R → Outcome (R × Session R)
  impulse_round st = do
    let w = cfg.work
    let n = p.dims.size
    let s = arand cfg.drand48 w.in_b n st.1
    let s' = with_complexes (asub w.in_c w.in_a w.in_b n s.memory.complexes) s
    t ← do_fft cfg.driver p w.in_b w.out_b s'
    t' ← do_fft cfg.driver p w.in_c w.out_c t
    compared w.tmp w.out_a st.0
        (with_complexes (caadd w.tmp w.out_b w.out_c n t'.memory.complexes) t')

  unfoldable pub impulse0 : ℕ → Session R → Outcome (R × Session R)
  impulse0 rounds s = do
    s' ← do_fft cfg.driver p cfg.work.in_a cfg.work.out_b s
    st ← compared cfg.work.out_b cfg.work.out_a r.zero s'
    loop_while_ok rounds (λ _. impulse_round) st

  unfoldable pub impulse : ℕ → Session R → Outcome (R × Session R)
  impulse rounds s = do
    let w = cfg.work
    let n = p.dims.size
    let one : Complex R = record { re = r.one; im = r.zero }
    let zero' : Complex R = record { re = r.zero; im = r.zero }
    let m = store (caset w.in_a n zero' s.memory.complexes) w.in_a one
    st ← impulse0 rounds (with_complexes (caset w.out_a n one m) s)
    let m' = caset w.out_a n zero' (caset w.in_a n one st.1.memory.complexes)
    let m'' = store m' w.out_a (record (m' w.out_a) { re = r.of_ℕ n })
    st' ← impulse0 rounds (with_complexes m'' st.1)
    ok (dmax st'.0 st.0, st'.1)

  abbrev pub time_round : R → ℕ → ℕ → ℕ → R × Session R → Outcome (R × Session R)
  time_round sign n n_before n_after st = do
    let w = cfg.work
    let s = arand cfg.drand48 w.in_a p.dims.size st.1
    let m =
        if is_real p.kind then mkreal w.in_a p.dims.size s.memory.complexes else s.memory.complexes
    let s' = with_complexes (arol w.in_b w.in_a n n_before n_after m) s
    t ← do_fft cfg.driver p w.in_a w.out_a s'
    t' ← do_fft cfg.driver p w.in_b w.out_b t
    compared w.tmp w.out_a st.0
        (with_complexes (aphase_shift w.tmp w.out_b n n_before n_after sign t'.memory.complexes) t')

  abbrev pub freq_round : R → ℕ → ℕ → ℕ → R × Session R → Outcome (R × Session R)
  freq_round sign n n_before n_after st = do
    let w = cfg.work
    let s = arand cfg.drand48 w.in_a p.dims.size st.1
    let m =
        if is_real p.kind
        then mkhermitian p.dims.n w.in_a s.memory.complexes
        else s.memory.complexes
    let s' = with_complexes (aphase_shift w.in_b w.in_a n n_before n_after (r.neg sign) m) s
    t ← do_fft cfg.driver p w.in_a w.out_a s'
    t' ← do_fft cfg.driver p w.in_b w.out_b t
    compared w.tmp w.out_a st.0
        (with_complexes (arol w.tmp w.out_b n n_before n_after t'.memory.complexes) t')

  unfoldable pub shift_round : Shift → R → ℕ → ℕ → ℕ → R × Session R → Outcome (R × Session R)
  shift_round Shift.time_shift = time_round
  shift_round Shift.freq_shift = freq_round

  -- `sign = p->sign`, as a number.
  abbrev pub sign_of : R
  sign_of = if eqb_ℤ p.sign (negsuc 0) then r.neg r.one else r.one

  unfoldable pub shift_dim : Shift → ℕ → ℕ → Dims R → Outcome (Dims R)
  shift_dim which rounds dim d = do
    let n_cur = get_or p.dims.n dim 0
    let n_after = d.n_after / n_cur
    st ←
        loop_while_ok rounds (λ _. shift_round which sign_of n_cur d.n_before n_after)
          (d.e, d.session)
    ok (record {
      n_before = (d.n_before * n_cur) % 2 ^ 32;
      n_after = n_after;
      e = st.0;
      session = st.1;
    })

  unfoldable pub tf_shift : Shift → ℕ → Session R → Outcome (R × Session R)
  tf_shift which rounds s = do
    d ←
        loop_while_ok p.dims.rank (shift_dim which rounds)
          (record { n_before = 1; n_after = p.dims.size; e = r.zero; session = s })
    ok (d.e, d.session)
