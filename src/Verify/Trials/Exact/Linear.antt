-- ===== src/Verify/Trials/Exact/Linear.antt =====
-- The linearity test passes.
use bench_fft.Base.{ℕ, ◌+◌, ◌<◌, ◌≡◌, refl, ap₂, ◌∙◌, arith, Buffer}
use bench_fft.Base.Real.{Real, Complex, Libm}
use bench_fft.Base.Outcome.{Returns, Returns-bind, Returns-loop}
use bench_fft.Problem.{Problem}
use bench_fft.Arrays.{complex_add, complex_mul, cascale, caadd}
use bench_fft.Verify.{Session, arand}
use bench_fft.Verify.Laws.{drawn_value}
use bench_fft.Verify.Transform.{IsFactor}
use bench_fft.Verify.Trials.{Setting, factors, linear_round, linear}
use bench_fft.Verify.Trials.Slots.{Table, address, update, Represents}
use bench_fft.Verify.Trials.Slots.Operations.{cascale-Represents, caadd-Represents}
use bench_fft.Verify.Trials.Exact.{IsReady, forget, arand-Holds, do_fft-Holds, compared-Holds}

module _ {R : Type 0} ⦃r : Real R⦄ ⦃libm : Libm R⦄ (cfg : Setting R) (p : Problem) (tol : R)
    (mine : ℕ → Type 0) (transform : (ℕ → Complex R) → ℕ → Complex R)
    (ready : IsReady cfg p tol mine transform) where
  -- What the arrays hold as a round goes on.
  module _ (st : R × Session R) where
    abbrev alpha : Complex R
    alpha = (factors cfg p tol st.1).0

    abbrev beta : Complex R
    beta = (factors cfg p tol st.1).1

    alpha-IsFactor : IsFactor p.kind alpha
    alpha-IsFactor e = rw e refl

    beta-IsFactor : IsFactor p.kind beta
    beta-IsFactor e = rw e refl

    abbrev drawn : Session R
    drawn = (factors cfg p tol st.1).2

    abbrev filled : Session R
    filled = arand cfg.drand48 cfg.work.in_a p.dims.size drawn

    abbrev before : Table R
    before slot i = drawn.memory.complexes (address cfg.work slot + i)

    abbrev inputs : Table R
    inputs =
        update (update before 0 (drawn_value cfg.drand48 drawn.drawn)) 1
          (drawn_value cfg.drand48 filled.drawn)

    abbrev outputs : Table R
    outputs = update (update inputs 3 (transform (inputs 0))) 4 (transform (inputs 1))

    abbrev scaled : Table R
    scaled =
        update (update outputs 3 (λ i. complex_mul (outputs 3 i) alpha)) 4
          (λ i. complex_mul (outputs 4 i) beta)

    abbrev summed : Table R
    summed =
        update (update scaled 6 (λ i. complex_add (scaled 3 i) (scaled 4 i))) 0
          (λ i. complex_mul (inputs 0 i) alpha)

    abbrev combined : Table R
    combined =
        update (update summed 1 (λ i. complex_mul (inputs 1 i) beta)) 2
          (λ i. complex_add (complex_mul (inputs 0 i) alpha) (complex_mul (inputs 1 i) beta))

    -- The transform of the combined input is the combination of the transforms.
    linearity :
        (i : ℕ)
        → i < p.dims.size
        → transform (combined 2) i
          ≡ complex_add
              (complex_mul (transform (inputs 0) i) alpha)
              (complex_mul (transform (inputs 1) i) beta)
    linearity i lt =
        ready.fourier.additive (λ k. complex_mul (inputs 0 k) alpha)
          (λ k. complex_mul (inputs 1 k) beta) i lt
        ∙ ap₂ complex_add (ready.fourier.homogeneous alpha (inputs 0) i alpha-IsFactor lt)
            (ready.fourier.homogeneous beta (inputs 1) i beta-IsFactor lt)

    -- The array operations between the second transform and the third.
    combine :
        (mem : Buffer (Complex R))
        → Represents p.dims.size cfg.work outputs mem
        → Represents p.dims.size cfg.work combined (
            caadd cfg.work.in_c cfg.work.in_a cfg.work.in_b p.dims.size (
              cascale cfg.work.in_b p.dims.size beta (
                cascale cfg.work.in_a p.dims.size alpha (
                  caadd cfg.work.tmp cfg.work.out_a cfg.work.out_b p.dims.size (
                    cascale cfg.work.out_b p.dims.size beta
                      (cascale cfg.work.out_a p.dims.size alpha mem))))))
    combine mem h =
        let n = p.dims.size in
        let w = cfg.work in
        let h1 = cascale-Represents n mine w ready.laid outputs mem h 3 alpha (omega arith) in
        let h2 = cascale-Represents n mine w ready.laid _ _ h1 4 beta (omega arith) in
        let h3 =
          caadd-Represents n mine w ready.laid _ _ h2 6 3 4 (omega arith) (omega arith)
            (omega arith) in
        let h4 = cascale-Represents n mine w ready.laid _ _ h3 0 alpha (omega arith) in
        let h5 = cascale-Represents n mine w ready.laid _ _ h4 1 beta (omega arith) in
        caadd-Represents n mine w ready.laid _ _ h5 2 0 1 (omega arith) (omega arith) (omega arith)

  linear_round-Returns :
      (st : R × Session R)
      → st.0 ≡ r.zero
      → Returns (λ st'. st'.0 ≡ r.zero) (linear_round cfg p tol st)
  unfolding linear_round
  linear_round-Returns st none_yet =
      Returns-bind
        (do_fft-Holds cfg p tol mine transform ready (inputs st) 0 3 _ (omega arith) (omega arith)
          (λ e. absurd (omega arith))
          (arand-Holds cfg p tol mine transform ready _ 1 _ (omega arith) (
            arand-Holds cfg p tol mine transform ready (before st) 0 (drawn st) (omega arith)
              (λ slot i lt below. refl))))
        λ s' h'.
          Returns-bind
            (do_fft-Holds cfg p tol mine transform ready _ 1 4 s' (omega arith) (omega arith)
              (λ e. absurd (omega arith)) h')
            λ s'' h''.
              Returns-bind
                (do_fft-Holds cfg p tol mine transform ready (combined st) 2 5 _ (omega arith)
                  (omega arith) (λ e. absurd (omega arith)) (combine st s''.memory.complexes h''))
                λ t h. forget (
                  compared-Holds cfg p tol mine transform ready _ 5 6 st.0 t (omega arith)
                    (omega arith) h (λ i lt. linearity st i lt) none_yet)

  -- The linearity test passes with an error of zero, whatever numbers are drawn: arithmetic is exact,
  -- the driver computes a linear transform, and the arrays share no cell.
  pub linear-passes :
      (rounds : ℕ) (s : Session R) → Returns (λ st. st.0 ≡ r.zero) (linear cfg p tol rounds s)
  unfolding linear
  linear-passes rounds s =
      Returns-loop (λ _ st. st.0 ≡ r.zero) rounds (λ _. linear_round cfg p tol) (r.zero, s)
        (λ i st lt e. linear_round-Returns st e) refl
