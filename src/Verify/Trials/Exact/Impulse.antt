-- ===== src/Verify/Trials/Exact/Impulse.antt =====
-- The impulse-response test passes.
use mathlib.Core.Path.{subst}
use bench_fft.Base.{ℕ, ◌+◌, ◌<◌, ◌≤◌, ◌≡◌, refl, sym, ap, ap₂, ◌∙◌, arith, Buffer, store}
use bench_fft.Base.Real.{Real, Complex, Libm}
use bench_fft.Base.Outcome.{Outcome, Returns, Returns-ok, Returns-bind, Returns-loop}
use bench_fft.Problem.{Problem}
use bench_fft.Arrays.{complex_add, complex_sub, caset}
use bench_fft.Verify.{Session, dmax}
use bench_fft.Verify.Laws.{drawn_value, dmax_zero}
use bench_fft.Verify.Transform.{unit_impulse, ones, ones_transform}
use bench_fft.Verify.Trials.{Setting, impulse_round, impulse0, impulse}
use bench_fft.Verify.Trials.Slots.{Table, address, update, Represents}
use bench_fft.Verify.Trials.Slots.Operations.{
  caadd-Represents, asub-Represents, caset-Represents, store-Represents,
}
use bench_fft.Verify.Trials.Exact.{IsReady, Holds, arand-Holds, do_fft-Holds, compared-Holds}

module _ {R : Type 0} ⦃r : Real R⦄ ⦃libm : Libm R⦄ (cfg : Setting R) (p : Problem) (tol : R)
    (mine : ℕ → Type 0) (transform : (ℕ → Complex R) → ℕ → Complex R)
    (ready : IsReady cfg p tol mine transform) where
  module _ (x y : ℕ → Complex R) (response : (i : ℕ) → i < p.dims.size → transform x i ≡ y i) where
    -- The first arrays hold an input and its transform.
    record IsFilled (st : R × Session R) : Type 0 where
      none_yet : st.0 ≡ r.zero
      table : Table R
      held : Holds cfg p tol mine transform ready table st.1
      source : table 0 ≡ x
      target : table 3 ≡ y

    module _ (table : Table R) (v : ℕ → Complex R) where
      abbrev split : Table R
      split = update (update table 1 v) 2 (λ i. complex_sub (table 0 i) (v i))

      abbrev transformed : Table R
      transformed = update (update split 4 (transform v)) 5 (transform (split 2))

      abbrev joined : Table R
      joined = update transformed 6 (λ i. complex_add (transform v i) (transform (split 2) i))

      -- The transforms of the two parts add up to the transform of the whole.
      rejoined : table 0 ≡ x → table 3 ≡ y → (i : ℕ) → i < p.dims.size → joined 6 i ≡ joined 3 i
      rejoined source target i lt =
          sym (ready.fourier.additive v (split 2) i lt)
          ∙ ready.fourier.congruent (λ k. complex_add (v k) (split 2 k)) x
              (λ k lt'. ready.fourier.restored (table 0 k) (v k) ∙ ap (λ f. f k) source) i lt
          ∙ response i lt
          ∙ ap (λ f. f i) (sym target)

    impulse_round-IsFilled :
        (st : R × Session R) → IsFilled st → Returns IsFilled (impulse_round cfg p tol st)
    unfolding impulse_round
    impulse_round-IsFilled st h =
        let v = drawn_value cfg.drand48 st.1.drawn in
        Returns-bind
          (do_fft-Holds cfg p tol mine transform ready (split h.table v) 1 4 _ (omega arith)
            (omega arith) (λ e. absurd (omega arith))
            (asub-Represents p.dims.size mine cfg.work ready.laid (update h.table 1 v) _
              (arand-Holds cfg p tol mine transform ready h.table 1 st.1 (omega arith) h.held) 2 0 1
              (omega arith) (omega arith) (omega arith)))
          λ t th.
            Returns-bind
              (do_fft-Holds cfg p tol mine transform ready _ 2 5 t (omega arith) (omega arith)
                (λ e. absurd (omega arith)) th)
              λ t' th'. kept h v (
                compared-Holds cfg p tol mine transform ready (joined h.table v) 6 3 st.0 _
                  (omega arith) (omega arith)
                  (caadd-Represents p.dims.size mine cfg.work ready.laid (transformed h.table v) _
                    th' 6 4 5 (omega arith) (omega arith) (omega arith))
                  (rejoined h.table v h.source h.target) h.none_yet)
      where
        kept :
            (h : IsFilled st) (v : ℕ → Complex R) {m : Outcome (R × Session R)}
            → Returns
                (λ st'.
                  (st'.0 ≡ r.zero) × Holds cfg p tol mine transform ready (joined h.table v) st'.1)
                m
            → Returns IsFilled m
        kept h v result = record {
          value = result.value;
          returned = result.returned;
          holds = record {
            none_yet = result.holds.0;
            table = joined h.table v;
            held = result.holds.1;
            source = h.source;
            target = h.target;
          };
        }

    impulse0-IsFilled :
        (rounds : ℕ) (s : Session R)
        → IsFilled (r.zero, s)
        → Returns IsFilled (impulse0 cfg p tol rounds s)
    unfolding impulse0
    impulse0-IsFilled rounds s h =
        Returns-bind
          (do_fft-Holds cfg p tol mine transform ready h.table 0 4 s (omega arith) (omega arith)
            (λ e. absurd (omega arith)) h.held)
          λ t th.
            Returns-bind
              (compared-Holds cfg p tol mine transform ready _ 4 3 r.zero t (omega arith)
                (omega arith) th
                (λ i lt.
                  ready.fourier.congruent (h.table 0) x (λ k lt'. ap (λ f. f k) h.source) i lt
                  ∙ response i lt
                  ∙ ap (λ f. f i) (sym h.target))
                refl)
              λ st sth.
                Returns-loop (λ _. IsFilled) rounds (λ _. impulse_round cfg p tol) st
                  (λ i st' lt h'. impulse_round-IsFilled st' h')
                  (record {
                    none_yet = sth.0;
                    table = update h.table 4 (transform (h.table 0));
                    held = sth.1;
                    source = h.source;
                    target = h.target;
                  })

  abbrev no_signal : Complex R
  no_signal = record { re = r.zero; im = r.zero }

  abbrev one : Complex R
  one = record { re = r.one; im = r.zero }

  module _ (table : Table R) (mem : Buffer (Complex R)) (pos : 1 ≤ p.dims.size)
      (h : Represents p.dims.size cfg.work table mem) where
    -- An impulse and its transform.
    abbrev first : Table R
    first = update (update (update table 0 (λ i. no_signal)) 0 unit_impulse) 3 ones

    first-Represents : Represents p.dims.size cfg.work first (
        caset cfg.work.out_a p.dims.size one
          (store (caset cfg.work.in_a p.dims.size no_signal mem) cfg.work.in_a one))
    first-Represents =
        let n = p.dims.size in
        let h1 =
          caset-Represents n mine cfg.work ready.laid table mem h 0 no_signal (omega arith) in
        let h2 =
          store-Represents n mine cfg.work ready.laid (update table 0 (λ i. no_signal))
            (caset cfg.work.in_a n no_signal mem) h1 0 one (omega arith) pos in
        caset-Represents n mine cfg.work ready.laid _ _ h2 3 one (omega arith)

    abbrev cleared : Table R
    cleared = update (update table 0 ones) 3 (λ i. no_signal)

    -- Ones and their transform.
    abbrev second : Table R
    second = update cleared 3 (ones_transform p.dims.size)

    second-Represents :
        (m : Buffer (Complex R))
        → m ≡ caset cfg.work.out_a p.dims.size no_signal (caset cfg.work.in_a p.dims.size one mem)
        → Represents p.dims.size cfg.work second
            (store m cfg.work.out_a (record (m cfg.work.out_a) { re = r.of_ℕ p.dims.size }))
    second-Represents m e =
        let n = p.dims.size in
        let h1 = caset-Represents n mine cfg.work ready.laid table mem h 0 one (omega arith) in
        let h2 =
          caset-Represents n mine cfg.work ready.laid (update table 0 ones) _ h1 3 no_signal
            (omega arith) in
        let at_start : m cfg.work.out_a ≡ no_signal =
          ap m {x = cfg.work.out_a} {y = cfg.work.out_a + 0} (omega arith)
          ∙ ap (λ (b : Buffer (Complex R)). b (cfg.work.out_a + 0)) e
          ∙ h2 3 0 (omega arith) pos in
        subst
          (λ x.
            Represents n cfg.work second
              (store m cfg.work.out_a (record x { re = r.of_ℕ p.dims.size })))
          (sym at_start)
          (rw e (
            store-Represents n mine cfg.work ready.laid cleared
              (caset cfg.work.out_a n no_signal (caset cfg.work.in_a n one mem)) h2 3
              (record { re = r.of_ℕ n; im = r.zero }) (omega arith) pos))

  pub impulse-passes :
      (rounds : ℕ) (s : Session R)
      → 1 ≤ p.dims.size
      → Returns (λ st. st.0 ≡ r.zero) (impulse cfg p tol rounds s)
  unfolding impulse
  impulse-passes rounds s pos =
      Returns-bind
        (impulse0-IsFilled unit_impulse ones ready.fourier.impulse_response rounds _ (record {
          none_yet = refl;
          table = first (now s) s.memory.complexes pos (λ slot i lt below. refl);
          held = first-Represents (now s) s.memory.complexes pos (λ slot i lt below. refl);
          source = refl;
          target = refl;
        }))
        λ st h.
          Returns-bind
            (impulse0-IsFilled ones (ones_transform p.dims.size) ready.fourier.ones_response rounds
              _
              (record {
                none_yet = refl;
                table = second h.table st.1.memory.complexes pos h.held;
                held = second-Represents h.table st.1.memory.complexes pos h.held _ refl;
                source = refl;
                target = refl;
              }))
            λ st' h'.
              Returns-ok _ (ap₂ dmax h'.none_yet h.none_yet ∙ dmax_zero ready.exact.irreflexive)
    where
      now : Session R → Table R
      now t slot i = t.memory.complexes (address cfg.work slot + i)
