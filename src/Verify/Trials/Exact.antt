-- ===== src/Verify/Trials/Exact.antt =====
-- A driver that computes a Fourier transform passes the tests of libbench/verify.c, in exact arithmetic.
pub mod Linear
pub mod Impulse
pub mod Shifts
use bench_fft.Base.{
  ℕ, zero, suc, ◌+◌, ◌*◌, ◌<◌, ◌≡◌, ◌≢◌, refl, sym, ap, ap₂, ◌∙◌, arith, Buffer, IsWritten,
}
use bench_fft.Base.Real.{Real, Complex, Libm}
use bench_fft.Base.Outcome.{Outcome, ok, ◌>>=◌, Returns, Returns-ok}
use bench_fft.Problem.{Problem}
use bench_fft.Verify.{Session, with_complexes, do_fft, acmp, arand, dmax}
use bench_fft.Verify.Laws.{IsExact, arand-IsWritten, drawn_value, acmp-equal, dmax_zero}
use bench_fft.Verify.Transform.{IsRun, Implements, IsTransform}
use bench_fft.Verify.Trials.{Work, Setting, compared}
use bench_fft.Verify.Trials.Slots.{
  Table, IsLaid, Represents, address, update, update-Represents, written-Represents,
}

pub forget {ℓ} :
    {A : Type ℓ} {P Q : A → Type 0} {m : Outcome A} → Returns (λ a. P a × Q a) m → Returns P m
forget h = record { value = h.value; returned = h.returned; holds = h.holds.0 }

-- The driver computes `transform`, and the arrays of the tests are apart from each other and from the
-- driver's.
pub record IsReady {R : Type 0} ⦃r : Real R⦄ ⦃libm : Libm R⦄ (cfg : Setting R) (p : Problem)
    (tol : R) (mine : ℕ → Type 0) (transform : (ℕ → Complex R) → ℕ → Complex R) : Type 0 where
  pub exact : IsExact tol
  pub laid : IsLaid p.dims.size mine cfg.work
  pub driven : Implements cfg.driver p mine transform
  pub fourier : IsTransform p transform

module _ {R : Type 0} ⦃r : Real R⦄ ⦃libm : Libm R⦄ (cfg : Setting R) (p : Problem) (tol : R)
    (mine : ℕ → Type 0) (transform : (ℕ → Complex R) → ℕ → Complex R)
    (ready : IsReady cfg p tol mine transform) where
  abbrev pub Holds : Table R → Session R → Type 0
  Holds table s = Represents p.dims.size cfg.work table s.memory.complexes

  pub arand-Holds :
      (table : Table R) (slot : ℕ) (s : Session R)
      → slot < 7
      → Holds table s
      → Holds
          (update table slot (drawn_value cfg.drand48 s.drawn))
          (arand cfg.drand48 (address cfg.work slot) p.dims.size s)
  arand-Holds table slot s lt h =
      written-Represents p.dims.size mine cfg.work ready.laid table _ _ slot _ lt h
        (arand-IsWritten cfg.drand48 (address cfg.work slot) p.dims.size s).0

  pub do_fft-Holds :
      (table : Table R) (input out : ℕ) (s : Session R)
      → input < 7
      → out < 7
      → input ≢ out
      → Holds table s
      → Returns
          (Holds (update table out (transform (table input))))
          (do_fft cfg.driver p (address cfg.work input) (address cfg.work out) s)
  do_fft-Holds table input out s lt lt' ne h =
      let run =
        ready.driven (address cfg.work input) (address cfg.work out) s
          (λ i below. ready.laid.own input i lt below) (λ i below. ready.laid.own out i lt' below)
          (ready.laid.apart input out lt lt' ne) in
      record {
        value = run.value;
        returned = run.returned;
        holds =
            update-Represents p.dims.size mine cfg.work ready.laid table s.memory.complexes
              run.value.memory.complexes out _ lt' h
              (λ i below.
                run.holds.inside i below
                ∙ ready.fourier.congruent _ (table input) (λ k lt''. h input k lt lt'') i below)
              run.holds.outside;
      }

  pub written-Holds :
      (table : Table R) (slot : ℕ) (v : ℕ → Complex R) (s : Session R) (new : Buffer (Complex R))
      → slot < 7
      → Holds table s
      → IsWritten (address cfg.work slot) p.dims.size v s.memory.complexes new
      → Holds (update table slot v) (with_complexes new s)
  written-Holds table slot v s new lt h w =
      written-Represents p.dims.size mine cfg.work ready.laid table s.memory.complexes new slot v lt
        h w

  -- The comparison of two arrays with the same elements leaves the error at zero.
  pub compared-Holds :
      (table : Table R) (a b : ℕ) (e : R) (s : Session R)
      → a < 7
      → b < 7
      → Holds table s
      → ((i : ℕ) → i < p.dims.size → table a i ≡ table b i)
      → e ≡ r.zero
      → Returns
          (λ st. (st.0 ≡ r.zero) × Holds table st.1)
          (compared cfg p tol (address cfg.work a) (address cfg.work b) e s)
  compared-Holds table a b e s lt lt' h same none_yet =
      rw
        (acmp-equal tol ready.exact cfg.verbose (address cfg.work a) (address cfg.work b)
          p.dims.size s.memory.complexes
          (λ i below. h a i lt below ∙ same i below ∙ sym (h b i lt' below)))
        (Returns-ok _ (ap (λ x. dmax x r.zero) none_yet ∙ dmax_zero ready.exact.irreflexive, h))
