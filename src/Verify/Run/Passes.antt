-- ===== src/Verify/Run/Passes.antt =====
-- The runs of the tests on a driver that computes a Fourier transform, and what becomes of the heap.
use bench_fft.Base.{
  ℕ, ◌≤◌, ◌≡◌, ◌≢◌, refl, ap₂, ◌∙◌, arith, Bool, true, false, ◌||◌, not, ◌==◌, ◌∷◌, if◌then◌else◌,
}
use bench_fft.Base.Int.{eqb_ℤ}
use bench_fft.Base.Int.ℤ.{pos, negsuc}
use bench_fft.Base.Real.{Real, Complex, Libm}
use bench_fft.Base.Outcome.{ok, ◌>>=◌, Returns, Returns-ok, Returns-bind}
use bench_fft.Problem.{Problem}
use bench_fft.Problem.Storage.{Heap, Allocator, bench_malloc}
use bench_fft.Problem.Storage.Laws.{not_null, bench_free_first}
use bench_fft.Arrays.{is_real}
use bench_fft.Verify.{Session, dmax}
use bench_fft.Verify.Laws.{IsExact, dmax_zero}
use bench_fft.Verify.Symmetry.Mirror.{volume-IsPositive}
use bench_fft.Verify.Symmetry.Laws.{HasNegation}
use bench_fft.Verify.Transform.{Implements, IsTransform}
use bench_fft.Verify.Trials.{Work, Shift, tf_shift, sign_of}
use bench_fft.Verify.Trials.Slots.{IsLaid}
use bench_fft.Verify.Trials.Exact.{IsReady}
use bench_fft.Verify.Trials.Exact.Linear.{linear-passes}
use bench_fft.Verify.Trials.Exact.Impulse.{impulse-passes}
use bench_fft.Verify.Trials.Exact.Shifts.{IsSized, ObeysShift, tf_shift-passes}
use bench_fft.Verify.Run.{
  World, Errors, Machine, complex_bytes, alloc_work, free_work, setting, trials, do_verify,
}

-- `malloc` does not fail.
abbrev pub IsUnfailing : Allocator → Type 0
IsUnfailing malloc = (h : Heap) (n : ℕ) → malloc h n ≢ 0

-- The address that `bench_malloc` gets.
abbrev pub granted : Allocator → ℕ → Heap → ℕ
granted malloc n h = malloc h (if n == 0 then 1 else n)

abbrev pub taken : Allocator → ℕ → Heap → Heap
taken malloc n h = record { live = granted malloc n h ∷ h.live }

-- The addresses of the seven arrays.
abbrev pub work_of : Allocator → ℕ → Heap → Work
work_of malloc n h =
    let h1 = taken malloc n h in
    let h2 = taken malloc n h1 in
    let h3 = taken malloc n h2 in
    let h4 = taken malloc n h3 in
    let h5 = taken malloc n h4 in
    let h6 = taken malloc n h5 in
    record {
      in_a = granted malloc n h;
      in_b = granted malloc n h1;
      in_c = granted malloc n h2;
      out_a = granted malloc n h3;
      out_b = granted malloc n h4;
      out_c = granted malloc n h5;
      tmp = granted malloc n h6;
    }

-- The heap with the seven arrays.
abbrev pub with_work : Work → Heap → Heap
with_work w h = record {
  live = w.tmp ∷ w.out_c ∷ w.out_b ∷ w.out_a ∷ w.in_c ∷ w.in_b ∷ w.in_a ∷ h.live;
}

pub bench_malloc_lem :
    (malloc : Allocator) (n : ℕ) (h : Heap)
    → IsUnfailing malloc
    → bench_malloc malloc n h ≡ ok (granted malloc n h, taken malloc n h)
unfolding bench_malloc
bench_malloc_lem malloc n h unfailing =
    rw (not_null (granted malloc n h) (unfailing h (if n == 0 then 1 else n))) refl

alloc_work_lem :
    {R : Type 0} (c : Machine R) (n : ℕ) (h : Heap)
    → IsUnfailing c.malloc
    → alloc_work c n h ≡ ok (work_of c.malloc n h, with_work (work_of c.malloc n h) h)
unfolding alloc_work
alloc_work_lem c n h unfailing =
    let get = λ (x : Heap). bench_malloc_lem c.malloc n x unfailing in
    let h1 = taken c.malloc n h in
    let h2 = taken c.malloc n h1 in
    let h3 = taken c.malloc n h2 in
    let h4 = taken c.malloc n h3 in
    let h5 = taken c.malloc n h4 in
    let h6 = taken c.malloc n h5 in rw (get h, get h1, get h2, get h3, get h4, get h5, get h6) refl

-- The arrays are freed in the reverse order, so that the heap is as before.
free_work_lem :
    (w : Work) (h : Heap)
    → w.in_a ≢ 0
    → w.in_b ≢ 0
    → w.in_c ≢ 0
    → w.out_a ≢ 0
    → w.out_b ≢ 0
    → w.out_c ≢ 0
    → w.tmp ≢ 0
    → free_work w (with_work w h) ≡ ok h
unfolding free_work
free_work_lem w h na nb nc oa ob oc nt =
    rw
      (
        bench_free_first w.tmp (w.out_c ∷ w.out_b ∷ w.out_a ∷ w.in_c ∷ w.in_b ∷ w.in_a ∷ h.live) nt,
        bench_free_first w.out_c (w.out_b ∷ w.out_a ∷ w.in_c ∷ w.in_b ∷ w.in_a ∷ h.live) oc,
        bench_free_first w.out_b (w.out_a ∷ w.in_c ∷ w.in_b ∷ w.in_a ∷ h.live) ob,
        bench_free_first w.out_a (w.in_c ∷ w.in_b ∷ w.in_a ∷ h.live) oa,
        bench_free_first w.in_c (w.in_b ∷ w.in_a ∷ h.live) nc,
        bench_free_first w.in_b (w.in_a ∷ h.live) nb,
        bench_free_first w.in_a h.live na,
      )
      refl

-- What the tests say of a transform that is right.
abbrev pub AllZero : {R : Type 0} → ⦃r : Real R⦄ → Errors R → Type 0
AllZero ⦃r⦄ errors = (errors.el ≡ r.zero) × (errors.ei ≡ r.zero) × (errors.es ≡ r.zero)

-- The shift theorems that the tests rely on: both for a complex problem, and for a real one that of its
-- direction.
pub record HasShifts {R : Type 0} ⦃r : Real R⦄ ⦃libm : Libm R⦄ (p : Problem) (sign : R)
    (transform : (ℕ → Complex R) → ℕ → Complex R) : Type 0 where
  pub in_time :
      not (is_real p.kind) || eqb_ℤ p.sign (negsuc 0) ≡ true
      → ObeysShift Shift.time_shift p sign transform
  pub in_freq :
      not (is_real p.kind) || eqb_ℤ p.sign (pos 1) ≡ true
      → ObeysShift Shift.freq_shift p sign transform

module _ {R : Type 0} ⦃r : Real R⦄ ⦃libm : Libm R⦄ (c : Machine R) (p : Problem) (tol : R)
    (mine : ℕ → Type 0) (transform : (ℕ → Complex R) → ℕ → Complex R) (exact : IsExact tol)
    (driven : Implements c.driver p mine transform) (fourier : IsTransform p transform)
    (neg : HasNegation R) (sized : IsSized p) where
  module _ (w : Work) (laid : IsLaid p.dims.size mine w)
      (shifts : HasShifts p (sign_of (setting c w) p tol) transform) (rounds : ℕ) where
    ready : IsReady (setting c w) p tol mine transform
    ready = record { exact = exact; laid = laid; driven = driven; fourier = fourier }

    time_test :
        (b : Bool) (s : Session R)
        → (b ≡ true → ObeysShift Shift.time_shift p (sign_of (setting c w) p tol) transform)
        → Returns
            (λ (st : R × Session R). st.0 ≡ r.zero)
            (if b then tf_shift (setting c w) p tol Shift.time_shift rounds s else ok (r.zero, s))
    time_test true s obeys =
        tf_shift-passes (setting c w) p tol mine transform ready sized neg Shift.time_shift rounds s
          (obeys refl)
    time_test false s obeys = Returns-ok _ refl

    freq_test :
        (b : Bool) (es : R) (s : Session R)
        → (b ≡ true → ObeysShift Shift.freq_shift p (sign_of (setting c w) p tol) transform)
        → es ≡ r.zero
        → Returns
            (λ (st : R × Session R). st.0 ≡ r.zero)
            (if b
              then (tf_shift (setting c w) p tol Shift.freq_shift rounds s >>= λ st.
                  ok (dmax es st.0, st.1))
              else ok (es, s))
    freq_test true es s obeys none_yet =
        Returns-bind
          (tf_shift-passes (setting c w) p tol mine transform ready sized neg Shift.freq_shift
            rounds s (obeys refl))
          λ st e. Returns-ok _ (ap₂ dmax none_yet e ∙ dmax_zero exact.irreflexive)
    freq_test false es s obeys none_yet = Returns-ok _ none_yet

    trials-Returns :
        (s : Session R) → 1 ≤ p.dims.size → Returns (λ st. AllZero st.0) (trials c w p rounds tol s)
    unfolding trials
    trials-Returns s nonempty =
        Returns-bind (linear-passes (setting c w) p tol mine transform ready rounds s) λ st1 el.
          Returns-bind
            (impulse-passes (setting c w) p tol mine transform ready rounds st1.1 nonempty)
            λ st2 ei.
              Returns-bind
                (time_test (not (is_real p.kind) || eqb_ℤ p.sign (negsuc 0)) st2.1 shifts.in_time)
                λ st3 es.
                  Returns-bind
                    (freq_test (not (is_real p.kind) || eqb_ℤ p.sign (pos 1)) st3.0 st3.1
                      shifts.in_freq es)
                    λ st4 es'. Returns-ok _ (el, ei, es')

  pub do_verify-passes :
      (rounds : ℕ) (world : World R)
      → IsUnfailing c.malloc
      → IsLaid p.dims.size mine (work_of c.malloc (complex_bytes c p.dims.size) world.heap)
      → HasShifts p (if eqb_ℤ p.sign (negsuc 0) then r.neg r.one else r.one) transform
      → Returns (λ st. AllZero st.0 × (st.1.heap ≡ world.heap)) (do_verify c p rounds tol world)
  unfolding do_verify
  do_verify-passes rounds world unfailing laid shifts =
      let n = complex_bytes c p.dims.size in
      let w = work_of c.malloc n world.heap in
      let nonempty : 1 ≤ p.dims.size =
        omega (arith, sized.size, volume-IsPositive p.dims.n sized.positive) in
      rw (alloc_work_lem c n world.heap unfailing) (
        Returns-bind
          (trials-Returns w laid shifts (if rounds == 0 then 20 else rounds) world.session nonempty)
          λ st zero_errors.
            rw
              (free_work_lem w world.heap (unfailing _ _) (unfailing _ _) (unfailing _ _)
                (unfailing _ _) (unfailing _ _) (unfailing _ _) (unfailing _ _))
              (Returns-ok _ (zero_errors, refl)))
