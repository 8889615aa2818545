-- ===== src/Verify/Tests.antt =====
-- The two-point transform in the tests, over the integers.
pub mod Ring
pub mod TwoPoint
pub mod ShiftLaw
use bench_fft.Base.{
  ℕ, zero, suc, ◌+◌, ◌*◌, ◌<◌, ◌≤◌, ◌≡◌, ◌≢◌, refl, arith, leb, ◌==◌, inl, inr, List, [], ◌∷◌,
  length, Buffer, IsWritten, false, true, Bool-cases, ◌&&◌,
}
use bench_fft.Base.Int.{ℤ}
use bench_fft.Base.Int.ℤ.{pos, negsuc}
use bench_fft.Base.Exact.{integers}
use bench_fft.Base.Real.{Real, Complex, IsUnit}
use bench_fft.Base.Outcome.{Outcome, ok, Returns}
use bench_fft.Problem.{Problem}
use bench_fft.Problem.Storage.{Heap, Allocator}
use bench_fft.Arrays.{Memory}
use bench_fft.Arrays.Laws.{IsDisjoint}
use bench_fft.Verify.{Session, Driver, arol, aphase_shift, arand, do_fft}
use bench_fft.Verify.Symmetry.{mkhermitian}
use bench_fft.Verify.Symmetry.Mirror.{volume}
use bench_fft.Verify.Symmetry.Laws.{IsSymmetric, mkhermitian-IsHermitian}
use bench_fft.Verify.Rows.Rotate.{rotated, arol-IsWritten}
use bench_fft.Verify.Rows.Phase.{aphase_shift-IsWritten}
use bench_fft.Verify.Transform.{IsRun, Implements}
use bench_fft.Verify.Transform.Hooks.{default_driver, Outside, do_fft-Implements}
use bench_fft.Verify.Trials.{Work, Shift, Setting, impulse, tf_shift}
use bench_fft.Verify.Trials.Slots.{IsLaid, address}
use bench_fft.Verify.Trials.Exact.{IsReady}
use bench_fft.Verify.Trials.Exact.Impulse.{impulse-passes}
use bench_fft.Verify.Trials.Exact.Shifts.{IsSized, tf_shift-passes}
use bench_fft.Verify.Run.{World, Errors, Machine, Norms, setting, no_norms, do_verify, do_accuracy}
use bench_fft.Verify.Run.Passes.{IsUnfailing, work_of, AllZero, HasShifts, do_verify-passes}
use bench_fft.Verify.Run.Leak.{IsSpread, do_accuracy-keeps}
use bench_fft.Verify.Tests.TwoPoint.{
  half_turns, integers-IsExact, integers-HasNegation, two_points, dft, dft-IsTransform, run_dft,
  run_dft-IsWritten,
}
use bench_fft.Verify.Tests.ShiftLaw.{dft-ObeysShift}

-- An allocator that spaces its blocks by ten cells, above the arrays of the problem.
abbrev spaced : Allocator
spaced h n = 10 + 10 * length h.live

abbrev machine : Machine ℤ
machine = record {
  malloc = spaced;
  sizeof_problem = 200;
  sizeof_real = 8;
  drand48 = pos;
  verbose = 0;
  driver = default_driver ⦃r = integers⦄ (λ iter p mem. ok (run_dft p mem));
  can_do = λ p. true;
  setup = λ o w. ok (o, w);
  done = λ o w. ok w;
}

abbrev empty_heap : Heap
empty_heap = record { live = [] }

abbrev session : Session ℤ
session = record {
  memory = record { reals = λ i. pos 0; complexes = λ i. record { re = pos i; im = pos (i * i) } };
  drawn = 0;
}

abbrev world : World ℤ
world = record { heap = empty_heap; session = session }

spaced-IsUnfailing : IsUnfailing spaced
spaced-IsUnfailing h n e = absurd (omega arith)

abbrev Mine : ℕ → Type 0
Mine =
    Outside ⦃r = integers⦄ run_dft two_points dft dft-IsTransform.congruent refl run_dft-IsWritten

abbrev arrays : Work
arrays = work_of spaced 32 empty_heap

place_of_slot : (s : ℕ) → s < 7 → address arrays s ≡ 10 + 10 * s
place_of_slot zero lt = refl
place_of_slot (suc zero) lt = refl
place_of_slot (suc (suc zero)) lt = refl
place_of_slot (suc (suc (suc zero))) lt = refl
place_of_slot (suc (suc (suc (suc zero)))) lt = refl
place_of_slot (suc (suc (suc (suc (suc zero))))) lt = refl
place_of_slot (suc (suc (suc (suc (suc (suc zero)))))) lt = refl
place_of_slot (suc (suc (suc (suc (suc (suc (suc s))))))) lt = absurd (omega arith)

arrays-IsLaid : IsLaid 2 Mine arrays
arrays-IsLaid = record {
  apart = λ s t lt lt' ne. apart_by s t (place_of_slot s lt) (place_of_slot t lt') ne;
  own = λ s i lt below.
      (inr (omega (arith, place_of_slot s lt)), inr (omega (arith, place_of_slot s lt)));
}
  where
    apart_by : (s t : ℕ) {a b : ℕ} → a ≡ 10 + 10 * s → b ≡ 10 + 10 * t → s ≢ t → IsDisjoint 2 a b
    apart_by s t e f ne = elim (Bool-cases (leb (suc s) t)) [
      | inl below ↦ inl (ground arith)
      | inr above ↦ inr (ground arith)
    ]

two_points-IsSized : IsSized two_points
unfolding volume
two_points-IsSized = record {
  rank = refl;
  positive = (omega arith, tt);
  size = refl;
  small = omega arith;
}

driven : Implements machine.driver two_points Mine dft
driven =
    do_fft-Implements ⦃r = integers⦄ run_dft two_points dft dft-IsTransform.congruent refl
      run_dft-IsWritten

do_fft-Implements_example :
    Returns (IsRun 2 Mine dft 10 20 session) (do_fft machine.driver two_points 10 20 session)
do_fft-Implements_example =
    do_fft-Implements ⦃r = integers⦄ run_dft two_points dft dft-IsTransform.congruent refl
      run_dft-IsWritten 10 20 session (λ i lt. (inr (omega arith), inr (omega arith)))
      (λ i lt. (inr (omega arith), inr (omega arith))) (inl (omega arith))

two_points-IsReady :
    IsReady ⦃r = integers⦄ ⦃libm = half_turns⦄ (setting machine arrays) two_points (pos 0) Mine dft
two_points-IsReady = record {
  exact = integers-IsExact;
  laid = arrays-IsLaid;
  driven = driven;
  fourier = dft-IsTransform;
}

impulse-passes_example :
    Returns
      (λ (st : ℤ × Session ℤ). st.0 ≡ pos 0)
      (impulse ⦃r = integers⦄ ⦃libm = half_turns⦄
        (setting machine arrays)
        two_points
        (pos 0)
        3
        session)
unfolding integers
impulse-passes_example =
    impulse-passes (setting machine arrays) two_points (pos 0) Mine dft two_points-IsReady 3 session
      (omega arith)

tf_shift-passes_example :
    Returns
      (λ (st : ℤ × Session ℤ). st.0 ≡ pos 0)
      (tf_shift ⦃r = integers⦄ ⦃libm = half_turns⦄
        (setting machine arrays)
        two_points
        (pos 0)
        Shift.time_shift
        3
        session)
unfolding integers
tf_shift-passes_example =
    tf_shift-passes (setting machine arrays) two_points (pos 0) Mine dft two_points-IsReady
      two_points-IsSized integers-HasNegation Shift.time_shift 3 session
      (dft-ObeysShift Shift.time_shift _)

two_points-HasShifts :
    HasShifts ⦃r = integers⦄ ⦃libm = half_turns⦄ two_points (integers.neg integers.one) dft
two_points-HasShifts = record {
  in_time = λ e. dft-ObeysShift Shift.time_shift (integers.neg integers.one);
  in_freq = λ e. dft-ObeysShift Shift.freq_shift (integers.neg integers.one);
}

do_verify-passes_example :
    Returns
      (λ (st : Errors ℤ × World ℤ). AllZero ⦃r = integers⦄ st.0 × (st.1.heap ≡ empty_heap))
      (do_verify ⦃r = integers⦄ ⦃libm = half_turns⦄ machine two_points 0 (pos 0) world)
do_verify-passes_example =
    do_verify-passes machine two_points (pos 0) Mine dft integers-IsExact driven dft-IsTransform
      integers-HasNegation two_points-IsSized 0 world spaced-IsUnfailing arrays-IsLaid
      two_points-HasShifts

mkhermitian-IsHermitian_example :
    IsSymmetric ⦃r = integers⦄
      (3 ∷ 4 ∷ [])
      5
      session.memory.complexes
      (mkhermitian ⦃r = integers⦄ (3 ∷ 4 ∷ []) 5 session.memory.complexes)
unfolding volume
mkhermitian-IsHermitian_example =
    mkhermitian-IsHermitian integers-HasNegation (3 ∷ 4 ∷ []) 5 session.memory.complexes
      (omega arith, (omega arith, tt)) (omega arith)

arol-IsWritten_example :
    IsWritten 30
      (2 * 3 * 4)
      (λ q. session.memory.complexes (2 + rotated 3 4 q))
      session.memory.complexes
      (arol 30 2 3 2 4 session.memory.complexes)
arol-IsWritten_example =
    arol-IsWritten 2 3 4 2 30 session.memory.complexes (omega arith) (omega arith)
      (inl (omega arith)) (omega arith)

abbrev no_errors : ℕ → Buffer (Complex ℤ) → ℕ → ℕ → ℤ → Norms ℤ
no_errors n mem a b sign = no_norms ⦃r = integers⦄ ⦃libm = half_turns⦄ machine

do_accuracy-keeps_example :
    Returns
      (λ (st : Norms ℤ × World ℤ). st.1.heap ≡ record { live = 20 ∷ 10 ∷ [] })
      (do_accuracy ⦃r = integers⦄ ⦃libm = half_turns⦄ machine no_errors two_points (pos 5) world)
do_accuracy-keeps_example =
    do_accuracy-keeps machine two_points Mine dft driven no_errors (pos 5) world spaced-IsUnfailing
      refl refl
      (record {
        own_a = λ i lt. (inr (omega arith), inr (omega arith));
        own_b = λ i lt. (inr (omega arith), inr (omega arith));
        apart = inl (omega arith);
      })
