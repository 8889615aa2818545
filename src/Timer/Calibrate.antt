-- ===== src/Timer/Calibrate.antt =====
-- The calibration ends within twenty doublings.
use bench_fft.Base.{
  ℕ, zero, suc, ◌≡◌, ◌⊎◌, inl, inr, Bool, true, false, Bool-cases, if◌then◌else◌, List, [], ◌∷◌,
}
use bench_fft.Base.Int.{ℤ, ltb_ℤ}
use bench_fft.Base.Int.ℤ.{pos}
use bench_fft.Base.Real.{Real}
use bench_fft.Base.Outcome.{Outcome, ok, Ensures, Ensures-bind, Ensures-self, Ensures-if}
use bench_fft.Timer.{
  Timeval, Decimals, time_n, find_n, to_int, of_int, tmax_try, tmin_try, tolerance, test_points,
  proportional, acceptable, calibrate_from, calibrate,
}
use bench_fft.Timer.Laws.{IsFound, find_n-IsFound, int_result-Ensures}

module _ {R : Type 0} ⦃r : Real R⦄ ⦃dec : Decimals R⦄ where
  -- `tmin` after `k` rounds of `tmin *= 2.0`.
  unfoldable pub after_doublings : ℕ → R → R
  after_doublings zero tmin = tmin
  after_doublings (suc k) tmin = after_doublings k (r.mul tmin (dec.decimal 20 1))

module _ {R : Type 0} ⦃r : Real R⦄ ⦃dec : Decimals R⦄ (clock : ℕ → Timeval) (time_repeat : ℤ) where
  proportional-Ensures :
      (baseline : R) (n : ℤ) (points : List R) (ticks : ℕ)
      → Ensures (λ st. Unit {0}) (proportional clock time_repeat baseline n points ticks)
  unfolding proportional
  proportional-Ensures baseline n [] ticks = tt
  proportional-Ensures baseline n (point ∷ points) ticks =
      Ensures-bind (λ k. Unit {0}) (λ st. Unit {0}) (to_int (r.mul (of_int n) point)) _
        (int_result-Ensures (dec.truncate (r.mul (of_int n) point)))
        λ k _.
          let usecs = time_n {R = R} clock time_repeat k ticks in
          let expected = r.mul baseline point in
          let diff =
            if r.lt usecs.0 expected then r.sub expected usecs.0 else r.sub usecs.0 expected in
          Ensures-if (λ st. Unit {0}) (r.lt tolerance (r.div diff expected)) (ok (false, usecs.1)) _
            tt (proportional-Ensures baseline n points usecs.1)

  acceptable-Ensures :
      (tmin : R) (ticks : ℕ) → Ensures (λ st. Unit {0}) (acceptable clock time_repeat tmin ticks)
  unfolding acceptable
  acceptable-Ensures tmin ticks =
      Ensures-bind (IsFound clock time_repeat tmin) (λ st. Unit {0})
        (find_n clock time_repeat tmin ticks) _ (find_n-IsFound clock time_repeat tmin ticks)
        λ found _.
          let baseline = time_n {R = R} clock time_repeat found.0 found.1 in
          Ensures-if (λ st. Unit {0}) (ltb_ℤ (pos 0) found.0) _ (ok (false, found.1))
            (proportional-Ensures baseline.0 found.0 test_points baseline.1) tt

  -- The time is no shorter than `tmax_try`, or it was accepted.
  abbrev pub IsCalibrated : R × ℕ → Type 0
  IsCalibrated result =
      (r.lt result.0 tmax_try ≡ false)
      ⊎ ((ticks : ℕ) × (acceptable clock time_repeat result.0 ticks ≡ ok (true, result.1)))

  calibrate_from-IsCalibrated :
      (fuel : ℕ) (tmin : R) (ticks : ℕ)
      → r.lt (after_doublings fuel tmin) tmax_try ≡ false
      → Ensures IsCalibrated (calibrate_from clock time_repeat (suc fuel) tmin ticks)
  unfolding calibrate_from after_doublings
  calibrate_from-IsCalibrated zero tmin ticks high = rw high (inl high)
  calibrate_from-IsCalibrated (suc fuel) tmin ticks high = elim (Bool-cases (r.lt tmin tmax_try)) [
    | inr long ↦ rw long (inl long)
    | inl short ↦ rw short (
        Ensures-bind (λ a. acceptable clock time_repeat tmin ticks ≡ ok a) IsCalibrated
          (acceptable clock time_repeat tmin ticks) _
          (Ensures-self (λ st. Unit {0}) (acceptable clock time_repeat tmin ticks)
            (acceptable-Ensures tmin ticks))
          λ a e.
            judged a.0 a.1 _ e
              (calibrate_from-IsCalibrated fuel (r.mul tmin (dec.decimal 20 1)) a.1 high))
  ]
    where
      judged :
          (accepted : Bool) (ticks' : ℕ) (m : Outcome (R × ℕ))
          → acceptable clock time_repeat tmin ticks ≡ ok (accepted, ticks')
          → Ensures IsCalibrated m
          → Ensures IsCalibrated (if accepted then ok (tmin, ticks') else m)
      judged true ticks' m e h = inr (ticks, e)
      judged false ticks' m e h = h

module _ (R : Type 0) ⦃r : Real R⦄ ⦃dec : Decimals R⦄ (clock : ℕ → Timeval) (time_repeat : ℤ) where
  -- `calibrate` ends, with a time that `acceptable` accepts or that is no shorter than `tmax_try`,
  -- unless a number of units does not fit an `int`: twenty doublings of `tmin_try` reach `tmax_try`.
  pub calibrate-IsCalibrated :
      (ticks : ℕ)
      → r.lt (after_doublings {R = R} 20 tmin_try) tmax_try ≡ false
      → Ensures (IsCalibrated {R = R} clock time_repeat) (calibrate clock time_repeat ticks)
  unfolding calibrate
  calibrate-IsCalibrated ticks high =
      calibrate_from-IsCalibrated clock time_repeat 20 tmin_try ticks high
