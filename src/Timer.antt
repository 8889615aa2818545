-- ===== src/Timer.antt =====
-- The timer and its calibration: libbench/timer.c, with `gettimeofday`. The clock is a parameter: the time of
-- each reading. `speed` of speed.c is in Speed.
pub mod Least
pub mod Laws
pub mod Calibrate
pub mod Speed
mod Tests
use bench_fft.Base.{
  ℕ, zero, suc, ◌+◌, ◌-◌, ◌*◌, ◌^◌, Bool, true, false, ◌&&◌, not, loop_below, if◌then◌else◌, List,
  [], ◌∷◌,
}
use bench_fft.Base.Int.{ℤ, ◌-ℤ◌, ◌*ℤ◌, ◌≤ℤ◌, ltb_ℤ, eqb_ℤ, pos_part}
use bench_fft.Base.Int.ℤ.{pos, negsuc}
use bench_fft.Base.Real.{Real}
use bench_fft.Base.Outcome.{Outcome, ok, overflow, out_of_fuel, ◌>>=◌}

-- `struct timeval`
pub record Timeval : Type 0 where
  pub tv_sec : ℤ
  pub tv_usec : ℤ

-- Decimal literals, `decimal m d` for m / 10^d, and the conversion of a double to an integer, which
-- cuts off.
pub record Decimals (R : Type 0) : Type 0 where
  pub decimal : ℕ → ℕ → R
  pub truncate : R → ℤ

-- `while (n-- > 0)`: ten steps each, from pointer to pointer.
unfoldable pub work : (ℕ → ℕ) → ℤ → ℕ → ℕ
work memory n p = loop_below (pos_part n) (λ _ q. loop_below 10 (λ _ x. memory x) q) p

-- The range of an `int`.
abbrev pub in_int : ℤ → Bool
in_int z = not (ltb_ℤ z (negsuc (2 ^ 31 - 1))) && ltb_ℤ z (pos (2 ^ 31))

-- An `int`, unless it overflows.
abbrev pub int_result : ℤ → Outcome ℤ
int_result z = if in_int z then ok z else overflow

module _ {R : Type 0} ⦃r : Real R⦄ ⦃dec : Decimals R⦄ where
  abbrev pub of_int : ℤ → R
  of_int (pos n) = r.of_ℕ n
  of_int (negsuc n) = r.neg (r.of_ℕ (suc n))

  -- `(int) x`, which is undefined out of range.
  abbrev pub to_int : R → Outcome ℤ
  to_int x = int_result (dec.truncate x)

  unfoldable pub elapsed : Timeval → Timeval → R
  elapsed t1 t0 =
      r.add (of_int (t1.tv_sec -ℤ t0.tv_sec))
        (r.mul (of_int (t1.tv_usec -ℤ t0.tv_usec)) (dec.decimal 1 6))

  abbrev pub tmin_try : R
  tmin_try = dec.decimal 1 6

  abbrev pub tmax_try : R
  tmax_try = dec.decimal 1 0

  abbrev pub tolerance : R
  tolerance = dec.decimal 1 3

  abbrev pub test_points : List R
  test_points = dec.decimal 1015 3 ∷ dec.decimal 102 2 ∷ dec.decimal 1035 3 ∷ []

-- A value and the number of readings that have been taken. How long a piece of work takes is up to the
-- clock.
module _ {R : Type 0} ⦃r : Real R⦄ ⦃dec : Decimals R⦄ (clock : ℕ → Timeval) (time_repeat : ℤ) where
  -- The work on `n` units lies between the two readings.
  unfoldable pub duration : ℤ → ℕ → R × ℕ
  duration n ticks = (elapsed (clock (ticks + 1)) (clock ticks), ticks + 2)

  abbrev pub shorter : ℤ → R × ℕ → R × ℕ
  shorter n st = let t = duration n st.1 in (if r.lt t.0 st.0 then t.0 else st.0, t.1)

  unfoldable pub time_n : ℤ → ℕ → R × ℕ
  time_n n ticks = loop_below (pos_part time_repeat - 1) (λ _. shorter n) (duration n ticks)

  -- `0.98 * tmin < t && t < 1.02 * tmin`
  abbrev pub close_to : R → R → Bool
  close_to tmin t =
      r.lt (r.mul (dec.decimal 98 2) tmin) t && r.lt t (r.mul (dec.decimal 102 2) tmin)

  abbrev pub next_n : R → ℤ → R → Outcome ℤ
  next_n tmin n t =
      if r.lt t tmin_try
      then int_result (n *ℤ pos 10)
      else to_int (r.add (r.mul (r.div (of_int n) t) tmin) r.one)

  -- The loop over the tries that are left.
  unfoldable pub find_tries : R → ℕ → ℤ → R × ℕ → Outcome (ℤ × ℕ)
  find_tries tmin zero n t = ok (negsuc 0, t.1)
  find_tries tmin (suc tries) n t =
      let again = λ (k : ℤ). find_tries tmin tries k (time_n k t.1) in
      if close_to tmin t.0 then ok (n, t.1) else (next_n tmin n t.0 >>= again)

  unfoldable pub find_n : R → ℕ → Outcome (ℤ × ℕ)
  find_n tmin ticks = find_tries tmin 10 (pos 10000) (time_n (pos 10000) ticks)

  -- The loop over the test points, which returns 0 at the first that is off.
  unfoldable pub proportional : R → ℤ → List R → ℕ → Outcome (Bool × ℕ)
  proportional baseline n [] ticks = ok (true, ticks)
  proportional baseline n (point ∷ points) ticks =
      let rest = proportional baseline n points in
      to_int (r.mul (of_int n) point) >>= λ k.
      let usecs = time_n k ticks in
      let expected = r.mul baseline point in
      let diff = if r.lt usecs.0 expected then r.sub expected usecs.0 else r.sub usecs.0 expected in
      if r.lt tolerance (r.div diff expected) then ok (false, usecs.1) else rest usecs.1

  unfoldable pub acceptable : R → ℕ → Outcome (Bool × ℕ)
  acceptable tmin ticks = do
    (n, ticks') ← find_n tmin ticks
    let baseline = time_n n ticks'
    if ltb_ℤ (pos 0) n then proportional baseline.0 n test_points baseline.1 else ok (false, ticks')

  -- `for (tmin = tmin_try; tmin < tmax_try && !acceptable(tmin); tmin *= 2.0)`
  unfoldable pub calibrate_from : ℕ → R → ℕ → Outcome (R × ℕ)
  calibrate_from zero tmin ticks = out_of_fuel
  calibrate_from (suc fuel) tmin ticks =
      let again = calibrate_from fuel (r.mul tmin (dec.decimal 20 1)) in
      if r.lt tmin tmax_try
      then (acceptable tmin ticks >>= λ a. if a.0 then ok (tmin, a.1) else again a.1)
      else ok (tmin, ticks)

  -- 2^20 times `tmin_try` is above `tmax_try`.
  unfoldable pub calibrate : ℕ → Outcome (R × ℕ)
  calibrate ticks = calibrate_from 21 tmin_try ticks

-- The variables `time_min`, `time_repeat` and `t0`, and the readings taken.
pub record Timer (R : Type 0) : Type 0 where
  pub time_min : R
  pub time_repeat : ℤ
  pub t0 : Timeval
  pub ticks : ℕ

module _ {R : Type 0} ⦃r : Real R⦄ ⦃dec : Decimals R⦄ (clock : ℕ → Timeval) where
  unfoldable pub timer_init : R → ℤ → Timer R → Outcome (Timer R)
  timer_init tmin repeat s = do
    let times = if eqb_ℤ repeat (pos 0) then pos 8 else repeat
    if r.lt r.zero tmin
        then ok (record s { time_min = tmin; time_repeat = times })
        else (calibrate clock times s.ticks >>= λ c.
            ok (record s { time_min = c.0; time_repeat = times; ticks = c.1 }))

  unfoldable pub timer_start : Timer R → Timer R
  timer_start s = record s { t0 = clock s.ticks; ticks = s.ticks + 1 }

  unfoldable pub timer_stop : Timer R → R × Timer R
  timer_stop s = (elapsed (clock s.ticks) s.t0, record s { ticks = s.ticks + 1 })
