-- ===== src/Timer/Tests.antt =====
-- A clock and a machine over the integers, in microseconds.
use bench_fft.Base.{ℕ, zero, suc, ◌*◌, ◌/◌, ◌^◌, ◌≤◌, ◌≡◌, inr, refl, arith, false}
use bench_fft.Base.Int.{ℤ, ltb_ℤ, ◌*ℤ◌}
use bench_fft.Base.Int.ℤ.{pos, negsuc}
use bench_fft.Base.Exact.{integers}
use bench_fft.Base.Outcome.{Returns, Ensures}
use bench_fft.Report.Laws.{IsStrict}
use bench_fft.Timer.{Timeval, Decimals, time_n, find_n, calibrate}
use bench_fft.Timer.Laws.{IsMinimum, time_n-IsMinimum, IsFound, find_n-IsFound}
use bench_fft.Timer.Calibrate.{after_doublings, IsCalibrated, calibrate-IsCalibrated}
use bench_fft.Timer.Speed.{Measure, measuring}
use bench_fft.Timer.Speed.Finish.{IsSteady, IsMeasured, measuring-Returns}

-- Literals in millionths.
instance unfoldable micro : Decimals ℤ
micro = record { decimal = λ m d. pos (m * 10 ^ 6 / 10 ^ d); truncate = λ x. x }

integers-IsStrict : IsStrict integers
unfolding integers
integers-IsStrict = record {
  irreflexive = λ x. ground arith;
  transitive = λ x y z h k. ground arith;
}

-- The reading `k` is at `k * k` microseconds, so that each work takes longer than the one before.
abbrev clock : ℕ → Timeval
clock k = record { tv_sec = pos 0; tv_usec = pos (k * k) }

time_n-IsMinimum_example :
    IsMinimum ⦃r = integers⦄ ⦃dec = micro⦄ clock
      (pos 8)
      (pos 5)
      3
      8
      (time_n ⦃r = integers⦄ ⦃dec = micro⦄ clock (pos 8) (pos 5) 3)
time_n-IsMinimum_example = time_n-IsMinimum ⦃dec = micro⦄ clock (pos 8) integers-IsStrict (pos 5) 3

find_n-IsFound_example :
    Ensures
      (IsFound ⦃r = integers⦄ ⦃dec = micro⦄ clock (pos 2) (pos 3))
      (find_n ⦃r = integers⦄ ⦃dec = micro⦄ clock (pos 2) (pos 3) 0)
find_n-IsFound_example = find_n-IsFound ⦃r = integers⦄ ⦃dec = micro⦄ clock (pos 2) (pos 3) 0

calibrate-IsCalibrated_example :
    Ensures
      (IsCalibrated ⦃r = integers⦄ ⦃dec = micro⦄ clock (pos 2))
      (calibrate ⦃r = integers⦄ ⦃dec = micro⦄ clock (pos 2) 0)
unfolding integers micro after_doublings ◌*ℤ◌
calibrate-IsCalibrated_example =
    calibrate-IsCalibrated ℤ ⦃r = integers⦄ ⦃dec = micro⦄ clock (pos 2) 0 refl

-- The first measurement goes backwards, and later ones take as many units as there are transforms.
abbrev jumpy : Measure ℤ ℕ
jumpy iter zero = (negsuc 0, 1)
jumpy iter (suc k) = (pos iter, suc (suc k))

abbrev Running : ℕ → Type 0
Running w = 1 ≤ w

jumpy-IsSteady : IsSteady ⦃r = integers⦄ jumpy Running (pos 1000)
unfolding integers
jumpy-IsSteady = record { stays = stays; forward = forward; enough = enough }
  where
    stays : (iter w : ℕ) → 1 ≤ w → 1 ≤ (jumpy iter w).1
    stays iter zero h = absurd (omega arith)
    stays iter (suc k) h = omega arith

    forward : (iter w : ℕ) → 1 ≤ w → ltb_ℤ (jumpy iter w).0 (pos 0) ≡ false
    forward iter zero h = absurd (omega arith)
    forward iter (suc k) h = ground arith

    enough : (w : ℕ) → 1 ≤ w → ltb_ℤ (jumpy (2 ^ 29) w).0 (pos 1000) ≡ false
    enough zero h = absurd (omega arith)
    enough (suc k) h = refl

measuring-Returns_example :
    Returns
      (IsMeasured ⦃r = integers⦄ (pos 1000) 3)
      (measuring ⦃r = integers⦄ jumpy 3 (pos 1000) (pos 100000) 31 (2 ^ 0) 0)
unfolding integers
measuring-Returns_example =
    measuring-Returns ⦃r = integers⦄ jumpy 3 (pos 1000) (pos 100000) integers-IsStrict Running
      jumpy-IsSteady refl refl 1 31 0 0 (omega arith) (omega arith) (omega arith)
      (inr (λ iter. omega arith))
