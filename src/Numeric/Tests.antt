-- ===== src/Numeric/Tests.antt =====
-- Inputs on which the laws of this folder are tried.
use bench_fft.Base.{ℕ, ◌<◌, ◌≤◌, ◌^◌, suc, ◌≡◌, arith, some}
use bench_fft.Numeric.Pow2.{log_2}
use bench_fft.Numeric.Pow2.Laws.{log_2-floor}
use bench_fft.Numeric.Prime.{check_prime_factors}
use bench_fft.Numeric.Prime.Laws.{IsFactored, check_prime_factors-IsFactored}

log_2-floor_example : (k : ℕ) × (log_2 1000 ≡ some k) × (2 ^ k ≤ 1000) × (1000 < 2 ^ suc k)
log_2-floor_example = log_2-floor 1000 (omega arith) (omega arith)

check_prime_factors-IsFactored_example : IsFactored 360 5 (check_prime_factors 360 5)
check_prime_factors-IsFactored_example =
    check_prime_factors-IsFactored 5 (omega arith) 360 (omega arith) (omega arith)
