-- ===== src/Mp/Bluestein/Tests.antt =====
-- Inputs on which the helpers of Bluestein's algorithm are tried.
use bench_fft.Base.{ℕ, suc, ◌*◌, ◌%◌, ◌≤◌, ◌≡◌, some, arith}
use bench_fft.Mp.Bluestein.{ksq_after}
use bench_fft.Mp.Bluestein.Laws.{ksq_after-square}

ksq_after-square_example :
    (e : ℕ) × (ksq_after 7 (suc 5) ≡ some e) × (e ≤ 2 * 7) × (e % (2 * 7) ≡ (5 * 5) % (2 * 7))
ksq_after-square_example = ksq_after-square 7 5 (omega arith)
