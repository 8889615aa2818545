-- ===== src/Report/Tests.antt =====
-- Three measurements, out of order.
use bench_fft.Base.{◌≡◌, ◌/◌, refl, arith, Buffer, ◌==◌, if◌then◌else◌, loop_below}
use bench_fft.Base.Int.{ℤ}
use bench_fft.Base.Int.ℤ.{pos}
use bench_fft.Base.Exact.{integers}
use bench_fft.Report.{mkstat, bubble, exchange}
use bench_fft.Report.Laws.{IsStrict, IsRange, mkstat-unsorted, mkstat-IsRange}

abbrev times : Buffer ℤ
times i = if i == 0 then pos 3 else if i == 1 then pos 1 else pos 2

integers-IsStrict : IsStrict integers
unfolding integers
integers-IsStrict = record {
  irreflexive = λ x. ground arith;
  transitive = λ x y z h k. ground arith;
}

-- The median of 3, 1 and 2 is 2, but `mkstat` reports 1.
reported : (mkstat times 3).1.median ≡ pos 1
unfolding mkstat bubble exchange loop_below integers
reported = refl

mkstat-unsorted_example : ((mkstat times 3).0 ≡ times) × ((mkstat times 3).1.median ≡ times (3 / 2))
mkstat-unsorted_example = mkstat-unsorted times 3

mkstat-IsRange_example : IsRange times 3 (mkstat times 3).1
mkstat-IsRange_example = mkstat-IsRange times 3 integers-IsStrict (omega arith)
