-- ===== src/Mp/Fft/Tests.antt =====
-- Inputs on which the transforms of libbench/mp.c are tried.
use bench_fft.Base.{
  ℕ, suc, ◌^◌, ◌≡◌, refl, ◌==◌, ◌&&◌, ltb, ◌%◌, ◌/◌, some, inl, arith, Buffer, if◌then◌else◌,
}
use bench_fft.Base.Int.ℤ.{pos, negsuc}
use bench_fft.Mp.{Number, fromshort, zero_number}
use bench_fft.Mp.Fft.{Kept, next_reversed, bluestein, fft1, bitrev}
use bench_fft.Mp.Fft.Laws.{AfterCall, bluestein-IsCurrent}
use bench_fft.Base.Options.{IsSome}
use bench_fft.Mp.Fft.Permutation.{IsReversed, bitrev-IsReversed}
use bench_fft.Mp.Fft.Total.{DoesReturn, fft1-DoesReturn}

-- The roots for 2 and for 4; no others are used below.
abbrev few_roots : ℕ → ℕ → Number × Number
few_roots n k =
    if n == 4 && k == 0
    then (fromshort (pos 0), fromshort (pos 1))
    else (fromshort (negsuc 0), fromshort (pos 0))

abbrev one_each : ℕ → Number
one_each n = fromshort (pos 1)

abbrev cleared : Buffer Number
cleared j = zero_number

-- 1, 2, 3 and 4.
abbrev four : Buffer Number
four j = if ltb j 8 && j % 2 == 0 then fromshort (pos (suc (j / 2))) else zero_number

abbrev empty_cache : Kept
empty_cache = record { n = negsuc 0; w = cleared; y = cleared }

-- 101 read backwards is 101, and the number after it is 110, which is 011 backwards.
count_five : next_reversed 3 8 5 ≡ some 3
unfolding next_reversed
count_five = refl

fft1-DoesReturn_example : DoesReturn (fft1 few_roots one_each cleared 6 empty_cache four (pos 1))
fft1-DoesReturn_example =
    fft1-DoesReturn few_roots one_each cleared 6 empty_cache four (pos 1) (omega arith)

bitrev-IsReversed_example : IsSome (IsReversed 2 four) (bitrev (2 ^ 2) four)
bitrev-IsReversed_example = bitrev-IsReversed 2 four (omega arith)

bluestein-IsCurrent_example :
    (bluestein few_roots one_each cleared 3 empty_cache four
      ≡ bluestein few_roots one_each cleared 3 empty_cache four)
    × AfterCall few_roots one_each cleared (bluestein few_roots one_each cleared 3 empty_cache four)
bluestein-IsCurrent_example =
    bluestein-IsCurrent few_roots one_each cleared 3 four empty_cache empty_cache (inl refl)
      (inl refl)
