-- ===== src/Problem/Tests.antt =====
-- A description on which the laws of this folder are tried: `ofr4x6v3`.
use bench_fft.Base.{◌↔◌, All, [], ◌∷◌, true, false, ◌≡◌, refl, arith}
use bench_fft.Base.Outcome.{ok, assertion_failed, Ensures}
use bench_fft.Problem.{Kind, problem_parse, parse_flags, flag, parse_sizes, read_digits}
use bench_fft.Problem.Parse.{IsParsed, problem_parse-IsParsed}
use bench_fft.Problem.Print.{Description, print, IsPrintable, described}
use bench_fft.Problem.Predicates.{IsPower, problem_power_of_two, problem_power_of_two_iff}
use bench_fft.Problem.Print.Laws.{parse-print}

abbrev batch : Description
batch = record {
  kind = Kind.problem_real;
  in_place = false;
  split = false;
  forward = true;
  dims = 4 ∷ 6 ∷ [];
  vector = 3 ∷ [];
}

batch-IsPrintable : IsPrintable batch
batch-IsPrintable = record {
  dims = omega arith;
  ranked = omega arith;
  vector = omega arith;
  vranked = omega arith;
}

zero_size : problem_parse (b'0' ∷ []) ≡ assertion_failed
unfolding problem_parse parse_flags flag parse_sizes read_digits
zero_size = refl

parse-print_example : problem_parse (print batch) ≡ ok (described batch)
parse-print_example = parse-print batch batch-IsPrintable

problem_parse-IsParsed_example :
    Ensures
      (IsParsed (b'i' ∷ b'8' ∷ b'v' ∷ b'2' ∷ []))
      (problem_parse (b'i' ∷ b'8' ∷ b'v' ∷ b'2' ∷ []))
problem_parse-IsParsed_example = problem_parse-IsParsed (b'i' ∷ b'8' ∷ b'v' ∷ b'2' ∷ [])

problem_power_of_two_iff_example :
    (problem_power_of_two (described batch) false ≡ true)
    ↔ (All IsPower (4 ∷ 6 ∷ []) × ((described batch).in_place ≡ false))
unfolding described
problem_power_of_two_iff_example = problem_power_of_two_iff (described batch) false
