-- ===== src/Problem/Print.antt =====
-- Canonical problem descriptions, and what libbench/problem.c reads from them.
pub mod Decimal
pub mod SizeList
pub mod Flags
pub mod Laws
use mathlib.Core.List.{append_assoc, append-nil}
use native.Mathlib.Nat.{pow-suc}
use bench_fft.Base.{
  ℕ, zero, suc, ◌+◌, ◌-◌, ◌*◌, ◌/◌, ◌%◌, ◌^◌, ◌≤◌, ◌<◌, Bool, true, false, ltb, leb, List, [], ◌∷◌,
  ◌++◌, length, All, product, if◌then◌else◌, Option, none, some, ◌≡◌, refl, ap, sym, ◌∙◌, arith,
  Bool-cases, length-append, lt→ltb, inl, inr,
}
use bench_fft.Base.Int.{ℤ}
use bench_fft.Base.Int.ℤ.{pos, negsuc}
use bench_fft.Base.Outcome.{Outcome, ok, ◌>>=◌, ◌>>◌, bench_assert}
use bench_fft.Problem.Parse.{product-snoc, mod-mul-mod}
use bench_fft.Problem.{
  Kind, Flag, Sizes, Problem, max_rank, is_digit, int_max, flag, set_flag, parse_flags, read_digits,
  starts_with_digit, is_times, after_times, push, parse_sizes, no_sizes, fresh_problem,
  after_vector, parse_vector, problem_parse,
}

-- A number in decimal, with fuel for the digits.
pub show : ℕ → ℕ → List ℕ
show zero n = []
show (suc fuel) n =
    let front = show fuel (n / 10) in
    if ltb n 10 then (n + b'0') ∷ [] else front ++ (n % 10 + b'0') ∷ []

-- An `int` has at most ten digits.
unfoldable pub decimal : ℕ → List ℕ
decimal n = show 10 n

unfoldable pub print_sizes : List ℕ → List ℕ
print_sizes [] = []
print_sizes (k ∷ []) = decimal k
print_sizes (k ∷ j ∷ ks) = decimal k ++ b'x' ∷ print_sizes (j ∷ ks)

-- What a description says.
pub record Description : Type 0 where
  pub kind : Kind
  pub in_place : Bool
  pub split : Bool
  pub forward : Bool
  pub dims : List ℕ
  pub vector : List ℕ

pub print_vector : List ℕ → List ℕ
print_vector [] = []
print_vector (k ∷ ks) = b'v' ∷ print_sizes (k ∷ ks)

pub print_kind : Kind → ℕ
print_kind Kind.problem_complex = b'c'
print_kind Kind.problem_real = b'r'

abbrev pub body : Description → List ℕ
body d = print_sizes d.dims ++ print_vector d.vector

unfoldable pub print : Description → List ℕ
unfolding print_sizes print_vector print_kind decimal
print d =
    (if d.in_place then b'i' else b'o')
    ∷ (if d.forward then b'f' else b'b')
    ∷ print_kind d.kind
    ∷ (if d.split then b'/' ∷ body d else body d)

abbrev pub IsEntry : ℕ → Type 0
IsEntry k = (0 < k) × (k ≤ int_max)

abbrev pub sizes_of : List ℕ → Sizes
sizes_of ns = record { rank = length ns; n = ns; size = product ns % 2 ^ 32 }

pub record IsPrintable (d : Description) : Type 0 where
  pub dims : All IsEntry d.dims
  pub ranked : (0 < length d.dims) × (length d.dims < max_rank)
  pub vector : All IsEntry d.vector
  pub vranked : length d.vector < max_rank

unfoldable pub described : Description → Problem
described d = record {
  kind = d.kind;
  dims = sizes_of d.dims;
  vector = sizes_of d.vector;
  phys_size = 0;
  sign = if d.forward then negsuc 0 else pos 1;
  in_place = d.in_place;
  split = d.split;
  input = 0;
  output = 0;
  pstring = print d;
  userinfo = 0;
}
