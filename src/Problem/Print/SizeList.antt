-- ===== src/Problem/Print/SizeList.antt =====
-- Reading a list of sizes back.
use mathlib.Core.List.{append_assoc, append-nil}
use bench_fft.Base.{
  ℕ, zero, suc, ◌+◌, ◌*◌, ◌%◌, ◌^◌, ◌≤◌, ◌<◌, true, false, List, [], ◌∷◌, ◌++◌, length, All,
  product, none, some, ◌≡◌, refl, ap, sym, ◌∙◌, arith, length-append, lt→ltb,
}
use bench_fft.Base.Outcome.{ok}
use bench_fft.Problem.Parse.{product-snoc, mod-mul-mod}
use bench_fft.Problem.{Sizes, max_rank, starts_with_digit, after_times, push, parse_sizes, no_sizes}
use bench_fft.Problem.Print.{decimal, print_sizes, IsEntry, sizes_of}
use bench_fft.Problem.Print.Decimal.{read-decimal, decimal-starts}

-- A text that goes on with neither a digit nor a separator.
abbrev pub Ends : List ℕ → Type 0
Ends rest = (starts_with_digit rest ≡ false) × (after_times rest ≡ none)

push_all : List ℕ → Sizes → Sizes
push_all [] d = d
push_all (k ∷ ks) d = push_all ks (push k d)

module _ (fuel k : ℕ) (rest : List ℕ) (d : Sizes) (entry : IsEntry k) (room : d.rank + 1 < max_rank)
    (stops : starts_with_digit rest ≡ false) where
  one_round : parse_sizes (suc fuel) (decimal k ++ rest) d ≡ elim (after_times rest) [
    | none ↦ ok (push k d, rest)
    | some s ↦ parse_sizes fuel s (push k d)
  ]
  unfolding parse_sizes
  one_round =
      let digit = decimal-starts k rest entry.1 in
      let read = read-decimal k rest entry.1 stops in
      rw (digit, read, lt→ltb 0 k entry.0, lt→ltb (d.rank + 1) max_rank room)

parse-print_sizes :
    (fuel k : ℕ) (ks rest : List ℕ) (d : Sizes)
    → length ks < fuel
    → All IsEntry (k ∷ ks)
    → d.rank + suc (length ks) < max_rank
    → Ends rest
    → parse_sizes fuel (print_sizes (k ∷ ks) ++ rest) d ≡ ok (push_all (k ∷ ks) d, rest)
unfolding print_sizes push_all
parse-print_sizes zero k ks rest d lt entries room ends = absurd (omega arith)
parse-print_sizes (suc fuel) k [] rest d lt entries room ends =
    one_round fuel k rest d entries.0 (omega arith) ends.0 ∙ rw ends.1
parse-print_sizes (suc fuel) k (j ∷ ks) rest d lt entries room ends = rw append_assoc (
    one_round fuel k (b'x' ∷ (print_sizes (j ∷ ks) ++ rest)) d entries.0 (omega arith) refl
    ∙ parse-print_sizes fuel j ks rest (push k d) (omega arith) entries.1 (omega arith) ends)

push-sizes_of : (ns : List ℕ) (k : ℕ) → push k (sizes_of ns) ≡ sizes_of (ns ++ k ∷ [])
push-sizes_of ns k = λ i. record { rank = counted i; n = ns ++ k ∷ []; size = sized i }
  where
    counted : length ns + 1 ≡ length (ns ++ k ∷ [])
    counted = omega (arith, length-append ns (k ∷ []))

    sized : (product ns % 2 ^ 32 * k) % 2 ^ 32 ≡ product (ns ++ k ∷ []) % 2 ^ 32
    sized = mod-mul-mod (product ns) k ∙ ap (λ (x : ℕ). x % 2 ^ 32) (sym (product-snoc k ns))

push_all-sizes_of : (ks ns : List ℕ) → push_all ks (sizes_of ns) ≡ sizes_of (ns ++ ks)
unfolding push_all
push_all-sizes_of [] ns = rw append-nil
push_all-sizes_of (k ∷ ks) ns =
    rw (push-sizes_of ns k) (push_all-sizes_of ks (ns ++ k ∷ []) ∙ rw append_assoc)

pub starts-print_sizes :
    (ns rest : List ℕ)
    → 0 < length ns
    → All IsEntry ns
    → starts_with_digit (print_sizes ns ++ rest) ≡ true
unfolding print_sizes
starts-print_sizes [] rest h entries = absurd (omega arith)
starts-print_sizes (k ∷ []) rest h entries = decimal-starts k rest entries.0.1
starts-print_sizes (k ∷ j ∷ ks) rest h entries = rw append_assoc (decimal-starts k _ entries.0.1)

nonempty : (s : List ℕ) → starts_with_digit s ≡ true → 0 < length s
nonempty [] h = cc
nonempty (c ∷ s) h = omega arith

length-le-print_sizes : (ns : List ℕ) → All IsEntry ns → length ns ≤ length (print_sizes ns)
unfolding print_sizes
length-le-print_sizes [] entries = omega arith
length-le-print_sizes (k ∷ []) entries = omega (
  arith,
  nonempty (decimal k ++ []) (decimal-starts k [] entries.0.1),
  length-append (decimal k) [],
)
length-le-print_sizes (k ∷ j ∷ ks) entries = omega (
  arith,
  length-append (decimal k) (b'x' ∷ print_sizes (j ∷ ks)),
  length-le-print_sizes (j ∷ ks) entries.1,
)

-- A whole list of sizes, with the fuel that `problem_parse` gives.
pub parse-full_sizes :
    (ns rest : List ℕ)
    → 0 < length ns
    → length ns < max_rank
    → All IsEntry ns
    → Ends rest
    → parse_sizes (suc (length (print_sizes ns ++ rest))) (print_sizes ns ++ rest) no_sizes
      ≡ ok (sizes_of ns, rest)
parse-full_sizes [] rest h room entries ends = absurd (omega arith)
parse-full_sizes (k ∷ ks) rest h room entries ends =
    parse-print_sizes (suc (length (print_sizes (k ∷ ks) ++ rest))) k ks rest no_sizes
      (omega
        (arith, length-append (print_sizes (k ∷ ks)) rest, length-le-print_sizes (k ∷ ks) entries))
      entries (omega arith) ends
    ∙ ap (λ d. ok (d, rest)) (push_all-sizes_of (k ∷ ks) [])
