-- ===== src/Problem.antt =====
-- `struct problem` (libbench/bench-user.h) and the parser of problem descriptions
-- (libbench/problem.c).
pub mod Parse
pub mod Print
pub mod Storage
pub mod Predicates
mod Tests
use bench_fft.Base.{
  ℕ, zero, suc, ◌+◌, ◌-◌, ◌*◌, ◌%◌, ◌^◌, Bool, true, false, ◌&&◌, ◌||◌, not, ltb, leb, ◌==◌, List,
  [], ◌∷◌, ◌++◌, length, if◌then◌else◌, Option, none, some, ◌≡◌, refl,
}
use bench_fft.Base.Int.{ℤ}
use bench_fft.Base.Int.ℤ.{pos, negsuc}
use bench_fft.Base.Outcome.{Outcome, ok, overflow, out_of_fuel, ◌>>=◌, ◌>>◌, bench_assert}

pub data Kind : Type 0 where
  problem_complex problem_real : Kind

abbrev pub max_rank : ℕ
max_rank = 20

-- `rank`, `n` and `size`, or `vrank`, `vn` and `vsize`. The list holds the entries of the C array
-- that have been written.
pub record Sizes : Type 0 where
  pub rank : ℕ
  pub n : List ℕ
  pub size : ℕ

-- The pointers `in`, `out` and `userinfo` are addresses, 0 for null. `setup_time` belongs to the
-- speed measurement.
pub record Problem : Type 0 where
  pub kind : Kind
  pub dims : Sizes
  pub vector : Sizes
  pub phys_size : ℕ
  pub sign : ℤ
  pub in_place : Bool
  pub split : Bool
  pub input : ℕ
  pub output : ℕ
  pub pstring : List ℕ
  pub userinfo : ℕ

abbrev pub is_digit : ℕ → Bool
is_digit c = leb b'0' c && leb c b'9'

abbrev pub to_lower : ℕ → ℕ
to_lower c = if leb b'A' c && leb c b'Z' then c + 32 else c

-- The cases of the switch at `L1`.
pub data Flag : Type 0 where
  case_i case_o case_slash case_f case_b case_r case_c : Flag

-- `none` is the default case, which goes on to `L2`.
unfoldable pub flag : ℕ → Option Flag
flag c =
    let l = to_lower c in
    if l == b'i'
    then some Flag.case_i
    else if l == b'o'
    then some Flag.case_o
    else if l == b'/'
    then some Flag.case_slash
    else if l == b'f' || l == b'-'
    then some Flag.case_f
    else if l == b'b' || l == b'+'
    then some Flag.case_b
    else if l == b'r'
    then some Flag.case_r
    else if l == b'c'
    then some Flag.case_c
    else none

unfoldable pub set_flag : Flag → Problem → Problem
set_flag Flag.case_i p = record p { in_place = true }
set_flag Flag.case_o p = record p { in_place = false }
set_flag Flag.case_slash p = record p { split = true }
set_flag Flag.case_f p = record p { sign = negsuc 0 }
set_flag Flag.case_b p = record p { sign = pos 1 }
set_flag Flag.case_r p = record p { kind = Kind.problem_real }
set_flag Flag.case_c p = record p { kind = Kind.problem_complex }

-- The end of the list is the terminating NUL, which is no flag.
unfoldable pub parse_flags : List ℕ → Problem → Problem × List ℕ
parse_flags [] p = (p, [])
parse_flags (c ∷ s) p = elim (flag c) [ none ↦ (p, c ∷ s) | some f ↦ parse_flags s (set_flag f p) ]

abbrev pub int_max : ℕ
int_max = 2 ^ 31 - 1

-- `while (isdigit(*s)) { n = n * 10 + (*s - '0'); ++s; }`, in `int`.
unfoldable pub read_digits : List ℕ → ℕ → Outcome (ℕ × List ℕ)
read_digits [] n = ok (n, [])
read_digits (c ∷ s) n =
    let m = n * 10 + (c - b'0') in
    let rest = read_digits s m in
    if is_digit c then (if leb m int_max then rest else overflow) else ok (n, c ∷ s)

abbrev pub starts_with_digit : List ℕ → Bool
starts_with_digit [] = false
starts_with_digit (c ∷ s) = is_digit c

abbrev pub is_times : ℕ → Bool
is_times c = c == b'x' || c == b'X' || c == b'*' || c == b','

-- `p->n[p->rank] = n; p->size *= n; ++p->rank;`, with `size` an `unsigned int`.
abbrev pub push : ℕ → Sizes → Sizes
push k d = record { rank = d.rank + 1; n = d.n ++ k ∷ []; size = (d.size * k) % 2 ^ 32 }

-- After the separator, the loop goes on.
abbrev pub after_times : List ℕ → Option (List ℕ)
after_times [] = none
after_times (c ∷ s) = if is_times c then some s else none

-- The loop at `L2`, and the one at `L4` with the same text.
unfoldable pub parse_sizes : ℕ → List ℕ → Sizes → Outcome (Sizes × List ℕ)
parse_sizes zero s d = out_of_fuel
parse_sizes (suc fuel) s d = do
  bench_assert (starts_with_digit s)
  (k, s') ← read_digits s 0
  bench_assert (ltb 0 k)
  bench_assert (ltb (d.rank + 1) max_rank)
  elim (after_times s') [ none ↦ ok (push k d, s') | some s'' ↦ parse_sizes fuel s'' (push k d) ]

abbrev pub no_sizes : Sizes
no_sizes = record { rank = 0; n = []; size = 1 }

-- The fields as `problem_parse` sets them first. `phys_size` is left to `problem_alloc`.
abbrev pub fresh_problem : List ℕ → Problem
fresh_problem s = record {
  kind = Kind.problem_complex;
  dims = no_sizes;
  vector = no_sizes;
  phys_size = 0;
  sign = negsuc 0;
  in_place = false;
  split = false;
  input = 0;
  output = 0;
  pstring = s;
  userinfo = 0;
}

-- `*s == '-' || *s == '+' || *s == 'v' || *s == 'V'`
abbrev pub after_vector : List ℕ → Option (List ℕ)
after_vector [] = none
after_vector (c ∷ s) = if c == b'-' || c == b'+' || c == b'v' || c == b'V' then some s else none

unfoldable pub parse_vector : List ℕ → Problem → Outcome Problem
parse_vector s p = elim (after_vector s) [
  | none ↦ ok p
  | some s' ↦ do (v, rest) ← parse_sizes (suc (length s')) s' p.vector; ok (record p { vector = v })
]

-- What follows the size and the vector size in the text is not looked at.
unfoldable pub problem_parse : List ℕ → Outcome Problem
problem_parse s = do
  let (p, s') = parse_flags s (fresh_problem s)
  (d, rest) ← parse_sizes (suc (length s')) s' p.dims
  parse_vector rest (record p { dims = d })
