-- ===== src/Problem/Parse.antt =====
-- What the parser of libbench/problem.c accepts, and that it always ends.
use native.Mathlib.Nat.{mul_assoc, add-mul, add-mul-mod_self_left}
use bench_fft.Base.{
  ℕ, zero, suc, ◌+◌, ◌-◌, ◌*◌, ◌/◌, ◌%◌, ◌^◌, ◌≤◌, ◌<◌, ltb, leb, List, [], ◌∷◌, ◌++◌, length, All,
  product, none, some, ◌≡◌, ◌⊎◌, inl, inr, refl, ap, sym, ◌∙◌, arith, Bool-cases, Option-cases,
  ltb→lt, length-append,
}
use bench_fft.Base.Int.{ℤ}
use bench_fft.Base.Int.ℤ.{pos, negsuc}
use bench_fft.Base.Outcome.{ok, bench_assert, Ensures, Ensures-map, Ensures-bind, Ensures-assert}
use bench_fft.Problem.{
  Flag, Sizes, Problem, max_rank, is_digit, int_max, flag, set_flag, parse_flags, read_digits,
  starts_with_digit, after_times, push, parse_sizes, no_sizes, fresh_problem, after_vector,
  parse_vector, problem_parse,
}

-- The three fields agree: the rank counts the entries, each is a positive `int`, and the size is
-- their product in 32 bits.
pub record IsSizes (d : Sizes) : Type 0 where
  pub counted : d.rank ≡ length d.n
  pub positive : All (λ k. 0 < k) d.n
  pub sized : d.size ≡ product d.n % 2 ^ 32

All-snoc : (k : ℕ) (ns : List ℕ) → All (λ m. 0 < m) ns → 0 < k → All (λ m. 0 < m) (ns ++ k ∷ [])
All-snoc k [] h lt = (lt, tt)
All-snoc k (n ∷ ns) h lt = (h.0, All-snoc k ns h.1 lt)

pub product-snoc : (k : ℕ) (ns : List ℕ) → product (ns ++ k ∷ []) ≡ product ns * k
product-snoc k [] = omega arith
product-snoc k (n ∷ ns) = rw (product-snoc k ns) (sym (mul_assoc n (product ns) k))

pub mod-mul-mod : (a k : ℕ) → (a % 2 ^ 32 * k) % 2 ^ 32 ≡ (a * k) % 2 ^ 32
mod-mul-mod a k =
    let split : a * k ≡ a % 2 ^ 32 * k + 2 ^ 32 * (a / 2 ^ 32 * k) =
      ap (λ (x : ℕ). x * k) (omega arith)
      ∙ add-mul (a % 2 ^ 32) (2 ^ 32 * (a / 2 ^ 32)) k
      ∙ ap (◌+◌ (a % 2 ^ 32 * k)) (mul_assoc (2 ^ 32) (a / 2 ^ 32) k) in
    sym (
      ap (λ (x : ℕ). x % 2 ^ 32) split
      ∙ add-mul-mod_self_left (a % 2 ^ 32 * k) (2 ^ 32) (a / 2 ^ 32 * k))

push-IsSizes : (k : ℕ) (d : Sizes) → 0 < k → IsSizes d → IsSizes (push k d)
push-IsSizes k d lt h = record {
  counted = omega (arith, h.counted, length-append d.n (k ∷ []));
  positive = All-snoc k d.n h.positive lt;
  sized = rw (h.sized, product-snoc k d.n) (mod-mul-mod (product d.n) k);
}

no_sizes-IsSizes : IsSizes no_sizes
no_sizes-IsSizes = record { counted = refl; positive = tt; sized = refl }

-- The rest of the text is no longer than the text.
read_digits-Ensures : (s : List ℕ) (n : ℕ) → Ensures (λ r. length r.1 ≤ length s) (read_digits s n)
unfolding read_digits
read_digits-Ensures [] n = omega arith
read_digits-Ensures (c ∷ s) n = elim (Bool-cases (is_digit c)) [
  | inl digit ↦ elim (Bool-cases (leb (n * 10 + (c - b'0')) int_max)) [
    | inl fits ↦
        rw (digit, fits)
          (Ensures-map _ (λ r. length r.1 ≤ suc (length s)) (read_digits s (n * 10 + (c - b'0')))
            (λ r h. omega arith) (read_digits-Ensures s (n * 10 + (c - b'0'))))
    | inr large ↦ rw (digit, large) tt
  ]
  | inr other ↦ rw other (omega arith)
]

after_times-shorter : (s r : List ℕ) → after_times s ≡ some r → length r < length s
after_times-shorter [] r h = cc
after_times-shorter (c ∷ s) r h = ground arith

abbrev Grown : ℕ → Sizes × List ℕ → Type 0
Grown r (d, s) = IsSizes d × (r < d.rank) × (d.rank < max_rank)

module _ (fuel : ℕ) (s : List ℕ) (d : Sizes) (lt : length s < suc fuel) (h : IsSizes d)
    (again : (s' : List ℕ) (e : Sizes)
      → length s' < fuel
      → IsSizes e
      → Ensures (Grown e.rank) (parse_sizes fuel s' e)) where
  abbrev Good : Sizes × List ℕ → Type 0
  Good = Grown d.rank

  go_on :
      (r : ℕ × List ℕ)
      → length r.1 ≤ length s
      → 0 < r.0
      → d.rank + 1 < max_rank
      → Ensures Good (elim (after_times r.1) [
        | none ↦ ok (push r.0 d, r.1)
        | some s'' ↦ parse_sizes fuel s'' (push r.0 d)
      ])
  go_on r short positive room = elim (Option-cases (after_times r.1)) [
    | inl e ↦ rw e (push-IsSizes r.0 d positive h, omega arith, omega arith)
    | inr (s'', e) ↦ rw e (
        Ensures-map (Grown (d.rank + 1)) Good (parse_sizes fuel s'' (push r.0 d))
          (λ x g. (g.0, omega (arith, g.1), g.2))
          (again s'' (push r.0 d) (omega (arith, after_times-shorter r.1 s'' e))
            (push-IsSizes r.0 d positive h)))
  ]

  one_size : Ensures Good (parse_sizes (suc fuel) s d)
  unfolding parse_sizes
  one_size =
      Ensures-bind (λ _. Unit {0}) Good (bench_assert (starts_with_digit s)) _
        (Ensures-assert (λ _. Unit {0}) _ λ _. tt)
        λ _ _.
          Ensures-bind (λ r. length r.1 ≤ length s) Good (read_digits s 0) _
            (read_digits-Ensures s 0)
            λ r short.
              Ensures-bind (λ _. 0 < r.0) Good (bench_assert (ltb 0 r.0)) _
                (Ensures-assert (λ _. 0 < r.0) _ (ltb→lt 0 r.0))
                λ _ positive.
                  Ensures-bind (λ _. d.rank + 1 < max_rank) Good
                    (bench_assert (ltb (d.rank + 1) max_rank)) _
                    (Ensures-assert (λ _. d.rank + 1 < max_rank) _ (ltb→lt (d.rank + 1) max_rank))
                    λ _ room. go_on r short positive room

-- With fuel above the length of the text the loop ends.
parse_sizes-Ensures :
    (fuel : ℕ) (s : List ℕ) (d : Sizes)
    → length s < fuel
    → IsSizes d
    → Ensures (Grown d.rank) (parse_sizes fuel s d)
parse_sizes-Ensures zero s d lt h = absurd (omega arith)
parse_sizes-Ensures (suc fuel) s d lt h = one_size fuel s d lt h (parse_sizes-Ensures fuel)

abbrev IsSign : ℤ → Type 0
IsSign x = (x ≡ negsuc 0) ⊎ (x ≡ pos 1)

-- What the loop over flags leaves alone.
record IsFresh (s : List ℕ) (p : Problem) : Type 0 where
  dims : p.dims ≡ no_sizes
  vector : p.vector ≡ no_sizes
  pstring : p.pstring ≡ s
  input : p.input ≡ 0
  output : p.output ≡ 0
  sign : IsSign p.sign

resigned :
    (t : List ℕ) (p : Problem) (x : ℤ) → IsSign x → IsFresh t p → IsFresh t (record p { sign = x })
resigned t p x hx h = record {
  dims = h.dims;
  vector = h.vector;
  pstring = h.pstring;
  input = h.input;
  output = h.output;
  sign = hx;
}

set_flag-IsFresh : (t : List ℕ) (f : Flag) (p : Problem) → IsFresh t p → IsFresh t (set_flag f p)
unfolding set_flag
set_flag-IsFresh t Flag.case_f p h = resigned t p (negsuc 0) (inl refl) h
set_flag-IsFresh t Flag.case_b p h = resigned t p (pos 1) (inr refl) h
set_flag-IsFresh t f p h = record {
  dims = h.dims;
  vector = h.vector;
  pstring = h.pstring;
  input = h.input;
  output = h.output;
  sign = h.sign;
}

parse_flags-IsFresh : (t s : List ℕ) (p : Problem) → IsFresh t p → IsFresh t (parse_flags s p).0
unfolding parse_flags
parse_flags-IsFresh t [] p h = h
parse_flags-IsFresh t (c ∷ s) p h = elim (Option-cases (flag c)) [
  | inl e ↦ rw (e, parse_flags) h
  | inr (f, e) ↦
      rw (e, parse_flags) (parse_flags-IsFresh t s (set_flag f p) (set_flag-IsFresh t f p h))
]

pub record IsParsed (s : List ℕ) (p : Problem) : Type 0 where
  pub dims : IsSizes p.dims
  pub ranked : (0 < p.dims.rank) × (p.dims.rank < max_rank)
  pub vector : IsSizes p.vector
  pub vranked : p.vector.rank < max_rank
  pub sign : IsSign p.sign
  pub pstring : p.pstring ≡ s
  pub unallocated : (p.input ≡ 0) × (p.output ≡ 0)

fresh_problem-IsFresh : (s : List ℕ) → IsFresh s (fresh_problem s)
fresh_problem-IsFresh s = record {
  dims = refl;
  vector = refl;
  pstring = refl;
  input = refl;
  output = refl;
  sign = inl refl;
}

module _ (s : List ℕ) (p : Problem) (r : Sizes × List ℕ) (fresh : IsFresh s p)
    (grown : Grown 0 r) where
  finish :
      (v : Sizes) → IsSizes v → v.rank < max_rank → IsParsed s (record p { dims = r.0; vector = v })
  finish v h lt = record {
    dims = grown.0;
    ranked = (grown.1, grown.2);
    vector = h;
    vranked = lt;
    sign = fresh.sign;
    pstring = fresh.pstring;
    unallocated = (fresh.input, fresh.output);
  }

  with_vector : Ensures (IsParsed s) (parse_vector r.1 (record p { dims = r.0 }))
  unfolding parse_vector
  with_vector = elim (Option-cases (after_vector r.1)) [
    | inl e ↦
        let none_yet : IsSizes p.vector = rw fresh.vector no_sizes-IsSizes in
        let ranked : p.vector.rank < max_rank = rw fresh.vector (omega arith) in
        rw (e, Ensures) (finish p.vector none_yet ranked)
    | inr (t, e) ↦
        rw (e, Ensures)
          (Ensures-bind (Grown 0) (IsParsed s) (parse_sizes (suc (length t)) t p.vector) _
            (rw fresh.vector
              (parse_sizes-Ensures (suc (length t)) t no_sizes (omega arith) no_sizes-IsSizes))
            λ v g. finish v.0 g.0 g.2)
  ]

-- On every text `problem_parse` ends: with a failed assertion, with an `int` that overflows, or
-- with a problem whose rank is from 1 to 19, whose vector rank is at most 19, whose sizes are the
-- products of their positive entries in 32 bits, whose sign is -1 or 1, which keeps the text and
-- has no arrays yet.
pub problem_parse-IsParsed : (s : List ℕ) → Ensures (IsParsed s) (problem_parse s)
unfolding problem_parse
problem_parse-IsParsed s =
    let (p, s') = parse_flags s (fresh_problem s) in
    let fresh : IsFresh s p = parse_flags-IsFresh s s (fresh_problem s) (fresh_problem-IsFresh s) in
    Ensures-bind (Grown 0) (IsParsed s) (parse_sizes (suc (length s')) s' p.dims) _
      (rw (fresh.dims)
        (parse_sizes-Ensures (suc (length s')) s' no_sizes (omega arith) no_sizes-IsSizes))
      λ r grown. with_vector s p r fresh grown
