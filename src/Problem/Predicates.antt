-- ===== src/Problem/Predicates.antt =====
-- The predicates for common cases at the end of libbench/problem.c.
use native.Mathlib.Nat.{pow-suc}
use bench_fft.Base.{
  ℕ, zero, suc, ◌*◌, ◌^◌, ◌≡◌, ◌↔◌, ◌⊎◌, inl, inr, refl, sym, ◌∙◌, arith, Bool, true, false, ◌&&◌,
  not, ◌==◌, Bool-cases, List, [], ◌∷◌, All, if◌then◌else◌,
}
use bench_fft.Problem.{Kind, Problem}
use bench_fft.Numeric.Pow2.{power_of_two}
use bench_fft.Numeric.Pow2.Laws.{power_of_two_iff}

-- The loop over `p->n`, false at the first size that is 1 or no power of two.
unfoldable pub all_powers : List ℕ → Bool
all_powers [] = true
all_powers (n ∷ ns) =
    if n == 1 then false else if not (power_of_two n) then false else all_powers ns

unfoldable pub problem_power_of_two : Problem → Bool → Bool
problem_power_of_two p in_place =
    if all_powers p.dims.n then (if in_place then p.in_place else not p.in_place) else false

abbrev is_complex : Kind → Bool
is_complex Kind.problem_complex = true
is_complex Kind.problem_real = false

unfoldable pub problem_complex_power_of_two : Problem → Bool → Bool
problem_complex_power_of_two p in_place =
    if not (is_complex p.kind) then false else problem_power_of_two p in_place

unfoldable pub problem_real_power_of_two : Problem → Bool → Bool
problem_real_power_of_two p in_place =
    if is_complex p.kind then false else problem_power_of_two p in_place

abbrev pub problem_in_place : Problem → Bool
problem_in_place p = p.in_place

-- A power of two above 1.
abbrev pub IsPower : ℕ → Type 0
IsPower n = (k : ℕ) × (n ≡ 2 ^ suc k)

exponent_positive : (n : ℕ) → (n == 1) ≡ false → power_of_two n ≡ true → IsPower n
exponent_positive n ne h = choose ((power_of_two_iff n).0 h)
  where
    choose : (k : ℕ) × (n ≡ 2 ^ k) → IsPower n
    choose (zero, e) = absurd (ground arith)
    choose (suc k, e) = (k, e)

power_passes : (n : ℕ) → IsPower n → ((n == 1) ≡ false) × (power_of_two n ≡ true)
power_passes n (k, e) =
    let even : n ≡ 2 * 2 ^ k = e ∙ omega (arith, pow-suc 2 k) in
    (ground arith, (power_of_two_iff n).1 (suc k, e))

all_powers-All : (ns : List ℕ) → all_powers ns ≡ true → All IsPower ns
unfolding all_powers
all_powers-All [] h = tt
all_powers-All (n ∷ ns) h = elim (Bool-cases (n == 1)) [
  | inl one ↦ absurd (cc (rw one at h))
  | inr ne ↦ elim (Bool-cases (power_of_two n)) [
    | inl power ↦ (exponent_positive n ne power, all_powers-All ns (rw (ne, power) at h))
    | inr other ↦ absurd (cc (rw (ne, other) at h))
  ]
]

All-all_powers : (ns : List ℕ) → All IsPower ns → all_powers ns ≡ true
unfolding all_powers
All-all_powers [] h = refl
All-all_powers (n ∷ ns) h =
    rw ((power_passes n h.0).0, (power_passes n h.0).1) (All-all_powers ns h.1)

placement : (a b : Bool) → ((if a then b else not b) ≡ true) ↔ (b ≡ a)
placement true b = (λ e. e, λ e. e)
placement false true = (λ e. cc, λ e. cc)
placement false false = (λ e. refl, λ e. refl)

-- `problem_power_of_two` answers yes exactly if every size is a power of two above 1 and the problem
-- is in place just when asked for.
pub problem_power_of_two_iff :
    (p : Problem) (in_place : Bool)
    → (problem_power_of_two p in_place ≡ true) ↔ (All IsPower p.dims.n × (p.in_place ≡ in_place))
unfolding problem_power_of_two
problem_power_of_two_iff p in_place = elim (Bool-cases (all_powers p.dims.n)) [
  | inl all ↦ rw all (
    λ h. (all_powers-All p.dims.n all, (placement in_place p.in_place).0 h),
    λ h. (placement in_place p.in_place).1 h.1,
  )
  | inr some_other ↦
      rw some_other (λ h. cc, λ h. absurd (cc (sym some_other ∙ All-all_powers p.dims.n h.0)))
]

-- The two kinds exclude each other: a problem never passes both `problem_complex_power_of_two` and
-- `problem_real_power_of_two`, and passes one of them exactly if it passes `problem_power_of_two`.
pub problem_power_of_two-kinds :
    (p : Problem) (in_place : Bool)
    → ((problem_power_of_two p in_place ≡ true) ↔ (
        (problem_complex_power_of_two p in_place ≡ true)
        ⊎ (problem_real_power_of_two p in_place ≡ true)))
      × ((problem_complex_power_of_two p in_place && problem_real_power_of_two p in_place) ≡ false)
unfolding problem_complex_power_of_two problem_real_power_of_two
problem_power_of_two-kinds p in_place = elim (Bool-cases (is_complex p.kind)) [
  | inl complex ↦
      rw complex ((λ h. inl h, λ h. either h), left_only (problem_power_of_two p in_place))
  | inr real ↦ rw real ((λ h. inr h, λ h. or_else h), refl)
]
  where
    either : {b : Bool} → (b ≡ true) ⊎ (false ≡ true) → b ≡ true
    either (inl h) = h
    either (inr h) = cc

    or_else : {b : Bool} → (false ≡ true) ⊎ (b ≡ true) → b ≡ true
    or_else (inl h) = cc
    or_else (inr h) = h

    left_only : (b : Bool) → (b && false) ≡ false
    left_only true = refl
    left_only false = refl
