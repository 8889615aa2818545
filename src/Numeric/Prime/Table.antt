-- ===== src/Numeric/Prime/Table.antt =====
-- The table of prime.c holds the primes up to 113, all of them and nothing else.
use bench_fft.Base.{
  ℕ, zero, suc, ◌%◌, ◌≤◌, ◌<◌, Bool, true, false, ◌&&◌, ◌||◌, not, ltb, leb, ◌==◌, List, [], ◌∷◌,
  ◌≡◌, ◌≢◌, ◌⊎◌, inl, inr, refl, arith, All, Bool-cases,
}
use bench_fft.Numeric.Prime.{primes}

abbrev pub In : ℕ → List ℕ → Type 0
In q [] = ⊥
In q (p ∷ ps) = (q ≡ p) ⊎ In q ps

abbrev pub IsPrime : ℕ → Type 0
IsPrime p = (2 ≤ p) × ((d : ℕ) → 2 ≤ d → d < p → p % d ≢ 0)

all_below : ℕ → (ℕ → Bool) → Bool
all_below zero test = true
all_below (suc n) test = test n && all_below n test

all_below_sound :
    (n : ℕ) (test : ℕ → Bool) (x : ℕ) → all_below n test ≡ true → x < n → test x ≡ true
unfolding all_below
all_below_sound zero test x h lt = absurd (omega arith)
all_below_sound (suc n) test x h lt = ground (arith, all_below_sound n test x)

has_factor : List ℕ → ℕ → Bool
has_factor [] d = false
has_factor (p ∷ ps) d = (d % p == 0 && leb p d) || has_factor ps d

has_factor_sound :
    (ps : List ℕ) (d : ℕ) → has_factor ps d ≡ true → (p : ℕ) × In p ps × (d % p ≡ 0) × (p ≤ d)
unfolding has_factor
has_factor_sound [] d h = cc
has_factor_sound (p ∷ ps) d h = elim (Bool-cases (d % p == 0 && leb p d)) [
  | inl here ↦ (p, inl refl, ground arith, ground arith)
  | inr later ↦ let (q, m, e, le) = has_factor_sound ps d (ground arith) in (q, inr m, e, le)
]

covered_table : all_below 114 (λ d. ltb d 2 || has_factor primes d) ≡ true
unfolding all_below has_factor
covered_table = refl

pub covered : (d : ℕ) → 2 ≤ d → d ≤ 113 → (p : ℕ) × In p primes × (d % p ≡ 0) × (p ≤ d)
covered d lo hi =
    let row =
      all_below_sound 114 (λ d. ltb d 2 || has_factor primes d) d covered_table (omega arith) in
    has_factor_sound primes d (ground arith)

is_prime : ℕ → Bool
is_prime p = leb 2 p && all_below p (λ d. ltb d 2 || not (p % d == 0))

is_prime_sound : (p : ℕ) → is_prime p ≡ true → IsPrime p
unfolding is_prime
is_prime_sound p h = (
  ground arith,
  λ d lo lt. ground (arith, all_below_sound p (λ d. ltb d 2 || not (p % d == 0)) d),
)

all_prime : List ℕ → Bool
all_prime [] = true
all_prime (p ∷ ps) = is_prime p && all_prime ps

all_prime_sound : (ps : List ℕ) → all_prime ps ≡ true → All IsPrime ps
unfolding all_prime
all_prime_sound [] h = tt
all_prime_sound (p ∷ ps) h = (is_prime_sound p (ground arith), all_prime_sound ps (ground arith))

pub primes-IsPrime : All IsPrime primes
unfolding all_prime is_prime all_below
primes-IsPrime = all_prime_sound primes refl
