-- ===== src/Numeric/Prime.antt =====
-- libbench/prime.c: a factorization over a fixed table of primes.
pub mod Table
pub mod Split
pub mod Laws
use bench_fft.Base.{
  ℕ, zero, suc, ◌+◌, ◌-◌, ◌*◌, ◌/◌, ◌%◌, Bool, true, false, ◌&&◌, ltb, leb, ◌==◌, ◌≡◌, refl, List,
  [], ◌∷◌, if◌then◌else◌, Option, none, some,
}

-- The value of `n` and the count of factors taken out of it.
pub record Factoring : Type 0 where
  pub n : ℕ
  pub num_facts : ℕ

abbrev pub primes : List ℕ
primes =
    2 ∷ 3 ∷ 5 ∷ 7 ∷ 11 ∷ 13 ∷ 17 ∷ 19 ∷ 23 ∷ 29 ∷ 31 ∷ 37 ∷ 41 ∷ 43 ∷ 47 ∷ 53 ∷ 59 ∷ 61 ∷ 67 ∷ 71
    ∷ 73 ∷ 79 ∷ 83 ∷ 89 ∷ 97 ∷ 101 ∷ 103 ∷ 107 ∷ 109 ∷ 113 ∷ []

-- `while (n % p == 0) { ++num_facts; n /= p; }` with fuel; `none` means that the fuel ran out.
pub divide_out : ℕ → ℕ → Factoring → Option Factoring
divide_out zero p s = none
divide_out (suc fuel) p s =
    let rest = divide_out fuel p (record { n = s.n / p; num_facts = s.num_facts + 1 }) in
    if s.n % p == 0 then rest else some s

infixl 5 ◌>>=◌
abbrev ◌>>=◌ {ℓ κ} : {A : Type ℓ} {B : Type κ} → Option A → (A → Option B) → Option B
none >>= k = none
some a >>= k = k a

-- `for (i = 0; n > 1 && i < nprimes && primes[i] <= maxprime; ++i)`. The fuel is for each inner
-- loop; an `unsigned int` has 32 bits, and each round at least halves it.
pub divide_primes : List ℕ → ℕ → Factoring → Option Factoring
unfolding divide_out
divide_primes [] maxprime s = some s
divide_primes (p ∷ ps) maxprime s =
    if ltb 1 s.n && leb p maxprime then divide_out 33 p s >>= divide_primes ps maxprime else some s

-- `none` is a failed assertion (or fuel that ran out, which the laws exclude).
unfoldable pub check_prime_factors : ℕ → ℕ → Option ℕ
check_prime_factors n maxprime =
    if leb maxprime 113
    then (if n == 0
        then some 1
        else (divide_primes primes maxprime (record { n = n; num_facts = 0 }) >>= λ s.
            some (if s.n == 1 then s.num_facts else 0)))
    else none

runs : check_prime_factors 360 5 ≡ some 6
unfolding check_prime_factors divide_primes
runs = refl
