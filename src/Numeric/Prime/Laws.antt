-- ===== src/Numeric/Prime/Laws.antt =====
-- What libbench/prime.c computes.
use native.Mathlib.Nat.{dvd_of_mod-eq-zero, mod-eq-zero_of_dvd, mod-eq_of_lt, dvd_trans}
use bench_fft.Base.{
  ℕ, ◌*◌, ◌%◌, ◌^◌, ◌≤◌, ◌<◌, true, ◌&&◌, false, ltb, leb, ◌==◌, List, [], ◌∷◌, ◌++◌, ◌≡◌, ◌≢◌, inl,
  inr, refl, arith, All, Bool-cases, product, length, Option, some, if◌then◌else◌, ap, ◌∙◌,
}
use bench_fft.Numeric.Prime.{Factoring, primes, divide_primes, check_prime_factors}
use bench_fft.Numeric.Prime.Table.{In, IsPrime, covered, primes-IsPrime}
use bench_fft.Numeric.Prime.Split.{
  IsSplit, not_divides, divide_out_lem, weaken, IsSplit_trans, factor-lt,
}

abbrev Ascending : List ℕ → Type 0
Ascending [] = Unit {0}
Ascending (p ∷ ps) = (2 ≤ p) × All (λ q. p ≤ q) ps × Ascending ps

In-All : (P : ℕ → Type 0) (q : ℕ) (ps : List ℕ) → In q ps → All P ps → P q
In-All P q (p ∷ ps) (inl e) h = rw e h.0
In-All P q (p ∷ ps) (inr m) h = In-All P q ps m h.1
In-All P q [] m h = absurd m

abbrev Small : List ℕ → ℕ → ℕ → Type 0
Small ps maxprime q = In q ps × (q ≤ maxprime)

-- The state in which the outer loop stops, with the factors taken out.
record Divided (ps : List ℕ) (maxprime : ℕ) (s : Factoring) : Type 0 where
  final : Factoring
  taken : List ℕ
  returns : divide_primes ps maxprime s ≡ some final
  split : IsSplit (Small ps maxprime) s final taken
  rough : (q : ℕ) → Small ps maxprime q → final.n % q ≢ 0

stopped :
    (ps : List ℕ) (maxprime : ℕ) (s : Factoring)
    → 0 < s.n
    → divide_primes ps maxprime s ≡ some s
    → ((q : ℕ) → Small ps maxprime q → s.n % q ≢ 0)
    → Divided ps maxprime s
stopped ps maxprime s h e rough = record {
  final = s;
  taken = [];
  returns = e;
  split = record { whole = omega arith; counted = omega arith; factors = tt; positive = h };
  rough = rough;
}

least : (q p : ℕ) (ps : List ℕ) → Ascending (p ∷ ps) → In q (p ∷ ps) → p ≤ q
least q p ps asc (inl e) = omega (arith, e)
least q p ps asc (inr m) = In-All (λ q. p ≤ q) q ps m asc.1

not-divides-one : (q : ℕ) → 2 ≤ q → 1 % q ≢ 0
not-divides-one q h e = absurd (omega (arith, e, mod-eq_of_lt {n = 1} {m = q} h))

finished :
    (p : ℕ) (ps : List ℕ) (maxprime : ℕ) (s : Factoring)
    → Ascending (p ∷ ps)
    → 0 < s.n
    → (ltb 1 s.n && leb p maxprime) ≡ false
    → (q : ℕ) → Small (p ∷ ps) maxprime q
    → s.n % q ≢ 0
finished p ps maxprime s asc h done q (m, le) =
    let low = least q p ps asc m in
    let one : s.n ≡ 1 = ground arith in rw one (not-divides-one q (omega (arith, asc.0)))

continued :
    (p : ℕ) (ps : List ℕ) (maxprime : ℕ) (s t : Factoring) (fs : List ℕ)
    → p ≤ maxprime
    → IsSplit (λ q. q ≡ p) s t fs
    → t.n % p ≢ 0
    → divide_primes (p ∷ ps) maxprime s ≡ divide_primes ps maxprime t
    → Divided ps maxprime t
    → Divided (p ∷ ps) maxprime s
continued p ps maxprime s t fs le split rough e rest = record {
  final = rest.final;
  taken = fs ++ rest.taken;
  returns = e ∙ rest.returns;
  split =
      IsSplit_trans (Small (p ∷ ps) maxprime) s t rest.final fs rest.taken
        (record {
          whole = split.whole;
          counted = split.counted;
          factors =
              weaken (λ q. q ≡ p) (Small (p ∷ ps) maxprime) (λ q e. (inl e, omega (arith, e))) fs
                split.factors;
          positive = split.positive;
        })
        (record {
          whole = rest.split.whole;
          counted = rest.split.counted;
          factors =
              weaken (Small ps maxprime) (Small (p ∷ ps) maxprime) (λ q m. (inr m.0, m.1))
                rest.taken rest.split.factors;
          positive = rest.split.positive;
        });
  rough = still;
}
  where
    still : (q : ℕ) → Small (p ∷ ps) maxprime q → rest.final.n % q ≢ 0
    still q (inl e, le) =
        rw e (not_divides p (product rest.taken) rest.final.n (rw (← rest.split.whole) rough))
    still q (inr m, le) = rest.rough q (m, le)

divide_primes_lem :
    (ps : List ℕ) (maxprime : ℕ) (s : Factoring)
    → Ascending ps
    → 0 < s.n
    → s.n < 2 ^ 33
    → Divided ps maxprime s
unfolding divide_primes
divide_primes_lem [] maxprime s asc h lt =
    stopped [] maxprime s h (unfold divide_primes in refl) (λ q m. absurd m.0)
divide_primes_lem (p ∷ ps) maxprime s asc h lt = elim (Bool-cases (ltb 1 s.n && leb p maxprime)) [
  | inl more ↦
      let (t, fs, e, split, rough) = divide_out_lem 33 p s asc.0 h lt in
      continued p ps maxprime s t fs (ground arith) split rough (rw (more, e))
        (divide_primes_lem ps maxprime t asc.2 split.positive (factor-lt _ s t fs split h lt))
  | inr done ↦
      stopped (p ∷ ps) maxprime s h (unfold divide_primes in rw done)
        (finished p ps maxprime s asc h done)
]

-- The factorization behind the result of `check_prime_factors`.
pub record IsFactored (n maxprime : ℕ) (result : Option ℕ) : Type 0 where
  pub factors : List ℕ
  pub rest : ℕ
  pub whole : n ≡ product factors * rest
  pub small : All (λ p. IsPrime p × (p ≤ maxprime)) factors
  pub rough : (d : ℕ) → 2 ≤ d → d ≤ maxprime → rest % d ≢ 0
  pub returns : result ≡ some (if rest == 1 then length factors else 0)

primes-Ascending : Ascending primes
primes-Ascending = omega arith

check_returns :
    (n maxprime : ℕ) (t : Factoring)
    → maxprime ≤ 113
    → 0 < n
    → divide_primes primes maxprime (record { n = n; num_facts = 0 }) ≡ some t
    → check_prime_factors n maxprime ≡ some (if t.n == 1 then t.num_facts else 0)
unfolding check_prime_factors
check_returns n maxprime t fits h e =
    let asserted : leb maxprime 113 ≡ true = ground arith in
    let positive : (n == 0) ≡ false = ground arith in rw (asserted, positive, e)

module _ (maxprime : ℕ) (fits : maxprime ≤ 113) where
  small-IsPrime : (q : ℕ) → Small primes maxprime q → IsPrime q × (q ≤ maxprime)
  small-IsPrime q (m, le) = (In-All IsPrime q primes m primes-IsPrime, le)

  rough_below :
      (m : ℕ)
      → ((q : ℕ) → Small primes maxprime q → m % q ≢ 0)
      → (d : ℕ) → 2 ≤ d
      → d ≤ maxprime
      → m % d ≢ 0
  rough_below m rough d lo hi e =
      let (p, listed, divides, le) = covered d lo (omega arith) in
      rough p (listed, omega arith)
        (mod-eq-zero_of_dvd p (dvd_trans p (dvd_of_mod-eq-zero p divides) (dvd_of_mod-eq-zero d e)))

  -- For a positive `unsigned int` and a bound within the table, `check_prime_factors` splits `n`
  -- into primes up to the bound and a rest that no number from 2 to the bound divides. It returns
  -- the count of those primes if the rest is 1, and 0 otherwise.
  pub check_prime_factors-IsFactored :
      (n : ℕ) → 0 < n → n < 2 ^ 32 → IsFactored n maxprime (check_prime_factors n maxprime)
  check_prime_factors-IsFactored n h lt = record {
    factors = loop.taken;
    rest = loop.final.n;
    whole = loop.split.whole;
    small =
        weaken (Small primes maxprime) (λ p. IsPrime p × (p ≤ maxprime)) small-IsPrime loop.taken
          loop.split.factors;
    rough = rough_below loop.final.n loop.rough;
    returns = entered ∙ ap (λ k. some (if loop.final.n == 1 then k else 0)) counted;
  }
    where
      start : Factoring
      start = record { n = n; num_facts = 0 }

      loop : Divided primes maxprime start
      loop = divide_primes_lem primes maxprime start primes-Ascending h (omega arith)

      counted : loop.final.num_facts ≡ length loop.taken
      counted = omega (arith, loop.split.counted)

      entered :
          check_prime_factors n maxprime
          ≡ some (if loop.final.n == 1 then loop.final.num_facts else 0)
      entered = check_returns n maxprime loop.final fits h loop.returns
