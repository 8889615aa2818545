-- ===== src/Numeric/Pow2/Laws.antt =====
-- What libbench/pow2.c and libbench/log2.c compute.
use mathlib.Core.WellFounded
use native.Mathlib.Nat.{pow-suc, one-le-pow, pow-le-pow_right}
use bench_fft.Base.{
  ℕ, zero, suc, ◌+◌, ◌-◌, ◌*◌, ◌/◌, ◌%◌, ◌^◌, ◌<◌, ◌≤◌, bit_and, true, ltb, ◌==◌, ◌≡◌, ◌↔◌, refl,
  arith, some, inl, inr, lt_wf, and_low, and_self, Bool-cases, ◌⊎◌, sym, ◌∙◌, ap,
}
use bench_fft.Numeric.Pow2.{power_of_two, log_2_loop, log_2}

and_pred_even : (m : ℕ) → 0 < m → bit_and (2 * m) (2 * m - 1) ≡ 2 * bit_and m (m - 1)
and_pred_even zero h = absurd (omega arith)
and_pred_even (suc m) h =
    let e1 : 2 * suc m / 2 ≡ suc m = omega arith in
    let e2 : (2 * suc m - 1) / 2 ≡ suc m - 1 = omega arith in
    ground (arith, and_low (2 * suc m) (2 * suc m - 1), e1, e2)

and_pred_odd : (m : ℕ) → bit_and (2 * m + 1) (2 * m + 1 - 1) ≡ 2 * m
and_pred_odd m =
    let e1 : (2 * m + 1) / 2 ≡ m = omega arith in
    let e2 : (2 * m + 1 - 1) / 2 ≡ m = omega arith in
    ground (arith, and_low (2 * m + 1) (2 * m + 1 - 1), e1, e2, and_self m)

power_of_two_even : (m : ℕ) → power_of_two (2 * m) ≡ power_of_two m
unfolding power_of_two
power_of_two_even zero = refl
power_of_two_even (suc m) = ground (arith, and_pred_even (suc m))

power_of_two_odd : (m : ℕ) → power_of_two (2 * m + 1) ≡ true → m ≡ 0
unfolding power_of_two
power_of_two_odd m h = ground (arith, and_pred_odd m)

parity : (n : ℕ) → ((m : ℕ) × (n ≡ 2 * m)) ⊎ ((m : ℕ) × (n ≡ 2 * m + 1))
parity n = elim (Bool-cases (n % 2 == 0)) [
  | inl even ↦ inl (n / 2, ground arith)
  | inr odd ↦ inr (n / 2, ground arith)
]

smaller : (n m : ℕ) → n ≡ 2 * m → power_of_two n ≡ true → m < n
unfolding power_of_two
smaller n m e h = ground arith

exponent : (n : ℕ) → power_of_two n ≡ true → (k : ℕ) × (n ≡ 2 ^ k)
exponent n =
    WellFounded.induction lt_wf {C = λ n. power_of_two n ≡ true → (k : ℕ) × (n ≡ 2 ^ k)} n step
  where
    step :
        (n : ℕ)
        → ((m : ℕ) → m < n → power_of_two m ≡ true → (k : ℕ) × (m ≡ 2 ^ k))
        → power_of_two n ≡ true
        → (k : ℕ) × (n ≡ 2 ^ k)
    step n ih h = elim (parity n) [
      | inl (m, e) ↦
          let half : power_of_two m ≡ true =
            sym (power_of_two_even m) ∙ ap power_of_two (sym e) ∙ h in
          let (k, p) = ih m (smaller n m e h) half in (suc k, omega (arith, e, p, pow-suc 2 k))
      | inr (m, e) ↦
          let last : m ≡ 0 = power_of_two_odd m (ap power_of_two (sym e) ∙ h) in (0, omega arith)
    ]

power-power_of_two : (k : ℕ) → power_of_two (2 ^ k) ≡ true
power-power_of_two zero = unfold power_of_two in refl
power-power_of_two (suc k) =
    let e : 2 ^ suc k ≡ 2 * 2 ^ k = omega (arith, pow-suc 2 k) in
    ap power_of_two e ∙ power_of_two_even (2 ^ k) ∙ power-power_of_two k

log_2_loop_lem :
    (fuel m n : ℕ)
    → 0 < n
    → n < 2 ^ fuel
    → (k : ℕ) × (log_2_loop fuel m n ≡ some (m + k)) × (2 ^ k ≤ n) × (n < 2 ^ suc k)
unfolding log_2_loop
log_2_loop_lem zero m n h lt = absurd (omega arith)
log_2_loop_lem (suc fuel) m n h lt = elim (Bool-cases (ltb 1 n)) [
  | inl more ↦
      let half : n / 2 < 2 ^ fuel = omega (arith, pow-suc 2 fuel) in
      let (k, e, lo, hi) = log_2_loop_lem fuel (m + 1) (n / 2) (ground arith) half in
      (
        suc k,
        rw more (rw e (ap some (omega arith))),
        omega (arith, pow-suc 2 k),
        omega (arith, pow-suc 2 (suc k)),
      )
  | inr done ↦ (0, ground arith, omega arith, ground arith)
]

exponent_unique : (j k : ℕ) → 2 ^ k ≤ 2 ^ j → 2 ^ j < 2 ^ suc k → j ≡ k
exponent_unique j k lo hi = elim (Bool-cases (ltb j k)) [
  | inl less ↦ absurd (
      omega (
        arith,
        pow-le-pow_right {n = 2} (omega arith) {i = suc j} {j = k} (ground arith),
        pow-suc 2 j,
        one-le-pow j 2,
      ))
  | inr not_less ↦ elim (Bool-cases (ltb k j)) [
    | inl more ↦
        absurd
          (omega (arith, pow-le-pow_right {n = 2} (omega arith) {i = suc k} {j = j} (ground arith)))
    | inr not_more ↦ ground arith
  ]
]

-- `power_of_two` accepts exactly the numbers 2 ^ k.
pub power_of_two_iff : (n : ℕ) → (power_of_two n ≡ true) ↔ ((k : ℕ) × (n ≡ 2 ^ k))
power_of_two_iff n = (exponent n, λ p. ap power_of_two p.1 ∙ power-power_of_two p.0)

-- For a positive `unsigned int` the loop of `log_2` ends, and returns the whole part of the
-- logarithm to base 2.
pub log_2-floor :
    (n : ℕ) → 0 < n → n < 2 ^ 32 → (k : ℕ) × (log_2 n ≡ some k) × (2 ^ k ≤ n) × (n < 2 ^ suc k)
unfolding log_2
log_2-floor n h lt =
    let (k, e, lo, hi) = log_2_loop_lem 33 0 n h (omega arith) in
    (k, e ∙ ap some (omega arith), lo, hi)

log_2-exact : (k n : ℕ) → n ≡ 2 ^ k → n < 2 ^ 32 → log_2 n ≡ some k
log_2-exact k n e lt = same (log_2-floor n (omega (arith, one-le-pow k 2)) lt)
  where
    same : (j : ℕ) × (log_2 n ≡ some j) × (2 ^ j ≤ n) × (n < 2 ^ suc j) → log_2 n ≡ some k
    same (j, p, lo, hi) = p ∙ ap some (sym (exponent_unique k j (rw e at lo) (rw e at hi)))

-- On a power of two `log_2` returns the exponent.
log_2-power_of_two :
    (n : ℕ) → n < 2 ^ 32 → power_of_two n ≡ true → (k : ℕ) × (log_2 n ≡ some k) × (n ≡ 2 ^ k)
log_2-power_of_two n lt h = let (k, e) = exponent n h in (k, log_2-exact k n e lt, e)
