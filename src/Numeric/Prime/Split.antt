-- ===== src/Numeric/Prime/Split.antt =====
-- The inner loop of `check_prime_factors` in libbench/prime.c.
use native.Mathlib.Nat.{
  pow-suc, div-add-mod, mul_assoc, one-mul, dvd_of_mod-eq-zero, mod-eq-zero_of_dvd,
  dvd-mul_left_of_dvd, dvd-mul_left, le_of_dvd,
}
use Prim.Native.Nat.{◌∣◌}
use mathlib.Core.Path.{subst}
use bench_fft.Base.{
  ℕ, zero, suc, ◌+◌, ◌*◌, ◌/◌, ◌%◌, ◌^◌, ◌≤◌, ◌<◌, true, ◌==◌, List, [], ◌∷◌, ◌++◌, ◌≡◌, ◌≢◌, inl,
  inr, refl, arith, All, Bool-cases, product, length, length-append, some, ap, sym, ◌∙◌,
}
use bench_fft.Numeric.Prime.{Factoring, divide_out}

-- `fs`, with the property `P`, are the factors taken out on the way from `s` to `t`.
pub record IsSplit (P : ℕ → Type 0) (s t : Factoring) (fs : List ℕ) : Type 0 where
  pub whole : s.n ≡ product fs * t.n
  pub counted : t.num_facts ≡ s.num_facts + length fs
  pub factors : All P fs
  pub positive : 0 < t.n

pub not_divides : (p a m : ℕ) → (a * m) % p ≢ 0 → m % p ≢ 0
not_divides p a m h e = h (mod-eq-zero_of_dvd p (dvd-mul_left_of_dvd p (dvd_of_mod-eq-zero p e) a))

exact : (n p : ℕ) → (n % p == 0) ≡ true → n ≡ p * (n / p)
exact n p h = ground (arith, div-add-mod n p)

quotient_bounds :
    (n p x : ℕ) → 2 ≤ p → 0 < n → n < 2 * x → n ≡ p * (n / p) → (0 < n / p) × (n / p < x)
quotient_bounds n p x hp h lt e = (grind arith, grind arith)

pub divide_out_lem :
    (fuel p : ℕ) (s : Factoring)
    → 2 ≤ p
    → 0 < s.n
    → s.n < 2 ^ fuel
    → (t : Factoring) × (fs : List ℕ) × (divide_out fuel p s ≡ some t)
      × IsSplit (λ q. q ≡ p) s t fs
      × (t.n % p ≢ 0)
unfolding divide_out
divide_out_lem zero p s hp h lt = absurd (omega arith)
divide_out_lem (suc fuel) p s hp h lt = elim (Bool-cases (s.n % p == 0)) [
  | inl more ↦
      let whole' = exact s.n p more in
      let bounds = quotient_bounds s.n p (2 ^ fuel) hp h (omega (arith, pow-suc 2 fuel)) whole' in
      let s' : Factoring = record { n = s.n / p; num_facts = s.num_facts + 1 } in
      let (t, fs, e, split, rough) = divide_out_lem fuel p s' hp bounds.0 bounds.1 in
      (
        t,
        p ∷ fs,
        rw more e,
        record {
          whole = whole' ∙ ap (λ (x : ℕ). p * x) split.whole ∙ sym (mul_assoc p (product fs) t.n);
          counted = omega (arith, split.counted);
          factors = (refl, split.factors);
          positive = split.positive;
        },
        rough,
      )
  | inr done ↦ (
    s,
    [],
    rw done,
    record { whole = omega arith; counted = omega arith; factors = tt; positive = h },
    ground arith,
  )
]

pub weaken : (P Q : ℕ → Type 0) → ((q : ℕ) → P q → Q q) → (fs : List ℕ) → All P fs → All Q fs
weaken P Q f [] h = tt
weaken P Q f (x ∷ fs) h = (f x h.0, weaken P Q f fs h.1)

All-append : (P : ℕ → Type 0) (fs gs : List ℕ) → All P fs → All P gs → All P (fs ++ gs)
All-append P [] gs h k = k
All-append P (x ∷ fs) gs h k = (h.0, All-append P fs gs h.1 k)

product-append : (fs gs : List ℕ) → product (fs ++ gs) ≡ product fs * product gs
product-append [] gs = sym (one-mul _)
product-append (x ∷ fs) gs = rw (product-append fs gs) (sym (mul_assoc x _ _))

pub IsSplit_trans :
    (P : ℕ → Type 0) (s t u : Factoring) (fs gs : List ℕ)
    → IsSplit P s t fs
    → IsSplit P t u gs
    → IsSplit P s u (fs ++ gs)
IsSplit_trans P s t u fs gs a b = record {
  whole =
      a.whole
      ∙ ap (λ (x : ℕ). product fs * x) b.whole
      ∙ sym (mul_assoc (product fs) _ _)
      ∙ ap (λ (x : ℕ). x * u.n) (sym (product-append fs gs));
  counted = omega (arith, a.counted, b.counted, length-append fs gs);
  factors = All-append P fs gs a.factors b.factors;
  positive = b.positive;
}

pub factor-lt :
    (P : ℕ → Type 0) (s t : Factoring) (fs : List ℕ)
    → IsSplit P s t fs
    → 0 < s.n
    → s.n < 2 ^ 33
    → t.n < 2 ^ 33
factor-lt P s t fs split h lt =
    let divides : t.n ≤ s.n =
      le_of_dvd h (subst (λ n. t.n ∣ n) (sym split.whole) (dvd-mul_left t.n (product fs))) in
    omega arith
