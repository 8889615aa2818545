-- ===== src/Mp/Carry.antt =====
-- The digit loops of `addmag0`, `submag0` and `mul` compute exact sums, differences and products:
-- no `unsigned long` wraps, and no carry is lost.
use native.Mathlib.Nat.{mul_left_comm}
use bench_fft.Base.{
  ℕ, zero, suc, ◌+◌, ◌-◌, ◌*◌, ◌^◌, ◌≤◌, ◌<◌, List, [], ◌∷◌, ◌≡◌, refl, ap, arith, length, All, ◌⊎◌,
  inl, inr, Bool-cases, ltb→lt, ltb,
}
use bench_fft.Mp.{radix, acc, lo, hi, hi_signed, add_digits, sub_digits}
use bench_fft.Mp.Digits.{value, IsDigit, power-suc, value-lt}

-- What a digit loop returns: `k` digits with the value `v`.
pub record IsRun (k v : ℕ) (out : List ℕ) : Type 0 where
  pub size : length out ≡ k
  pub digits : All IsDigit out
  pub total : value out ≡ v

pub add_digits-IsRun :
    (al bl : List ℕ) (r : ℕ)
    → All IsDigit al
    → All IsDigit bl
    → length bl ≤ length al
    → r < radix
    → IsRun (suc (length al)) (value al + value bl + r) (add_digits al bl r)
unfolding add_digits
add_digits-IsRun [] [] r ha hb le hr = omega arith
add_digits-IsRun [] (b ∷ bl) r ha hb le hr = absurd (omega arith)
add_digits-IsRun (a ∷ al) [] r ha hb le hr =
    let rest = add_digits-IsRun al [] (hi (acc (r + a))) ha.1 tt (omega arith) (omega arith) in
    record {
      size = omega (arith, rest.size);
      digits = (omega arith, rest.digits);
      total = omega (arith, rest.total);
    }
add_digits-IsRun (a ∷ al) (b ∷ bl) r ha hb le hr =
    let rest =
      add_digits-IsRun al bl (hi (acc (r + (a + b)))) ha.1 hb.1 (omega arith) (omega arith) in
    record {
      size = omega (arith, rest.size);
      digits = (omega arith, rest.digits);
      total = omega (arith, rest.total);
    }

-- A borrow `c` al the loop of `submag0` carries it.
abbrev Borrow : ℕ → ℕ → Type 0
Borrow c r = ((c ≡ 0) × (r ≡ 0)) ⊎ ((c ≡ 1) × (r ≡ 2 ^ 64 - 1))

record IsDifference (al bl : List ℕ) (c : ℕ) (out : List ℕ) : Type 0 where
  size : length out ≡ length al
  digits : All IsDigit out
  borrow : ℕ
  small : borrow ≤ 1
  total : value out + value bl + c ≡ value al + borrow * radix ^ length al

record BorrowStep (a b c s : ℕ) : Type 0 where
  carry : ℕ
  carried : Borrow carry (hi_signed s)
  exact : lo s + b + c ≡ a + carry * radix
  small : carry ≤ 1

-- The sum in `unsigned long` is `a - b - c`, wrapped around once if that is negative.
borrow_step :
    (a b c s : ℕ)
    → a < radix
    → b < radix
    → c ≤ 1
    → (s + b + c ≡ a) ⊎ (s + b + c ≡ 2 ^ 64 + a)
    → s < 2 ^ 64
    → BorrowStep a b c s
borrow_step a b c s ha hb hc (inl e) lt = record {
  carry = 0;
  carried = inl (refl, omega arith);
  exact = omega arith;
  small = omega arith;
}
borrow_step a b c s ha hb hc (inr e) lt = record {
  carry = 1;
  carried = inr (refl, omega arith);
  exact = omega arith;
  small = omega arith;
}

Borrow-sum :
    (a b c r : ℕ)
    → a < radix
    → b < radix
    → Borrow c r
    → let s = acc (r + acc (a + 2 ^ 64 - b)) in (s + b + c ≡ a) ⊎ (s + b + c ≡ 2 ^ 64 + a)
Borrow-sum a b c r ha hb h = elim (Bool-cases (ltb a (b + c))) [
  | inl less ↦ let lt = ltb→lt a (b + c) less in inr (omega arith)
  | inr enough ↦ let le : b + c ≤ a = ground arith in inl (omega arith)
]

Borrow-sum_alone :
    (a c r : ℕ)
    → a < radix
    → Borrow c r
    → (acc (r + a) + 0 + c ≡ a) ⊎ (acc (r + a) + 0 + c ≡ 2 ^ 64 + a)
Borrow-sum_alone a c r ha h = elim (Bool-cases (ltb a c)) [
  | inl less ↦ let lt = ltb→lt a c less in inr (omega arith)
  | inr enough ↦ let le : c ≤ a = ground arith in inl (omega arith)
]

Borrow-le : (c r : ℕ) → Borrow c r → c ≤ 1
Borrow-le c r h = omega arith

total_step :
    (a b c s k va vb vo e : ℕ) (step : BorrowStep a b c s)
    → vo + vb + step.carry ≡ va + e * radix ^ k
    → lo s + radix * vo + (b + radix * vb) + c ≡ a + radix * va + e * radix ^ suc k
total_step a b c s k va vb vo e step h =
    omega
      (arith, step.exact, power-suc k, mul_left_comm e radix (radix ^ k), ap (◌*◌ e) (power-suc k))

sub_digits-IsDifference :
    (al bl : List ℕ) (c r : ℕ)
    → All IsDigit al
    → All IsDigit bl
    → length bl ≤ length al
    → Borrow c r
    → IsDifference al bl c (sub_digits al bl r)
unfolding sub_digits
sub_digits-IsDifference [] [] c r ha hb le h = record {
  size = refl;
  digits = tt;
  borrow = c;
  small = omega arith;
  total = omega arith;
}
sub_digits-IsDifference [] (b ∷ bl) c r ha hb le h = absurd (omega arith)
sub_digits-IsDifference (a ∷ al) (b ∷ bl) c r ha hb le h =
    let s = acc (r + acc (a + 2 ^ 64 - b)) in
    let step =
      borrow_step a b c s ha.0 hb.0 (Borrow-le c r h) (Borrow-sum a b c r ha.0 hb.0 h)
        (omega arith) in
    let rest =
      sub_digits-IsDifference al bl step.carry (hi_signed s) ha.1 hb.1 (omega arith) step.carried in
    record {
      size = omega (arith, rest.size);
      digits = (omega arith, rest.digits);
      borrow = rest.borrow;
      small = rest.small;
      total = total_step a b c s _ _ _ _ rest.borrow step rest.total;
    }
sub_digits-IsDifference (a ∷ al) [] c r ha hb le h =
    let s = acc (r + a) in
    let step =
      borrow_step a 0 c s ha.0 (omega arith) (Borrow-le c r h) (Borrow-sum_alone a c r ha.0 h)
        (omega arith) in
    let rest =
      sub_digits-IsDifference al [] step.carry (hi_signed s) ha.1 tt (omega arith) step.carried in
    record {
      size = omega (arith, rest.size);
      digits = (omega arith, rest.digits);
      borrow = rest.borrow;
      small = rest.small;
      total = total_step a 0 c s _ _ 0 _ rest.borrow step rest.total;
    }

no_borrow : (e p x y v : ℕ) → e ≤ 1 → x + y + 0 ≡ v + e * p → y ≤ v → x < p → x ≡ v - y
no_borrow zero p x y v h t le lt = omega arith
no_borrow (suc zero) p x y v h t le lt = absurd (omega arith)
no_borrow (suc (suc e)) p x y v h t le lt = absurd (omega arith)

-- With a minuend that is large enough the loop returns the difference.
pub sub_digits-IsRun :
    (al bl : List ℕ)
    → All IsDigit al
    → All IsDigit bl
    → length bl ≤ length al
    → value bl ≤ value al
    → IsRun (length al) (value al - value bl) (sub_digits al bl 0)
sub_digits-IsRun al bl ha hb le less =
    let run = sub_digits-IsDifference al bl 0 0 ha hb le (inl (refl, refl)) in
    let bound : value (sub_digits al bl 0) < radix ^ length al =
      omega (arith, value-lt (sub_digits al bl 0) run.digits, ap (λ (k : ℕ). radix ^ k) run.size) in
    record {
      size = run.size;
      digits = run.digits;
      total = no_borrow run.borrow (radix ^ length al) _ _ _ run.small run.total less bound;
    }
