-- ===== src/Mp/Pack.antt =====
-- `pack` normalises a run of digits: it keeps the ten digits from the top nonzero one down.
use native.Mathlib.Nat.{
  mul-add, mul-one, add-mul, mul_assoc, mul_comm, mul_left_comm, add-mul-div_left,
  mul-div-mul_right, div-eq_of_lt,
}
use bench_fft.Base.{
  ℕ, zero, suc, ◌+◌, ◌-◌, ◌*◌, ◌/◌, ◌^◌, ◌≤◌, ◌<◌, List, ◌∷◌, ◌≡◌, refl, ap, ap₂, ◌∙◌, arith,
  length, take, get_or, All, ◌⊎◌, inl, inr, Bool-cases, ◌==◌,
}
use bench_fft.Base.Int.{ℤ, ◌+ℤ◌, ◌-ℤ◌, int_laws, parts_of_eq}
use bench_fft.Base.Int.ℤ.{pos}
use bench_fft.Mp.{radix, top_digit, copy_digits}
use bench_fft.Mp.Digits.{
  value, IsDigit, power-suc, power_pos, value-take-suc, value-take-lt, get_or-IsDigit,
}

-- Where the search from the top stops: at the count 0, or just above a nonzero digit. All the
-- value lies below.
pub record IsTop (d : List ℕ) (l : ℕ) (e : ℤ) (found : ℕ × ℤ) : Type 0 where
  pub same : value (take l d) ≡ value (take found.0 d)
  pub least : (found.0 ≡ 0) ⊎ (radix ^ (found.0 - 1) ≤ value (take found.0 d))
  pub expt : found.1 +ℤ pos l ≡ e +ℤ pos found.0

shift_expt :
    (e x : ℤ) (i k : ℕ) → x +ℤ pos i ≡ (e -ℤ pos 1) +ℤ pos k → x +ℤ pos (suc i) ≡ e +ℤ pos k
shift_expt e x i k h = omega (int_laws, parts_of_eq h)

top_le : (i : ℕ) (d : List ℕ) → 0 < get_or d i 0 → radix ^ (suc i - 1) ≤ value (take (suc i) d)
top_le i d h =
    let below : suc i - 1 ≡ i = omega arith in rw (below, value-take-suc i d) (grind arith)

pub top_digit-IsTop : (d : List ℕ) (l : ℕ) (e : ℤ) → IsTop d l e (top_digit d l e)
unfolding top_digit
top_digit-IsTop d zero e = record { same = refl; least = inl refl; expt = refl }
top_digit-IsTop d (suc i) e = elim (Bool-cases (get_or d i 0 == 0)) [
  | inl vanishes ↦
      let below = top_digit-IsTop d i (e -ℤ pos 1) in
      let digit : get_or d i 0 ≡ 0 = ground arith in
      rw vanishes (record {
        same = value-take-suc i d ∙ omega (arith, ap (λ (g : ℕ). radix ^ i * g) digit) ∙ below.same;
        least = below.least;
        expt = shift_expt e _ i _ below.expt;
      })
  | inr counts ↦
      rw counts (record { same = refl; least = inr (top_le i d (ground arith)); expt = refl })
]

shift_digit : (x g p q : ℕ) → 0 < p → (x + p * g) * (radix * q) / (radix * p) ≡ x * q / p + q * g
shift_digit x g p q h =
    ap₂ (λ (m n : ℕ). m / n) numerator (mul_comm radix p)
    ∙ mul-div-mul_right (x * q + p * (q * g)) p (omega arith)
    ∙ add-mul-div_left (x * q) (q * g) h
  where
    numerator : (x + p * g) * (radix * q) ≡ (x * q + p * (q * g)) * radix
    numerator = omega (
      arith,
      mul_left_comm (x + p * g) radix q,
      add-mul x (p * g) q,
      mul_assoc p g q,
      ap (◌*◌ p) (mul_comm g q),
    )

pad_zero : (p q v : ℕ) → q ≡ radix * p → 0 * p / 1 + p * (0 + radix * v) ≡ 0 * q / 1 + q * v
pad_zero p q v e = rw e (omega (arith, mul_left_comm p radix v, mul_assoc radix p v))

take_digit :
    (x g p q v : ℕ)
    → 0 < p
    → x * q / p + q * (g + radix * v) ≡ (x + p * g) * (radix * q) / (radix * p) + radix * q * v
take_digit x g p q v h = omega (
  arith,
  shift_digit x g p q h,
  mul-add q g (radix * v),
  mul_left_comm q radix v,
  mul_assoc radix q v,
)

pub copy_digits-value :
    (d : List ℕ) (j i : ℕ) (out : List ℕ)
    → All IsDigit d
    → value (copy_digits d j i out)
      ≡ value (take i d) * radix ^ j / radix ^ i + radix ^ j * value out
unfolding copy_digits
copy_digits-value d zero i out h =
    let gone = div-eq_of_lt (value-take-lt i d h) in
    omega (arith, gone, ap (λ (v : ℕ). v / radix ^ i) (mul-one (value (take i d))))
copy_digits-value d (suc j) zero out h =
    copy_digits-value d j zero (0 ∷ out) h
    ∙ pad_zero (radix ^ j) (radix ^ suc j) (value out) (power-suc j)
copy_digits-value d (suc j) (suc i) out h =
    copy_digits-value d j i (get_or d i 0 ∷ out) h
    ∙ rw (value-take-suc i d, power-suc i, power-suc j)
        (take_digit (value (take i d)) (get_or d i 0) (radix ^ i) (radix ^ j) (value out)
          (power_pos i))

pub copy_digits-size :
    (d : List ℕ) (j i : ℕ) (out : List ℕ) → length (copy_digits d j i out) ≡ j + length out
unfolding copy_digits
copy_digits-size d zero i out = omega arith
copy_digits-size d (suc j) zero out = omega (arith, copy_digits-size d j zero (0 ∷ out))
copy_digits-size d (suc j) (suc i) out = omega (arith, copy_digits-size d j i (get_or d i 0 ∷ out))

pub copy_digits-IsDigit :
    (d : List ℕ) (j i : ℕ) (out : List ℕ)
    → All IsDigit d
    → All IsDigit out
    → All IsDigit (copy_digits d j i out)
unfolding copy_digits
copy_digits-IsDigit d zero i out h ho = ho
copy_digits-IsDigit d (suc j) zero out h ho =
    copy_digits-IsDigit d j zero (0 ∷ out) h (omega arith, ho)
copy_digits-IsDigit d (suc j) (suc i) out h ho =
    copy_digits-IsDigit d j i (get_or d i 0 ∷ out) h (get_or-IsDigit d i h, ho)
