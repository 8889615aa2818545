-- ===== src/Mp/Compare.antt =====
-- `abscmp` orders numbers by their absolute values.
use native.Mathlib.Nat.{div-lt_iff_lt-mul, div-one, le_of_lt}
use mathlib.Core.Path.{subst₂}
use bench_fft.Base.{
  ℕ, zero, suc, ◌+◌, ◌*◌, ◌/◌, ◌^◌, ◌≤◌, ◌<◌, List, ◌≡◌, refl, ap, sym, arith, take, take-length,
  All, ◌⊎◌, inl, inr, Bool-cases, true, false, ltb, ltb→lt, if◌then◌else◌,
}
use bench_fft.Base.Int.{ℤ, parts_of_eq, ◌-ℤ◌, ◌≤ℤ◌, ltb_ℤ, pos_part, neg_part, int_laws}
use bench_fft.Base.Int.ℤ.{pos, negsuc}
use bench_fft.Mp.{Number, radix, len, zero_number, zero_expt, compare_digits, abscmp, shift}
use bench_fft.Mp.Digits.{
  value, IsDigit, power-suc, power_pos, value-take-suc, value-take-lt, value-lt,
}
use bench_fft.Mp.Normal.{IsNumber}

-- The three results, with what each says of two values.
abbrev pub Ordered : ℤ → ℕ → ℕ → Type 0
Ordered c x y = ((c ≡ pos 1) × (y < x)) ⊎ ((c ≡ negsuc 0) × (x < y)) ⊎ ((c ≡ pos 0) × (x ≡ y))

higher : (p x y g k : ℕ) → x < p → k < g → x + p * k < y + p * g
higher p x y g k lt less = grind arith

keep_order : (p x y g k : ℕ) (c : ℤ) → g ≡ k → Ordered c x y → Ordered c (x + p * g) (y + p * k)
keep_order p x y g k c e (inl (r, lt)) = inl (r, omega (arith, ap (λ (n : ℕ). p * n) e))
keep_order p x y g k c e (inr (inl (r, lt))) = inr (inl (r, omega (arith, ap (λ (n : ℕ). p * n) e)))
keep_order p x y g k c e (inr (inr (r, q))) = inr (inr (r, omega (arith, ap (λ (n : ℕ). p * n) e)))

digit_step :
    (p x y g k : ℕ) (c : ℤ)
    → x < p
    → y < p
    → Ordered c x y
    → Ordered (if ltb k g then pos 1 else if ltb g k then negsuc 0 else c) (x + p * g) (y + p * k)
digit_step p x y g k c hx hy h = elim (Bool-cases (ltb k g)) [
  | inl more ↦ rw more (inl (refl, higher p y x g k hy (ground arith)))
  | inr not_more ↦ elim (Bool-cases (ltb g k)) [
    | inl less ↦ rw (not_more, less) (inr (inl (refl, higher p x y k g hx (ground arith))))
    | inr not_less ↦ rw (not_more, not_less) (keep_order p x y g k c (ground arith) h)
  ]
]

compare_digits-Ordered :
    (i : ℕ) (a b : List ℕ)
    → All IsDigit a
    → All IsDigit b
    → Ordered (compare_digits a b i) (value (take i a)) (value (take i b))
unfolding compare_digits
compare_digits-Ordered zero a b ha hb = inr (inr (refl, refl))
compare_digits-Ordered (suc i) a b ha hb =
    rw (value-take-suc i a, value-take-suc i b)
      (digit_step (radix ^ i) _ _ _ _ _ (value-take-lt i a ha) (value-take-lt i b hb)
        (compare_digits-Ordered i a b ha hb))

pub value-lt-top : {a : Number} → IsNumber a → value a.d < radix ^ 10
value-lt-top {a} h = omega (arith, value-lt a.d h.digits, ap (λ (k : ℕ). radix ^ k) h.size)

pub value-least : {a : Number} → IsNumber a → 0 < value a.d → radix ^ 9 ≤ value a.d
value-least {a} h positive = large h.normal
  where
    large : (a ≡ zero_number) ⊎ (radix ^ 9 ≤ value a.d) → radix ^ 9 ≤ value a.d
    large (inl e) = absurd (omega (arith, ap (λ (n : Number). value n.d) e))
    large (inr le) = le

-- The mantissa of `b`, shifted down to the exponent of `a`.
abbrev pub shifted : Number → Number → ℕ
shifted a b = value b.d / radix ^ shift a b

-- A smaller exponent means a smaller value.
shifted-lt : (x y k : ℕ) → 0 < k → y < radix ^ 10 → radix ^ 9 ≤ x → y / radix ^ k < x
shifted-lt x y zero h hy hx = absurd (omega arith)
shifted-lt x y (suc k) h hy hx =
    let below =
      (div-lt_iff_lt-mul {k = radix ^ suc k} {x = y} {y = radix ^ 9} (power_pos (suc k))).1
        (omega (arith, power-suc k, power_pos k)) in
    omega arith

-- By `abscmp` the first number is the larger: its exponent is no lower, so the shift is the true
-- difference, and its mantissa is no smaller than the shifted one.
pub record IsLarger (a b : Number) : Type 0 where
  pub exact : pos (shift a b) ≡ a.expt -ℤ b.expt
  pub bounded : shifted a b ≤ value a.d

nonneg_part : (x : ℤ) → pos 0 ≤ℤ x → pos (pos_part x) ≡ x
nonneg_part (pos n) h = refl
nonneg_part (negsuc n) h = absurd (omega arith)

ltb→parts : (x y : ℤ) → ltb_ℤ x y ≡ true → pos_part x + neg_part y < pos_part y + neg_part x
ltb→parts x y h = ltb→lt _ _ h

IsLarger-higher :
    (a b : Number) → IsNumber a → IsNumber b → ltb_ℤ b.expt a.expt ≡ true → IsLarger a b
IsLarger-higher a b ha hb more =
    let above = ltb→parts b.expt a.expt more in
    let diff = nonneg_part (a.expt -ℤ b.expt) (omega int_laws) in
    let far : 0 < shift a b = omega int_laws in
    record {
      exact = diff;
      bounded = le_of_lt (
          shifted-lt (value a.d) (value b.d) (shift a b) far (value-lt-top hb)
            (large ha.normal above));
    }
  where
    large :
        (a ≡ zero_number) ⊎ (radix ^ 9 ≤ value a.d)
        → pos_part b.expt + neg_part a.expt < pos_part a.expt + neg_part b.expt
        → radix ^ 9 ≤ value a.d
    large (inl e) above =
        let low : a.expt ≡ zero_expt = ap (λ (n : Number). n.expt) e in
        absurd (omega (arith, parts_of_eq low, hb.ranged, above))
    large (inr le) above = le

no_self_shift : (y : ℤ) → pos_part (y -ℤ y) ≡ 0
unfolding ◌-ℤ◌
no_self_shift y = ground arith

no_shift : (x y : ℤ) → x ≡ y → pos_part (x -ℤ y) ≡ 0
no_shift x y e = rw e (no_self_shift y)

pub same_shift : (a b : Number) → a.expt ≡ b.expt → shifted a b ≡ value b.d
same_shift a b e = rw (no_shift a.expt b.expt e) (div-one (value b.d))

pub IsLarger-same : (a b : Number) → a.expt ≡ b.expt → value b.d ≤ value a.d → IsLarger a b
IsLarger-same a b e le = record {
  exact = nonneg_part (a.expt -ℤ b.expt) (omega (int_laws, parts_of_eq e));
  bounded = rw (same_shift a b e) le;
}

module _ (a b : Number) (ha : IsNumber a) (hb : IsNumber b) (e : a.expt ≡ b.expt) where
  abbrev Cases : Type 0
  Cases =
      ((compare_digits a.d b.d len ≡ pos 1) × IsLarger a b)
      ⊎ ((compare_digits a.d b.d len ≡ negsuc 0) × IsLarger b a)
      ⊎ ((compare_digits a.d b.d len ≡ pos 0) × (a.expt ≡ b.expt) × (value a.d ≡ value b.d))

  sort_out : Ordered (compare_digits a.d b.d len) (value a.d) (value b.d) → Cases
  sort_out (inl (r, lt)) = inl (r, IsLarger-same a b e (omega arith))
  sort_out (inr (inl (r, lt))) = inr (inl (r, IsLarger-same b a (sym e) (omega arith)))
  sort_out (inr (inr (r, q))) = inr (inr (r, e, q))

  by_digits : Cases
  by_digits = sort_out (
      subst₂ (Ordered (compare_digits a.d b.d len)) (ap value (take-length len a.d ha.size))
        (ap value (take-length len b.d hb.size))
        (compare_digits-Ordered len a.d b.d ha.digits hb.digits))

same_expt : (x y : ℤ) → ltb_ℤ y x ≡ false → ltb_ℤ x y ≡ false → x ≡ y
same_expt x y h k = ground arith

pub abscmp-cases :
    (a b : Number)
    → IsNumber a
    → IsNumber b
    → ((abscmp a b ≡ pos 1) × IsLarger a b)
      ⊎ ((abscmp a b ≡ negsuc 0) × IsLarger b a)
      ⊎ ((abscmp a b ≡ pos 0) × (a.expt ≡ b.expt) × (value a.d ≡ value b.d))
unfolding abscmp
abscmp-cases a b ha hb = elim (Bool-cases (ltb_ℤ b.expt a.expt)) [
  | inl more ↦ rw more (inl (refl, IsLarger-higher a b ha hb more))
  | inr not_more ↦ elim (Bool-cases (ltb_ℤ a.expt b.expt)) [
    | inl less ↦ rw (not_more, less) (inr (inl (refl, IsLarger-higher b a hb ha less)))
    | inr not_less ↦
        rw (not_more, not_less) (by_digits a b ha hb (same_expt a.expt b.expt not_more not_less))
  ]
]

compare_digits_self : (i : ℕ) (d : List ℕ) → compare_digits d d i ≡ pos 0
unfolding compare_digits
compare_digits_self zero d = refl
compare_digits_self (suc i) d = ground (arith, compare_digits_self i d)

pub abscmp_self : (a : Number) → abscmp a a ≡ pos 0
unfolding abscmp
abscmp_self a =
    let same : ltb_ℤ a.expt a.expt ≡ false = ground arith in rw same (compare_digits_self len a.d)
