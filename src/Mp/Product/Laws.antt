-- ===== src/Mp/Product/Laws.antt =====
-- What `mul` returns.
use native.Mathlib.Nat.{mul_comm, mul-le-mul}
use bench_fft.Base.{
  ℕ, ◌-◌, ◌*◌, ◌^◌, ◌≤◌, ◌<◌, ◌≡◌, sym, ◌∙◌, arith, length, replicate, All, List, ◌⊎◌, inl, inr,
}
use bench_fft.Base.Int.{ℤ, ◌+ℤ◌, ◌*ℤ◌, int_laws}
use bench_fft.Mp.{Number, radix, mul, mul_rows}
use bench_fft.Mp.Digits.{value, IsDigit, value_injective, power_pos}
use bench_fft.Mp.Carry.{IsRun}
use bench_fft.Mp.Product.{mul_rows-IsRun}
use bench_fft.Mp.Normal.{IsNumber, IsPacked, used_le, lt-used}
use bench_fft.Mp.Compare.{value-lt-top, value-least}
use bench_fft.Mp.Sum.Magnitude.{Result, packed}
use bench_fft.Mp.Sum.Laws.{product-IsSign, Result-IsNumber}

abbrev product_digits : Number → Number → List ℕ
product_digits a b = mul_rows a.d b.d (replicate 20 0)

product-IsRun :
    (a b : Number) → IsNumber a → IsNumber b → IsRun 20 (value a.d * value b.d) (product_digits a b)
product-IsRun a b ha hb =
    let zeros : All IsDigit (replicate 20 0) = omega arith in
    let run =
      mul_rows-IsRun a.d b.d (replicate 20 0) ha.digits hb.digits zeros
        (omega (arith, ha.size, hb.size)) (omega (arith, power_pos (length b.d))) in
    record { size = run.size; digits = run.digits; total = omega (arith, run.total) }

-- The product of the mantissas is exact in twenty digits, before `pack` keeps the upper ten.
pub mul-Result :
    (a b : Number)
    → IsNumber a
    → IsNumber b
    → Result (value a.d * value b.d) (a.expt +ℤ b.expt) (a.sign *ℤ b.sign) 20 (mul a b)
      × IsNumber (mul a b)
unfolding mul
mul-Result a b ha hb =
    let result =
      packed (product_digits a b) (a.expt +ℤ b.expt) (a.sign *ℤ b.sign) 20 _
        (product-IsRun a b ha hb) in
    (result, Result-IsNumber (product-IsSign a.sign b.sign ha.signed hb.signed) result)

product_digits_comm :
    (a b : Number) → IsNumber a → IsNumber b → product_digits a b ≡ product_digits b a
product_digits_comm a b ha hb =
    let ab = product-IsRun a b ha hb in
    let ba = product-IsRun b a hb ha in
    value_injective _ _ ab.digits ba.digits (omega (arith, ab.size, ba.size))
      (ab.total ∙ mul_comm (value a.d) (value b.d) ∙ sym ba.total)

plus_comm : (x y : ℤ) → x +ℤ y ≡ y +ℤ x
plus_comm x y = omega int_laws

times_comm : (x y : ℤ) → x *ℤ y ≡ y *ℤ x
unfolding ◌*ℤ◌
times_comm x y = ground arith

-- The order of the factors does not matter, though the loops treat them differently.
pub mul_comm_lem : (a b : Number) → IsNumber a → IsNumber b → mul a b ≡ mul b a
unfolding mul
mul_comm_lem a b ha hb =
    rw (product_digits_comm a b ha hb, plus_comm a.expt b.expt, times_comm a.sign b.sign)

-- Two nonzero normal numbers have a nonzero product that keeps at least nineteen of the twenty
-- digits' places: the exponent is the sum of the exponents, or one less.
pub mul_nonzero :
    (a b : Number)
    → IsNumber a
    → IsNumber b
    → 0 < value a.d
    → 0 < value b.d
    → (p : IsPacked (value a.d * value b.d) (a.expt +ℤ b.expt) (a.sign *ℤ b.sign) 20 (mul a b))
      × ((p.used ≡ 19) ⊎ (p.used ≡ 20))
mul_nonzero a b ha hb pa pb = choose (mul-Result a b ha hb).0
  where
    low : radix ^ 18 ≤ value a.d * value b.d
    low = mul-le-mul (value-least ha pa) (value-least hb pb)

    high : value a.d * value b.d < radix ^ 20
    high =
        let a_below : value a.d ≤ radix ^ 10 - 1 = omega (arith, value-lt-top ha) in
        let b_below : value b.d ≤ radix ^ 10 - 1 = omega (arith, value-lt-top hb) in
        omega (arith, mul-le-mul a_below b_below)

    choose :
        Result (value a.d * value b.d) (a.expt +ℤ b.expt) (a.sign *ℤ b.sign) 20 (mul a b)
        → (p : IsPacked (value a.d * value b.d) (a.expt +ℤ b.expt) (a.sign *ℤ b.sign) 20 (mul a b))
          × ((p.used ≡ 19) ⊎ (p.used ≡ 20))
    choose (inl (e, _)) = absurd (omega (arith, low, e))
    choose (inr (_, p)) = (p, bounds (used_le 20 p high) (lt-used 18 p low))
      where
        bounds : {k : ℕ} → k ≤ 20 → 18 < k → (k ≡ 19) ⊎ (k ≡ 20)
        bounds h k = ground arith
