-- ===== src/Mp/Product.antt =====
-- The loops of `mul` compute the exact product of two runs of digits.
pub mod Laws
use native.Mathlib.Nat.{mul-add, add-mul, mul_assoc, mul_comm, mul_left_comm}
use bench_fft.Base.{
  ℕ, zero, suc, ◌+◌, ◌-◌, ◌*◌, ◌/◌, ◌%◌, ◌^◌, ◌≤◌, ◌<◌, List, [], ◌∷◌, ◌≡◌, refl, ap, sym, ◌∙◌,
  arith, length, All, inl, inr, Bool-cases, ◌==◌, if◌then◌else◌, Bool, true, false,
}
use bench_fft.Mp.{radix, acc, lo, hi, mul_row, mul_rows}
use bench_fft.Mp.Digits.{value, IsDigit, power-suc, power_pos, value-lt}
use bench_fft.Mp.Carry.{IsRun}

digit_product : (a b : ℕ) → a < radix → b < radix → a * b ≤ 4294836225
digit_product a b ha hb = grind arith

-- In the round for `ai`, the digits of `d` above the length of `b` are still zero.
mul_row-IsRun :
    (ai : ℕ) (bl d : List ℕ) (r : ℕ)
    → ai < radix
    → All IsDigit bl
    → All IsDigit d
    → length bl < length d
    → value d < radix ^ length bl
    → r < radix
    → IsRun (length d) (value d + ai * value bl + r) (mul_row ai bl d r)
unfolding mul_row
mul_row-IsRun ai [] [] r hai hb hd le lt hr = absurd (omega arith)
mul_row-IsRun ai (b ∷ bl) [] r hai hb hd le lt hr = absurd (omega arith)
mul_row-IsRun ai [] (x ∷ d) r hai hb hd le lt hr = record {
  size = refl;
  digits = (omega arith, hd.1);
  total = omega arith;
}
mul_row-IsRun ai (b ∷ bl) (x ∷ d) r hai hb hd le lt hr =
    let bound = digit_product ai b hai hb.0 in
    let s = acc (r + (ai * b + x)) in
    let rest =
      mul_row-IsRun ai bl d (hi s) hai hb.1 hd.1 (omega arith)
        (omega (arith, power-suc (length bl))) (omega arith) in
    record {
      size = omega (arith, rest.size);
      digits = (omega arith, rest.digits);
      total =
          omega
            (arith, rest.total, mul-add ai b (radix * value bl), mul_left_comm ai radix (value bl));
    }

row_bound : (p ai v vb : ℕ) → ai < radix → v < p → vb < p → v + ai * vb + 0 < radix * p
row_bound p ai v vb hai hv hb = grind arith

zero_row :
    (ai : ℕ) (bl d : List ℕ)
    → ai < radix
    → All IsDigit bl
    → All IsDigit d
    → length bl < length d
    → value d < radix ^ length bl
    → IsRun (length d) (value d + ai * value bl) (if ai == 0 then d else mul_row ai bl d 0)
zero_row ai bl d hai hb hd le lt = elim (Bool-cases (ai == 0)) [
  | inl vanishes ↦
      let absent : ai ≡ 0 = ground arith in
      rw vanishes (record {
        size = refl;
        digits = hd;
        total = omega (arith, ap (λ (x : ℕ). x * value bl) absent);
      })
  | inr counts ↦
      let run = mul_row-IsRun ai bl d 0 hai hb hd le lt (omega arith) in
      rw counts (record { size = run.size; digits = run.digits; total = omega (arith, run.total) })
]

module _ (ai : ℕ) (al bl d : List ℕ) (hai : ai < radix) (hb : All IsDigit bl)
    (e : suc (length al) + length bl ≡ length d) (lt : value d < radix ^ length bl)
    (again : (d' : List ℕ)
      → All IsDigit d'
      → length al + length bl ≡ length d'
      → value d' < radix ^ length bl
      → IsRun (length d') (value d' + value al * value bl) (mul_rows al bl d')) where
  next_row :
      (row : List ℕ)
      → IsRun (length d) (value d + ai * value bl) row
      → IsRun
          (length d)
          (value d + (ai + radix * value al) * value bl)
          (elim row [ [] ↦ [] | x ∷ rest ↦ x ∷ mul_rows al bl rest ])
  next_row [] run = absurd (omega (arith, run.size))
  next_row (x ∷ rest) run =
      let whole = row_bound (radix ^ length bl) ai (value d) (value bl) hai lt (value-lt bl hb) in
      let bound : value rest < radix ^ length bl = omega (arith, run.total) in
      let below = again rest run.digits.1 (omega (arith, run.size)) bound in
      record {
        size = omega (arith, below.size, run.size);
        digits = (run.digits.0, below.digits);
        total = omega (
          arith,
          below.total,
          run.total,
          add-mul ai (radix * value al) (value bl),
          mul_assoc radix (value al) (value bl),
        );
      }

pub mul_rows-IsRun :
    (al bl d : List ℕ)
    → All IsDigit al
    → All IsDigit bl
    → All IsDigit d
    → length al + length bl ≡ length d
    → value d < radix ^ length bl
    → IsRun (length d) (value d + value al * value bl) (mul_rows al bl d)
unfolding mul_rows
mul_rows-IsRun [] bl d ha hb hd e lt = record { size = refl; digits = hd; total = omega arith }
mul_rows-IsRun (ai ∷ al) bl d ha hb hd e lt =
    next_row ai al bl d ha.0 hb e lt (λ d' hd' e' lt'. mul_rows-IsRun al bl d' ha.1 hb hd' e' lt')
      (if ai == 0 then d else mul_row ai bl d 0) (zero_row ai bl d ha.0 hb hd (omega arith) lt)
