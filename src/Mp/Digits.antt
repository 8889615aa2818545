-- ===== src/Mp/Digits.antt =====
-- The value of a run of digits to base 65536, and how cutting and indexing act on it.
use native.Mathlib.Nat.{pow-suc, mul_assoc, one-le-pow, div-div-eq-div-mul, div-one, zero-div}
use bench_fft.Base.{
  ℕ, zero, suc, ◌+◌, ◌*◌, ◌/◌, ◌^◌, ◌≤◌, ◌<◌, List, [], ◌∷◌, ◌≡◌, refl, ap, ap₂, sym, ◌∙◌, arith,
  length, get_or, take, drop, replicate, All,
}
use bench_fft.Mp.{radix}

abbrev pub value : List ℕ → ℕ
value [] = 0
value (x ∷ xs) = x + radix * value xs

abbrev pub IsDigit : ℕ → Type 0
IsDigit x = x < radix

pub power-suc : (k : ℕ) → radix ^ suc k ≡ radix * radix ^ k
power-suc k = omega (arith, pow-suc radix k)

pub power_pos : (k : ℕ) → 1 ≤ radix ^ k
power_pos k = one-le-pow k radix (omega arith)

pub value-lt : (xs : List ℕ) → All IsDigit xs → value xs < radix ^ length xs
value-lt [] h = omega arith
value-lt (x ∷ xs) h = omega (arith, value-lt xs h.1, power-suc (length xs))

pub value-take-suc :
    (k : ℕ) (xs : List ℕ) → value (take (suc k) xs) ≡ value (take k xs) + radix ^ k * get_or xs k 0
value-take-suc zero [] = omega arith
value-take-suc zero (x ∷ xs) = omega arith
value-take-suc (suc k) [] = omega arith
value-take-suc (suc k) (x ∷ xs) =
    ap (λ (v : ℕ). x + radix * v) (value-take-suc k xs)
    ∙ omega (
      arith,
      mul_assoc radix (radix ^ k) (get_or xs k 0),
      ap (λ (v : ℕ). v * get_or xs k 0) (power-suc k),
    )

pub get_or-IsDigit : (xs : List ℕ) (k : ℕ) → All IsDigit xs → get_or xs k 0 < radix
get_or-IsDigit [] k h = omega arith
get_or-IsDigit (x ∷ xs) zero h = h.0
get_or-IsDigit (x ∷ xs) (suc k) h = get_or-IsDigit xs k h.1

pub value-take-lt : (k : ℕ) (xs : List ℕ) → All IsDigit xs → value (take k xs) < radix ^ k
value-take-lt zero xs h = omega arith
value-take-lt (suc k) [] h = omega (arith, power_pos (suc k))
value-take-lt (suc k) (x ∷ xs) h = omega (arith, value-take-lt k xs h.1, power-suc k)

pub drop-IsDigit : (k : ℕ) (xs : List ℕ) → All IsDigit xs → All IsDigit (drop k xs)
drop-IsDigit zero xs h = h
drop-IsDigit (suc k) [] h = h
drop-IsDigit (suc k) (x ∷ xs) h = drop-IsDigit k xs h.1

-- Dropping low digits is a division.
pub value-drop : (k : ℕ) (xs : List ℕ) → All IsDigit xs → value (drop k xs) ≡ value xs / radix ^ k
value-drop zero xs h = sym (div-one (value xs))
value-drop (suc k) [] h = sym (zero-div (radix ^ suc k))
value-drop (suc k) (x ∷ xs) h =
    value-drop k xs h.1
    ∙ ap (λ (v : ℕ). v / radix ^ k) (omega (arith, h.0))
    ∙ div-div-eq-div-mul (x + radix * value xs) radix (radix ^ k)
    ∙ ap (λ (v : ℕ). (x + radix * value xs) / v) (sym (power-suc k))

value-replicate : (k : ℕ) → value (replicate k 0) ≡ 0
value-replicate zero = refl
value-replicate (suc k) = omega (arith, value-replicate k)

-- A run of digits is fixed by its length and value.
pub value_injective :
    (xs ys : List ℕ)
    → All IsDigit xs
    → All IsDigit ys
    → length xs ≡ length ys
    → value xs ≡ value ys
    → xs ≡ ys
value_injective [] [] hx hy e v = refl
value_injective [] (y ∷ ys) hx hy e v = absurd (omega arith)
value_injective (x ∷ xs) [] hx hy e v = absurd (omega arith)
value_injective (x ∷ xs) (y ∷ ys) hx hy e v =
    ap₂ ◌∷◌ (omega (arith, hx.0, hy.0))
      (value_injective xs ys hx.1 hy.1 (omega arith) (omega (arith, hx.0, hy.0)))
