-- ===== src/Verify/Rows/Shape.antt =====
-- The variables `n_before` and `n_after` of `tf_shift` in libbench/verify.c: the product of the sizes before a
-- dimension, and of those after it.
use native.Mathlib.Nat.{mul_assoc, mul_comm, mul-div_cancel_left, mul-le-mul_right}
use bench_fft.Base.{
  ℕ, zero, suc, ◌*◌, ◌/◌, ◌<◌, ◌≤◌, ◌≡◌, refl, sym, ap, ◌∙◌, arith, List, [], ◌∷◌, length, get_or,
}
use bench_fft.Verify.Symmetry.Mirror.{volume, IsPositive, volume-IsPositive}

unfoldable pub before : List ℕ → ℕ → ℕ
before [] d = 1
before (n0 ∷ n) zero = 1
before (n0 ∷ n) (suc d) = n0 * before n d

unfoldable pub rest : List ℕ → ℕ → ℕ
rest n zero = volume n
rest [] (suc d) = 1
rest (n0 ∷ n) (suc d) = rest n d

pub before_zero : (n : List ℕ) → before n 0 ≡ 1
unfolding before
before_zero [] = refl
before_zero (n0 ∷ n) = refl

pub before-suc : (n : List ℕ) (d : ℕ) → d < length n → before n (suc d) ≡ before n d * get_or n d 0
unfolding before
before-suc [] d lt = absurd (omega arith)
before-suc (n0 ∷ n) zero lt = ap (λ (x : ℕ). n0 * x) (before_zero n) ∙ omega arith
before-suc (n0 ∷ n) (suc d) lt =
    ap (λ (x : ℕ). n0 * x) (before-suc n d (omega arith))
    ∙ sym (mul_assoc n0 (before n d) (get_or n d 0))

pub rest_suc : (n : List ℕ) (d : ℕ) → d < length n → rest n d ≡ get_or n d 0 * rest n (suc d)
unfolding rest volume
rest_suc [] d lt = absurd (omega arith)
rest_suc (n0 ∷ n) zero lt = refl
rest_suc (n0 ∷ n) (suc d) lt = rest_suc n d (omega arith)

pub size-IsPositive : (n : List ℕ) (d : ℕ) → IsPositive n → d < length n → 1 ≤ get_or n d 0
size-IsPositive [] d h lt = absurd (omega arith)
size-IsPositive (n0 ∷ n) zero h lt = h.0
size-IsPositive (n0 ∷ n) (suc d) h lt = size-IsPositive n d h.1 (omega arith)

pub rest-IsPositive : (n : List ℕ) (d : ℕ) → IsPositive n → 1 ≤ rest n d
unfolding rest
rest-IsPositive n zero h = volume-IsPositive n h
rest-IsPositive [] (suc d) h = omega arith
rest-IsPositive (n0 ∷ n) (suc d) h = rest-IsPositive n d h.1

-- The array splits at every dimension.
pub before-rest : (n : List ℕ) (d : ℕ) → before n d * rest n d ≡ volume n
unfolding before rest volume
before-rest [] zero = omega arith
before-rest [] (suc d) = omega arith
before-rest (n0 ∷ n) zero = omega arith
before-rest (n0 ∷ n) (suc d) =
    mul_assoc n0 (before n d) (rest n d) ∙ ap (λ (x : ℕ). n0 * x) (before-rest n d)

pub split-volume :
    (n : List ℕ) (d : ℕ) → d < length n → before n d * get_or n d 0 * rest n (suc d) ≡ volume n
split-volume n d lt =
    mul_assoc (before n d) (get_or n d 0) (rest n (suc d))
    ∙ ap (λ (x : ℕ). before n d * x) (sym (rest_suc n d lt))
    ∙ before-rest n d

-- `n_after /= n_cur;`
pub next_rest :
    (n : List ℕ) (d : ℕ) → IsPositive n → d < length n → rest n d / get_or n d 0 ≡ rest n (suc d)
next_rest n d h lt =
    ap (λ (x : ℕ). x / get_or n d 0) (rest_suc n d lt)
    ∙ mul-div_cancel_left (rest n (suc d)) {n = get_or n d 0} (size-IsPositive n d h lt)

pub factor-le : (a b m : ℕ) → 1 ≤ b → a * b ≡ m → a ≤ m
factor-le a b m pos e = omega (arith, mul_comm a b, e, mul-le-mul_right {m = 1} {n = b} a pos)

pub size-le-volume : (n : List ℕ) (d : ℕ) → IsPositive n → d < length n → get_or n d 0 ≤ volume n
unfolding volume
size-le-volume [] d h lt = absurd (omega arith)
size-le-volume (n0 ∷ n) zero h lt =
    factor-le n0 (volume n) (n0 * volume n) (volume-IsPositive n h.1) refl
size-le-volume (n0 ∷ n) (suc d) h lt = omega (
  arith,
  size-le-volume n d h.1 (omega arith),
  factor-le (volume n) n0 (n0 * volume n) h.0 (mul_comm (volume n) n0),
)

pub before-le-volume : (n : List ℕ) (d : ℕ) → IsPositive n → before n d ≤ volume n
before-le-volume n d h =
    factor-le (before n d) (rest n d) (volume n) (rest-IsPositive n d h) (before-rest n d)
