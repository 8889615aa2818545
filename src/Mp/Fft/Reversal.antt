-- ===== src/Mp/Fft/Reversal.antt =====
-- The counter of `bitrev` in libbench/mp.c counts in the reverse order of its binary digits.
use native.Mathlib.Nat.{pow-suc, one-le-pow}
use bench_fft.Base.{
  ℕ, zero, suc, ◌+◌, ◌*◌, ◌/◌, ◌%◌, ◌^◌, ◌<◌, ◌≤◌, ◌==◌, false, Bool-cases, some, ◌≡◌, inl, inr,
  refl, sym, ap, ◌∙◌, arith,
}
use bench_fft.Base.TopBit.{xor-set, xor-clear, and-clear, and-set, half}
use bench_fft.Mp.Fft.{next_reversed}

-- The number whose `k` binary digits are those of `i` in the reverse order.
unfoldable pub reversed : ℕ → ℕ → ℕ
reversed zero i = 0
reversed (suc k) i = i % 2 * 2 ^ k + reversed k (i / 2)

pub reversed-zero : (k : ℕ) → reversed k 0 ≡ 0
unfolding reversed
reversed-zero zero = refl
reversed-zero (suc k) = omega (arith, reversed-zero k)

pub reversed-lt : (k i : ℕ) → reversed k i < 2 ^ k
unfolding reversed
reversed-lt zero i = omega arith
reversed-lt (suc k) i = elim (Bool-cases (i % 2 == 0)) [
  | inl e ↦
      let low : i % 2 * 2 ^ k ≡ 0 * 2 ^ k =
        ap (λ (d : ℕ). d * 2 ^ k) {x = i % 2} {y = 0} (ground arith) in
      omega (arith, low, reversed-lt k (i / 2), pow-suc 2 k)
  | inr e ↦
      let high : i % 2 * 2 ^ k ≡ 1 * 2 ^ k =
        ap (λ (d : ℕ). d * 2 ^ k) {x = i % 2} {y = 1} (ground arith) in
      omega (arith, high, reversed-lt k (i / 2), pow-suc 2 k)
]

pub reversed-even : (k i : ℕ) → i % 2 ≡ 0 → reversed (suc k) i ≡ reversed k (i / 2)
unfolding reversed
reversed-even k i e =
    let low : i % 2 * 2 ^ k ≡ 0 * 2 ^ k = ap (λ (d : ℕ). d * 2 ^ k) {x = i % 2} {y = 0} e in
    omega (arith, low)

pub reversed-odd : (k i : ℕ) → i % 2 ≡ 1 → reversed (suc k) i ≡ reversed k (i / 2) + 2 ^ k
unfolding reversed
reversed-odd k i e =
    let high : i % 2 * 2 ^ k ≡ 1 * 2 ^ k = ap (λ (d : ℕ). d * 2 ^ k) {x = i % 2} {y = 1} e in
    omega (arith, high)

-- The digit that the loop reaches is not set: it is set, and the loop ends.
stop : (fuel k j : ℕ) → j < 2 ^ k → next_reversed (suc fuel) (2 ^ suc k) j ≡ some (j + 2 ^ k)
unfolding next_reversed
stop fuel k j lt =
    let ne : (2 ^ k == 0) ≡ false = ground (arith, one-le-pow k 2 (omega arith)) in
    rw (half k, xor-set k j lt, and-set k j lt, ne) refl

-- The digit is set: it is cleared, and the loop goes on to the next one.
go_on :
    (fuel k j : ℕ)
    → j < 2 ^ k
    → next_reversed (suc fuel) (2 ^ suc k) (j + 2 ^ k) ≡ next_reversed fuel (2 ^ k) j
unfolding next_reversed
go_on fuel k j lt = rw (half k, xor-clear k j lt, and-clear k j lt) refl

-- For `n = 2 ^ k` and a number `i` below `n - 1`, the loop of `bitrev` that counts ends, and takes `i` with
-- its digits reversed to `i + 1` with its digits reversed.
pub next_reversed-reversed :
    (fuel k i : ℕ)
    → k ≤ fuel
    → suc i < 2 ^ k
    → next_reversed fuel (2 ^ k) (reversed k i) ≡ some (reversed k (suc i))
next_reversed-reversed fuel zero i le lt = absurd (omega arith)
next_reversed-reversed zero (suc k) i le lt = absurd (omega arith)
next_reversed-reversed (suc fuel) (suc k) i le lt = elim (Bool-cases (i % 2 == 0)) [
  | inl e ↦
      ap (next_reversed (suc fuel) (2 ^ suc k)) (reversed-even k i (ground arith))
      ∙ stop fuel k (reversed k (i / 2)) (reversed-lt k (i / 2))
      ∙ ap some (
          ap (λ (h : ℕ). reversed k h + 2 ^ k) {x = i / 2} {y = suc i / 2} (ground arith)
          ∙ sym (reversed-odd k (suc i) (ground arith)))
  | inr e ↦
      ap (next_reversed (suc fuel) (2 ^ suc k)) (reversed-odd k i (ground arith))
      ∙ go_on fuel k (reversed k (i / 2)) (reversed-lt k (i / 2))
      ∙ next_reversed-reversed fuel k (i / 2) (omega arith) (ground (arith, pow-suc 2 k))
      ∙ ap some (
          ap (reversed k) {x = suc (i / 2)} {y = suc i / 2} (ground arith)
          ∙ sym (reversed-even k (suc i) (ground arith)))
]
