-- ===== src/Mp/Fft/Involution.antt =====
-- Reversing the binary digits of a number twice gives the number back.
use native.Mathlib.Nat.{pow-suc}
use bench_fft.Base.{
  ℕ, zero, suc, ◌+◌, ◌*◌, ◌/◌, ◌%◌, ◌^◌, ◌<◌, ◌==◌, Bool-cases, ◌≡◌, inl, inr, refl, ap, arith,
}
use bench_fft.Mp.Fft.Reversal.{reversed, reversed-lt, reversed-even, reversed-odd}

one-digit :
    (i : ℕ)
    → i < 1
    → (reversed 1 i ≡ 2 * reversed 0 i) × (reversed 1 (i + 1) ≡ 2 * reversed 0 i + 1)
unfolding reversed
one-digit zero lt = (refl, refl)
one-digit (suc i) lt = absurd (omega arith)

abbrev AtTop : ℕ → ℕ → Type 0
AtTop k i =
    (reversed (suc k) i ≡ 2 * reversed k i) × (reversed (suc k) (i + 2 ^ k) ≡ 2 * reversed k i + 1)

shifted : (k i : ℕ) → reversed (suc k) ((i + 2 ^ suc k) / 2) ≡ reversed (suc k) (i / 2 + 2 ^ k)
shifted k i = ap (reversed (suc k)) {x = (i + 2 ^ suc k) / 2} (omega (arith, pow-suc 2 k))

one_digit_more : (k i : ℕ) → AtTop k (i / 2) → AtTop (suc k) i
one_digit_more k i below = elim (Bool-cases (i % 2 == 0)) [
  | inl e ↦ (
    omega
        (arith, below.0, reversed-even (suc k) i (ground arith), reversed-even k i (ground arith)),
    omega (
      arith,
      below.1,
      shifted k i,
      reversed-even k i (ground arith),
      reversed-even (suc k) (i + 2 ^ suc k) (ground (arith, pow-suc 2 k)),
    ),
  )
  | inr e ↦ (
    omega (
      arith,
      below.0,
      pow-suc 2 k,
      reversed-odd (suc k) i (ground arith),
      reversed-odd k i (ground arith),
    ),
    omega (
      arith,
      below.1,
      shifted k i,
      pow-suc 2 k,
      reversed-odd k i (ground arith),
      reversed-odd (suc k) (i + 2 ^ suc k) (ground (arith, pow-suc 2 k)),
    ),
  )
]

-- A top digit becomes the lowest one.
top : (k i : ℕ) → i < 2 ^ k → AtTop k i
top zero i lt = one-digit i lt
top (suc k) i lt = one_digit_more k i (top k (i / 2) (omega (arith, pow-suc 2 k)))

no-digit : (i : ℕ) → reversed 0 i ≡ 0
unfolding reversed
no-digit i = refl

pub reversed_twice : (k i : ℕ) → i < 2 ^ k → reversed k (reversed k i) ≡ i
reversed_twice zero i lt = omega (arith, no-digit (reversed 0 i))
reversed_twice (suc k) i lt = elim (Bool-cases (i % 2 == 0)) [
  | inl e ↦
      let even : i % 2 ≡ 0 = ground arith in
      omega (
        arith,
        even,
        ap (reversed (suc k)) (reversed-even k i even),
        (top k (reversed k (i / 2)) (reversed-lt k (i / 2))).0,
        reversed_twice k (i / 2) (omega (arith, pow-suc 2 k)),
      )
  | inr e ↦
      let odd : i % 2 ≡ 1 = ground arith in
      omega (
        arith,
        odd,
        ap (reversed (suc k)) (reversed-odd k i odd),
        (top k (reversed k (i / 2)) (reversed-lt k (i / 2))).1,
        reversed_twice k (i / 2) (omega (arith, pow-suc 2 k)),
      )
]
