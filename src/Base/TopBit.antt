-- ===== src/Base/TopBit.antt =====
-- `^` and `&` with a power of two: the digit that it stands for is turned over, or read.
use Prim.Native.Nat.{
  ℕ, zero, suc, ◌+◌, ◌*◌, ◌/◌, ◌%◌, ◌^◌, ◌≤◌, ◌<◌, differ, bit_and, bit_xor, digits,
  bit_xor-bitwise,
}
use mathlib.Core.Path.{◌≡◌, refl, ap₂}
use native.Mathlib.Nat.{pow-suc}
use native.Mathlib.Omega.{arith}
use bench_fft.Base.Bits.{and_low}

abbrev xor_digits : ℕ → ℕ → ℕ → ℕ
xor_digits = digits (λ b. b) differ

xor_digits-zero : (f b : ℕ) → xor_digits f zero b ≡ b
xor_digits-zero zero b = refl
xor_digits-zero (suc f) b = refl

-- Any two fuels that cover the first argument agree.
xor_digits_stable : (f g a b : ℕ) → a ≤ f → a ≤ g → xor_digits f a b ≡ xor_digits g a b
xor_digits_stable f g zero b p q = omega (arith, xor_digits-zero f b, xor_digits-zero g b)
xor_digits_stable zero g (suc a) b p q = absurd (omega arith)
xor_digits_stable (suc f) zero (suc a) b p q = absurd (omega arith)
xor_digits_stable (suc f) (suc g) (suc a) b p q =
    omega (arith, xor_digits_stable f g (suc a / 2) (b / 2) (omega arith) (omega arith))

differ-zero : (x : ℕ) → differ x 0 ≡ x
differ-zero zero = refl
differ-zero (suc x) = refl

xor_low : (a b : ℕ) → bit_xor a b ≡ 2 * bit_xor (a / 2) (b / 2) + differ (a % 2) (b % 2)
xor_low zero b = omega (arith, bit_xor-bitwise 0 b, bit_xor-bitwise 0 (b / 2))
xor_low (suc a) b =
    let stable = xor_digits_stable a (suc a / 2) (suc a / 2) (b / 2) (omega arith) (omega arith) in
    omega (arith, bit_xor-bitwise (suc a) b, bit_xor-bitwise (suc a / 2) (b / 2), stable)

-- The halves of two numbers, of which the second is even.
xor_halves :
    (a b a' b' : ℕ) → a / 2 ≡ a' → b / 2 ≡ b' → b % 2 ≡ 0 → bit_xor a b ≡ 2 * bit_xor a' b' + a % 2
xor_halves a b a' b' p q e =
    omega (arith, xor_low a b, ap₂ bit_xor p q, ap₂ differ {x = a % 2} refl e, differ-zero (a % 2))

and_halves : (a b a' b' : ℕ) → a / 2 ≡ a' → b / 2 ≡ b' → b % 2 ≡ 0 → bit_and a b ≡ 2 * bit_and a' b'
and_halves a b a' b' p q e = omega (arith, and_low a b, ap₂ bit_and p q)

pub half : (k : ℕ) → 2 ^ suc k / 2 ≡ 2 ^ k
half k = omega (arith, pow-suc 2 k)

even : (k : ℕ) → 2 ^ suc k % 2 ≡ 0
even k = omega (arith, pow-suc 2 k)

pub xor-set : (k j : ℕ) → j < 2 ^ k → bit_xor j (2 ^ k) ≡ j + 2 ^ k
xor-set zero zero lt = refl
xor-set zero (suc j) lt = absurd (omega arith)
xor-set (suc k) j lt = omega (
  arith,
  lt,
  pow-suc 2 k,
  xor_halves j (2 ^ suc k) (j / 2) (2 ^ k) refl (half k) (even k),
  xor-set k (j / 2) (omega (arith, pow-suc 2 k)),
)

pub xor-clear : (k j : ℕ) → j < 2 ^ k → bit_xor (j + 2 ^ k) (2 ^ k) ≡ j
xor-clear zero zero lt = refl
xor-clear zero (suc j) lt = absurd (omega arith)
xor-clear (suc k) j lt = omega (
  arith,
  lt,
  pow-suc 2 k,
  xor_halves (j + 2 ^ suc k) (2 ^ suc k) (j / 2 + 2 ^ k) (2 ^ k) (omega (arith, pow-suc 2 k))
      (half k) (even k),
  xor-clear k (j / 2) (omega (arith, pow-suc 2 k)),
)

pub and-clear : (k j : ℕ) → j < 2 ^ k → bit_and j (2 ^ k) ≡ 0
and-clear zero zero lt = refl
and-clear zero (suc j) lt = absurd (omega arith)
and-clear (suc k) j lt = omega (
  arith,
  and_halves j (2 ^ suc k) (j / 2) (2 ^ k) refl (half k) (even k),
  and-clear k (j / 2) (omega (arith, pow-suc 2 k)),
)

pub and-set : (k j : ℕ) → j < 2 ^ k → bit_and (j + 2 ^ k) (2 ^ k) ≡ 2 ^ k
and-set zero zero lt = refl
and-set zero (suc j) lt = absurd (omega arith)
and-set (suc k) j lt = omega (
  arith,
  lt,
  pow-suc 2 k,
  and_halves (j + 2 ^ suc k) (2 ^ suc k) (j / 2 + 2 ^ k) (2 ^ k) (omega (arith, pow-suc 2 k))
      (half k) (even k),
  and-set k (j / 2) (omega (arith, pow-suc 2 k)),
)
