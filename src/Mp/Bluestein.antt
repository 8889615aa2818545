-- ===== src/Mp/Bluestein.antt =====
-- The number-theoretic part of Bluestein's algorithm in libbench/mp.c: the length of the convolution,
-- the exponents of the chirp, and the exchange of real and imaginary parts.
pub mod Laws
mod Tests
use bench_fft.Base.{
  ℕ, zero, suc, ◌+◌, ◌-◌, ◌*◌, ltb, Option, none, some, Buffer, store, loop_below, if◌then◌else◌,
}
use bench_fft.Mp.{Number}

-- `for (h = 1; h < x; h = 2 * h);` with fuel; `none` means that the fuel ran out.
unfoldable pub pow2_loop : ℕ → ℕ → ℕ → Option ℕ
pow2_loop zero h x = none
pow2_loop (suc fuel) h x = let rest = pow2_loop fuel (2 * h) x in if ltb h x then rest else some h

-- An `int` has 31 bits besides its sign.
unfoldable pub pow2_atleast : ℕ → Option ℕ
pow2_atleast x = pow2_loop 32 1 x

-- `while (ksq > n2) ksq -= n2;` with fuel.
unfoldable pub reduce : ℕ → ℕ → ℕ → Option ℕ
reduce zero n2 ksq = none
reduce (suc fuel) n2 ksq =
    let rest = reduce fuel n2 (ksq - n2) in if ltb n2 ksq then rest else some ksq

abbrev pub next_ksq : ℕ → ℕ → Option ℕ → Option ℕ
next_ksq n k none = none
next_ksq n k (some ksq) = reduce (ksq + 2 * k) (2 * n) (ksq + 2 * k - 1)

-- `ksq` after `k` rounds of the loop of `bluestein_sequence`, from 1, which stands for (-1)^2. It is
-- never below 1 when 1 is taken off in round 0, and 2 k is positive in the others.
unfoldable pub ksq_after : ℕ → ℕ → Option ℕ
ksq_after n zero = some 1
ksq_after n (suc k) = next_ksq n k (ksq_after n k)

unfoldable pub swapri : ℕ → Buffer Number → Buffer Number
swapri n a = loop_below n (λ i b. store (store b (2 * i) (b (2 * i + 1))) (2 * i + 1) (b (2 * i))) a
