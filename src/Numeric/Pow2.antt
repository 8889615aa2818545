-- ===== src/Numeric/Pow2.antt =====
-- libbench/pow2.c and libbench/log2.c.
pub mod Laws
use bench_fft.Base.{
  ℕ, zero, suc, ◌+◌, ◌-◌, ◌*◌, ◌/◌, ◌^◌, ◌<◌, ◌≤◌, bit_and, Bool, true, false, ◌&&◌, ltb, ◌==◌, ◌≡◌,
  ◌↔◌, refl, arith, if◌then◌else◌, Option, none, some,
}

unfoldable pub power_of_two : ℕ → Bool
power_of_two n = ltb 0 n && bit_and n (n - 1) == 0

-- `while (n > 1) { ++m; n >>= 1; }` with fuel; `none` means that the fuel ran out.
log_2_loop : ℕ → ℕ → ℕ → Option ℕ
log_2_loop zero m n = none
log_2_loop (suc fuel) m n =
    let rest = log_2_loop fuel (m + 1) (n / 2) in if ltb 1 n then rest else some m

-- An `unsigned int` has 32 bits, so 32 rounds are enough.
unfoldable pub log_2 : ℕ → Option ℕ
unfolding log_2_loop
log_2 n = log_2_loop 33 0 n
