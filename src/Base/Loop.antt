-- ===== src/Base/Loop.antt =====
-- C's counted loops, and buffers: an array of the heap is a function of the index.
use Prim.Native.Nat.{ℕ, zero, suc, ◌<◌}
use native.Mathlib.Omega.{arith}
use bench_fft.Base.Tests.{◌==◌, if◌then◌else◌}

-- `for (i = 0; i < n; ++i) body(i)`: the round `n` comes after the rounds below it.
unfoldable pub loop_below {ℓ} : {S : Type ℓ} → ℕ → (ℕ → S → S) → S → S
loop_below zero body s = s
loop_below (suc n) body s = body n (loop_below n body s)

pub loop_below_inv {ℓ κ} :
    {S : Type ℓ} (P : ℕ → S → Type κ) (n : ℕ) (body : ℕ → S → S) (s : S)
    → ((i : ℕ) (t : S) → i < n → P i t → P (suc i) (body i t))
    → P zero s
    → P n (loop_below n body s)
unfolding loop_below
loop_below_inv P zero body s keep h = h
loop_below_inv P (suc n) body s keep h =
    keep n (loop_below n body s) (omega arith)
      (loop_below_inv P n body s (λ i t lt p. keep i t (omega arith) p) h)

abbrev pub Buffer {ℓ} : Type ℓ → Type ℓ
Buffer A = ℕ → A

-- `buf[i] = v`
abbrev pub store {ℓ} : {A : Type ℓ} → Buffer A → ℕ → A → Buffer A
store buf i v j = if j == i then v else buf j
