-- ===== src/Verify/Rows.antt =====
-- The rows that `arol` and `aphase_shift` of libbench/verify.c work on: an array of `n_before * n` rows of
-- `n_after` elements.
pub mod Shape
pub mod Rotate
pub mod Phase
use native.Mathlib.Nat.{mul-add-div, mul-add-mod_self_left, div-eq_of_lt, mod-eq_of_lt, mul_comm}
use bench_fft.Base.{
  ℕ, zero, suc, ◌+◌, ◌-◌, ◌*◌, ◌/◌, ◌%◌, ◌^◌, ◌<◌, ◌≤◌, ◌≡◌, refl, ap, ap₂, ◌∙◌, arith, Buffer, inl,
  inr, IsWritten,
}
use bench_fft.Arrays.Laws.{IsDisjoint}
use bench_fft.Arrays.Rows.Laws.{row_below}
use bench_fft.Verify.{index, minus_one}

pub flat_div : (i k s : ℕ) → k < s → (i * s + k) / s ≡ i
flat_div i k s lt =
    ap (λ (x : ℕ). (x + k) / s) (mul_comm i s)
    ∙ mul-add-div {m = s} (omega arith) i k
    ∙ omega (arith, div-eq_of_lt lt)

pub flat_mod : (i k s : ℕ) → k < s → (i * s + k) % s ≡ k
flat_mod i k s lt =
    ap (λ (x : ℕ). (x + k) % s) (mul_comm i s) ∙ mul-add-mod_self_left s i k ∙ mod-eq_of_lt lt

pub flat_lt : (i k m s : ℕ) → i < m → k < s → i * s + k < m * s
flat_lt i k m s lt lt' = omega (arith, row_below i m s lt)

-- An index within an array of at most 2^32 elements does not wrap around.
pub index_lem :
    (n_before n n_after ib i ia : ℕ)
    → n_before * n * n_after ≤ 2 ^ 32
    → ib < n_before
    → i < n
    → ia < n_after
    → index n n_after ib i ia ≡ (ib * n + i) * n_after + ia
index_lem n_before n n_after ib i ia fits lt lt' lt'' = mod-eq_of_lt (
    omega
      (arith, flat_lt (ib * n + i) ia (n_before * n) n_after (flat_lt ib i n_before n lt lt') lt''))

pub minus_one_lem : (n : ℕ) → 1 ≤ n → n ≤ 2 ^ 32 → minus_one n ≡ n - 1
minus_one_lem n pos fits = omega arith

-- A cell of an array that shares none with the array written to.
pub kept_apart {ℓ} :
    {A : Type ℓ} {v : ℕ → A} {old buf : Buffer A} (n m a b q : ℕ)
    → IsDisjoint n a b
    → m ≤ n
    → q < n
    → IsWritten b m v old buf
    → buf (a + q) ≡ old (a + q)
kept_apart n m a b q (inl left) le lt w = w.outside (a + q) (inl (omega arith))
kept_apart n m a b q (inr right) le lt w = w.outside (a + q) (inr (omega arith))
