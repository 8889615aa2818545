-- ===== src/Verify/Trials/Slots.antt =====
-- The seven arrays of the tests as one table: what each array holds, and how the array operations of
-- libbench change the table.
pub mod Operations
pub mod Turns
use bench_fft.Base.{
  ℕ, zero, suc, ◌+◌, ◌<◌, ◌≤◌, ◌≡◌, ◌≢◌, ◌⊎◌, inl, inr, refl, sym, ap, ap₂, ◌∙◌, arith, ◌==◌, ==→≡,
  Bool-cases, Buffer, IsWritten, fill-IsWritten, store, store_same, store_other, if◌then◌else◌,
}
use bench_fft.Base.Real.{Real, Complex}
use bench_fft.Base.Outcome.{Returns}
use bench_fft.Problem.{Problem}
use bench_fft.Arrays.Laws.{IsDisjoint, IsAligned}
use bench_fft.Verify.{Session, Driver, do_fft}
use bench_fft.Verify.Trials.{Work}

-- The arrays by number.
abbrev pub slot_in_a : ℕ
slot_in_a = 0

abbrev pub slot_in_b : ℕ
slot_in_b = 1

abbrev pub slot_in_c : ℕ
slot_in_c = 2

abbrev pub slot_out_a : ℕ
slot_out_a = 3

abbrev pub slot_out_b : ℕ
slot_out_b = 4

abbrev pub slot_out_c : ℕ
slot_out_c = 5

abbrev pub slot_tmp : ℕ
slot_tmp = 6

abbrev pub address : Work → ℕ → ℕ
address w zero = w.in_a
address w (suc zero) = w.in_b
address w (suc (suc zero)) = w.in_c
address w (suc (suc (suc zero))) = w.out_a
address w (suc (suc (suc (suc zero)))) = w.out_b
address w (suc (suc (suc (suc (suc zero))))) = w.out_c
address w (suc (suc (suc (suc (suc (suc _)))))) = w.tmp

-- What each array holds.
abbrev pub Table : Type 0 → Type 0
Table R = ℕ → ℕ → Complex R

abbrev pub update : {R : Type 0} → Table R → ℕ → (ℕ → Complex R) → Table R
update table s v t = if s == t then v else table t

-- The arrays share no cell, and none belongs to the driver.
pub record IsLaid (n : ℕ) (mine : ℕ → Type 0) (w : Work) : Type 0 where
  pub apart : (s t : ℕ) → s < 7 → t < 7 → s ≢ t → IsDisjoint n (address w s) (address w t)
  pub own : (s i : ℕ) → s < 7 → i < n → mine (address w s + i)

-- The memory holds what the table says.
abbrev pub Represents : {R : Type 0} → ℕ → Work → Table R → Buffer (Complex R) → Type 0
Represents n w table mem = (s i : ℕ) → s < 7 → i < n → mem (address w s + i) ≡ table s i

-- Two arrays of the table are one, or share no cell.
pub address-IsAligned :
    (n : ℕ) (mine : ℕ → Type 0) (w : Work) (laid : IsLaid n mine w) (s t : ℕ)
    → s < 7
    → t < 7
    → IsAligned n (address w s) (address w t)
address-IsAligned n mine w laid s t lt lt' = elim (Bool-cases (s == t)) [
  | inl same ↦ inl (ap (address w) (==→≡ s t same))
  | inr other ↦ inr (laid.apart s t lt lt' (λ e. ground arith))
]

pub same-Represents :
    {R : Type 0} (n : ℕ) (w : Work) (table : Table R) (mem : Buffer (Complex R)) (s : ℕ)
    → Represents n w table mem
    → Represents n w (update table s (table s)) mem
same-Represents n w table mem s h t i lt below = elim (Bool-cases (s == t)) [
  | inl same ↦ rw same (h t i lt below ∙ ap (λ (u : ℕ). table u i) (sym (==→≡ s t same)))
  | inr other ↦ rw other (h t i lt below)
]

module _ {R : Type 0} (n : ℕ) (mine : ℕ → Type 0) (w : Work) (laid : IsLaid n mine w) where
  -- Writing an array of the table, and no other cell that the driver does not own.
  pub update-Represents :
      (table : Table R) (old new : Buffer (Complex R)) (s : ℕ) (v : ℕ → Complex R)
      → s < 7
      → Represents n w table old
      → ((i : ℕ) → i < n → new (address w s + i) ≡ v i)
      → ((j : ℕ) → mine j → (j < address w s) ⊎ (address w s + n ≤ j) → new j ≡ old j)
      → Represents n w (update table s v) new
  update-Represents table old new s v lt h inside outside t i lt' below =
      elim (Bool-cases (s == t)) [
        | inl same ↦ rw (same, ← ==→≡ s t same) (inside i below)
        | inr other ↦ rw other (
            outside (address w t + i) (laid.own t i lt' below)
              (away (laid.apart s t lt lt' (λ e. ground arith)))
            ∙ h t i lt' below)
      ]
    where
      away :
          IsDisjoint n (address w s) (address w t)
          → (address w t + i < address w s) ⊎ (address w s + n ≤ address w t + i)
      away (inl left) = inr (omega arith)
      away (inr right) = inl (omega arith)

  pub written-Represents :
      (table : Table R) (old new : Buffer (Complex R)) (s : ℕ) (v : ℕ → Complex R)
      → s < 7
      → Represents n w table old
      → IsWritten (address w s) n v old new
      → Represents n w (update table s v) new
  written-Represents table old new s v lt h written =
      update-Represents table old new s v lt h written.inside λ j own away. written.outside j away
