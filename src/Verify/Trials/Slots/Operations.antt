-- ===== src/Verify/Trials/Slots/Operations.antt =====
-- The array operations of the tests refine operations on the table of their arrays.
use bench_fft.Base.{
  ℕ, ◌+◌, ◌<◌, ◌≤◌, ◌≡◌, ◌≢◌, ◌⊎◌, refl, ap, ap₂, ◌∙◌, arith, Buffer, inl, inr, store, store_same,
  store_other, ◌==◌, Bool-cases, if◌then◌else◌, IsWritten, values-IsWritten,
}
use bench_fft.Base.Real.{Real, Complex}
use bench_fft.Arrays.{caset, cascale, caadd, complex_add, complex_sub, complex_mul}
use bench_fft.Arrays.Laws.{caadd-IsWritten, cascale-IsWritten, caset-IsWritten}
use bench_fft.Verify.{asub, mkreal}
use bench_fft.Verify.Laws.{asub-IsWritten, mkreal-IsWritten}
use bench_fft.Verify.Trials.{Work}
use bench_fft.Verify.Trials.Slots.{
  Table, IsLaid, Represents, address, address-IsAligned, update, written-Represents,
}

module _ {R : Type 0} ⦃r : Real R⦄ (n : ℕ) (mine : ℕ → Type 0) (w : Work) (laid : IsLaid n mine w)
    (table : Table R) (mem : Buffer (Complex R)) (h : Represents n w table mem) where
  stored :
      (slot : ℕ) {v : ℕ → Complex R} (v' : ℕ → Complex R) {new : Buffer (Complex R)}
      → slot < 7
      → IsWritten (address w slot) n v mem new
      → ((i : ℕ) → i < n → v i ≡ v' i)
      → Represents n w (update table slot v') new
  stored slot {v} v' {new} lt written same =
      written-Represents n mine w laid table mem new slot v' lt h
        (values-IsWritten (address w slot) v mem same written)

  pub caset-Represents :
      (slot : ℕ) (x : Complex R)
      → slot < 7
      → Represents n w (update table slot (λ i. x)) (caset (address w slot) n x mem)
  caset-Represents slot x lt =
      stored slot (λ i. x) lt (caset-IsWritten (address w slot) n x mem) λ i below. refl

  pub cascale-Represents :
      (slot : ℕ) (alpha : Complex R)
      → slot < 7
      → Represents n w
          (update table slot (λ i. complex_mul (table slot i) alpha))
          (cascale (address w slot) n alpha mem)
  cascale-Represents slot alpha lt =
      stored slot _ lt (cascale-IsWritten (address w slot) n alpha mem)
        λ i below. ap (λ x. complex_mul x alpha) (h slot i lt below)

  pub caadd-Represents :
      (c a b : ℕ)
      → c < 7
      → a < 7
      → b < 7
      → Represents n w
          (update table c (λ i. complex_add (table a i) (table b i)))
          (caadd (address w c) (address w a) (address w b) n mem)
  caadd-Represents c a b lt lt' lt'' =
      stored c _ lt
        (caadd-IsWritten (address w c) (address w a) (address w b) n mem
          (address-IsAligned n mine w laid a c lt' lt)
          (address-IsAligned n mine w laid b c lt'' lt))
        λ i below. ap₂ complex_add (h a i lt' below) (h b i lt'' below)

  pub asub-Represents :
      (c a b : ℕ)
      → c < 7
      → a < 7
      → b < 7
      → Represents n w
          (update table c (λ i. complex_sub (table a i) (table b i)))
          (asub (address w c) (address w a) (address w b) n mem)
  asub-Represents c a b lt lt' lt'' =
      stored c _ lt
        (asub-IsWritten (address w c) (address w a) (address w b) n mem
          (address-IsAligned n mine w laid a c lt' lt)
          (address-IsAligned n mine w laid b c lt'' lt))
        λ i below. ap₂ complex_sub (h a i lt' below) (h b i lt'' below)

  pub mkreal-Represents :
      (slot : ℕ)
      → slot < 7
      → Represents n w
          (update table slot (λ i. record (table slot i) { im = r.zero }))
          (mkreal (address w slot) n mem)
  mkreal-Represents slot lt =
      stored slot _ lt (mkreal-IsWritten (address w slot) n mem)
        λ i below. ap (λ (x : Complex R). record x { im = r.zero }) (h slot i lt below)

  -- Storing the first element of an array.
  pub store-Represents :
      (slot : ℕ) (x : Complex R)
      → slot < 7
      → 1 ≤ n
      → Represents n w
          (update table slot (λ i. if i == 0 then x else table slot i))
          (store mem (address w slot) x)
  store-Represents slot x lt pos =
      stored slot {v = λ i. if i == 0 then x else mem (address w slot + i)} _ lt
        (record {
          inside = λ i below. elim (Bool-cases (i == 0)) [
            | inl first ↦ rw first (
                ap (store mem (address w slot) x) {x = address w slot + i} {y = address w slot}
                  (ground arith)
                ∙ store_same mem (address w slot) x)
            | inr later ↦
                rw later
                  (store_other mem (address w slot) x (address w slot + i) (λ e. ground arith))
          ];
          outside = λ j away. store_other mem (address w slot) x j (λ e. outside_slot j away e);
        })
        λ i below. ap (λ y. if i == 0 then x else y) (h slot i lt below)
    where
      outside_slot : (j : ℕ) → (j < address w slot) ⊎ (address w slot + n ≤ j) → j ≢ address w slot
      outside_slot j (inl before) e = absurd (omega arith)
      outside_slot j (inr after) e = absurd (omega arith)
