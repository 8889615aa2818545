-- ===== src/Verify/Symmetry/Blocks.antt =====
-- Arrays of blocks, and `assign_conj` of libbench/verify.c: it fills an array with the mirrored conjugate of
-- another.
use native.Mathlib.Nat.{mul-div_cancel_left, div-lt_iff_lt-mul, mod-lt, div-add-mod'}
use bench_fft.Base.{
  ℕ, suc, ◌+◌, ◌-◌, ◌*◌, ◌/◌, ◌%◌, ◌<◌, ◌≤◌, ◌≡◌, ◌≢◌, ◌⊎◌, refl, sym, ap, ◌∙◌, arith, false, List,
  [], ◌∷◌, Bool-cases, ◌==◌, ==→≡, leb, inl, inr, Buffer, store_same, store_other, loop_below_inv,
  IsWritten,
}
use bench_fft.Base.Real.{Real, Complex}
use bench_fft.Arrays.Laws.{IsDisjoint}
use bench_fft.Arrays.Rows.Laws.{row_below}
use bench_fft.Verify.Rows.{flat_lt}
use bench_fft.Verify.Symmetry.{conj, assign_conj}
use bench_fft.Verify.Symmetry.Mirror.{
  volume, IsPositive, volume-IsPositive, back, back_first, back_later, mirror, mirror_flat,
  mirror_lt,
}

-- Blocks of two arrays that share no cell share none.
pub blocks-IsDisjoint :
    (n0 s a b i j : ℕ)
    → i < n0
    → j < n0
    → IsDisjoint (n0 * s) a b
    → IsDisjoint s (a + i * s) (b + j * s)
blocks-IsDisjoint n0 s a b i j lt lt' (inl left) = inl (omega (arith, row_below i n0 s lt))
blocks-IsDisjoint n0 s a b i j lt lt' (inr right) = inr (omega (arith, row_below j n0 s lt'))

-- Different blocks of an array share no cell.
pub apart_blocks :
    (s b i j k : ℕ) → i ≢ j → k < s → (b + i * s + k < b + j * s) ⊎ (b + j * s + s ≤ b + i * s + k)
apart_blocks s b i j k ne lt = elim (Bool-cases (leb (suc i) j)) [
  | inl below ↦ inl (omega (arith, row_below i j s (ground arith)))
  | inr above ↦ inr (omega (arith, row_below j i s (ground arith)))
]

-- A cell of another block is not written.
pub other_block {ℓ} :
    {A : Type ℓ} {v : ℕ → A} {old new : Buffer A} (s b i j k : ℕ)
    → IsWritten (b + j * s) s v old new
    → i ≢ j
    → k < s
    → new (b + i * s + k) ≡ old (b + i * s + k)
other_block s b i j k w ne lt = w.outside (b + i * s + k) (apart_blocks s b i j k ne lt)

-- A cell outside the array is not in any of its blocks.
pub beyond_blocks :
    (n0 s b j x : ℕ) → j < n0 → (x < b) ⊎ (b + n0 * s ≤ x) → (x < b + j * s) ⊎ (b + j * s + s ≤ x)
beyond_blocks n0 s b j x lt (inl before) = inl (omega arith)
beyond_blocks n0 s b j x lt (inr after) = inr (omega (arith, row_below j n0 s lt))

-- Knowing each block is knowing the array.
pub blocks-IsWritten {ℓ} :
    {A : Type ℓ} {v : ℕ → A} {old new : Buffer A} (n0 s b : ℕ)
    → 1 ≤ s
    → ((j k : ℕ) → j < n0 → k < s → new (b + j * s + k) ≡ v (j * s + k))
    → ((x : ℕ) → (x < b) ⊎ (b + n0 * s ≤ x) → new x ≡ old x)
    → IsWritten b (n0 * s) v old new
blocks-IsWritten {v} {new} n0 s b pos known outside = record {
  inside = λ q lt.
      let block_lt = (div-lt_iff_lt-mul {k = s} {x = q} {y = n0} pos).1 lt in
      ap new {x = b + q} {y = b + q / s * s + q % s} (omega (arith, div-add-mod' q s))
      ∙ known (q / s) (q % s) block_lt (mod-lt q {m = s} pos)
      ∙ ap v (div-add-mod' q s);
  outside = outside;
}

module _ {R : Type 0} ⦃r : Real R⦄ where
  -- After the rounds below `i`: the first block and the last `i` are filled.
  record Filled (n0 : ℕ) (n : List ℕ) (ac a : ℕ) (mem : Buffer (Complex R)) (i : ℕ)
      (m : Buffer (Complex R)) : Type 0 where
    filled :
        (j k : ℕ)
        → j < n0
        → k < volume n
        → (j ≡ 0) ⊎ (n0 - i ≤ j)
        → m (ac + j * volume n + k) ≡ conj (mem (a + (back n0 j * volume n + mirror n k)))
    outside : (x : ℕ) → (x < ac) ⊎ (ac + n0 * volume n ≤ x) → m x ≡ mem x

  module _ (n0 : ℕ) (n : List ℕ) (ac a : ℕ) (mem : Buffer (Complex R)) (pos : IsPositive (n0 ∷ n))
      (apart : IsDisjoint (n0 * volume n) a ac) where
    source_kept :
        (i k : ℕ) (m : Buffer (Complex R)) (t : ℕ)
        → i < n0
        → k < volume n
        → Filled n0 n ac a mem t m
        → m (a + i * volume n + k) ≡ mem (a + i * volume n + k)
    source_kept i k m t lt lt' h = h.outside (a + i * volume n + k) (away apart)
      where
        away :
            IsDisjoint (n0 * volume n) a ac
            → (a + i * volume n + k < ac) ⊎ (ac + n0 * volume n ≤ a + i * volume n + k)
        away (inl left) = inl (omega (arith, flat_lt i k n0 (volume n) lt lt'))
        away (inr right) = inr (omega arith)

    next_block :
        (i : ℕ) (m m' : Buffer (Complex R))
        → suc i < n0
        → Filled n0 n ac a mem i m
        → IsWritten
            (ac + (n0 - suc i) * volume n)
            (volume n)
            (λ k. conj (m (a + suc i * volume n + mirror n k)))
            m
            m'
        → Filled n0 n ac a mem (suc i) m'
    next_block i m m' lt h w = record {
      filled = λ j k lt' lt'' known. elim (Bool-cases (j == n0 - suc i)) [
        | inl now ↦
            let e : j ≡ n0 - suc i = ==→≡ j (n0 - suc i) now in
            let turned : back n0 j ≡ suc i =
              back_later n0 j (omega (arith, e)) lt' ∙ omega (arith, e) in
            ap (λ (b : ℕ). m' (ac + b * volume n + k)) e
            ∙ w.inside k lt''
            ∙ ap conj (
                source_kept (suc i) (mirror n k) m i lt (mirror_lt n k pos.1 lt'') h
                ∙ ap mem {x = a + suc i * volume n + mirror n k}
                    {y = a + (back n0 j * volume n + mirror n k)}
                    (omega (arith, ap (λ (b : ℕ). b * volume n) turned)))
        | inr before ↦
            other_block (volume n) ac j (n0 - suc i) k w (λ e. ground arith) lt''
            ∙ h.filled j k lt' lt'' (still j known before)
      ];
      outside = λ x away.
          w.outside x (beyond_blocks n0 (volume n) ac (n0 - suc i) x (omega arith) away)
          ∙ h.outside x away;
    }
      where
        still :
            (j : ℕ)
            → (j ≡ 0) ⊎ (n0 - suc i ≤ j)
            → (j == n0 - suc i) ≡ false
            → (j ≡ 0) ⊎ (n0 - i ≤ j)
        still j (inl first) ne = inl first
        still j (inr last) ne = inr (ground arith)

    start_block :
        (m : Buffer (Complex R))
        → IsWritten ac (volume n) (λ k. conj (mem (a + mirror n k))) mem m
        → Filled n0 n ac a mem 0 m
    start_block m w = record {
      filled = λ j k lt lt' known.
          let e : j ≡ 0 = at_first j lt known in
          ap m {x = ac + j * volume n + k} {y = ac + k}
            (omega (arith, ap (λ (b : ℕ). b * volume n) e))
          ∙ w.inside k lt'
          ∙ ap (λ x. conj (mem x)) {x = a + mirror n k}
              {y = a + (back n0 j * volume n + mirror n k)}
              (omega (arith, ap (λ (b : ℕ). b * volume n) (ap (back n0) e ∙ back_first n0)));
      outside = λ x away. w.outside x (beyond x away);
    }
      where
        at_first : (j : ℕ) → j < n0 → (j ≡ 0) ⊎ (n0 - 0 ≤ j) → j ≡ 0
        at_first j lt (inl e) = e
        at_first j lt (inr le) = absurd (omega arith)

        beyond : (x : ℕ) → (x < ac) ⊎ (ac + n0 * volume n ≤ x) → (x < ac) ⊎ (ac + volume n ≤ x)
        beyond x (inl before) = inl before
        beyond x (inr after) = inr (omega (arith, row_below 0 n0 (volume n) pos.0))

  -- `assign_conj` stores the conjugate of one array, mirrored in every dimension, in another array that
  -- shares no cell with it, and touches nothing else. The sizes are positive.
  pub assign_conj-IsWritten :
      (n : List ℕ) (size ac a : ℕ) (mem : Buffer (Complex R))
      → IsPositive n
      → size ≡ volume n
      → IsDisjoint (volume n) a ac
      → IsWritten ac (volume n) (λ q. conj (mem (a + mirror n q))) mem (assign_conj n size ac a mem)
  unfolding assign_conj volume mirror
  assign_conj-IsWritten [] size ac a mem h e apart = record {
    inside = λ i lt.
        ap (λ (x : ℕ). assign_conj [] size ac a mem x) {x = ac + i} {y = ac} (omega arith)
        ∙ store_same mem ac (conj (mem a))
        ∙ ap (λ x. conj (mem x)) {x = a} {y = a + 0} (omega arith);
    outside = λ j away. store_other mem ac (conj (mem a)) j (ground arith);
  }
  assign_conj-IsWritten (n0 ∷ n) size ac a mem h e apart =
      let step : size / n0 ≡ volume n =
        ap (λ (x : ℕ). x / n0) e ∙ mul-div_cancel_left (volume n) {n = n0} h.0 in
      let last =
        loop_below_inv (Filled n0 n ac a mem) (n0 - 1) _ (assign_conj n (size / n0) ac a mem)
          (λ i m lt filled. next_block n0 n ac a mem h apart i m _ (omega arith) filled (
            rw step (
              assign_conj-IsWritten n (volume n) (ac + (n0 - suc i) * volume n)
                (a + suc i * volume n) m h.1 refl
                (blocks-IsDisjoint n0 (volume n) a ac (suc i) (n0 - suc i) (omega arith)
                  (omega arith) apart))))
          (start_block n0 n ac a mem h apart _
            (assign_conj-IsWritten n (size / n0) ac a mem h.1 step (first_apart apart))) in
      blocks-IsWritten n0 (volume n) ac (volume-IsPositive n h.1)
        (λ j k lt lt'.
          last.filled j k lt lt' (any_block j)
          ∙ ap (λ x. conj (mem (a + x))) (sym (mirror_flat n0 j k n lt')))
        last.outside
    where
      first_apart : IsDisjoint (n0 * volume n) a ac → IsDisjoint (volume n) a ac
      first_apart (inl left) = inl (omega (arith, row_below 0 n0 (volume n) h.0))
      first_apart (inr right) = inr (omega (arith, row_below 0 n0 (volume n) h.0))

      any_block : (j : ℕ) → (j ≡ 0) ⊎ (n0 - (n0 - 1) ≤ j)
      any_block j = ground arith
