-- ===== src/Verify/Symmetry/Laws.antt =====
-- `mkhermitian` of libbench/verify.c makes an array Hermitian.
use native.Mathlib.Nat.{div-lt_iff_lt-mul, mod-lt, div-add-mod'}
use mathlib.Core.Path.{subst}
use bench_fft.Base.{
  ℕ, suc, ◌+◌, ◌-◌, ◌*◌, ◌/◌, ◌%◌, ◌^◌, ◌<◌, ◌≤◌, ◌≡◌, ◌≢◌, ◌⊎◌, refl, sym, ap, ◌∙◌, arith, List,
  [], ◌∷◌, Bool-cases, ◌==◌, ==→≡, leb, inl, inr, Buffer, store, store_same, store_other,
  loop_below, loop_below_inv, IsWritten,
}
use bench_fft.Base.Real.{Real, Complex}
use bench_fft.Arrays.Rows.Laws.{row_below}
use bench_fft.Verify.Symmetry.{conj, assign_conj, product, pairs_of, mkhermitian}
use bench_fft.Verify.Symmetry.Mirror.{
  volume, IsPositive, volume-IsPositive, product-volume, back, back_first, back_later, mirror,
  mirror_lt, mirror_twice,
}
use bench_fft.Verify.Symmetry.Blocks.{
  apart_blocks, other_block, beyond_blocks, assign_conj-IsWritten,
}

-- Negating zero gives zero, and negating twice gives the number back.
pub record HasNegation (R : Type 0) ⦃r : Real R⦄ : Type 0 where
  pub neg_zero : r.neg r.zero ≡ r.zero
  pub neg_twice : (x : R) → r.neg (r.neg x) ≡ x

module _ {R : Type 0} ⦃r : Real R⦄ where
  -- An array is Hermitian: each element is the conjugate of the one that mirrors it.
  abbrev pub IsHermitian : List ℕ → (ℕ → Complex R) → Type 0
  IsHermitian n x = (q : ℕ) → q < volume n → x (mirror n q) ≡ conj (x q)

  -- Block `j` of the array holds the mirrored conjugate of block `i`.
  abbrev Linked : List ℕ → ℕ → ℕ → ℕ → Buffer (Complex R) → Type 0
  Linked n a i j m =
      (k : ℕ) → k < volume n → m (a + j * volume n + mirror n k) ≡ conj (m (a + i * volume n + k))

  -- Memory differs in one block of the array at most.
  abbrev Elsewhere : List ℕ → ℕ → ℕ → Buffer (Complex R) → Buffer (Complex R) → Type 0
  Elsewhere n a t m m' =
      (x : ℕ) → (x < a + t * volume n) ⊎ (a + t * volume n + volume n ≤ x) → m' x ≡ m x

  Linked-kept :
      (n : List ℕ) (a i j t : ℕ) (m m' : Buffer (Complex R))
      → IsPositive n
      → Elsewhere n a t m m'
      → i ≢ t
      → j ≢ t
      → Linked n a i j m
      → Linked n a i j m'
  Linked-kept n a i j t m m' pos off ne ne' h k lt =
      off (a + j * volume n + mirror n k)
        (apart_blocks (volume n) a j t (mirror n k) ne' (mirror_lt n k pos lt))
      ∙ h k lt
      ∙ ap conj (sym (off (a + i * volume n + k) (apart_blocks (volume n) a i t k ne lt)))

  Linked-assign :
      (n : List ℕ) (a i t : ℕ) (m m' : Buffer (Complex R))
      → IsPositive n
      → i ≢ t
      → IsWritten (a + t * volume n) (volume n) (λ k. conj (m (a + i * volume n + mirror n k))) m m'
      → Linked n a i t m'
  Linked-assign n a i t m m' pos ne w k lt =
      w.inside (mirror n k) (mirror_lt n k pos lt)
      ∙ ap (λ (x : ℕ). conj (m (a + i * volume n + x))) (mirror_twice n k pos lt)
      ∙ ap conj (sym (other_block (volume n) a i t k w ne lt))

  Linked-back :
      (neg : HasNegation R) (n : List ℕ) (a i j : ℕ) (m : Buffer (Complex R))
      → IsPositive n
      → Linked n a i j m
      → Linked n a j i m
  Linked-back neg n a i j m pos h k lt = sym (
      ap conj (
        ap (λ (x : ℕ). m (a + j * volume n + x)) (sym (mirror_twice n k pos lt))
        ∙ h (mirror n k) (mirror_lt n k pos lt))
      ∙ (λ d. record {
        re = (m (a + i * volume n + mirror n k)).re;
        im = neg.neg_twice (m (a + i * volume n + mirror n k)).im d;
      }))

  -- After the rounds below `i`.
  record Halved (n0 : ℕ) (n : List ℕ) (a : ℕ) (mem : Buffer (Complex R)) (i : ℕ)
      (m : Buffer (Complex R)) : Type 0 where
    first : Linked n a 0 0 m
    pairs : (j : ℕ) → 1 ≤ j → j ≤ i → Linked n a j (n0 - j) m
    outside : (x : ℕ) → (x < a) ⊎ (a + n0 * volume n ≤ x) → m x ≡ mem x

  next_pair :
      (n0 : ℕ) (n : List ℕ) (a i : ℕ) (mem m m' : Buffer (Complex R))
      → IsPositive n
      → 2 * suc i < n0
      → IsWritten
          (a + (n0 - suc i) * volume n)
          (volume n)
          (λ k. conj (m (a + suc i * volume n + mirror n k)))
          m
          m'
      → Halved n0 n a mem i m
      → Halved n0 n a mem (suc i) m'
  next_pair n0 n a i mem m m' pos half w h = record {
    first =
        Linked-kept n a 0 0 (n0 - suc i) m m' pos w.outside (λ e. absurd (omega arith))
          (λ e. absurd (omega arith)) h.first;
    pairs = λ j lt le. elim (Bool-cases (j == suc i)) [
      | inl now ↦
          rw (==→≡ j (suc i) now)
            (Linked-assign n a (suc i) (n0 - suc i) m m' pos (λ e. absurd (omega arith)) w)
      | inr before ↦
          Linked-kept n a j (n0 - j) (n0 - suc i) m m' pos w.outside (λ e. absurd (omega arith))
            (λ e. ground arith) (h.pairs j lt (ground arith))
    ];
    outside = λ x away.
        w.outside x (beyond_blocks n0 (volume n) a (n0 - suc i) x (omega arith) away)
        ∙ h.outside x away;
  }

  -- Blocks linked with their partners make the whole array Hermitian.
  linked-IsHermitian :
      (n0 : ℕ) (n : List ℕ) (a : ℕ) (m : Buffer (Complex R))
      → IsPositive (n0 ∷ n)
      → ((j : ℕ) → j < n0 → Linked n a j (back n0 j) m)
      → IsHermitian (n0 ∷ n) (λ q. m (a + q))
  unfolding volume mirror
  linked-IsHermitian n0 n a m pos h q lt =
      let block_lt =
        (div-lt_iff_lt-mul {k = volume n} {x = q} {y = n0} (volume-IsPositive n pos.1)).1 lt in
      let within_lt = mod-lt q {m = volume n} (volume-IsPositive n pos.1) in
      ap m {x = a + (back n0 (q / volume n) * volume n + mirror n (q % volume n))}
        {y = a + back n0 (q / volume n) * volume n + mirror n (q % volume n)} (omega arith)
      ∙ h (q / volume n) block_lt (q % volume n) within_lt
      ∙ ap (λ (x : ℕ). conj (m x)) {x = a + q / volume n * volume n + q % volume n} {y = a + q}
          (omega (arith, div-add-mod' q (volume n)))

  -- An array that is Hermitian, in memory that is as it was elsewhere.
  pub record IsSymmetric (n : List ℕ) (a : ℕ) (old new : Buffer (Complex R)) : Type 0 where
    pub hermitian : IsHermitian n (λ q. new (a + q))
    pub outside : (x : ℕ) → (x < a) ⊎ (a + volume n ≤ x) → new x ≡ old x

  -- The first block, after the call that makes it Hermitian.
  first_half :
      (n0 : ℕ) (n : List ℕ) (a : ℕ) (mem m : Buffer (Complex R))
      → 1 ≤ n0
      → IsSymmetric n a mem m
      → Halved n0 n a mem 0 m
  first_half n0 n a mem m pos h = record {
    first = λ k lt.
        ap m {x = a + 0 * volume n + mirror n k} {y = a + mirror n k} (omega arith)
        ∙ h.hermitian k lt
        ∙ ap (λ (x : ℕ). conj (m x)) {x = a + k} {y = a + 0 * volume n + k} (omega arith);
    pairs = λ j lt le. absurd (omega arith);
    outside = λ x away. h.outside x (beyond x away);
  }
    where
      beyond : (x : ℕ) → (x < a) ⊎ (a + n0 * volume n ≤ x) → (x < a) ⊎ (a + volume n ≤ x)
      beyond x (inl before) = inl before
      beyond x (inr after) = inr (omega (arith, row_below 0 n0 (volume n) pos))

  -- The middle block of an even number, made Hermitian in itself.
  record Centred (n0 : ℕ) (n : List ℕ) (a : ℕ) (mem m : Buffer (Complex R)) : Type 0 where
    half : Halved n0 n a mem (pairs_of n0) m
    middle : 2 * suc (pairs_of n0) ≡ n0 → Linked n a (suc (pairs_of n0)) (suc (pairs_of n0)) m

  with_middle :
      (n0 : ℕ) (n : List ℕ) (a : ℕ) (mem m m' : Buffer (Complex R))
      → IsPositive n
      → 2 * suc (pairs_of n0) ≡ n0
      → IsSymmetric n (a + suc (pairs_of n0) * volume n) m m'
      → Halved n0 n a mem (pairs_of n0) m
      → Centred n0 n a mem m'
  with_middle n0 n a mem m m' pos even h half = record {
    half = record {
      first =
          Linked-kept n a 0 0 (suc (pairs_of n0)) m m' pos h.outside (λ e. absurd (omega arith))
            (λ e. absurd (omega arith)) half.first;
      pairs = λ j lt le.
          Linked-kept n a j (n0 - j) (suc (pairs_of n0)) m m' pos h.outside
            (λ e. absurd (omega arith)) (λ e. absurd (omega arith)) (half.pairs j lt le);
      outside = λ x away.
          h.outside x (beyond_blocks n0 (volume n) a (suc (pairs_of n0)) x (omega arith) away)
          ∙ half.outside x away;
    };
    middle = λ e k lt. h.hermitian k lt;
  }

  -- Every block is linked with its partner: the first and the middle with themselves, a block of the
  -- first half by a round of the loop, and one of the second half because its partner is.
  all_linked :
      (neg : HasNegation R) (n0 : ℕ) (n : List ℕ) (a : ℕ) (mem m : Buffer (Complex R))
      → IsPositive (n0 ∷ n)
      → Centred n0 n a mem m
      → (j : ℕ) → j < n0
      → Linked n a j (back n0 j) m
  all_linked neg n0 n a mem m pos h j lt = elim (Bool-cases (j == 0)) [
    | inl at_first ↦ let e : j ≡ 0 = ==→≡ j 0 at_first in rw (e, back_first n0) h.half.first
    | inr later ↦
        subst (λ b. Linked n a j b m) (sym (back_later n0 j (ground arith) lt))
          (elim (Bool-cases (leb j (pairs_of n0))) [
            | inl low ↦ h.half.pairs j (ground arith) (ground arith)
            | inr high ↦ elim (Bool-cases (2 * suc (pairs_of n0) == n0)) [
              | inl even ↦ upper (ground arith) (ground arith) (inl (ground arith))
              | inr odd ↦ upper (ground arith) (ground arith) (inr (λ e. ground arith))
            ]
          ])
  ]
    where
      upper :
          1 ≤ j
          → pairs_of n0 < j
          → (2 * suc (pairs_of n0) ≡ n0) ⊎ (2 * suc (pairs_of n0) ≢ n0)
          → Linked n a j (n0 - j) m
      upper lt' high parity = elim (Bool-cases (leb (suc (suc (pairs_of n0))) j)) [
        | inl beyond ↦ Linked-back neg n a (n0 - j) j m pos.1 (
            subst (λ b. Linked n a (n0 - j) b m) {x = n0 - (n0 - j)} {y = j} (omega arith)
              (h.half.pairs (n0 - j) (omega arith) (ground arith)))
        | inr next ↦ at_middle (ground arith) parity
      ]
        where
          at_middle :
              j ≡ suc (pairs_of n0)
              → (2 * suc (pairs_of n0) ≡ n0) ⊎ (2 * suc (pairs_of n0) ≢ n0)
              → Linked n a j (n0 - j) m
          at_middle e (inl even) =
              subst (λ b. Linked n a b b m → Linked n a j (n0 - j) m) {x = j} e
                (λ known. subst (λ b. Linked n a j b m) {x = j} (omega arith) known) (h.middle even)
          at_middle e (inr odd) = Linked-back neg n a (n0 - j) j m pos.1 (
              subst (λ b. Linked n a (n0 - j) b m) {x = n0 - (n0 - j)} {y = j} (omega arith)
                (h.half.pairs (n0 - j) (omega arith) (omega arith)))

  -- `mkhermitian` makes the array Hermitian, in all its dimensions, and touches nothing else. The sizes
  -- are positive, their product is below 2^32, and negation obeys the laws of a sign.
  pub mkhermitian-IsHermitian :
      (neg : HasNegation R) (n : List ℕ) (a : ℕ) (mem : Buffer (Complex R))
      → IsPositive n
      → volume n < 2 ^ 32
      → IsSymmetric n a mem (mkhermitian n a mem)
  unfolding mkhermitian volume mirror
  mkhermitian-IsHermitian neg [] a mem pos small = record {
    hermitian = λ q lt.
        ap m {x = a + 0} {y = a} (omega arith)
        ∙ here
        ∙ (λ d. record { re = (mem a).re; im = sym neg.neg_zero d })
        ∙ ap conj (sym here)
        ∙ ap (λ (x : ℕ). conj (m x)) {x = a} {y = a + q} (omega arith);
    outside = λ x away. store_other mem a _ x (ground arith);
  }
    where
      m : Buffer (Complex R)
      m = store mem a (record (mem a) { im = r.zero })

      here : m a ≡ record (mem a) { im = r.zero }
      here = store_same mem a (record (mem a) { im = r.zero })
  mkhermitian-IsHermitian neg (n0 ∷ n) a mem pos small =
      let block_small : volume n < 2 ^ 32 = omega (arith, row_below 0 n0 (volume n) pos.0) in
      let size : product n 1 ≡ volume n =
        product-volume n 1 pos.1 (omega (arith, block_small)) ∙ omega arith in
      let half =
        loop_below_inv (Halved n0 n a mem) (pairs_of n0) round (mkhermitian n a mem)
          (λ i m lt h.
            next_pair n0 n a i mem m (round i m) pos.1 (omega arith)
              ((assign_conj-IsWritten n (volume n) (a + (n0 - suc i) * volume n)
                (a + suc i * volume n) m pos.1 refl
                (inl (omega (arith, row_below (suc i) (n0 - suc i) (volume n) (omega arith))))))
              h)
          (first_half n0 n a mem _ pos.0 (mkhermitian-IsHermitian neg n a mem pos.1 block_small)) in
      elim (Bool-cases (2 * suc (pairs_of n0) == n0)) [
        | inl even ↦
            rw (even, size)
              (whole (
                with_middle n0 n a mem (loop_below (pairs_of n0) round (mkhermitian n a mem)) _
                  pos.1 (==→≡ (2 * suc (pairs_of n0)) n0 even)
                  (mkhermitian-IsHermitian neg n (a + suc (pairs_of n0) * volume n)
                    (loop_below (pairs_of n0) round (mkhermitian n a mem)) pos.1 block_small)
                  half))
        | inr odd ↦ rw (odd, size) (whole (record { half = half; middle = λ e. ground arith }))
      ]
    where
      round : ℕ → Buffer (Complex R) → Buffer (Complex R)
      round i m' = assign_conj n (volume n) (a + (n0 - suc i) * volume n) (a + suc i * volume n) m'

      whole : {m : Buffer (Complex R)} → Centred n0 n a mem m → IsSymmetric (n0 ∷ n) a mem m
      whole {m} h = record {
        hermitian = linked-IsHermitian n0 n a m pos (all_linked neg n0 n a mem m pos h);
        outside = h.half.outside;
      }
