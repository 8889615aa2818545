-- ===== src/Hermitian/Packed.antt =====
-- The packed format, for even sizes: as in fftpack, with the middle element's real part in the place
-- of the first one's imaginary part.
use native.Mathlib.Nat.{mul-one}
use mathlib.Core.Path.{subst}
use bench_fft.Base.{
  ℕ, ◌+◌, ◌-◌, ◌*◌, ◌/◌, ◌%◌, ◌<◌, ◌≡◌, ◌⊎◌, inl, inr, refl, ap, ◌∙◌, arith, fun_ext, true, ltb,
  ◌==◌, bit_and, and-one, Bool-cases, ==→≡, Buffer, store, store_same, store_other, loop_below,
  IsPaired, pair, pairs-IsPaired,
}
use bench_fft.Base.Real.{Real, Complex, IsUnit}
use bench_fft.Hermitian.{
  size_1d, conjugate, real_number, signed, copy_c2h_1d_packed_strided, copy_h2c_1d_packed_strided,
  copy_c2h_1d_packed, copy_h2c_1d_packed,
}
use bench_fft.Hermitian.Spec.{IsFormat, ran, Layout, IsHalf, IsWhole}
use bench_fft.Hermitian.Halfcomplex.{one_before, positive_test}

abbrev pub IsEven : ℕ → Type 0
IsEven n = (0 < n) × (n % 2 ≡ 0)

pub packed_covers :
    (n j : ℕ)
    → IsEven n
    → j < n
    → (j ≡ 0)
      ⊎ ((k : ℕ) × (0 < k) × (2 * k < n) × (j ≡ 2 * k))
      ⊎ ((k : ℕ) × (0 < k) × (2 * k < n) × (j ≡ 2 * k + 1))
      ⊎ ((k : ℕ) × (0 < k) × (2 * k ≡ n) × (j ≡ 1))
packed_covers n j h lt = elim (Bool-cases (j == 0)) [
  | inl start ↦ inl (==→≡ j 0 start)
  | inr later ↦ elim (Bool-cases (j == 1)) [
    | inl one ↦ inr (inr (inr (n / 2, omega arith, omega arith, ==→≡ j 1 one)))
    | inr more ↦ elim (Bool-cases (j % 2 == 0)) [
      | inl even ↦ inr (inl (j / 2, ground arith, ground arith, ground arith))
      | inr odd ↦ inr (inr (inl (j / 2, ground arith, ground arith, ground arith)))
    ]
  ]
]

abbrev pub packed : Layout
packed = record {
  real_at = λ n k. 2 * k;
  imag_at = λ n k. 2 * k + 1;
  middle_at = λ n. 1;
  IsHeld = IsEven;
  positive = λ n h. h.0;
  covers = packed_covers;
}

even_test : {n : ℕ} → IsEven n → (bit_and n 1 == 0) ≡ true
even_test {n} h = rw (and-one n, h.1)

-- With a stride of 1 the arrays are read cell by cell.
unit_stride :
    {A : Type 0} (buf : Buffer A) (base : ℕ)
    → ◌≡◌ {A = Buffer A} (λ k. buf (base + k * 1)) (λ k. buf (base + k))
unit_stride buf base = fun_ext λ k. ap (λ j. buf (base + j)) (mul-one k)

module _ {R : Type 0} ⦃r : Real R⦄ (n : ℕ) (sign : R) (h : IsEven n) where
  half_test : ltb 0 (n / 2) ≡ true
  half_test = ground arith

  module _ (z : ℕ → Complex R) (pin : ℕ) (mem : Buffer R) where
    abbrev imag_value : ℕ → R
    imag_value k = r.mul (r.neg sign) (z k).im

    abbrev written : Buffer R
    written =
        loop_below (n / 2)
          (pair (λ k. pin + 2 * k * 1) (λ k. pin + (2 * k + 1) * 1) (λ k. (z k).re) imag_value mem)
          mem

    abbrev kept_half : Buffer R
    kept_half = store written (pin + 1) (z (n / 2)).re

    paired :
        IsPaired
          (n / 2)
          (λ k. pin + 2 * k * 1)
          (λ k. pin + (2 * k + 1) * 1)
          (λ k. (z k).re)
          imag_value
          mem
          written
    paired =
        pairs-IsPaired (λ k. pin + 2 * k * 1) (λ k. pin + (2 * k + 1) * 1) (λ k. (z k).re)
          imag_value mem (n / 2)
          (record {
            first = λ i j lt lt' ne e. absurd (ne (omega arith));
            second = λ i j lt lt' ne e. absurd (ne (omega arith));
            across = λ i j lt lt' e. absurd (omega (arith, e));
          })

    kept-IsHalf : IsHalf packed n sign z (λ j. kept_half (pin + j))
    kept-IsHalf = record {
      first =
          store_other written (pin + 1) _ (pin + 0) (λ e. absurd (omega arith))
          ∙ paired.at_first 0 (omega arith);
      real_part = λ k lo hi.
          store_other written (pin + 1) _ (pin + 2 * k) (λ e. absurd (omega arith))
          ∙ ap written (omega arith)
          ∙ paired.at_first k (omega arith);
      imag_part = λ k lo hi.
          store_other written (pin + 1) _ (pin + (2 * k + 1)) (λ e. absurd (omega arith))
          ∙ ap written (omega arith)
          ∙ paired.at_second k (omega arith);
      middle =
          λ k lo e. store_same written (pin + 1) (z (n / 2)).re ∙ ap (λ j. (z j).re) (omega arith);
    }

  module _ (unit : IsUnit sign) (x : ℕ → R) (out : ℕ) (mem : Buffer (Complex R)) where
    abbrev read_value : ℕ → Complex R
    read_value i = signed sign (x (2 * (i + 1))) (x (2 * (i + 1) + 1))

    abbrev mirrored : ℕ → Complex R
    mirrored i = record { re = x (2 * (i + 1)); im = r.mul sign (x (2 * (i + 1) + 1)) }

    abbrev near : ℕ → ℕ
    near i = out + (i + 1) * 1

    abbrev far : ℕ → ℕ
    far i = out + (n - (i + 1)) * 1

    abbrev start : Buffer (Complex R)
    start = store (store mem out (real_number (x 0))) (out + n / 2 * 1) (real_number (x 1))

    abbrev read_back : Buffer (Complex R)
    read_back = loop_below (n / 2 - 1) (pair near far read_value mirrored start) start

    read_pairs : IsPaired (n / 2 - 1) near far read_value mirrored start read_back
    read_pairs = pairs-IsPaired near far read_value mirrored start (n / 2 - 1) (record {
      first = λ i j lt lt' ne e. absurd (ne (omega arith));
      second = λ i j lt lt' ne e. absurd (ne (omega arith));
      across = λ i j lt lt' e. absurd (omega (arith, e));
    })

    value_at : (k : ℕ) → 0 < k → read_value (k - 1) ≡ signed sign (x (2 * k)) (x (2 * k + 1))
    value_at k lo = ap (λ j. signed sign (x (2 * j)) (x (2 * j + 1))) (one_before k lo)

    mirrored_at : (i : ℕ) → mirrored i ≡ conjugate (read_value i)
    mirrored_at i = λ j. record { re = x (2 * (i + 1)); im = unit.opposite (x (2 * (i + 1) + 1)) j }

    read-IsWhole : IsWhole packed n sign x (λ j. read_back (out + j))
    read-IsWhole = record {
      first =
          read_pairs.elsewhere (out + 0)
            (λ i lt. (λ e. absurd (omega arith), λ e. absurd (omega arith)))
          ∙ store_other (store mem out (real_number (x 0))) (out + n / 2 * 1) (real_number (x 1))
              (out + 0) (λ e. absurd (omega arith))
          ∙ ap (store mem out (real_number (x 0))) {x = out + 0} {y = out} (omega arith)
          ∙ store_same mem out (real_number (x 0));
      lower = λ k lo hi.
          ap read_back (omega arith) ∙ read_pairs.at_first (k - 1) (omega arith) ∙ value_at k lo;
      upper = λ k lo hi.
          ap read_back (omega arith)
          ∙ read_pairs.at_second (k - 1) (omega arith)
          ∙ mirrored_at (k - 1)
          ∙ ap conjugate (value_at k lo);
      middle = λ k lo e.
          read_pairs.elsewhere (out + k)
            (λ i lt. (λ f. absurd (omega arith), λ f. absurd (omega arith)))
          ∙ ap start (omega arith)
          ∙ store_same (store mem out (real_number (x 0))) (out + n / 2 * 1) (real_number (x 1));
    }

pub packed-IsFormat :
    {R : Type 0} ⦃r : Real R⦄ → IsFormat {R = R} packed copy_c2h_1d_packed copy_h2c_1d_packed
unfolding copy_c2h_1d_packed copy_h2c_1d_packed copy_c2h_1d_packed_strided
    copy_h2c_1d_packed_strided
packed-IsFormat {R} = record {
  keeps = λ p input sign mem d.
      let kept =
        kept_half (size_1d p) sign d.held (λ k. mem.complexes (input + k * 1)) p.input mem.reals in
      (
        record mem { reals = kept },
        ran d _ ∙ rw (even_test d.held, half_test (size_1d p) sign d.held),
        refl,
        subst (λ z. IsHalf packed (size_1d p) sign z (λ j. kept (p.input + j)))
            (unit_stride mem.complexes input)
            (kept-IsHalf (size_1d p) sign d.held (λ k. mem.complexes (input + k * 1)) p.input
              mem.reals),
      );
  reads = λ p out sign mem unit d.
      let read =
        read_back (size_1d p) sign d.held unit (λ k. mem.reals (p.output + k * 1)) out
          mem.complexes in
      (
        record mem { complexes = read },
        ran d _ ∙ rw (even_test d.held, positive_test d.held.0),
        refl,
        subst (λ x. IsWhole packed (size_1d p) sign x (λ k. read (out + k)))
            (unit_stride mem.reals p.output)
            (read-IsWhole (size_1d p) sign d.held unit (λ k. mem.reals (p.output + k * 1)) out
              mem.complexes),
      );
}
