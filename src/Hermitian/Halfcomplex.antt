-- ===== src/Hermitian/Halfcomplex.antt =====
-- The halfcomplex format: real parts upwards from the start, imaginary parts downwards from the end.
use bench_fft.Base.{
  ℕ, ◌+◌, ◌-◌, ◌*◌, ◌/◌, ◌<◌, ◌≡◌, ◌⊎◌, inl, inr, refl, ap, ◌∙◌, arith, true, ltb, ◌==◌, Bool-cases,
  ==→≡, Buffer,
}
use bench_fft.Base.Real.{Real, Complex}
use bench_fft.Hermitian.{
  size_1d, rounds, conjugate, real_number, signed, to_halfcomplex, of_halfcomplex,
  copy_c2h_1d_halfcomplex, copy_h2c_1d_halfcomplex,
}
use bench_fft.Hermitian.Sweep.{IsSwept, sweep-IsSwept}
use bench_fft.Hermitian.Spec.{IsFormat, ran, Layout, IsHalf, IsWhole}

pub halfcomplex_covers :
    (n j : ℕ)
    → 0 < n
    → j < n
    → (j ≡ 0)
      ⊎ ((k : ℕ) × (0 < k) × (2 * k < n) × (j ≡ k))
      ⊎ ((k : ℕ) × (0 < k) × (2 * k < n) × (j ≡ n - k))
      ⊎ ((k : ℕ) × (0 < k) × (2 * k ≡ n) × (j ≡ n / 2))
halfcomplex_covers n j h lt = elim (Bool-cases (j == 0)) [
  | inl start ↦ inl (==→≡ j 0 start)
  | inr later ↦ elim (Bool-cases (ltb (2 * j) n)) [
    | inl low ↦ inr (inl (j, ground arith, ground arith, refl))
    | inr not_low ↦ elim (Bool-cases (2 * j == n)) [
      | inl mid ↦ inr (inr (inr (j, ground arith, ==→≡ _ _ mid, ground arith)))
      | inr high ↦ inr (inr (inl (n - j, ground arith, ground arith, omega arith)))
    ]
  ]
]

abbrev pub halfcomplex : Layout
halfcomplex = record {
  real_at = λ n k. k;
  imag_at = λ n k. n - k;
  middle_at = λ n. n / 2;
  IsHeld = λ n. 0 < n;
  positive = λ n h. h;
  covers = halfcomplex_covers;
}

pub one_before : (k : ℕ) → 0 < k → k - 1 + 1 ≡ k
one_before k h = omega arith

pub middle_round : (n k : ℕ) → 0 < k → 2 * k ≡ n → rounds n + 1 ≡ k
middle_round n k h e = omega arith

pub positive_test : {n : ℕ} → 0 < n → ltb 0 n ≡ true
positive_test h = ground arith

module _ {R : Type 0} ⦃r : Real R⦄ (n : ℕ) (sign : R) (h : 0 < n) where
  swept-IsHalf :
      (z : ℕ → Complex R) (pin : ℕ) (new : Buffer R)
      → IsSwept pin n
          (z 0).re
          (z (rounds n + 1)).re
          (λ i. (z (i + 1)).re)
          (λ i. r.mul (r.neg sign) (z (i + 1)).im)
          new
      → IsHalf halfcomplex n sign z (λ j. new (pin + j))
  swept-IsHalf z pin new s = record {
    first = ap new (omega arith) ∙ s.first;
    real_part = λ k lo hi. s.lower k lo hi ∙ ap (λ j. (z j).re) (one_before k lo);
    imag_part =
        λ k lo hi. s.upper k lo hi ∙ ap (λ j. r.mul (r.neg sign) (z j).im) (one_before k lo);
    middle = λ k lo e.
        ap new (omega arith) ∙ s.middle k lo e ∙ ap (λ j. (z j).re) (middle_round n k lo e);
  }

  to_halfcomplex-IsHalf :
      (z : ℕ → Complex R) (pin : ℕ) (mem : Buffer R)
      → IsHalf halfcomplex n sign z (λ j. to_halfcomplex n sign z pin mem (pin + j))
  unfolding to_halfcomplex
  to_halfcomplex-IsHalf z pin mem =
      rw (positive_test h)
        (swept-IsHalf z pin _ (sweep-IsSwept pin n (z 0).re (z (rounds n + 1)).re _ _ mem h))

  swept-IsWhole :
      (x : ℕ → R) (out : ℕ) (new : Buffer (Complex R))
      → IsSwept out n
          (real_number (x 0))
          (real_number (x (rounds n + 1)))
          (λ i. signed sign (x (i + 1)) (x (n - (i + 1))))
          (λ i. conjugate (signed sign (x (i + 1)) (x (n - (i + 1)))))
          new
      → IsWhole halfcomplex n sign x (λ j. new (out + j))
  swept-IsWhole x out new s = record {
    first = ap new (omega arith) ∙ s.first;
    lower = λ k lo hi. s.lower k lo hi ∙ ap (λ j. signed sign (x j) (x (n - j))) (one_before k lo);
    upper = λ k lo hi.
        s.upper k lo hi ∙ ap (λ j. conjugate (signed sign (x j) (x (n - j)))) (one_before k lo);
    middle = λ k lo e. s.middle k lo e ∙ ap (λ j. real_number (x j)) (omega arith);
  }

  of_halfcomplex-IsWhole :
      (x : ℕ → R) (out : ℕ) (mem : Buffer (Complex R))
      → IsWhole halfcomplex n sign x (λ j. of_halfcomplex n sign x out mem (out + j))
  unfolding of_halfcomplex
  of_halfcomplex-IsWhole x out mem =
      rw (positive_test h) (swept-IsWhole x out _ (sweep-IsSwept out n _ _ _ _ mem h))

-- The format of the two copies.
pub halfcomplex-IsFormat :
    {R : Type 0} ⦃r : Real R⦄
    → IsFormat {R = R} halfcomplex copy_c2h_1d_halfcomplex copy_h2c_1d_halfcomplex
unfolding copy_c2h_1d_halfcomplex copy_h2c_1d_halfcomplex
halfcomplex-IsFormat = record {
  keeps = λ p input sign mem d.
      (_, ran d _, refl, to_halfcomplex-IsHalf (size_1d p) sign d.held _ p.input mem.reals);
  reads = λ p out sign mem unit d.
      (_, ran d _, refl, of_halfcomplex-IsWhole (size_1d p) sign d.held _ out mem.complexes);
}
