-- ===== src/Hermitian/Fftpack/Gather.antt =====
-- Gathering a Hermitian array in the fftpack format.
use bench_fft.Base.{
  ℕ, zero, suc, ◌+◌, ◌-◌, ◌*◌, ◌<◌, ◌≡◌, ◌≢◌, inl, inr, ap, ◌∙◌, arith, true, ◌==◌, Bool-cases,
  ==→≡, Buffer, store, store_same, store_other, loop_below, IsApart, IsPaired, pair, pairs-IsPaired,
  if◌then◌else◌,
}
use bench_fft.Base.Real.{Real, Complex}
use bench_fft.Arrays.Rows.{Cursor}
use bench_fft.Hermitian.{rounds, to_fftpack}
use bench_fft.Hermitian.Spec.{IsHalf}
use bench_fft.Hermitian.Halfcomplex.{one_before, middle_round}
use bench_fft.Hermitian.Fftpack.{fftpack}

-- The places of a round in the real array at `base`.
abbrev odd_place : ℕ → ℕ → ℕ
odd_place base i = base + (2 * i + 1)

abbrev even_place : ℕ → ℕ → ℕ
even_place base i = base + (2 * i + 2)

in_turn-IsApart : (base m : ℕ) → IsApart m (odd_place base) (even_place base)
in_turn-IsApart base m = record {
  first = λ i j lt lt' ne e. absurd (ne (omega arith));
  second = λ i j lt lt' ne e. absurd (ne (omega arith));
  across = λ i j lt lt' e. absurd (omega (arith, e));
}

module _ {R : Type 0} ⦃r : Real R⦄ (n : ℕ) (sign : R) (h : 0 < n) where
  module _ (z : ℕ → Complex R) (pin : ℕ) (mem : Buffer R) where
    abbrev start : Buffer R
    start = store mem pin (z 0).re

    abbrev real_value : ℕ → R
    real_value i = (z (i + 1)).re

    abbrev imag_value : ℕ → R
    imag_value i = r.mul (r.neg sign) (z (i + 1)).im

    abbrev written : ℕ → Buffer R
    written m =
        loop_below m (pair (odd_place pin) (even_place pin) real_value imag_value start) start

    abbrev step : ℕ → Cursor R → Cursor R
    step i c = record {
      source = c.source + 1;
      target = c.target + 2;
      mem =
          store (store c.mem c.target (z c.source).re) (c.target + 1)
            (r.mul (r.neg sign) (z c.source).im);
    }

    begin : Cursor R
    begin = record { source = 1; target = pin + 1; mem = start }

    at_round : ℕ → Cursor R
    at_round m = record { source = m + 1; target = pin + (2 * m + 1); mem = written m }

    -- The pointers advance with the rounds.
    cursor_at : (m : ℕ) → loop_below m step begin ≡ at_round m
    unfolding loop_below begin at_round
    cursor_at zero = λ i. record { source = 1; target = pin + 1; mem = start }
    cursor_at (suc m) = rw (cursor_at m) λ i. record {
      source = next_source i;
      target = next_target i;
      mem = store (store (written m) (pin + (2 * m + 1)) (real_value m)) (beside i) (imag_value m);
    }
      where
        next_source : m + 1 + 1 ≡ suc m + 1
        next_source = omega arith

        next_target : pin + (2 * m + 1) + 2 ≡ pin + (2 * suc m + 1)
        next_target = omega arith

        beside : pin + (2 * m + 1) + 1 ≡ pin + (2 * m + 2)
        beside = omega arith

    abbrev kept_half : Buffer R
    kept_half =
        if 2 * (rounds n + 1) == n
        then store (written (rounds n)) (pin + (2 * rounds n + 1)) (z (rounds n + 1)).re
        else written (rounds n)

    to_fftpack_lem : to_fftpack n sign z pin mem ≡ kept_half
    unfolding to_fftpack at_round begin
    to_fftpack_lem =
        ap
          (λ (c : Cursor R).
            if 2 * (rounds n + 1) == n then store c.mem c.target (z c.source).re else c.mem)
          (cursor_at (rounds n))

    paired :
        IsPaired
          (rounds n)
          (odd_place pin)
          (even_place pin)
          real_value
          imag_value
          start
          (written (rounds n))
    paired =
        pairs-IsPaired (odd_place pin) (even_place pin) real_value imag_value start (rounds n)
          (in_turn-IsApart pin (rounds n))

    before_last :
        (j : ℕ)
        → (2 * (rounds n + 1) ≡ n → j ≢ pin + (2 * rounds n + 1))
        → kept_half j ≡ written (rounds n) j
    before_last j away = elim (Bool-cases (2 * (rounds n + 1) == n)) [
      | inl even ↦
          rw even
            (store_other (written (rounds n)) (pin + (2 * rounds n + 1)) _ j (away (==→≡ _ _ even)))
      | inr odd ↦ rw odd
    ]

    last_now : 2 * (rounds n + 1) ≡ n → kept_half (pin + (2 * rounds n + 1)) ≡ (z (rounds n + 1)).re
    last_now e =
        let even : (2 * (rounds n + 1) == n) ≡ true = ground arith in
        rw even (store_same (written (rounds n)) (pin + (2 * rounds n + 1)) (z (rounds n + 1)).re)

    kept-IsHalf : IsHalf fftpack n sign z (λ j. kept_half (pin + j))
    kept-IsHalf = record {
      first =
          ap kept_half (omega arith)
          ∙ before_last pin (λ e f. absurd (omega arith))
          ∙ paired.elsewhere pin (λ i lt. (λ e. absurd (omega arith), λ e. absurd (omega arith)))
          ∙ store_same mem pin (z 0).re;
      real_part = λ k lo hi.
          before_last (pin + (2 * k - 1)) (λ e f. absurd (omega arith))
          ∙ ap (written (rounds n)) (omega arith)
          ∙ paired.at_first (k - 1) (omega arith)
          ∙ ap (λ j. (z j).re) (one_before k lo);
      imag_part = λ k lo hi.
          before_last (pin + 2 * k) (λ e f. absurd (omega arith))
          ∙ ap (written (rounds n)) (omega arith)
          ∙ paired.at_second (k - 1) (omega arith)
          ∙ ap (λ j. r.mul (r.neg sign) (z j).im) (one_before k lo);
      middle = λ k lo e.
          ap kept_half (omega arith)
          ∙ last_now (omega arith)
          ∙ ap (λ j. (z j).re) (middle_round n k lo e);
    }

  pub to_fftpack-IsHalf :
      (z : ℕ → Complex R) (pin : ℕ) (mem : Buffer R)
      → IsHalf fftpack n sign z (λ j. to_fftpack n sign z pin mem (pin + j))
  to_fftpack-IsHalf z pin mem = rw (to_fftpack_lem z pin mem) (kept-IsHalf z pin mem)
