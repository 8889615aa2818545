-- ===== src/Hermitian/Fftpack/Spread.antt =====
-- Spreading the fftpack format over a Hermitian array.
use bench_fft.Base.{
  ℕ, zero, suc, ◌+◌, ◌-◌, ◌*◌, ◌<◌, ◌≡◌, refl, ap, ◌∙◌, arith, ◌==◌, Buffer, store, loop_below,
  pair, if◌then◌else◌,
}
use bench_fft.Base.Real.{Real, Complex}
use bench_fft.Arrays.Rows.{Cursor}
use bench_fft.Hermitian.{rounds, conjugate, real_number, signed, of_fftpack}
use bench_fft.Hermitian.Sweep.{sweep, IsSwept, sweep-IsSwept}
use bench_fft.Hermitian.Spec.{IsWhole}
use bench_fft.Hermitian.Fftpack.{fftpack}

module _ {R : Type 0} ⦃r : Real R⦄ (n : ℕ) (sign : R) (h : 0 < n) where
  module _ (x : ℕ → R) (out : ℕ) (mem : Buffer (Complex R)) where
    abbrev read_value : ℕ → Complex R
    read_value i = signed sign (x (2 * i + 1)) (x (2 * i + 1 + 1))

    abbrev read_start : Buffer (Complex R)
    read_start = store mem out (real_number (x 0))

    abbrev read_rounds : ℕ → Buffer (Complex R)
    read_rounds m =
        loop_below m
          (pair (λ i. out + (i + 1)) (λ i. out + (n - (i + 1))) read_value
            (λ i. conjugate (read_value i)) read_start)
          read_start

    abbrev read_step : ℕ → Cursor (Complex R) → Cursor (Complex R)
    read_step i c = record {
      source = c.source + 2;
      target = c.target;
      mem =
          store (store c.mem (out + (i + 1)) (signed sign (x c.source) (x (c.source + 1))))
            (out + (n - (i + 1))) (conjugate (signed sign (x c.source) (x (c.source + 1))));
    }

    read_at : ℕ → Cursor (Complex R)
    read_at m = record { source = 2 * m + 1; target = out; mem = read_rounds m }

    read_cursor_at :
        (m : ℕ)
        → loop_below m read_step (record { source = 1; target = out; mem = read_start }) ≡ read_at m
    unfolding loop_below read_at
    read_cursor_at zero = refl
    read_cursor_at (suc m) =
        rw (read_cursor_at m)
          λ i. record { source = next_source i; target = out; mem = read_rounds (suc m) }
      where
        next_source : 2 * m + 1 + 2 ≡ 2 * suc m + 1
        next_source = omega arith

    of_fftpack_lem :
        of_fftpack n sign x out mem
        ≡ sweep out n
            (real_number (x 0))
            (real_number (x (2 * rounds n + 1)))
            read_value
            (λ i. conjugate (read_value i))
            mem
    unfolding of_fftpack read_at
    of_fftpack_lem =
        ap
          (λ (c : Cursor (Complex R)).
            if 2 * (rounds n + 1) == n
            then store c.mem (out + (rounds n + 1)) (real_number (x c.source))
            else c.mem)
          (read_cursor_at (rounds n))

    swept-IsWhole :
        (new : Buffer (Complex R))
        → IsSwept out n
            (real_number (x 0))
            (real_number (x (2 * rounds n + 1)))
            read_value
            (λ i. conjugate (read_value i))
            new
        → IsWhole fftpack n sign x (λ j. new (out + j))
    swept-IsWhole new s = record {
      first = ap new (omega arith) ∙ s.first;
      lower = λ k lo hi. s.lower k lo hi ∙ value_at k lo;
      upper = λ k lo hi. s.upper k lo hi ∙ ap conjugate (value_at k lo);
      middle = λ k lo e. s.middle k lo e ∙ ap (λ j. real_number (x j)) (omega arith);
    }
      where
        value_at : (k : ℕ) → 0 < k → read_value (k - 1) ≡ signed sign (x (2 * k - 1)) (x (2 * k))
        value_at k lo = λ i. signed sign (x (at_real i)) (x (at_imag i))
          where
            at_real : 2 * (k - 1) + 1 ≡ 2 * k - 1
            at_real = omega arith

            at_imag : 2 * (k - 1) + 1 + 1 ≡ 2 * k
            at_imag = omega arith

    pub of_fftpack-IsWhole : IsWhole fftpack n sign x (λ j. of_fftpack n sign x out mem (out + j))
    of_fftpack-IsWhole = rw of_fftpack_lem (swept-IsWhole _ (sweep-IsSwept out n _ _ _ _ mem h))
