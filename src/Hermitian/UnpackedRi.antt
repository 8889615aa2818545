-- ===== src/Hermitian/UnpackedRi.antt =====
-- The format of copy-c2h-1d-unpacked-ri.c and copy-h2c-1d-unpacked-ri.c of libbench: the real parts
-- of the lower half of a Hermitian array, and after them the imaginary parts.
pub mod Laws
use bench_fft.Base.{ℕ, zero, suc, ◌+◌, ◌-◌, ◌/◌, ltb, loop_below, Buffer, store, if◌then◌else◌}
use bench_fft.Base.Real.{Real, Complex}
use bench_fft.Base.Outcome.{Outcome, ok}
use bench_fft.Problem.{Problem}
use bench_fft.Arrays.{Memory}
use bench_fft.Hermitian.{assert_1d, size_1d, signed}

module _ {R : Type 0} ⦃r : Real R⦄ where
  -- `rpin` is the address of the real parts.
  unfoldable pub to_unpacked_ri : ℕ → R → (ℕ → Complex R) → ℕ → Buffer R → Buffer R
  to_unpacked_ri n sign z rpin mem =
      let ipin = rpin + (n / 2 + 1) in
      loop_below (1 + n / 2)
        (λ k m. store (store m (rpin + k) (z k).re) (ipin + k) (r.mul (r.neg sign) (z k).im)) mem

  unfoldable pub of_unpacked_ri : ℕ → R → (ℕ → R) → ℕ → Buffer (Complex R) → Buffer (Complex R)
  of_unpacked_ri n sign x out mem =
      let ipout = n / 2 + 1 in
      let first = if ltb 0 n then store mem out (signed sign (x 0) (x (ipout + 0))) else mem in
      loop_below (n / 2)
        (λ i m.
          let k = i + 1 in
          store (store m (out + k) (signed sign (x k) (x (ipout + k)))) (out + (n - k))
            (record { re = x k; im = r.mul sign (x (ipout + k)) }))
        first

  unfoldable pub copy_c2h_1d_unpacked_ri : Problem → ℕ → R → Memory R → Outcome (Memory R)
  copy_c2h_1d_unpacked_ri p input sign mem = assert_1d p (
      ok (record mem {
        reals = to_unpacked_ri (size_1d p) sign (λ k. mem.complexes (input + k)) p.input mem.reals;
      }))

  unfoldable pub copy_h2c_1d_unpacked_ri : Problem → ℕ → R → Memory R → Outcome (Memory R)
  copy_h2c_1d_unpacked_ri p out sign mem = assert_1d p (
      ok (record mem {
        complexes =
            of_unpacked_ri (size_1d p) sign (λ k. mem.reals (p.output + k)) out mem.complexes;
      }))
