-- ===== src/Hermitian.antt =====
-- The formats in which one-dimensional real transforms keep half of a Hermitian array: the files
-- copy-c2h-1d-*.c and copy-h2c-1d-*.c of libbench, for halfcomplex, fftpack and packed; UnpackedRi has the fourth.
pub mod Spec
pub mod Sweep
pub mod Halfcomplex
pub mod Fftpack
pub mod Packed
pub mod UnpackedRi
pub mod RoundTrip
mod Tests
use bench_fft.Base.{
  ℕ, zero, suc, ◌+◌, ◌-◌, ◌*◌, ◌/◌, ◌%◌, ltb, ◌==◌, loop_below, Buffer, store, get_or,
  if◌then◌else◌, bit_and,
}
use bench_fft.Base.Real.{Real, Complex}
use bench_fft.Base.Outcome.{Outcome, ok, ◌>>=◌, ◌>>◌, bench_assert}
use bench_fft.Problem.{Problem}
use bench_fft.Arrays.{Memory, is_real}
use bench_fft.Arrays.Rows.{Cursor}

abbrev pub size_1d : Problem → ℕ
size_1d p = get_or p.dims.n 0 0

-- The rounds of `for (k = 1; k < (n + 1) / 2; ++k)`; the loop leaves `k` one past them.
abbrev pub rounds : ℕ → ℕ
rounds n = (n + 1) / 2 - 1

-- `BENCH_ASSERT(p->rank == 1); BENCH_ASSERT(p->kind == PROBLEM_REAL);`
abbrev pub assert_1d : {R : Type 0} → Problem → Outcome (Memory R) → Outcome (Memory R)
assert_1d p rest = bench_assert (p.dims.rank == 1) >> (bench_assert (is_real p.kind) >> rest)

module _ {R : Type 0} ⦃r : Real R⦄ where
  abbrev pub conjugate : Complex R → Complex R
  conjugate z = record { re = z.re; im = r.neg z.im }

  abbrev pub real_number : R → Complex R
  real_number x = record { re = x; im = r.zero }

  abbrev pub signed : R → R → R → Complex R
  signed sign x y = record { re = x; im = r.mul (r.neg sign) y }

  module _ (n : ℕ) (sign : R) (z : ℕ → Complex R) where
    -- The body of `copy_c2h_1d_halfcomplex` for `pin` at an address.
    unfoldable pub to_halfcomplex : ℕ → Buffer R → Buffer R
    to_halfcomplex pin mem =
        let first = if ltb 0 n then store mem pin (z 0).re else mem in
        let looped =
          loop_below (rounds n)
            (λ i m.
              store (store m (pin + (i + 1)) (z (i + 1)).re) (pin + (n - (i + 1)))
                (r.mul (r.neg sign) (z (i + 1)).im))
            first in
        let k = rounds n + 1 in if 2 * k == n then store looped (pin + k) (z k).re else looped

    -- The body of `copy_c2h_1d_fftpack`; the cursor's source is the index that `in` has reached.
    unfoldable pub to_fftpack : ℕ → Buffer R → Buffer R
    to_fftpack pin mem =
        let start : Cursor R = record {
          source = 1;
          target = pin + 1;
          mem = store mem pin (z 0).re;
        } in
        let looped =
          loop_below (rounds n)
            (λ i c. record {
              source = c.source + 1;
              target = c.target + 2;
              mem =
                  store (store c.mem c.target (z c.source).re) (c.target + 1)
                    (r.mul (r.neg sign) (z c.source).im);
            })
            start in
        if 2 * (rounds n + 1) == n
        then store looped.mem looped.target (z looped.source).re
        else looped.mem

  module _ (n : ℕ) (sign : R) (x : ℕ → R) where
    unfoldable pub of_halfcomplex : ℕ → Buffer (Complex R) → Buffer (Complex R)
    of_halfcomplex out mem =
        let first = if ltb 0 n then store mem out (real_number (x 0)) else mem in
        let looped =
          loop_below (rounds n)
            (λ i m.
              let a = signed sign (x (i + 1)) (x (n - (i + 1))) in
              store (store m (out + (i + 1)) a) (out + (n - (i + 1))) (conjugate a))
            first in
        let k = rounds n + 1 in
        if 2 * k == n then store looped (out + k) (real_number (x k)) else looped

    -- The cursor's source is the index that `pout` has reached; `out` does not move.
    unfoldable pub of_fftpack : ℕ → Buffer (Complex R) → Buffer (Complex R)
    of_fftpack out mem =
        let start : Cursor (Complex R) = record {
          source = 1;
          target = out;
          mem = store mem out (real_number (x 0));
        } in
        let looped =
          loop_below (rounds n)
            (λ i c.
              let a = signed sign (x c.source) (x (c.source + 1)) in
              record {
                source = c.source + 2;
                target = c.target;
                mem = store (store c.mem (out + (i + 1)) a) (out + (n - (i + 1))) (conjugate a);
              })
            start in
        let k = rounds n + 1 in
        if 2 * k == n
        then store looped.mem (out + k) (real_number (x looped.source))
        else looped.mem

  unfoldable pub copy_c2h_1d_halfcomplex : Problem → ℕ → R → Memory R → Outcome (Memory R)
  copy_c2h_1d_halfcomplex p input sign mem = assert_1d p (
      ok (record mem {
        reals = to_halfcomplex (size_1d p) sign (λ k. mem.complexes (input + k)) p.input mem.reals;
      }))

  unfoldable pub copy_h2c_1d_halfcomplex : Problem → ℕ → R → Memory R → Outcome (Memory R)
  copy_h2c_1d_halfcomplex p out sign mem = assert_1d p (
      ok (record mem {
        complexes =
            of_halfcomplex (size_1d p) sign (λ k. mem.reals (p.output + k)) out mem.complexes;
      }))

  unfoldable pub copy_c2h_1d_fftpack : Problem → ℕ → R → Memory R → Outcome (Memory R)
  copy_c2h_1d_fftpack p input sign mem = assert_1d p (
      ok (record mem {
        reals = to_fftpack (size_1d p) sign (λ k. mem.complexes (input + k)) p.input mem.reals;
      }))

  unfoldable pub copy_h2c_1d_fftpack : Problem → ℕ → R → Memory R → Outcome (Memory R)
  copy_h2c_1d_fftpack p out sign mem = assert_1d p (
      ok (record mem {
        complexes = of_fftpack (size_1d p) sign (λ k. mem.reals (p.output + k)) out mem.complexes;
      }))

  unfoldable pub copy_c2h_1d_packed_strided : ℕ → ℕ → ℕ → ℕ → ℕ → R → Memory R → Outcome (Memory R)
  copy_c2h_1d_packed_strided n pin rstride input cstride sign mem = do
    bench_assert (bit_and n 1 == 0)
    let z : ℕ → Complex R = λ k. mem.complexes (input + k * cstride)
    let looped =
        loop_below (n / 2)
          (λ k m.
            store (store m (pin + 2 * k * rstride) (z k).re) (pin + (2 * k + 1) * rstride)
              (r.mul (r.neg sign) (z k).im))
          mem.reals
    ok (record mem {
      reals = if ltb 0 (n / 2) then store looped (pin + 1 * rstride) (z (n / 2)).re else looped;
    })

  unfoldable pub copy_c2h_1d_packed : Problem → ℕ → R → Memory R → Outcome (Memory R)
  copy_c2h_1d_packed p input sign mem =
      assert_1d p (copy_c2h_1d_packed_strided (size_1d p) p.input 1 input 1 sign mem)

  unfoldable pub copy_h2c_1d_packed_strided : ℕ → ℕ → ℕ → ℕ → ℕ → R → Memory R → Outcome (Memory R)
  copy_h2c_1d_packed_strided n pout rstride out cstride sign mem = do
    bench_assert (bit_and n 1 == 0)
    let x : ℕ → R = λ j. mem.reals (pout + j * rstride)
    let first =
        if ltb 0 n
        then store (store mem.complexes out (real_number (x 0))) (out + n / 2 * cstride)
            (real_number (x 1))
        else mem.complexes
    ok (record mem {
      complexes =
          loop_below (n / 2 - 1)
            (λ i m.
              let re = x (2 * (i + 1)) in
              let im = x (2 * (i + 1) + 1) in
              store (store m (out + (i + 1) * cstride) (signed sign re im))
                (out + (n - (i + 1)) * cstride) (record { re = re; im = r.mul sign im }))
            first;
    })

  unfoldable pub copy_h2c_1d_packed : Problem → ℕ → R → Memory R → Outcome (Memory R)
  copy_h2c_1d_packed p out sign mem =
      assert_1d p (copy_h2c_1d_packed_strided (size_1d p) p.output 1 out 1 sign mem)
