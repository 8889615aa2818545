-- ===== src/Arrays/Rows.antt =====
-- The copies that skip the padding of in-place real arrays: copy-c2r-unpacked.c and
-- copy-r2c-unpacked.c of libbench.
pub mod Laws
use bench_fft.Base.{
  ℕ, zero, suc, ◌+◌, ◌-◌, ◌*◌, ◌/◌, ◌%◌, ◌^◌, leb, loop_below, Buffer, store, get_or,
}
use bench_fft.Base.Real.{Real, Complex}
use bench_fft.Base.Outcome.{Outcome, ok, ◌>>=◌, ◌>>◌, bench_assert}
use bench_fft.Problem.{Problem}
use bench_fft.Arrays.{Memory, is_real}

-- The pointers to read and write at, which advance row by row, and the memory written to.
pub record Cursor {ℓ} (A : Type ℓ) : Type ℓ where
  pub source : ℕ
  pub target : ℕ
  pub mem : Buffer A

-- One round of the outer loop: a row of `n` cells, whose values come from memory of another type.
abbrev pub copy_row {ℓ} : {A : Type ℓ} → ℕ → ℕ → ℕ → (ℕ → A) → Cursor A → Cursor A
copy_row n source_step target_step value c = record {
  source = c.source + source_step;
  target = c.target + target_step;
  mem = loop_below n (λ k m. store m (c.target + k) (value (c.source + k))) c.mem;
}

abbrev pub last_size : Problem → ℕ
last_size p = get_or p.dims.n (p.dims.rank - 1) 0

-- `n0 = 1; for (k0 = 0; k0 < p->rank - 1; ++k0) n0 *= p->n[k0];`
unfoldable pub row_count : Problem → ℕ
row_count p = loop_below (p.dims.rank - 1) (λ k0 n0. (n0 * get_or p.dims.n k0 0) % 2 ^ 32) 1

abbrev pub padded : ℕ → ℕ
padded n = 2 * (1 + n / 2)

module _ {R : Type 0} ⦃r : Real R⦄ where
  unfoldable pub copy_c2r_unpacked : Problem → ℕ → Memory R → Outcome (Memory R)
  copy_c2r_unpacked p input mem = do
    bench_assert (leb 1 p.dims.rank)
    bench_assert (is_real p.kind)
    let n = last_size p
    let start : Cursor R = record { source = input; target = p.input; mem = mem.reals }
    ok (record mem {
      reals =
          (loop_below (row_count p) (λ k0 c. copy_row n n (padded n) (λ i. (mem.complexes i).re) c)
            start).mem;
    })

  unfoldable pub copy_r2c_unpacked : Problem → ℕ → Memory R → Outcome (Memory R)
  copy_r2c_unpacked p out mem = do
    bench_assert (leb 1 p.dims.rank)
    bench_assert (is_real p.kind)
    let n = last_size p
    let start : Cursor (Complex R) = record { source = p.output; target = out; mem = mem.complexes }
    ok (record mem {
      complexes =
          (loop_below (row_count p)
            (λ k0 c. copy_row n (padded n) n (λ i. record { re = mem.reals i; im = r.zero }) c)
            start).mem;
    })
