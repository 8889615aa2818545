-- ===== src/Verify/Symmetry.antt =====
-- `assign_conj` and `mkhermitian` of libbench/verify.c, which make an array Hermitian. The dimensions that
-- are left are the list; each is below 2^31.
pub mod Mirror
pub mod Blocks
pub mod Laws
use bench_fft.Base.{
  ℕ, suc, ◌+◌, ◌-◌, ◌*◌, ◌/◌, ◌%◌, ◌^◌, ◌==◌, loop_below, Buffer, store, if◌then◌else◌, List, [],
  ◌∷◌,
}
use bench_fft.Base.Real.{Real, Complex}

-- `for (i = 0, size = 1; i < rank; ++i) size *= n[i];`
unfoldable pub product : List ℕ → ℕ → ℕ
product [] size = size
product (n0 ∷ n) size = product n ((size * n0) % 2 ^ 32)

-- The rounds `i = 1, 2, ...` while `2 * i < n0`; the variable ends one above them.
abbrev pub pairs_of : ℕ → ℕ
pairs_of n0 = (n0 - 1) / 2

module _ {R : Type 0} ⦃r : Real R⦄ where
  abbrev pub conj : Complex R → Complex R
  conj x = record { re = x.re; im = r.neg x.im }

  unfoldable pub assign_conj : List ℕ → ℕ → ℕ → ℕ → Buffer (Complex R) → Buffer (Complex R)
  assign_conj [] size ac a mem = store mem ac (conj (mem a))
  assign_conj (n0 ∷ n) size ac a mem =
      let step = size / n0 in
      loop_below (n0 - 1)
        (λ i m. assign_conj n step (ac + (n0 - suc i) * step) (a + suc i * step) m)
        (assign_conj n step ac a mem)

  unfoldable pub mkhermitian : List ℕ → ℕ → Buffer (Complex R) → Buffer (Complex R)
  mkhermitian [] a mem = store mem a (record (mem a) { im = r.zero })
  mkhermitian (n0 ∷ n) a mem =
      let size = product n 1 in
      let last = suc (pairs_of n0) in
      let m =
        loop_below (pairs_of n0)
          (λ i m'. assign_conj n size (a + (n0 - suc i) * size) (a + suc i * size) m')
          (mkhermitian n a mem) in
      let middle = mkhermitian n (a + last * size) m in if 2 * last == n0 then middle else m
