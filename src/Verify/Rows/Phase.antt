-- ===== src/Verify/Rows/Phase.antt =====
-- `aphase_shift` of libbench/verify.c multiplies every row by its twiddle factor.
use native.Mathlib.Nat.{add-mul}
use bench_fft.Base.{
  ℕ, suc, ◌+◌, ◌*◌, ◌/◌, ◌%◌, ◌^◌, ◌<◌, ◌≤◌, ◌≡◌, ◌≢◌, sym, ap, ap₂, ◌∙◌, arith, inl, inr, Buffer,
  store_same, store_other, loop_below_inv, IsWritten, one-IsWritten, count-IsWritten,
  nothing-IsWritten,
}
use bench_fft.Base.Real.{Real, Complex, Libm}
use bench_fft.Arrays.{complex_mul}
use bench_fft.Arrays.Laws.{IsDisjoint}
use bench_fft.Verify.{index, twiddle, write_re, shift_cell, shift_row, aphase_shift}
use bench_fft.Verify.Rows.{flat_div, flat_mod, flat_lt, index_lem, kept_apart}

module _ {R : Type 0} ⦃r : Real R⦄ ⦃libm : Libm R⦄ where
  -- The element that comes to place `q`, multiplied by the factor of its row.
  abbrev pub shifted : ℕ → ℕ → R → (ℕ → Complex R) → ℕ → Complex R
  shifted n n_after sign x q = complex_mul (x q) (twiddle n sign (q / n_after % n))

  shift_cell_here :
      (to from : ℕ) (w : Complex R) (m : Buffer (Complex R))
      → to ≢ from
      → shift_cell to from w m to ≡ complex_mul (m from) w
  unfolding shift_cell
  shift_cell_here to from w m ne =
      let m' = write_re to from w m in
      let source : m' from ≡ m from = store_other m to _ from (λ e. ne (sym e)) in
      store_same m' to _
      ∙ ap₂ (λ (x : R) (y : R). record { re = x; im = y })
          (ap (λ (x : Complex R). x.re) (store_same m to _))
          (ap (λ (x : Complex R). r.add (r.mul x.re w.im) (r.mul x.im w.re)) source)

  shift_cell_elsewhere :
      (to from : ℕ) (w : Complex R) (m : Buffer (Complex R)) (j : ℕ)
      → j ≢ to
      → shift_cell to from w m j ≡ m j
  unfolding shift_cell
  shift_cell_elsewhere to from w m j ne =
      store_other (write_re to from w m) to _ j ne ∙ store_other m to _ j ne

  module _ (n_before n n_after a b : ℕ) (sign : R) (old : Buffer (Complex R))
      (fits : n_before * n * n_after ≤ 2 ^ 32)
      (apart : IsDisjoint (n_before * n * n_after) a b) where
    abbrev Phased : ℕ → Buffer (Complex R) → Type 0
    Phased m buf = IsWritten b m (shifted n n_after sign (λ q. old (a + q))) old buf

    one_cell :
        (jb j ja : ℕ) (buf : Buffer (Complex R))
        → jb < n_before
        → j < n
        → ja < n_after
        → Phased ((jb * n + j) * n_after + ja) buf
        → Phased ((jb * n + j) * n_after + suc ja) (
            shift_cell
              (b + index n n_after jb j ja)
              (a + index n n_after jb j ja)
              (twiddle n sign j)
              buf)
    one_cell jb j ja buf lt hj ha h = rw (index_lem n_before n n_after jb j ja fits lt hj ha) (
        count-IsWritten b _ old {n = suc q} (omega arith) (
          one-IsWritten b _ old q buf (shift_cell (b + q) (a + q) (twiddle n sign j) buf) h
            (shift_cell_here (b + q) (a + q) (twiddle n sign j) buf (different apart)
              ∙ ap₂ complex_mul
                  (kept_apart (n_before * n * n_after) q a b q apart (omega (arith, in_range))
                    in_range h)
                  (ap (twiddle n sign) (sym row)))
            λ i ne. shift_cell_elsewhere (b + q) (a + q) (twiddle n sign j) buf i ne))
      where
        q : ℕ
        q = (jb * n + j) * n_after + ja

        in_range : (jb * n + j) * n_after + ja < n_before * n * n_after
        in_range = flat_lt (jb * n + j) ja (n_before * n) n_after (flat_lt jb j n_before n lt hj) ha

        different :
            IsDisjoint (n_before * n * n_after) a b
            → b + ((jb * n + j) * n_after + ja) ≢ a + ((jb * n + j) * n_after + ja)
        different (inl left) e = absurd (omega (arith, in_range))
        different (inr right) e = absurd (omega (arith, in_range))

        row : ((jb * n + j) * n_after + ja) / n_after % n ≡ j
        row = rw (flat_div (jb * n + j) ja n_after ha) (flat_mod jb j n hj)

    one_row :
        (jb j : ℕ) (buf : Buffer (Complex R))
        → jb < n_before
        → j < n
        → Phased ((jb * n + j) * n_after) buf
        → Phased ((jb * n + suc j) * n_after) (shift_row b a n n_after sign jb j buf)
    one_row jb j buf lt hj h =
        count-IsWritten b _ old {n = (jb * n + j) * n_after + n_after}
          (omega (arith, add-mul (jb * n + j) 1 n_after, ap (λ (x : ℕ). x * n_after) flat))
          (loop_below_inv (λ ja m. Phased ((jb * n + j) * n_after + ja) m) n_after _ buf
            (λ ja m ha w. one_cell jb j ja m lt hj ha w)
            (count-IsWritten b _ old {n = (jb * n + j) * n_after} (omega arith) h))
      where
        flat : jb * n + j + 1 ≡ jb * n + suc j
        flat = omega arith

    -- `aphase_shift` stores the old array, each element multiplied by the factor of its row, in the
    -- other array, and touches nothing else: the arrays share no cell and have at most 2^32 elements.
    pub aphase_shift-IsWritten :
        IsWritten b
          (n_before * n * n_after)
          (shifted n n_after sign (λ q. old (a + q)))
          old
          (aphase_shift b a n n_before n_after sign old)
    unfolding aphase_shift
    aphase_shift-IsWritten =
        loop_below_inv (λ jb m. Phased (jb * n * n_after) m) n_before _ old
          (λ jb m lt h.
            count-IsWritten b _ old {n = (jb * n + n) * n_after}
              (ap (λ (x : ℕ). x * n_after) {x = jb * n + n} {y = suc jb * n}
                (omega (arith, add-mul jb 1 n)))
              (loop_below_inv (λ j m'. Phased ((jb * n + j) * n_after) m') n _ m
                (λ j m' hj w. one_row jb j m' lt hj w)
                (count-IsWritten b _ old {n = jb * n * n_after}
                  (ap (λ (x : ℕ). x * n_after) {x = jb * n} (omega arith)) h)))
          (count-IsWritten b _ old {n = 0} (omega arith) (nothing-IsWritten b _ old))
