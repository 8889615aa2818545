-- ===== src/Arrays/Rows/Laws.antt =====
-- Row by row, the copies reach the cells of a real array and leave its padding alone.
use native.Mathlib.Nat.{mul-le-mul_right, add-mul}
use bench_fft.Base.{
  ℕ, suc, ◌+◌, ◌-◌, ◌*◌, ◌<◌, ◌≤◌, ◌≡◌, ◌≢◌, refl, ap, ◌∙◌, arith, inl, inr, true, leb, ◌==◌,
  Bool-cases, ==→≡, Buffer, loop_below, loop_below_inv, IsWritten, fill-IsWritten,
}
use bench_fft.Base.Real.{Real, Complex}
use bench_fft.Base.Outcome.{ok, ◌>>=◌}
use bench_fft.Problem.{Kind, Problem}
use bench_fft.Arrays.{Memory}
use bench_fft.Arrays.Rows.{
  Cursor, copy_row, last_size, row_count, padded, copy_c2r_unpacked, copy_r2c_unpacked,
}

-- `rows` rows of `n` cells, `step` apart, hold the values `v`; all other cells are as they were.
pub record IsRows {ℓ} {A : Type ℓ} (base rows n step : ℕ) (v : ℕ → ℕ → A) (old new : Buffer A)
    : Type ℓ where
  pub inside : (i k : ℕ) → i < rows → k < n → new (base + i * step + k) ≡ v i k
  pub outside : (j : ℕ) → ((i k : ℕ) → i < rows → k < n → j ≢ base + i * step + k) → new j ≡ old j

-- An earlier row ends before a later one starts.
pub row_below : (i m step : ℕ) → i < m → i * step + step ≤ m * step
row_below i m step lt =
    omega (arith, add-mul i 1 step, mul-le-mul_right {m = i + 1} {n = m} step (omega arith))

module _ {ℓ} {A : Type ℓ} (n ss ts : ℕ) (value : ℕ → A) (start : Cursor A) (fits : n ≤ ts) where
  record Reached (m : ℕ) (c : Cursor A) : Type ℓ where
    source : c.source ≡ start.source + m * ss
    target : c.target ≡ start.target + m * ts
    rows : IsRows start.target m n ts (λ i k. value (start.source + i * ss + k)) start.mem c.mem

  next_row : (m : ℕ) (c : Cursor A) → Reached m c → Reached (suc m) (copy_row n ss ts value c)
  next_row m c h = record {
    source = omega (arith, h.source, add-mul m 1 ss);
    target = omega (arith, h.target, add-mul m 1 ts);
    rows = record {
      inside = λ i k lt lt'. elim (Bool-cases (i == m)) [
        | inl last ↦ rw (==→≡ i m last, ← h.target, ← h.source) (row.inside k lt')
        | inr before ↦
            row.outside (start.target + i * ts + k)
              (inl (omega (arith, h.target, row_below i m ts (ground arith))))
            ∙ h.rows.inside i k (ground arith) lt'
      ];
      outside =
          λ j away. below j away ∙ h.rows.outside j (λ i k lt lt'. away i k (omega arith) lt');
    };
  }
    where
      row : IsWritten c.target n (λ k. value (c.source + k)) c.mem (copy_row n ss ts value c).mem
      row =
          fill-IsWritten c.target (λ k. value (c.source + k)) (λ k b. value (c.source + k)) c.mem n
            λ i b lt w. refl

      below :
          (j : ℕ)
          → ((i k : ℕ) → i < suc m → k < n → j ≢ start.target + i * ts + k)
          → (copy_row n ss ts value c).mem j ≡ c.mem j
      below j away = elim (Bool-cases (leb c.target j)) [
        | inl more ↦ elim (Bool-cases (leb (c.target + n) j)) [
          | inl past ↦ row.outside j (inr (ground arith))
          | inr within ↦ absurd (
              away m (j - c.target) (omega arith) (ground arith)
                (omega (arith, h.target, reached more)))
        ]
        | inr less ↦ row.outside j (inl (ground arith))
      ]
        where
          reached : leb c.target j ≡ true → c.target ≤ j
          reached h = ground arith

  loop_below-IsRows :
      (m : ℕ)
      → IsRows start.target m n ts
          (λ i k. value (start.source + i * ss + k))
          start.mem
          (loop_below m (λ k0 c. copy_row n ss ts value c) start).mem
  loop_below-IsRows m =
      (loop_below_inv Reached m (λ k0 c. copy_row n ss ts value c) start
        (λ i c lt h. next_row i c h)
        (record {
          source = omega arith;
          target = omega arith;
          rows = record { inside = λ i k lt lt'. absurd (omega arith); outside = λ j away. refl };
        })).rows

rank_test : (p : Problem) → 1 ≤ p.dims.rank → leb 1 p.dims.rank ≡ true
rank_test p h = ground arith

module _ {R : Type 0} ⦃r : Real R⦄ (p : Problem) (ranked : 1 ≤ p.dims.rank)
    (kind : p.kind ≡ Kind.problem_real) where
  pub copy_c2r_unpacked-IsRows :
      (input : ℕ) (mem : Memory R)
      → (new : Memory R) × (copy_c2r_unpacked p input mem ≡ ok new)
        × (new.complexes ≡ mem.complexes)
        × IsRows p.input
            (row_count p)
            (last_size p)
            (padded (last_size p))
            (λ i k. (mem.complexes (input + i * last_size p + k)).re)
            mem.reals
            new.reals
  unfolding copy_c2r_unpacked
  copy_c2r_unpacked-IsRows input mem =
      let rows =
        loop_below-IsRows (last_size p) (last_size p) (padded (last_size p))
          (λ i. (mem.complexes i).re) (record { source = input; target = p.input; mem = mem.reals })
          (omega arith) (row_count p) in
      (_, rw (rank_test p ranked, kind), refl, rows)

  copy_r2c_unpacked-IsRows :
      (out : ℕ) (mem : Memory R)
      → (new : Memory R) × (copy_r2c_unpacked p out mem ≡ ok new)
        × IsRows out
            (row_count p)
            (last_size p)
            (last_size p)
            (λ i k. record {
              re = mem.reals (p.output + i * padded (last_size p) + k);
              im = r.zero;
            })
            mem.complexes
            new.complexes
  unfolding copy_r2c_unpacked
  copy_r2c_unpacked-IsRows out mem =
      let rows =
        loop_below-IsRows (last_size p) (padded (last_size p)) (last_size p)
          (λ i. record { re = mem.reals i; im = r.zero })
          (record { source = p.output; target = out; mem = mem.complexes }) (omega arith)
          (row_count p) in
      (
        record mem {
          complexes =
              (loop_below {S = Cursor (Complex R)} (row_count p)
                (λ k0 c.
                  copy_row (last_size p) (padded (last_size p)) (last_size p)
                    (λ i. record { re = mem.reals i; im = r.zero }) c)
                (record { source = p.output; target = out; mem = mem.complexes })).mem;
        },
        rw (rank_test p ranked, kind),
        rows,
      )

  pub r2c-c2r_unpacked :
      (input out : ℕ) (mem : Memory R)
      → p.output ≡ p.input
      → (new : Memory R) × ((copy_c2r_unpacked p input mem >>= copy_r2c_unpacked p out) ≡ ok new)
        × IsRows out
            (row_count p)
            (last_size p)
            (last_size p)
            (λ i k. record { re = (mem.complexes (input + i * last_size p + k)).re; im = r.zero })
            mem.complexes
            new.complexes
  r2c-c2r_unpacked input out mem same =
      let (middle, e, kept, first) = copy_c2r_unpacked-IsRows input mem in
      let (new, f, second) = copy_r2c_unpacked-IsRows out middle in
      (
        new,
        rw (e, f),
        record {
          inside = λ i k lt lt'.
              second.inside i k lt lt'
              ∙ ap (λ (x : R). record { re = x; im = r.zero })
                  (ap (λ (x : ℕ). middle.reals (x + i * padded (last_size p) + k)) same
                    ∙ first.inside i k lt lt');
          outside = λ j away. second.outside j away ∙ ap (λ b. b j) kept;
        },
      )
