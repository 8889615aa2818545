-- ===== src/Hermitian/Spec.antt =====
-- What it means to keep half of a Hermitian array, whatever the format, and that reading back what
-- was kept, or keeping what was read, changes nothing.
use bench_fft.Base.{
  ℕ, ◌+◌, ◌-◌, ◌*◌, ◌<◌, ◌≡◌, ◌⊎◌, inl, inr, sym, ap, ◌∙◌, arith, ltb, ◌==◌, Bool-cases, ==→≡,
}
use bench_fft.Base.Real.{Real, Complex, IsUnit}
use bench_fft.Base.Outcome.{Outcome, ok, ◌>>=◌}
use bench_fft.Problem.{Kind, Problem}
use bench_fft.Arrays.{Memory}
use bench_fft.Hermitian.{assert_1d, size_1d, conjugate, real_number, signed}

-- Where a format keeps the parts of the element `k` for 0 < 2 k < n, and the real part of the middle
-- one for even `n`. The first element stands at 0.
pub record Layout : Type 1 where
  pub real_at : ℕ → ℕ → ℕ
  pub imag_at : ℕ → ℕ → ℕ
  pub middle_at : ℕ → ℕ
  -- the sizes that the format can hold
  pub IsHeld : ℕ → Type 0
  pub positive : (n : ℕ) → IsHeld n → 0 < n
  -- every place below `n` holds a part
  pub covers :
      (n j : ℕ)
      → IsHeld n
      → j < n
      → (j ≡ 0)
        ⊎ ((k : ℕ) × (0 < k) × (2 * k < n) × (j ≡ real_at n k))
        ⊎ ((k : ℕ) × (0 < k) × (2 * k < n) × (j ≡ imag_at n k))
        ⊎ ((k : ℕ) × (0 < k) × (2 * k ≡ n) × (j ≡ middle_at n))

module _ {R : Type 0} ⦃r : Real R⦄ (l : Layout) (n : ℕ) (sign : R) where
  -- `x` keeps half of `z`.
  pub record IsHalf (z : ℕ → Complex R) (x : ℕ → R) : Type 0 where
    pub first : x 0 ≡ (z 0).re
    pub real_part : (k : ℕ) → 0 < k → 2 * k < n → x (l.real_at n k) ≡ (z k).re
    pub imag_part : (k : ℕ) → 0 < k → 2 * k < n → x (l.imag_at n k) ≡ r.mul (r.neg sign) (z k).im
    pub middle : (k : ℕ) → 0 < k → 2 * k ≡ n → x (l.middle_at n) ≡ (z k).re

  -- `z` is the Hermitian array that `x` keeps half of.
  pub record IsWhole (x : ℕ → R) (z : ℕ → Complex R) : Type 0 where
    pub first : z 0 ≡ real_number (x 0)
    pub lower :
        (k : ℕ) → 0 < k → 2 * k < n → z k ≡ signed sign (x (l.real_at n k)) (x (l.imag_at n k))
    pub upper :
        (k : ℕ)
        → 0 < k
        → 2 * k < n
        → z (n - k) ≡ conjugate (signed sign (x (l.real_at n k)) (x (l.imag_at n k)))
    pub middle : (k : ℕ) → 0 < k → 2 * k ≡ n → z k ≡ real_number (x (l.middle_at n))

  half-whole :
      {x y : ℕ → R} {z : ℕ → Complex R}
      → IsUnit sign
      → l.IsHeld n
      → IsWhole x z
      → IsHalf z y
      → (j : ℕ) → j < n
      → y j ≡ x j
  half-whole {x} {y} {z} unit held whole half j lt = choose (l.covers n j held lt)
    where
      choose :
          (j ≡ 0)
            ⊎ ((k : ℕ) × (0 < k) × (2 * k < n) × (j ≡ l.real_at n k))
            ⊎ ((k : ℕ) × (0 < k) × (2 * k < n) × (j ≡ l.imag_at n k))
            ⊎ ((k : ℕ) × (0 < k) × (2 * k ≡ n) × (j ≡ l.middle_at n))
          → y j ≡ x j
      choose (inl e) = rw e (half.first ∙ ap (λ (c : Complex R). c.re) whole.first)
      choose (inr (inl (k, lo, hi, e))) =
          rw e (half.real_part k lo hi ∙ ap (λ (c : Complex R). c.re) (whole.lower k lo hi))
      choose (inr (inr (inl (k, lo, hi, e)))) = rw e (
          half.imag_part k lo hi
          ∙ ap (λ (c : Complex R). r.mul (r.neg sign) c.im) (whole.lower k lo hi)
          ∙ unit.twice (x (l.imag_at n k)))
      choose (inr (inr (inr (k, lo, hi, e)))) =
          rw e (half.middle k lo hi ∙ ap (λ (c : Complex R). c.re) (whole.middle k lo hi))

-- The spectrum of a real array.
pub record IsHermitian {R : Type 0} ⦃r : Real R⦄ (n : ℕ) (z : ℕ → Complex R) : Type 0 where
  pub first : (z 0).im ≡ r.zero
  pub mirrored : (k : ℕ) → 0 < k → 2 * k < n → z (n - k) ≡ conjugate (z k)
  pub middle : (k : ℕ) → 0 < k → 2 * k ≡ n → (z k).im ≡ r.zero

module _ {R : Type 0} ⦃r : Real R⦄ (l : Layout) (n : ℕ) (sign : R) where
  whole-half :
      {x : ℕ → R} {y z : ℕ → Complex R}
      → IsUnit sign
      → IsHermitian n z
      → IsHalf l n sign z x
      → IsWhole l n sign x y
      → (j : ℕ) → j < n
      → y j ≡ z j
  whole-half {x} {y} {z} unit herm half whole j lt = elim (Bool-cases (j == 0)) [
    | inl start ↦
        rw (==→≡ j 0 start)
          (whole.first ∙ (λ i. record { re = half.first i; im = sym herm.first i }))
    | inr later ↦ elim (Bool-cases (ltb (2 * j) n)) [
      | inl low ↦
          whole.lower j (ground arith) (ground arith) ∙ restored j (ground arith) (ground arith)
      | inr not_low ↦ elim (Bool-cases (2 * j == n)) [
        | inl mid ↦ whole.middle j (ground arith) (==→≡ _ _ mid) ∙ (λ i. record {
          re = half.middle j (ground arith) (==→≡ _ _ mid) i;
          im = sym (herm.middle j (ground arith) (==→≡ _ _ mid)) i;
        })
        | inr high ↦ mirror (n - j) (ground arith) (ground arith) (omega arith)
      ]
    ]
  ]
    where
      restored :
          (k : ℕ) → 0 < k → 2 * k < n → signed sign (x (l.real_at n k)) (x (l.imag_at n k)) ≡ z k
      restored k lo hi = λ i. record {
        re = half.real_part k lo hi i;
        im = (ap (r.mul (r.neg sign)) (half.imag_part k lo hi) ∙ unit.twice (z k).im) i;
      }

      mirror : (k : ℕ) → 0 < k → 2 * k < n → j ≡ n - k → y j ≡ z j
      mirror k lo hi e =
          rw e (whole.upper k lo hi ∙ ap conjugate (restored k lo hi) ∙ sym (herm.mirrored k lo hi))

-- A one-dimensional real problem of a size that the format can hold.
pub record Is1d (l : Layout) (p : Problem) : Type 0 where
  pub rank : p.dims.rank ≡ 1
  pub kind : p.kind ≡ Kind.problem_real
  pub held : l.IsHeld (size_1d p)

pub ran :
    {R : Type 0} {l : Layout} {p : Problem}
    → Is1d l p
    → (rest : Outcome (Memory R)) → assert_1d p rest ≡ rest
ran d rest = rw (d.rank, d.kind)

-- The two copies of a format, by what they do: one keeps half of an array and the other reads it back.
pub record IsFormat {R : Type 0} ⦃r : Real R⦄ (l : Layout)
    (copy_c2h copy_h2c : Problem → ℕ → R → Memory R → Outcome (Memory R)) : Type 0 where
  pub keeps :
      (p : Problem) (input : ℕ) (sign : R) (mem : Memory R)
      → Is1d l p
      → (new : Memory R) × (copy_c2h p input sign mem ≡ ok new)
        × (new.complexes ≡ mem.complexes)
        × IsHalf l (size_1d p) sign (λ k. mem.complexes (input + k)) (λ j. new.reals (p.input + j))
  pub reads :
      (p : Problem) (out : ℕ) (sign : R) (mem : Memory R)
      → IsUnit sign
      → Is1d l p
      → (new : Memory R) × (copy_h2c p out sign mem ≡ ok new)
        × (new.reals ≡ mem.reals)
        × IsWhole l (size_1d p) sign (λ j. mem.reals (p.output + j)) (λ k. new.complexes (out + k))

module _ {R : Type 0} ⦃r : Real R⦄ {l : Layout}
    {copy_c2h copy_h2c : Problem → ℕ → R → Memory R → Outcome (Memory R)}
    (format : IsFormat l copy_c2h copy_h2c) (p : Problem) (sign : R) (unit : IsUnit sign)
    (d : Is1d l p) where
  pub c2h-h2c :
      (base : ℕ) (mem : Memory R)
      → (new : Memory R) × ((copy_h2c p base sign mem >>= copy_c2h p base sign) ≡ ok new)
        × ((j : ℕ) → j < size_1d p → new.reals (p.input + j) ≡ mem.reals (p.output + j))
  c2h-h2c base mem =
      let (middle, e, same, whole) = format.reads p base sign mem unit d in
      let (new, f, same', half) = format.keeps p base sign middle d in
      (new, rw (e, f), λ j lt. half-whole l (size_1d p) sign unit d.held whole half j lt)

  pub h2c-c2h :
      (base : ℕ) (mem : Memory R)
      → p.output ≡ p.input
      → IsHermitian (size_1d p) (λ k. mem.complexes (base + k))
      → (new : Memory R) × ((copy_c2h p base sign mem >>= copy_h2c p base sign) ≡ ok new)
        × ((k : ℕ) → k < size_1d p → new.complexes (base + k) ≡ mem.complexes (base + k))
  h2c-c2h base mem shared herm =
      let (middle, e, same, half) = format.keeps p base sign mem d in
      let (new, f, same', whole) = format.reads p base sign middle unit d in
      (
        new,
        rw (e, f),
        λ k lt. whole-half l (size_1d p) sign unit herm half (rw shared at whole) k lt,
      )
