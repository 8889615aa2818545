-- ===== src/Verify/Transform/Hooks.antt =====
-- A driver with the default hooks of libbench and a transform of its own that works between the arrays
-- of a complex problem.
use bench_fft.Base.{
  ℕ, ◌+◌, ◌<◌, ◌≤◌, ◌≡◌, ◌⊎◌, inl, inr, ◌∙◌, arith, IsWritten, Bool-cases, leb, ◌-◌,
}
use bench_fft.Base.Real.{Real, Complex}
use bench_fft.Base.Outcome.{Outcome, ok, Returns-ok}
use bench_fft.Problem.{Kind, Problem}
use bench_fft.Arrays.{
  Memory, cacopy, copy_c2c_from, copy_c2c_to, problem_ccopy_from, problem_ccopy_to,
}
use bench_fft.Arrays.Laws.{IsDisjoint, cacopy-IsWritten}
use bench_fft.Verify.{Driver, do_fft}
use bench_fft.Verify.Transform.{Implements}

flip : (n a b : ℕ) → IsDisjoint n a b → IsDisjoint n b a
flip n a b (inl left) = inr left
flip n a b (inr right) = inl right

-- The cells of one array are all outside another of the same length.
cells-IsDisjoint :
    (n a b : ℕ) → ((i : ℕ) → i < n → (a + i < b) ⊎ (b + n ≤ a + i)) → IsDisjoint n a b
cells-IsDisjoint n a b h = elim (Bool-cases (leb n 0)) [
  | inl empty ↦ ground arith
  | inr some_cell ↦ elim (Bool-cases (leb (b + n) a)) [
    | inl right ↦ inr (ground arith)
    | inr more ↦ inl (before (h 0 (ground arith)) (ground arith) (ground arith))
  ]
]
  where
    before : (a + 0 < b) ⊎ (b + n ≤ a + 0) → 0 < n → a < b + n → a + n ≤ b
    before (inr right) pos more = absurd (omega arith)
    before (inl left) pos more = elim (Bool-cases (leb (a + n) b)) [
      | inl fits ↦ ground arith
      | inr over ↦ absurd (within (h (b - a) (ground arith)))
    ]
      where
        within : (a + (b - a) < b) ⊎ (b + n ≤ a + (b - a)) → ⊥
        within (inl lt) = absurd (omega arith)
        within (inr le) = absurd (omega arith)

module _ {R : Type 0} ⦃r : Real R⦄ where
  abbrev pub default_driver : (ℕ → Problem → Memory R → Outcome (Memory R)) → Driver R
  default_driver doit = record {
    ccopy_from = problem_ccopy_from;
    doit = doit;
    ccopy_to = problem_ccopy_to;
  }

  from_complex :
      (p : Problem) (input : ℕ) (mem : Memory R)
      → p.kind ≡ Kind.problem_complex
      → problem_ccopy_from p input mem ≡ ok (copy_c2c_from p input mem)
  unfolding problem_ccopy_from
  from_complex p input mem e = rw e

  to_complex :
      (p : Problem) (out : ℕ) (mem : Memory R)
      → p.kind ≡ Kind.problem_complex
      → problem_ccopy_to p out mem ≡ ok (copy_c2c_to p out mem)
  unfolding problem_ccopy_to
  to_complex p out mem e = rw e

  module _ (doit : Problem → Memory R → Memory R) (p : Problem)
      (transform : (ℕ → Complex R) → ℕ → Complex R)
      (congruent : (x y : ℕ → Complex R)
        → ((k : ℕ) → k < p.dims.size → x k ≡ y k)
        → (i : ℕ) → i < p.dims.size
        → transform x i ≡ transform y i)
      (kind : p.kind ≡ Kind.problem_complex)
      (computes : (mem : Memory R)
        → IsWritten p.output p.dims.size
            (transform (λ k. mem.complexes (p.input + k)))
            mem.complexes
            (doit p mem).complexes) where
    -- Arrays that share no cell with the input and the output of the problem.
    abbrev pub Outside : ℕ → Type 0
    Outside j =
        ((j < p.input) ⊎ (p.input + p.dims.size ≤ j))
        × ((j < p.output) ⊎ (p.output + p.dims.size ≤ j))

    -- Between the default hooks of a complex problem, a transform from the problem's input to its
    -- output becomes a run of `do_fft` between arrays that share no cell with the problem's.
    pub do_fft-Implements :
        Implements (default_driver (λ iter q mem. ok (doit q mem))) p Outside transform
    unfolding do_fft
    do_fft-Implements input out s own own' apart =
        rw
          (
            from_complex p input s.memory kind,
            to_complex p out (doit p (copy_c2c_from p input s.memory)) kind,
          )
          (Returns-ok _ (record {
            inside = λ i lt.
                to.inside i lt
                ∙ run.inside i lt
                ∙ congruent (λ k. copied.complexes (p.input + k))
                    (λ k. s.memory.complexes (input + k)) (λ k below. from.inside k below) i lt;
            outside =
                λ j mine away. to.outside j away ∙ run.outside j mine.1 ∙ from.outside j mine.0;
          }))
      where
        copied : Memory R
        copied = copy_c2c_from p input s.memory

        from :
            IsWritten p.input p.dims.size
              (λ i. s.memory.complexes (input + i))
              s.memory.complexes
              (cacopy input p.input p.dims.size s.memory.complexes)
        from =
            cacopy-IsWritten input p.input p.dims.size s.memory.complexes
              (inr (cells-IsDisjoint p.dims.size input p.input (λ i lt. (own i lt).0)))

        run :
            IsWritten p.output p.dims.size
              (transform (λ k. copied.complexes (p.input + k)))
              copied.complexes
              (doit p copied).complexes
        run = computes copied

        to :
            IsWritten out p.dims.size
              (λ i. (doit p copied).complexes (p.output + i))
              (doit p copied).complexes
              (cacopy p.output out p.dims.size (doit p copied).complexes)
        to = cacopy-IsWritten p.output out p.dims.size (doit p copied).complexes (
            inr (
              flip p.dims.size out p.output
                (cells-IsDisjoint p.dims.size out p.output (λ i lt. (own' i lt).1))))
