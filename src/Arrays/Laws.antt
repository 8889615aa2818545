-- ===== src/Arrays/Laws.antt =====
-- What the array routines leave in memory, when their arrays are the same or apart.
use bench_fft.Base.{
  ℕ, ◌+◌, ◌<◌, ◌≤◌, ◌≡◌, ◌⊎◌, inl, inr, refl, ap, ap₂, ◌∙◌, arith, Buffer, IsWritten,
  fill-IsWritten, IsPaired, IsApart, pairs-IsPaired,
}
use bench_fft.Base.Int.ℤ.{pos, negsuc}
use bench_fft.Base.Real.{Real, Complex}
use bench_fft.Base.Outcome.{ok, assertion_failed}
use bench_fft.Problem.{Kind, Problem}
use bench_fft.Arrays.{
  Memory, caset, cacopy, cascale, caadd, casub, complex_add, complex_sub, complex_mul, copy_ri2c,
  copy_c2ri, copy_c2r_packed, copy_r2c_packed, copy_c2c_from, copy_c2r, problem_ccopy_from, aset,
  problem_zero,
}

-- Two arrays of `n` cells that share none.
abbrev pub IsDisjoint : ℕ → ℕ → ℕ → Type 0
IsDisjoint n a c = (a + n ≤ c) ⊎ (c + n ≤ a)

-- Two arrays that are one, or share no cell.
abbrev pub IsAligned : ℕ → ℕ → ℕ → Type 0
IsAligned n a c = (a ≡ c) ⊎ IsDisjoint n a c

-- A cell of an aligned array is as it was until its round comes.
pub unread {ℓ} :
    {A : Type ℓ} {v : ℕ → A} {old buf : Buffer A} (n a c i : ℕ)
    → IsAligned n a c
    → i < n
    → IsWritten c i v old buf
    → buf (a + i) ≡ old (a + i)
unread n a c i (inl e) lt w = w.outside (a + i) (inr (omega (arith, e)))
unread n a c i (inr (inl left)) lt w = w.outside (a + i) (inl (omega arith))
unread n a c i (inr (inr right)) lt w = w.outside (a + i) (inr (omega arith))

disjoint-IsApart : (n a b : ℕ) → IsDisjoint n a b → IsApart n (◌+◌ a) (◌+◌ b)
disjoint-IsApart n a b h = record {
  first = λ i j lt lt' ne e. absurd (ne (omega arith));
  second = λ i j lt lt' ne e. absurd (ne (omega arith));
  across = λ i j lt lt' e. ground arith;
}

module _ {R : Type 0} ⦃r : Real R⦄ where
  -- `caadd` stores the sums of the old elements and touches nothing else, also when the result is
  -- one of the operands, if each operand is the result's array or shares no cell with it.
  pub caadd-IsWritten :
      (c a b n : ℕ) (mem : Buffer (Complex R))
      → IsAligned n a c
      → IsAligned n b c
      → IsWritten c n (λ i. complex_add (mem (a + i)) (mem (b + i))) mem (caadd c a b n mem)
  unfolding caadd
  caadd-IsWritten c a b n mem ha hb =
      fill-IsWritten c _ (λ i m. complex_add (m (a + i)) (m (b + i))) mem n
        λ i m lt w. ap₂ complex_add (unread n a c i ha lt w) (unread n b c i hb lt w)

  -- `casub` stores the differences of the old elements, under the conditions of `caadd`.
  pub casub-IsWritten :
      (c a b n : ℕ) (mem : Buffer (Complex R))
      → IsAligned n a c
      → IsAligned n b c
      → IsWritten c n (λ i. complex_sub (mem (a + i)) (mem (b + i))) mem (casub c a b n mem)
  unfolding casub
  casub-IsWritten c a b n mem ha hb =
      fill-IsWritten c _ (λ i m. complex_sub (m (a + i)) (m (b + i))) mem n
        λ i m lt w. ap₂ complex_sub (unread n a c i ha lt w) (unread n b c i hb lt w)

  pub cascale-IsWritten :
      (a n : ℕ) (alpha : Complex R) (mem : Buffer (Complex R))
      → IsWritten a n (λ i. complex_mul (mem (a + i)) alpha) mem (cascale a n alpha mem)
  unfolding cascale
  cascale-IsWritten a n alpha mem =
      fill-IsWritten a _ (λ i m. complex_mul (m (a + i)) alpha) mem n
        λ i m lt w. ap (λ x. complex_mul x alpha) (unread n a a i (inl refl) lt w)

  pub cacopy-IsWritten :
      (a b n : ℕ) (mem : Buffer (Complex R))
      → IsAligned n a b
      → IsWritten b n (λ i. mem (a + i)) mem (cacopy a b n mem)
  unfolding cacopy
  cacopy-IsWritten a b n mem h =
      fill-IsWritten b _ (λ i m. m (a + i)) mem n λ i m lt w. unread n a b i h lt w

  pub caset-IsWritten :
      (a n : ℕ) (x : Complex R) (mem : Buffer (Complex R))
      → IsWritten a n (λ i. x) mem (caset a n x mem)
  unfolding caset
  caset-IsWritten a n x mem = fill-IsWritten a (λ i. x) (λ i m. x) mem n λ i m lt w. refl

  copy_c2r_packed-IsWritten :
      (p : Problem) (input : ℕ) (mem : Memory R)
      → IsWritten p.input p.dims.size
          (λ i. (mem.complexes (input + i)).re)
          mem.reals
          (copy_c2r_packed p input mem).reals
  unfolding copy_c2r_packed
  copy_c2r_packed-IsWritten p input mem =
      fill-IsWritten p.input _ (λ i m. (mem.complexes (input + i)).re) mem.reals p.dims.size
        λ i m lt w. refl

  copy_r2c_packed-IsWritten :
      (p : Problem) (out : ℕ) (mem : Memory R)
      → IsWritten out p.dims.size
          (λ i. record { re = mem.reals (p.output + i); im = r.zero })
          mem.complexes
          (copy_r2c_packed p out mem).complexes
  unfolding copy_r2c_packed
  copy_r2c_packed-IsWritten p out mem =
      fill-IsWritten out _ (λ i m. record { re = mem.reals (p.output + i); im = r.zero })
        mem.complexes p.dims.size λ i m lt w. refl

  copy_ri2c-IsWritten :
      (rin iin out n : ℕ) (mem : Memory R)
      → IsWritten out n
          (λ i. record { re = mem.reals (rin + i); im = mem.reals (iin + i) })
          mem.complexes
          (copy_ri2c rin iin out n mem).complexes
  unfolding copy_ri2c
  copy_ri2c-IsWritten rin iin out n mem =
      fill-IsWritten out _ (λ i m. record { re = mem.reals (rin + i); im = mem.reals (iin + i) })
        mem.complexes n λ i m lt w. refl

  copy_c2ri-IsPaired :
      (input rout iout n : ℕ) (mem : Memory R)
      → IsDisjoint n rout iout
      → IsPaired n
          (◌+◌ rout)
          (◌+◌ iout)
          (λ i. (mem.complexes (input + i)).re)
          (λ i. (mem.complexes (input + i)).im)
          mem.reals
          (copy_c2ri input rout iout n mem).reals
  unfolding copy_c2ri
  copy_c2ri-IsPaired input rout iout n mem h =
      pairs-IsPaired (◌+◌ rout) (◌+◌ iout) (λ i. (mem.complexes (input + i)).re)
        (λ i. (mem.complexes (input + i)).im) mem.reals n (disjoint-IsApart n rout iout h)

  -- Splitting an array into real and imaginary parts that share no cell, with `copy_c2ri`, and
  -- joining the parts with `copy_ri2c`, copies it to the target.
  pub ri2c-c2ri :
      (input rout iout out n : ℕ) (mem : Memory R)
      → IsDisjoint n rout iout
      → IsWritten out n
          (λ i. mem.complexes (input + i))
          mem.complexes
          (copy_ri2c rout iout out n (copy_c2ri input rout iout n mem)).complexes
  unfolding copy_c2ri
  ri2c-c2ri input rout iout out n mem h =
      let split = copy_c2ri-IsPaired input rout iout n mem h in
      let joined = copy_ri2c-IsWritten rout iout out n (copy_c2ri input rout iout n mem) in
      record {
        inside = λ i lt.
            joined.inside i lt
            ∙ (λ j. record { re = split.at_first i lt j; im = split.at_second i lt j });
        outside = λ i away. joined.outside i away;
      }

  -- For a complex problem `problem_ccopy_from` copies the array into the problem's input; for a
  -- forward real problem it copies the real parts; for a backward real problem the default assertion
  -- fails. A complex array must be the problem's input itself or share no cell with it.
  pub problem_ccopy_from-cases :
      (p : Problem) (input : ℕ) (mem : Memory R)
      → IsAligned p.dims.size input p.input
      → (p.kind ≡ Kind.problem_complex
          → (new : Memory R) × (problem_ccopy_from p input mem ≡ ok new)
            × IsWritten p.input p.dims.size
                (λ i. mem.complexes (input + i))
                mem.complexes
                new.complexes)
        × (p.kind ≡ Kind.problem_real
            → p.sign ≡ negsuc 0
            → (new : Memory R) × (problem_ccopy_from p input mem ≡ ok new)
              × IsWritten p.input p.dims.size
                  (λ i. (mem.complexes (input + i)).re)
                  mem.reals
                  new.reals)
        × (p.kind ≡ Kind.problem_real
            → p.sign ≡ pos 1
            → problem_ccopy_from p input mem ≡ assertion_failed)
  unfolding problem_ccopy_from
  problem_ccopy_from-cases p input mem h = (
    λ e. (
      copy_c2c_from p input mem,
      rw e,
      cacopy-IsWritten input p.input p.dims.size mem.complexes h,
    ),
    λ e f. (copy_c2r p input mem, rw (e, f), copy_c2r_packed-IsWritten p input mem),
    λ e f. rw (e, f),
  )

  aset-IsWritten : (a n : ℕ) (x : R) (mem : Buffer R) → IsWritten a n (λ i. x) mem (aset a n x mem)
  unfolding aset
  aset-IsWritten a n x mem = fill-IsWritten a (λ i. x) (λ i m. x) mem n λ i m lt w. refl

  -- `problem_zero` on a real problem clears the whole input and the whole output, whether they are one
  -- array or share no cell, and leaves all other memory alone.
  problem_zero-real :
      (p : Problem) (mem : Memory R)
      → p.kind ≡ Kind.problem_real
      → IsAligned p.phys_size p.output p.input
      → IsWritten p.input p.phys_size
          (λ i. r.zero)
          (aset p.output p.phys_size r.zero mem.reals)
          (problem_zero p mem).reals
        × ((i : ℕ) → i < p.phys_size → (problem_zero p mem).reals (p.output + i) ≡ r.zero)
  unfolding problem_zero
  problem_zero-real p mem e h = rw e (second, cleared h)
    where
      first :
          IsWritten p.output p.phys_size
            (λ i. r.zero)
            mem.reals
            (aset p.output p.phys_size r.zero mem.reals)
      first = aset-IsWritten p.output p.phys_size r.zero mem.reals

      second :
          IsWritten p.input p.phys_size
            (λ i. r.zero)
            (aset p.output p.phys_size r.zero mem.reals)
            (aset p.input p.phys_size r.zero (aset p.output p.phys_size r.zero mem.reals))
      second =
          aset-IsWritten p.input p.phys_size r.zero (aset p.output p.phys_size r.zero mem.reals)

      cleared :
          IsAligned p.phys_size p.output p.input
          → (i : ℕ) → i < p.phys_size
          → aset p.input p.phys_size r.zero
              (aset p.output p.phys_size r.zero mem.reals)
              (p.output + i)
            ≡ r.zero
      cleared (inl same) i lt =
          ap (aset p.input p.phys_size r.zero (aset p.output p.phys_size r.zero mem.reals))
            {x = p.output + i} {y = p.input + i} (omega (arith, same))
          ∙ second.inside i lt
      cleared (inr apart) i lt = second.outside (p.output + i) (ground arith) ∙ first.inside i lt
