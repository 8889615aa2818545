-- ===== src/Verify/Laws.antt =====
-- What the routines of libbench/verify.c do to one array, and when its comparison passes.
use bench_fft.Base.{
  ℕ, ◌+◌, ◌*◌, ◌<◌, ◌≡◌, refl, ap, ap₂, ◌∙◌, arith, false, Buffer, inl, store_same, store_other,
  loop_below, loop_below_inv, IsWritten, fill-IsWritten, one-IsWritten, nothing-IsWritten,
}
use bench_fft.Base.Real.{Real, Complex, Libm}
use bench_fft.Base.Outcome.{ok}
use bench_fft.Arrays.{complex_sub}
use bench_fft.Arrays.Laws.{IsAligned, unread}
use bench_fft.Verify.{
  Session, Worst, dabs, dmax, norm2, worse, mkreal, asub, cerror, acmp, random_at, bench_drand,
  arand,
}

module _ {R : Type 0} ⦃r : Real R⦄ where
  pub asub-IsWritten :
      (c a b n : ℕ) (mem : Buffer (Complex R))
      → IsAligned n a c
      → IsAligned n b c
      → IsWritten c n (λ i. complex_sub (mem (a + i)) (mem (b + i))) mem (asub c a b n mem)
  unfolding asub
  asub-IsWritten c a b n mem ha hb =
      fill-IsWritten c _ (λ i m. complex_sub (m (a + i)) (m (b + i))) mem n
        λ i m lt w. ap₂ complex_sub (unread n a c i ha lt w) (unread n b c i hb lt w)

  pub mkreal-IsWritten :
      (a n : ℕ) (mem : Buffer (Complex R))
      → IsWritten a n (λ i. record (mem (a + i)) { im = r.zero }) mem (mkreal a n mem)
  unfolding mkreal
  mkreal-IsWritten a n mem =
      fill-IsWritten a _ (λ i m. record (m (a + i)) { im = r.zero }) mem n
        λ i m lt w.
          ap (λ (x : Complex R). record x { im = r.zero }) (unread n a a i (inl refl) lt w)

module _ {R : Type 0} ⦃r : Real R⦄ ⦃libm : Libm R⦄ (drand48 : ℕ → R) where
  abbrev pub drawn_value : ℕ → ℕ → Complex R
  drawn_value k i = record {
    re = random_at drand48 (k + 2 * i);
    im = random_at drand48 (k + 2 * i + 1);
  }

  -- `arand` fills the array with the next numbers of the generator, two for each element.
  pub arand-IsWritten :
      (a n : ℕ) (s : Session R)
      → IsWritten a n
          (drawn_value s.drawn)
          s.memory.complexes
          (arand drand48 a n s).memory.complexes
        × ((arand drand48 a n s).drawn ≡ s.drawn + 2 * n)
  unfolding arand bench_drand
  arand-IsWritten a n s =
      loop_below_inv
        (λ i t.
          IsWritten a i (drawn_value s.drawn) s.memory.complexes t.memory.complexes
          × (t.drawn ≡ s.drawn + 2 * i))
        n _ s
        (λ i t lt h. (
          one-IsWritten a _ s.memory.complexes i t.memory.complexes _ h.0
              (store_same t.memory.complexes (a + i) _
                ∙ ap₂ (λ (x : R) (y : R). record { re = x; im = y }) (ap (random_at drand48) h.1)
                    (ap (λ (k : ℕ). random_at drand48 (k + 1)) h.1))
              (λ j ne. store_other t.memory.complexes (a + i) _ j ne),
          omega (arith, h.1),
        ))
        (nothing-IsWritten a _ s.memory.complexes, omega arith)

-- Arithmetic in which equal numbers have no difference, and which accepts an error of zero.
pub record IsExact {R : Type 0} ⦃r : Real R⦄ ⦃libm : Libm R⦄ (tol : R) : Type 0 where
  pub cancel : (x : R) → r.sub x x ≡ r.zero
  pub irreflexive : r.lt r.zero r.zero ≡ false
  pub ratio : (x : R) → r.div r.zero x ≡ r.zero
  pub number : libm.is_nan r.zero ≡ false
  pub accepted : r.lt tol r.zero ≡ false

module _ {R : Type 0} ⦃r : Real R⦄ (irreflexive : r.lt r.zero r.zero ≡ false) where
  pub dmax_zero : dmax r.zero r.zero ≡ r.zero
  dmax_zero = rw irreflexive refl

  norm2_zero : norm2 r.zero r.zero ≡ r.zero
  norm2_zero = ap₂ dmax dabs_zero dabs_zero ∙ dmax_zero
    where
      dabs_zero : dabs r.zero ≡ r.zero
      dabs_zero = rw irreflexive refl

module _ {R : Type 0} ⦃r : Real R⦄ ⦃libm : Libm R⦄ (tol : R) (exact : IsExact tol)
    (verbose a b n : ℕ) (mem : Buffer (Complex R)) where
  difference : (part : Complex R → R) {x y : Complex R} → x ≡ y → r.sub (part x) (part y) ≡ r.zero
  difference part {y = y} e = ap (λ z. r.sub (part z) (part y)) e ∙ exact.cancel (part y)

  no_error :
      ((i : ℕ) → i < n → mem (a + i) ≡ mem (b + i))
      → (loop_below n (worse mem a b) (record { mag = r.zero; error = r.zero })).error ≡ r.zero
  no_error same =
      loop_below_inv {S = Worst R} (λ i w. w.error ≡ r.zero) n (worse mem a b)
        (record { mag = r.zero; error = r.zero })
        (λ i w lt h.
          ap₂ dmax h (
            ap₂ norm2 (difference (λ x. x.re) (same i lt)) (difference (λ x. x.im) (same i lt))
            ∙ norm2_zero exact.irreflexive)
          ∙ dmax_zero exact.irreflexive)
        refl

  -- Arrays with the same elements pass the comparison, with an error of zero.
  pub acmp-equal :
      ((i : ℕ) → i < n → mem (a + i) ≡ mem (b + i)) → acmp verbose a b n tol mem ≡ ok r.zero
  unfolding acmp cerror
  acmp-equal same = rw (no_error same, exact.ratio) (rw (exact.number, exact.accepted) refl)
