-- ===== src/Verify/Run/Leak.antt =====
-- `do_accuracy` of libbench/verify.c returns, but keeps the two arrays that it allocates.
use bench_fft.Base.{ℕ, ◌+◌, ◌<◌, ◌≡◌, refl, arith, true, ◌==◌, get_or, Buffer}
use bench_fft.Base.Int.{ℤ, pos_part}
use bench_fft.Base.Real.{Real, Complex, Libm}
use bench_fft.Base.Outcome.{Returns, Returns-ok, Returns-bind, Returns-loop}
use bench_fft.Problem.{Problem}
use bench_fft.Arrays.Laws.{IsDisjoint}
use bench_fft.Verify.{Session}
use bench_fft.Verify.Transform.{Implements}
use bench_fft.Verify.Run.{
  World, Norms, Machine, complex_bytes, accuracy_round, no_norms, do_accuracy,
}
use bench_fft.Verify.Run.Passes.{IsUnfailing, granted, taken, bench_malloc_lem}

rank_test : (p : Problem) → p.dims.rank ≡ 1 → (p.dims.rank == 1) ≡ true
rank_test p e = ground arith

vrank_test : (p : Problem) → p.vector.rank ≡ 0 → (p.vector.rank == 0) ≡ true
vrank_test p e = ground arith

module _ {R : Type 0} ⦃r : Real R⦄ ⦃libm : Libm R⦄ (c : Machine R) (p : Problem) (mine : ℕ → Type 0)
    (transform : (ℕ → Complex R) → ℕ → Complex R) (driven : Implements c.driver p mine transform)
    (fftaccuracy : ℕ → Buffer (Complex R) → ℕ → ℕ → ℤ → Norms R) where
  -- Two arrays that share no cell with each other or with the driver's.
  pub record IsSpread (a b : ℕ) : Type 0 where
    pub own_a : (i : ℕ) → i < p.dims.size → mine (a + i)
    pub own_b : (i : ℕ) → i < p.dims.size → mine (b + i)
    pub apart : IsDisjoint p.dims.size a b

  accuracy_round-Returns :
      (a b : ℕ) (st : Norms R × Session R)
      → IsSpread a b
      → Returns (λ st'. Unit {0}) (accuracy_round c fftaccuracy p a b st)
  unfolding accuracy_round
  accuracy_round-Returns a b st spread =
      Returns-bind (driven a b _ spread.own_a spread.own_b spread.apart) λ s run. Returns-ok _ tt

  pub do_accuracy-keeps :
      (rounds : ℤ) (world : World R)
      → IsUnfailing c.malloc
      → p.dims.rank ≡ 1
      → p.vector.rank ≡ 0
      → IsSpread (granted c.malloc (complex_bytes c (get_or p.dims.n 0 0)) world.heap) (
          granted c.malloc
            (complex_bytes c (get_or p.dims.n 0 0))
            (taken c.malloc (complex_bytes c (get_or p.dims.n 0 0)) world.heap))
      → Returns
          (λ st.
            st.1.heap
            ≡ taken c.malloc
                (complex_bytes c (get_or p.dims.n 0 0))
                (taken c.malloc (complex_bytes c (get_or p.dims.n 0 0)) world.heap))
          (do_accuracy c fftaccuracy p rounds world)
  unfolding do_accuracy
  do_accuracy-keeps rounds world unfailing rank vrank spread =
      let bytes = complex_bytes c (get_or p.dims.n 0 0) in
      let a = granted c.malloc bytes world.heap in
      let h = taken c.malloc bytes world.heap in
      let b = granted c.malloc bytes h in
      rw
        (
          rank_test p rank,
          vrank_test p vrank,
          bench_malloc_lem c.malloc bytes world.heap unfailing,
          bench_malloc_lem c.malloc bytes h unfailing,
        )
        (Returns-bind
          (Returns-loop (λ _ (st : Norms R × Session R). Unit {0}) (pos_part rounds)
            (λ _. accuracy_round c fftaccuracy p a b) (no_norms c, world.session)
            (λ i st lt _. accuracy_round-Returns a b st spread) tt)
          λ st _. Returns-ok _ refl)
