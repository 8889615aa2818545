-- ===== src/Mp/Cache/Laws.antt =====
-- The cache of Bluestein's algorithm owns its arrays, until `fftaccuracy_done` frees them.
use bench_fft.Base.{
  ℕ, ◌≡◌, ◌≢◌, ◌⊎◌, inl, inr, refl, sym, ap, ◌∙◌, ==_refl, List, [], ◌∷◌, if◌then◌else◌,
}
use bench_fft.Base.Int.{eqb_ℤ}
use bench_fft.Base.Int.ℤ.{pos}
use bench_fft.Base.Outcome.{ok, invalid_free, ◌>>=◌, Ensures, Ensures-bind, Ensures-if}
use bench_fft.Problem.Storage.{Heap, Allocator, release, bench_malloc, bench_free}
use bench_fft.Problem.Storage.Laws.{
  NotIn, IsAllocator, IsFresh, bench_malloc-IsFresh, bench_free_first, not_same, heap_path,
}
use bench_fft.Mp.Cache.{Cache, free_if, array_bytes, renew, bluestein_blocks, fftaccuracy_done}

-- The cache owns nothing, or the two arrays on top of the blocks `base`.
pub record IsCached (base : List ℕ) (c : Cache) (h : Heap) : Type 0 where
  pub owned :
      ((c.w ≡ 0) × (c.y ≡ 0) × (h.live ≡ base))
      ⊎ ((c.w ≢ 0) × (c.y ≢ 0) × (c.w ≢ c.y) × NotIn c.w base × (h.live ≡ c.y ∷ c.w ∷ base))

release_skip :
    (p q : ℕ) (live rest : List ℕ)
    → p ≢ q
    → release p live ≡ ok rest
    → release p (q ∷ live) ≡ ok (q ∷ rest)
unfolding release
release_skip p q live rest ne e = rw (not_same p q ne, e) refl

release_missing : (p : ℕ) (live : List ℕ) → NotIn p live → release p live ≡ invalid_free
unfolding release
release_missing p [] h = refl
release_missing p (q ∷ live) h = rw (not_same p q h.0, release_missing p live h.1) refl

free_if_null : (p : ℕ) (h : Heap) → p ≡ 0 → free_if p h ≡ ok h
free_if_null p h e = rw e refl

-- Freeing the first block, the second or the third.
free_if_found :
    (p : ℕ) (live rest : List ℕ)
    → p ≢ 0
    → release p live ≡ ok rest
    → free_if p (record { live = live }) ≡ ok (record { live = rest })
unfolding bench_free
free_if_found p live rest ne e = rw (not_same p 0 ne, e) refl

free_if_missing :
    (p : ℕ) (live : List ℕ)
    → p ≢ 0
    → NotIn p live
    → free_if p (record { live = live }) ≡ invalid_free
unfolding bench_free
free_if_missing p live ne h = rw (not_same p 0 ne, release_missing p live h) refl

found_first : (p : ℕ) (live : List ℕ) → release p (p ∷ live) ≡ ok live
unfolding release
found_first p live = rw (==_refl p) refl

-- After `fftaccuracy_done` a second call frees an array that is not allocated: the first call leaves
-- the cache as it was. The cache owns two arrays, which no other block shares.
pub fftaccuracy_done_twice :
    (base : List ℕ) (c : Cache) (h : Heap)
    → IsCached base c h
    → c.w ≢ 0
    → (fftaccuracy_done c h ≡ ok (record { live = base }))
      × (fftaccuracy_done c (record { live = base }) ≡ invalid_free)
unfolding fftaccuracy_done
fftaccuracy_done_twice base c h owner ne = choose owner.owned
  where
    choose :
        ((c.w ≡ 0) × (c.y ≡ 0) × (h.live ≡ base))
          ⊎ ((c.w ≢ 0) × (c.y ≢ 0) × (c.w ≢ c.y) × NotIn c.w base × (h.live ≡ c.y ∷ c.w ∷ base))
        → ((free_if c.w h >>= free_if c.y) ≡ ok (record { live = base }))
          × ((free_if c.w (record { live = base }) >>= free_if c.y) ≡ invalid_free)
    choose (inl (e, f, g)) = absurd (ne e)
    choose (inr (nw, ny, apart, missing, live)) = (
      rw
          (
            heap_path live,
            free_if_found c.w (c.y ∷ c.w ∷ base) (c.y ∷ base) nw
                (release_skip c.w c.y (c.w ∷ base) base apart (found_first c.w base)),
          )
          (free_if_found c.y (c.y ∷ base) base ny (found_first c.y base)),
      rw (free_if_missing c.w base nw missing) refl,
    )

free_third :
    (p q b : ℕ) (base : List ℕ)
    → b ≢ 0
    → b ≢ p
    → b ≢ q
    → bench_free b (record { live = p ∷ q ∷ b ∷ base }) ≡ ok (record { live = p ∷ q ∷ base })
unfolding bench_free
free_third p q b base ne np nq =
    rw
      (
        not_same b 0 ne,
        release_skip b p (q ∷ b ∷ base) (q ∷ base) np
            (release_skip b q (b ∷ base) base nq (found_first b base)),
      )
      refl

-- Freeing the work array leaves the cache in possession of its arrays.
record IsEnded (base : List ℕ) (b : ℕ) (r : Cache × Heap) : Type 0 where
  heap : Heap
  freed : bench_free b r.1 ≡ ok heap
  cached : IsCached base r.0 heap

module _ (malloc : Allocator) (allocates : IsAllocator malloc) (sizeof_number n nb : ℕ)
    (base : List ℕ) where
  -- The two allocations of `renew`, over the work array `b`.
  fresh-IsEnded :
      (b : ℕ)
      → b ≢ 0
      → Ensures (IsEnded base b) (
          bench_malloc malloc (array_bytes sizeof_number n) (record { live = b ∷ base }) >>= λ w.
          bench_malloc malloc (array_bytes sizeof_number nb) w.1 >>= λ y.
          ok (record { w = w.0; y = y.0; n = pos n }, y.1))
  fresh-IsEnded b nonzero =
      Ensures-bind (IsFresh (record { live = b ∷ base })) _
        (bench_malloc malloc (array_bytes sizeof_number n) (record { live = b ∷ base })) _
        (bench_malloc-IsFresh malloc allocates (array_bytes sizeof_number n) _)
        λ w fw.
          Ensures-bind (IsFresh w.1) _ (bench_malloc malloc (array_bytes sizeof_number nb) w.1) _
            (bench_malloc-IsFresh malloc allocates (array_bytes sizeof_number nb) w.1)
            λ y fy.
              let second : NotIn y.0 (w.0 ∷ b ∷ base) = rw fw.taken at fy.unused in
              let live : y.1 ≡ record { live = y.0 ∷ w.0 ∷ b ∷ base } =
                fy.taken ∙ ap (λ (x : Heap). record { live = y.0 ∷ x.live }) fw.taken in
              record {
                heap = record { live = y.0 ∷ w.0 ∷ base };
                freed =
                    ap (bench_free b) live
                    ∙ free_third y.0 w.0 b base nonzero (λ e. second.1.0 (sym e))
                        (λ e. fw.unused.0 (sym e));
                cached = record {
                  owned = inr (fw.nonzero, fy.nonzero, λ e. second.0 (sym e), fw.unused.1, refl);
                };
              }

  renew-IsEnded :
      (c : Cache) (h : Heap) (b : ℕ)
      → b ≢ 0
      → NotIn b h.live
      → IsCached base c h
      → Ensures (IsEnded base b) (renew malloc sizeof_number n nb c (record { live = b ∷ h.live }))
  unfolding renew
  renew-IsEnded c h b nonzero unused owner = choose owner.owned
    where
      choose :
          ((c.w ≡ 0) × (c.y ≡ 0) × (h.live ≡ base))
            ⊎ ((c.w ≢ 0) × (c.y ≢ 0) × (c.w ≢ c.y) × NotIn c.w base × (h.live ≡ c.y ∷ c.w ∷ base))
          → Ensures (IsEnded base b) (
              free_if c.w (record { live = b ∷ h.live }) >>= λ h1. free_if c.y h1 >>= λ h2.
              bench_malloc malloc (array_bytes sizeof_number n) h2 >>= λ w.
              bench_malloc malloc (array_bytes sizeof_number nb) w.1 >>= λ y.
              ok (record { w = w.0; y = y.0; n = pos n }, y.1))
      choose (inl (e, f, g)) =
          rw
            (
              free_if_null c.w (record { live = b ∷ h.live }) e,
              free_if_null c.y (record { live = b ∷ h.live }) f,
              g,
            )
            (fresh-IsEnded b nonzero)
      choose (inr (nw, ny, apart, missing, live)) =
          let new : NotIn b (c.y ∷ c.w ∷ base) = rw live at unused in
          rw
            (
              live,
              free_if_found c.w (b ∷ c.y ∷ c.w ∷ base) (b ∷ c.y ∷ base) nw (
                  release_skip c.w b (c.y ∷ c.w ∷ base) (c.y ∷ base) (λ e. new.1.0 (sym e))
                    (release_skip c.w c.y (c.w ∷ base) base apart (found_first c.w base))),
              free_if_found c.y (b ∷ c.y ∷ base) (b ∷ base) ny (
                  release_skip c.y b (c.y ∷ base) base (λ e. new.0 (sym e)) (found_first c.y base)),
            )
            (fresh-IsEnded b nonzero)

  -- `bluestein` frees its work array and the arrays of a size that it replaces, and leaves the cache in
  -- possession of two arrays, or as it was: no block is freed that is not allocated, and none is lost.
  -- The allocator returns 0 or an address that is not in use.
  pub bluestein_blocks-IsCached :
      (c : Cache) (h : Heap)
      → IsCached base c h
      → Ensures
          (λ (r : Cache × Heap). IsCached base r.0 r.1)
          (bluestein_blocks malloc sizeof_number n nb c h)
  unfolding bluestein_blocks
  bluestein_blocks-IsCached c h owner =
      Ensures-bind (IsFresh h) _ (bench_malloc malloc (array_bytes sizeof_number nb) h) _
        (bench_malloc-IsFresh malloc allocates (array_bytes sizeof_number nb) h)
        λ b fb.
          Ensures-bind (IsEnded base b.0) _
            (if eqb_ℤ c.n (pos n) then ok (c, b.1) else renew malloc sizeof_number n nb c b.1) _
            (Ensures-if (IsEnded base b.0) (eqb_ℤ c.n (pos n)) (ok (c, b.1))
              (renew malloc sizeof_number n nb c b.1)
              (record {
                heap = h;
                freed = ap (bench_free b.0) fb.taken ∙ bench_free_first b.0 h.live fb.nonzero;
                cached = owner;
              })
              (rw fb.taken (renew-IsEnded c h b.0 fb.nonzero fb.unused owner)))
            λ r ended. rw (ended.freed, Ensures) ended.cached
