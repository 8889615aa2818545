-- ===== src/Mp/Cache/Tests.antt =====
-- A cache with arrays at 20 and 30.
use bench_fft.Base.{◌≡◌, refl, arith, inr, [], ◌∷◌}
use bench_fft.Base.Int.ℤ.{pos}
use bench_fft.Base.Outcome.{ok, invalid_free, Ensures}
use bench_fft.Problem.Storage.{Heap}
use bench_fft.Problem.Storage.Tests.{next_address, next_address-IsAllocator}
use bench_fft.Mp.Cache.{Cache, bluestein_blocks, fftaccuracy_done}
use bench_fft.Mp.Cache.Laws.{IsCached, fftaccuracy_done_twice, bluestein_blocks-IsCached}

abbrev cache : Cache
cache = record { w = 20; y = 30; n = pos 15 }

abbrev heap : Heap
heap = record { live = 30 ∷ 20 ∷ 7 ∷ [] }

cache-IsCached : IsCached (7 ∷ []) cache heap
cache-IsCached = record {
  owned = inr (
    λ e. absurd (omega arith),
    λ e. absurd (omega arith),
    λ e. absurd (omega arith),
    (λ e. absurd (omega arith), tt),
    refl,
  );
}

fftaccuracy_done_twice_example :
    (fftaccuracy_done cache heap ≡ ok (record { live = 7 ∷ [] }))
    × (fftaccuracy_done cache (record { live = 7 ∷ [] }) ≡ invalid_free)
fftaccuracy_done_twice_example =
    fftaccuracy_done_twice (7 ∷ []) cache heap cache-IsCached (λ e. absurd (omega arith))

bluestein_blocks-IsCached_example :
    Ensures
      (λ (r : Cache × Heap). IsCached (7 ∷ []) r.0 r.1)
      (bluestein_blocks next_address 24 12 32 cache heap)
bluestein_blocks-IsCached_example =
    bluestein_blocks-IsCached next_address next_address-IsAllocator 24 12 32 (7 ∷ []) cache heap
      cache-IsCached
