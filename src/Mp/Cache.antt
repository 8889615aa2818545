-- ===== src/Mp/Cache.antt =====
-- The blocks of Bluestein's algorithm in libbench/mp.c: the work array of a call, and the two arrays that are
-- kept from call to call. What the arrays hold is not modelled here.
pub mod Laws
mod Tests
use bench_fft.Base.{ℕ, zero, suc, ◌+◌, ◌*◌, ◌%◌, ◌^◌, not, ◌==◌, if◌then◌else◌}
use bench_fft.Base.Int.{ℤ, eqb_ℤ}
use bench_fft.Base.Int.ℤ.{pos}
use bench_fft.Base.Outcome.{Outcome, ok, ◌>>=◌, ◌>>◌}
use bench_fft.Problem.Storage.{Heap, Allocator, bench_malloc, bench_free}

-- `cached_bluestein_w`, `cached_bluestein_y` and `cached_bluestein_n`: addresses, 0 for null, and -1 at
-- first.
pub record Cache : Type 0 where
  pub w : ℕ
  pub y : ℕ
  pub n : ℤ

-- `if (p) bench_free(p);`
abbrev pub free_if : ℕ → Heap → Outcome Heap
free_if p h = if p == 0 then ok h else bench_free p h

-- `(N *)bench_malloc(2 * n * sizeof(N))`, a `size_t`.
abbrev pub array_bytes : ℕ → ℕ → ℕ
array_bytes sizeof_number n = (2 * n * sizeof_number) % 2 ^ 64

-- The arrays of a size that is not in the cache.
unfoldable pub renew : Allocator → ℕ → ℕ → ℕ → Cache → Heap → Outcome (Cache × Heap)
renew malloc sizeof_number n nb c h = do
  h1 ← free_if c.w h
  h2 ← free_if c.y h1
  (w, h3) ← bench_malloc malloc (array_bytes sizeof_number n) h2
  (y, h4) ← bench_malloc malloc (array_bytes sizeof_number nb) h3
  ok (record { w = w; y = y; n = pos n }, h4)

-- The calls of `bluestein` that allocate and free, for the length `nb` of the convolution.
unfoldable pub bluestein_blocks : Allocator → ℕ → ℕ → ℕ → Cache → Heap → Outcome (Cache × Heap)
bluestein_blocks malloc sizeof_number n nb c h = do
  (b, h1) ← bench_malloc malloc (array_bytes sizeof_number nb) h
  (c', h2) ← (if eqb_ℤ c.n (pos n) then ok (c, h1) else renew malloc sizeof_number n nb c h1)
  h3 ← bench_free b h2
  ok (c', h3)

-- The cached arrays are freed, and the cache still points to them.
unfoldable pub fftaccuracy_done : Cache → Heap → Outcome Heap
fftaccuracy_done c h = do h' ← free_if c.w h; free_if c.y h'
