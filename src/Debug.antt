-- ===== src/Debug.antt =====
-- The debugging versions of `bench_malloc` and `bench_free` in libbench/util.c, which guard the end of
-- each block.
pub mod Laws
pub mod NoAlarm
mod Tests
use bench_fft.Base.{
  ℕ, zero, suc, ◌+◌, ◌-◌, ◌*◌, ◌%◌, ◌^◌, bit_xor, Bool, true, false, ◌&&◌, ◌||◌, not, ◌==◌, Buffer,
  store, loop_below, if◌then◌else◌,
}
use bench_fft.Base.Int.{ℤ, ◌+ℤ◌, ◌-ℤ◌, pos_part, neg_part, ltb_ℤ, eqb_ℤ, sub_ℕ}
use bench_fft.Base.Int.ℤ.{pos}
use bench_fft.Base.Outcome.{Outcome, ok, ◌>>=◌, ◌>>◌, bench_assert}

-- What stands at the address that `malloc` returned: the two words before the user's bytes, and the
-- bytes.
pub record Block : Type 0 where
  pub size : ℕ
  pub magic : ℕ
  pub bytes : Buffer ℕ

-- The counters, and the blocks by their addresses. The count of blocks is too small for an `int` to
-- overflow.
pub record Debug : Type 0 where
  pub malloc_cnt : ℤ
  pub malloc_total : ℤ
  pub malloc_max : ℤ
  pub malloc_cnt_max : ℤ
  pub blocks : Buffer Block

abbrev pub magic_word : ℕ
magic_word = 2880293630

-- `~MAGIC` in a `size_t` of 64 bits.
abbrev pub not_magic : ℕ
not_magic = 2 ^ 64 - 1 - magic_word

abbrev pub two_size_t : ℕ
two_size_t = 16

-- A `size_t` of 64 bits stored into an `int`.
abbrev pub to_int : ℤ → ℤ
to_int x = sub_ℕ ((pos_part x + 2 ^ 31 + neg_part x * (2 ^ 32 - 1)) % 2 ^ 32) (2 ^ 31)

-- `(char) (i ^ 0xDEADBEEF)` and `(char) (i ^ 0xBEEFDEAD)`, as bytes.
abbrev pub fresh_byte : ℕ → ℕ
fresh_byte i = bit_xor i 3735928559 % 256

abbrev pub freed_byte : ℕ → ℕ
freed_byte i = bit_xor i 3203391149 % 256

abbrev pub larger : ℤ → ℤ → ℤ
larger a b = if ltb_ℤ b a then a else b

-- `p` is the address that the C library's `malloc` returns; the result is the user's address.
unfoldable pub bench_malloc : ℕ → ℕ → Debug → Outcome (ℕ × Debug)
bench_malloc p n s = do
  let total = to_int (s.malloc_total +ℤ pos n)
  bench_assert (not (p == 0))
  let cnt = s.malloc_cnt +ℤ pos 1
  let bytes = loop_below (2 * n) (λ i b. store b i (fresh_byte i)) (s.blocks p).bytes
  ok (
    p + two_size_t,
    record {
      malloc_cnt = cnt;
      malloc_total = total;
      malloc_max = larger total s.malloc_max;
      malloc_cnt_max = larger cnt s.malloc_cnt_max;
      blocks = store s.blocks p (record { size = n; magic = magic_word; bytes = bytes });
    },
  )

-- The loop over `i` from `n` on: the first `k` bytes past the end are as `bench_malloc` left them.
unfoldable pub guarded : ℕ → ℕ → Buffer ℕ → Bool
guarded n zero bytes = true
guarded n (suc k) bytes = guarded n k bytes && bytes (n + k) == fresh_byte (n + k)

-- `(cnt == 0 && total == 0) || (cnt > 0 && total > 0)`
abbrev pub consistent : ℤ → ℤ → Bool
consistent cnt total =
    eqb_ℤ cnt (pos 0) && eqb_ℤ total (pos 0) || ltb_ℤ (pos 0) cnt && ltb_ℤ (pos 0) total

unfoldable pub bench_free : ℕ → Debug → Outcome Debug
bench_free p s = do
  bench_assert (not (p == 0))
  let q = p - two_size_t
  bench_assert (not (q == 0))
  let b = s.blocks q
  let n = b.size
  bench_assert (b.magic == magic_word)
  let total = to_int (s.malloc_total -ℤ pos n)
  bench_assert (not (ltb_ℤ total (pos 0)))
  bench_assert (guarded n n b.bytes)
  let bytes = loop_below (2 * n) (λ i c. store c i (freed_byte i)) b.bytes
  let cnt = s.malloc_cnt -ℤ pos 1
  bench_assert (not (ltb_ℤ cnt (pos 0)))
  bench_assert (consistent cnt total)
  ok (record s {
    malloc_cnt = cnt;
    malloc_total = total;
    blocks = store s.blocks q (record { size = 0; magic = not_magic; bytes = bytes });
  })
