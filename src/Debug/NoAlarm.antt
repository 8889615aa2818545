-- ===== src/Debug/NoAlarm.antt =====
-- The debugging allocator raises no false alarm.
use bench_fft.Base.{
  ℕ, zero, suc, ◌+◌, ◌-◌, ◌*◌, ◌^◌, ◌<◌, ◌≤◌, ◌≡◌, ◌≢◌, ◌⊎◌, inl, inr, refl, sym, ap, ◌∙◌, arith,
  true, not, ◌==◌, ==→≡, ==_refl, Bool-cases, Buffer, store, store_same, loop_below,
}
use bench_fft.Base.Int.{ℤ, ◌+ℤ◌, ◌-ℤ◌, ltb_ℤ}
use bench_fft.Base.Int.ℤ.{pos}
use bench_fft.Base.Outcome.{ok}
use bench_fft.Debug.{
  Block, Debug, magic_word, two_size_t, to_int, fresh_byte, larger, bench_malloc, guarded,
  consistent, bench_free,
}
use bench_fft.Debug.Laws.{
  unequal_test, block, total, given, placed, marked, enough, intact, counted, agreed, wiped,
}

guarded_intact :
    (n k : ℕ) (bytes : Buffer ℕ)
    → ((j : ℕ) → j < k → bytes (n + j) ≡ fresh_byte (n + j))
    → guarded n k bytes ≡ true
unfolding guarded
guarded_intact n zero bytes h = refl
guarded_intact n (suc k) bytes h =
    rw (guarded_intact n k bytes (λ j lt. h j (omega arith)), h k (omega arith))
      (==_refl (fresh_byte (n + k)))

-- The state in which a successful `bench_free` ends.
abbrev after_free : ℕ → Debug → Debug
after_free user s = record s {
  malloc_cnt = s.malloc_cnt -ℤ pos 1;
  malloc_total = total user s;
  blocks = store s.blocks (user - two_size_t) (wiped user s);
}

all_hold :
    (user : ℕ) (s : Debug)
    → given user s ≡ true
    → placed user s ≡ true
    → marked user s ≡ true
    → enough user s ≡ true
    → intact user s ≡ true
    → counted user s ≡ true
    → agreed user s ≡ true
    → bench_free user s ≡ ok (after_free user s)
unfolding bench_free
all_hold user s a b c d e f g = rw (a, b, c, d, e, f, g)

sum_fits : (t n : ℕ) → t + n < 2 ^ 31 → to_int (pos t +ℤ pos n) ≡ pos (t + n)
unfolding ◌+ℤ◌
sum_fits t n h = ground arith

difference_fits : (t n : ℕ) → t + n < 2 ^ 31 → to_int (pos (t + n) -ℤ pos n) ≡ pos t
unfolding ◌-ℤ◌
difference_fits t n h = ground arith

one_less : (c : ℕ) → pos c +ℤ pos 1 -ℤ pos 1 ≡ pos c
unfolding ◌+ℤ◌ ◌-ℤ◌
one_less c = ground arith

consistent_counts :
    (c t : ℕ) → ((c ≡ 0) × (t ≡ 0)) ⊎ ((0 < c) × (0 < t)) → consistent (pos c) (pos t) ≡ true
consistent_counts c t (inl (e, f)) = rw (e, f)
consistent_counts c t (inr (lt, lt')) = ground arith

-- The user's writes into the block at `p`, which leave `bytes` there.
abbrev pub write : ℕ → Buffer ℕ → Debug → Debug
write p bytes s = record s { blocks = store s.blocks p (record (s.blocks p) { bytes = bytes }) }

filled :
    (m : ℕ) (old : Buffer ℕ) (i : ℕ)
    → i < m
    → loop_below m (λ i b. store b i (fresh_byte i)) old i ≡ fresh_byte i
unfolding loop_below
filled zero old i lt = absurd (omega arith)
filled (suc m) old i lt = elim (Bool-cases (i == m)) [
  | inl last ↦ rw last (ap fresh_byte (sym (==→≡ i m last)))
  | inr before ↦ rw before (filled m old i (ground arith))
]

module _ (p n c t : ℕ) (s : Debug) (nonzero : p ≢ 0) (cnt : s.malloc_cnt ≡ pos c)
    (sum : s.malloc_total ≡ pos t) (fits : t + n < 2 ^ 31)
    (consistent_before : ((c ≡ 0) × (t ≡ 0)) ⊎ ((0 < c) × (0 < t))) where
  fresh_block : Block
  fresh_block = record {
    size = n;
    magic = magic_word;
    bytes = loop_below (2 * n) (λ i b. store b i (fresh_byte i)) (s.blocks p).bytes;
  }

  allocated : Debug
  allocated = record {
    malloc_cnt = s.malloc_cnt +ℤ pos 1;
    malloc_total = to_int (s.malloc_total +ℤ pos n);
    malloc_max = larger (to_int (s.malloc_total +ℤ pos n)) s.malloc_max;
    malloc_cnt_max = larger (s.malloc_cnt +ℤ pos 1) s.malloc_cnt_max;
    blocks = store s.blocks p fresh_block;
  }

  bench_malloc-returns : bench_malloc p n s ≡ ok (p + two_size_t, allocated)
  unfolding bench_malloc allocated fresh_block
  bench_malloc-returns = rw (unequal_test p 0 nonzero)

  fresh_bytes : (i : ℕ) → i < 2 * n → (allocated.blocks p).bytes i ≡ fresh_byte i
  unfolding allocated fresh_block
  fresh_bytes i lt =
      ap (λ (b : Block). b.bytes i) (store_same s.blocks p fresh_block)
      ∙ filled (2 * n) (s.blocks p).bytes i lt

  module _ (w : Buffer ℕ) (kept : (i : ℕ) → n ≤ i → i < 2 * n → w i ≡ fresh_byte i) where
    written : Debug
    written = write p w allocated

    written-block :
        block (p + two_size_t) written ≡ record { size = n; magic = magic_word; bytes = w }
    unfolding written allocated fresh_block
    written-block =
        let here : (p + two_size_t - two_size_t == p) ≡ true = ground arith in rw (here, ==_refl p)

    written_total : total (p + two_size_t) written ≡ pos t
    unfolding written allocated
    written_total =
        ap (λ (b : Block). to_int (to_int (s.malloc_total +ℤ pos n) -ℤ pos b.size)) written-block
        ∙ ap (λ (x : ℤ). to_int (to_int (x +ℤ pos n) -ℤ pos n)) sum
        ∙ ap (λ (x : ℤ). to_int (x -ℤ pos n)) (sum_fits t n fits)
        ∙ difference_fits t n fits

    written_count : written.malloc_cnt -ℤ pos 1 ≡ pos c
    unfolding written allocated
    written_count = ap (λ (x : ℤ). x +ℤ pos 1 -ℤ pos 1) cnt ∙ one_less c

    freed : bench_free (p + two_size_t) written ≡ ok (after_free (p + two_size_t) written)
    freed =
        all_hold (p + two_size_t) written (ground arith) (ground arith)
          (ap (λ (b : Block). b.magic == magic_word) written-block)
          (ap (λ (x : ℤ). not (ltb_ℤ x (pos 0))) written_total ∙ ground arith)
          (ap (λ (b : Block). guarded b.size b.size b.bytes) written-block
            ∙ guarded_intact n n w (λ j lt. kept (n + j) (omega arith) (omega arith)))
          (ap (λ (x : ℤ). not (ltb_ℤ x (pos 0))) written_count ∙ ground arith)
          (ap (λ (x : ℤ). consistent x (total (p + two_size_t) written)) written_count
            ∙ ap (consistent (pos c)) written_total
            ∙ consistent_counts c t consistent_before)

  -- A block of `n` bytes that is used within its bounds raises no alarm. If `malloc` succeeds, the
  -- counters agree and the total stays below 2^31, then `bench_malloc` succeeds and fills the block and
  -- its guard with a pattern; and after any writes that keep the guard, `bench_free` succeeds and the
  -- counters are back at what they were before.
  pub bench_free-malloc :
      (r : ℕ × Debug) × (bench_malloc p n s ≡ ok r)
      × ((i : ℕ) → i < 2 * n → (r.1.blocks p).bytes i ≡ fresh_byte i)
      × ((w : Buffer ℕ)
          → ((i : ℕ) → n ≤ i → i < 2 * n → w i ≡ fresh_byte i)
          → (u : Debug) × (bench_free r.0 (write p w r.1) ≡ ok u)
            × (u.malloc_cnt ≡ s.malloc_cnt)
            × (u.malloc_total ≡ s.malloc_total))
  unfolding written
  bench_free-malloc = (
    (p + two_size_t, allocated),
    bench_malloc-returns,
    fresh_bytes,
    λ w kept. (
      after_free (p + two_size_t) (written w kept),
      freed w kept,
      written_count w kept ∙ sym cnt,
      written_total w kept ∙ sym sum,
    ),
  )
