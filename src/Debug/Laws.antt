-- ===== src/Debug/Laws.antt =====
-- What the guards of the debugging allocator catch.
use bench_fft.Base.{
  ℕ, zero, suc, ◌+◌, ◌-◌, ◌*◌, ◌<◌, ◌≤◌, ◌≡◌, ◌≢◌, inl, inr, refl, ap, arith, Bool, true, false,
  ◌&&◌, not, ◌==◌, ==→≡, Bool-cases, Buffer, store, store_same, loop_below,
}
use bench_fft.Base.Int.{ℤ, ◌-ℤ◌, ltb_ℤ}
use bench_fft.Base.Int.ℤ.{pos}
use bench_fft.Base.Outcome.{Outcome, ok, assertion_failed, ◌>>◌, bench_assert, Ensures, Ensures-eq}
use bench_fft.Debug.{
  Block, Debug, magic_word, not_magic, two_size_t, to_int, fresh_byte, freed_byte, guarded,
  consistent, bench_free,
}

assert_fails :
    {A : Type 0} (b : Bool) (rest : Outcome A)
    → rest ≡ assertion_failed
    → (bench_assert b >> rest) ≡ assertion_failed
assert_fails true rest h = h
assert_fails false rest h = refl

assert-Ensures :
    {A : Type 0} (P : A → Type 0) (b : Bool) (rest : Outcome A)
    → Ensures P rest
    → Ensures P (bench_assert b >> rest)
assert-Ensures P true rest h = h
assert-Ensures P false rest h = tt

pub unequal_test : (a b : ℕ) → a ≢ b → (a == b) ≡ false
unequal_test a b h = ground arith

false_right : (b : Bool) → (b && false) ≡ false
false_right true = refl
false_right false = refl

guarded_broken :
    (n k j : ℕ) (bytes : Buffer ℕ)
    → j < k
    → bytes (n + j) ≢ fresh_byte (n + j)
    → guarded n k bytes ≡ false
unfolding guarded
guarded_broken n zero j bytes lt h = absurd (omega arith)
guarded_broken n (suc k) j bytes lt h = elim (Bool-cases (j == k)) [
  | inl now ↦
      let broken : (bytes (n + k) == fresh_byte (n + k)) ≡ false =
        rw (← ==→≡ j k now) (unequal_test (bytes (n + j)) (fresh_byte (n + j)) h) in
      rw broken (false_right (guarded n k bytes))
  | inr before ↦ rw (guarded_broken n k j bytes (ground arith) h)
]

-- The conditions that `bench_free` asserts, in order.
module _ (user : ℕ) (s : Debug) where
  abbrev pub block : Block
  block = s.blocks (user - two_size_t)

  abbrev pub total : ℤ
  total = to_int (s.malloc_total -ℤ pos block.size)

  abbrev pub given : Bool
  given = not (user == 0)

  abbrev pub placed : Bool
  placed = not (user - two_size_t == 0)

  abbrev pub marked : Bool
  marked = block.magic == magic_word

  abbrev pub enough : Bool
  enough = not (ltb_ℤ total (pos 0))

  abbrev pub intact : Bool
  intact = guarded block.size block.size block.bytes

  abbrev pub counted : Bool
  counted = not (ltb_ℤ (s.malloc_cnt -ℤ pos 1) (pos 0))

  abbrev pub agreed : Bool
  agreed = consistent (s.malloc_cnt -ℤ pos 1) total

  abbrev pub wiped : Block
  wiped = record {
    size = 0;
    magic = not_magic;
    bytes = loop_below (2 * block.size) (λ i c. store c i (freed_byte i)) block.bytes;
  }

-- A write past the end of a block is found: if a byte from the block's size up to twice that size is
-- not as `bench_malloc` left it, `bench_free` fails an assertion.
pub bench_free-overrun :
    (user : ℕ) (s : Debug) (i : ℕ)
    → (s.blocks (user - two_size_t)).size ≤ i
    → i < 2 * (s.blocks (user - two_size_t)).size
    → (s.blocks (user - two_size_t)).bytes i ≢ fresh_byte i
    → bench_free user s ≡ assertion_failed
unfolding bench_free
bench_free-overrun user s i lo hi h =
    let b = s.blocks (user - two_size_t) in
    let place : b.size + (i - b.size) ≡ i = omega arith in
    let broken : guarded b.size b.size b.bytes ≡ false =
      guarded_broken b.size b.size (i - b.size) b.bytes (omega arith) (rw place h) in
    rw broken (
      assert_fails (given user s) _ (
        assert_fails (placed user s) _
          (assert_fails (marked user s) _ (assert_fails (enough user s) _ refl))))

freed-Ensures :
    (user : ℕ) (s : Debug)
    → Ensures (λ t. (t.blocks (user - two_size_t)).magic ≡ not_magic) (bench_free user s)
unfolding bench_free
freed-Ensures user s =
    (assert-Ensures {A = Debug} (λ t. (t.blocks (user - two_size_t)).magic ≡ not_magic)
      (given user s) _
      (assert-Ensures {A = Debug} (λ t. (t.blocks (user - two_size_t)).magic ≡ not_magic)
        (placed user s) _
        (assert-Ensures {A = Debug} (λ t. (t.blocks (user - two_size_t)).magic ≡ not_magic)
          (marked user s) _
          (assert-Ensures {A = Debug} (λ t. (t.blocks (user - two_size_t)).magic ≡ not_magic)
            (enough user s) _
            (assert-Ensures {A = Debug} (λ t. (t.blocks (user - two_size_t)).magic ≡ not_magic)
              (intact user s) _
              (assert-Ensures {A = Debug} (λ t. (t.blocks (user - two_size_t)).magic ≡ not_magic)
                (counted user s) _
                (assert-Ensures {A = Debug} (λ t. (t.blocks (user - two_size_t)).magic ≡ not_magic)
                  (agreed user s) _
                  (ap (λ (b : Block). b.magic)
                    (store_same s.blocks (user - two_size_t) (wiped user s))))))))))

freed_again :
    (user : ℕ) (t : Debug)
    → (t.blocks (user - two_size_t)).magic ≡ not_magic
    → bench_free user t ≡ assertion_failed
unfolding bench_free
freed_again user t m = rw m (assert_fails (given user t) _ (assert_fails (placed user t) _ refl))

-- A second `bench_free` of the same address fails an assertion.
pub bench_free_twice :
    (user : ℕ) (s t : Debug) → bench_free user s ≡ ok t → bench_free user t ≡ assertion_failed
bench_free_twice user s t e = freed_again user t (Ensures-eq _ e (freed-Ensures user s))
