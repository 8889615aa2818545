-- ===== src/Debug/Tests.antt =====
-- A block of three bytes.
use bench_fft.Base.{
  store, loop_below, ℕ, ◌*◌, ◌<◌, ◌≤◌, ◌≡◌, inl, refl, arith, Buffer, ◌==◌, if◌then◌else◌,
}
use bench_fft.Base.Int.{◌-ℤ◌}
use bench_fft.Base.Int.ℤ.{pos}
use bench_fft.Base.Outcome.{ok, assertion_failed}
use bench_fft.Debug.{
  Debug, magic_word, not_magic, fresh_byte, freed_byte, bench_malloc, bench_free, guarded,
}
use bench_fft.Debug.Laws.{bench_free-overrun}
use bench_fft.Debug.NoAlarm.{write, bench_free-malloc}

abbrev empty : Debug
empty = record {
  malloc_cnt = pos 0;
  malloc_total = pos 0;
  malloc_max = pos 0;
  malloc_cnt_max = pos 0;
  blocks = λ p. record { size = 0; magic = 0; bytes = λ i. 0 };
}

-- The byte at 4 is past the end of the block at 64.
abbrev spoilt : Debug
spoilt = record empty {
  malloc_cnt = pos 1;
  malloc_total = pos 3;
  blocks =
      λ p. record { size = 3; magic = magic_word; bytes = λ i. if i == 4 then 0 else fresh_byte i };
}

bench_free-malloc_example :
    (r : ℕ × Debug) × (bench_malloc 64 3 empty ≡ ok r)
    × ((i : ℕ) → i < 2 * 3 → (r.1.blocks 64).bytes i ≡ fresh_byte i)
    × ((w : Buffer ℕ)
        → ((i : ℕ) → 3 ≤ i → i < 2 * 3 → w i ≡ fresh_byte i)
        → (u : Debug) × (bench_free r.0 (write 64 w r.1) ≡ ok u)
          × (u.malloc_cnt ≡ pos 0)
          × (u.malloc_total ≡ pos 0))
bench_free-malloc_example =
    bench_free-malloc 64 3 0 0 empty (λ e. absurd (omega arith)) refl refl (omega arith)
      (inl (refl, refl))

bench_free-overrun_example : bench_free 80 spoilt ≡ assertion_failed
bench_free-overrun_example =
    bench_free-overrun 80 spoilt 4 (omega arith) (omega arith) (λ e. absurd (omega arith))

abbrev sound : Debug
sound = record empty {
  malloc_cnt = pos 1;
  malloc_total = pos 3;
  blocks = λ p. record { size = 3; magic = magic_word; bytes = fresh_byte };
}

abbrev gone : Debug
gone = record sound {
  malloc_cnt = pos 0;
  malloc_total = pos 0;
  blocks = store sound.blocks 64 (record {
    size = 0;
    magic = not_magic;
    bytes = loop_below 6 (λ i c. store c i (freed_byte i)) fresh_byte;
  });
}

sound_freed : bench_free 80 sound ≡ ok gone
unfolding bench_free guarded ◌-ℤ◌
sound_freed = refl
