-- ===== src/Verify/Rows/Rotate.antt =====
-- `arol` of libbench/verify.c rotates every row of rows by one.
use native.Mathlib.Nat.{add-mul, mod-eq_of_lt, mod_self}
use mathlib.Core.Path.{subst}
use bench_fft.Base.{
  ℕ, suc, ◌+◌, ◌-◌, ◌*◌, ◌/◌, ◌%◌, ◌^◌, ◌<◌, ◌≤◌, ◌≡◌, refl, sym, ap, ◌∙◌, arith, Buffer, store,
  store_same, store_other, loop_below, loop_below_inv, IsWritten, one-IsWritten, count-IsWritten,
  nothing-IsWritten,
}
use bench_fft.Arrays.Laws.{IsDisjoint}
use bench_fft.Verify.{index, arol, arol_row}
use bench_fft.Verify.Rows.{flat_div, flat_mod, flat_lt, index_lem, minus_one_lem, kept_apart}

-- Where the element that comes to place `q` was: one row on, the last row's at the first.
abbrev pub rotated : ℕ → ℕ → ℕ → ℕ
rotated n n_after q = (q / n_after / n * n + (q / n_after % n + 1) % n) * n_after + q % n_after

rotated_flat :
    (n n_after ib i i' ia : ℕ)
    → ia < n_after
    → i < n
    → (i + 1) % n ≡ i'
    → rotated n n_after ((ib * n + i) * n_after + ia) ≡ (ib * n + i') * n_after + ia
rotated_flat n n_after ib i i' ia lt lt' e =
    rw (flat_div (ib * n + i) ia n_after lt, flat_mod (ib * n + i) ia n_after lt)
      (rw (flat_div ib i n lt', flat_mod ib i n lt', e) refl)

last_round : (n i : ℕ) → 1 ≤ n → i ≡ n - 1 → (i + 1) % n ≡ 0
last_round n i pos e = subst (λ (x : ℕ). x % n ≡ 0) {x = n} (omega arith) (mod_self n)

module _ {A : Type 0} (n_before n n_after a b : ℕ) (old : Buffer A) (pos : 1 ≤ n)
    (fits : n_before * n * n_after ≤ 2 ^ 32) (apart : IsDisjoint (n_before * n * n_after) a b) where
  abbrev Turned : ℕ → Buffer A → Type 0
  Turned m buf = IsWritten b m (λ q. old (a + rotated n n_after q)) old buf

  one_cell :
      (ib i i' ia : ℕ) (buf : Buffer A)
      → ib < n_before
      → i < n
      → i' < n
      → ia < n_after
      → (i + 1) % n ≡ i'
      → Turned ((ib * n + i) * n_after + ia) buf
      → Turned
          ((ib * n + i) * n_after + suc ia)
          (store buf (b + index n n_after ib i ia) (buf (a + index n n_after ib i' ia)))
  one_cell ib i i' ia buf lt hi hi' ha e h =
      rw
        (
          index_lem n_before n n_after ib i ia fits lt hi ha,
          index_lem n_before n n_after ib i' ia fits lt hi' ha,
        )
        (count-IsWritten b _ old {n = suc ((ib * n + i) * n_after + ia)} (omega arith) (
          one-IsWritten b _ old ((ib * n + i) * n_after + ia) buf new h
            (store_same buf (b + ((ib * n + i) * n_after + ia)) _
              ∙ kept_apart (n_before * n * n_after) ((ib * n + i) * n_after + ia) a b
                  ((ib * n + i') * n_after + ia) apart (omega (arith, in_range i hi))
                  (in_range i' hi') h
              ∙ ap (λ (x : ℕ). old (a + x)) (sym (rotated_flat n n_after ib i i' ia ha hi e)))
            λ j ne. store_other buf (b + ((ib * n + i) * n_after + ia)) _ j ne))
    where
      new : Buffer A
      new = store buf (b + ((ib * n + i) * n_after + ia)) (buf (a + ((ib * n + i') * n_after + ia)))

      in_range : (k : ℕ) → k < n → (ib * n + k) * n_after + ia < n_before * n * n_after
      in_range k lt' =
          flat_lt (ib * n + k) ia (n_before * n) n_after (flat_lt ib k n_before n lt lt') ha

  one_row :
      (ib i i' : ℕ) (buf : Buffer A)
      → ib < n_before
      → i < n
      → i' < n
      → (i + 1) % n ≡ i'
      → Turned ((ib * n + i) * n_after) buf
      → Turned ((ib * n + suc i) * n_after) (
          loop_below n_after
            (λ ia m. store m (b + index n n_after ib i ia) (m (a + index n n_after ib i' ia)))
            buf)
  one_row ib i i' buf lt hi hi' e h =
      count-IsWritten b _ old {n = (ib * n + i) * n_after + n_after}
        (omega (arith, add-mul (ib * n + i) 1 n_after, ap (λ (x : ℕ). x * n_after) flat))
        (loop_below_inv (λ ia m. Turned ((ib * n + i) * n_after + ia) m) n_after _ buf
          (λ ia m ha w. one_cell ib i i' ia m lt hi hi' ha e w)
          (count-IsWritten b _ old {n = (ib * n + i) * n_after} (omega arith) h))
    where
      flat : ib * n + i + 1 ≡ ib * n + suc i
      flat = omega arith

  whole_row :
      (ib : ℕ) (buf : Buffer A)
      → n ≤ 2 ^ 32
      → ib < n_before
      → Turned (ib * n * n_after) buf
      → Turned (suc ib * n * n_after) (arol_row b a n n_after ib buf)
  whole_row ib buf small lt h = rw (minus_one_lem n pos small) (
      count-IsWritten b _ old {n = (ib * n + suc (n - 1)) * n_after}
        (ap (λ (x : ℕ). x * n_after) {x = ib * n + suc (n - 1)} {y = suc ib * n}
          (omega (arith, add-mul ib 1 n)))
        (one_row ib (n - 1) 0 _ lt (omega arith) (omega arith) (last_round n (n - 1) pos refl) (
          loop_below_inv (λ i m. Turned ((ib * n + i) * n_after) m) (n - 1) _ buf
            (λ i m hi w.
              one_row ib i (i + 1) m lt (omega arith) (omega arith) (mod-eq_of_lt (omega arith)) w)
            (count-IsWritten b _ old {n = ib * n * n_after}
              (ap (λ (x : ℕ). x * n_after) {x = ib * n} (omega arith)) h))))

  -- `arol` stores every row of the old array, rotated left by one, in the other array, and touches
  -- nothing else: the arrays share no cell and have at most 2^32 elements, `n` is positive.
  pub arol-IsWritten :
      n ≤ 2 ^ 32
      → IsWritten b
          (n_before * n * n_after)
          (λ q. old (a + rotated n n_after q))
          old
          (arol b a n n_before n_after old)
  unfolding arol
  arol-IsWritten small =
      loop_below_inv (λ ib m. Turned (ib * n * n_after) m) n_before (arol_row b a n n_after) old
        (λ ib m lt w. whole_row ib m small lt w)
        (count-IsWritten b _ old {n = 0} (omega arith) (nothing-IsWritten b _ old))
