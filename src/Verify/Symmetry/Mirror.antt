-- ===== src/Verify/Symmetry/Mirror.antt =====
-- The sizes of `mkhermitian`'s subarrays, and the place that mirrors another in an array of several
-- dimensions.
use native.Mathlib.Nat.{
  mul_assoc, mul_comm, mul-le-mul_right, div-add-mod', mod-lt, mod_self, mod-eq_of_lt,
  div-lt_iff_lt-mul,
}
use bench_fft.Base.{
  ℕ, ◌+◌, ◌-◌, ◌*◌, ◌/◌, ◌%◌, ◌^◌, ◌<◌, ◌≤◌, ◌≡◌, sym, ap, ap₂, ◌∙◌, arith, List, [], ◌∷◌,
  Bool-cases, ◌==◌, ==→≡, inl, inr,
}
use bench_fft.Verify.Rows.{flat_div, flat_mod, flat_lt}
use bench_fft.Verify.Symmetry.{product}

unfoldable pub volume : List ℕ → ℕ
volume [] = 1
volume (n0 ∷ n) = n0 * volume n

-- Every size is positive.
abbrev pub IsPositive : List ℕ → Type 0
IsPositive [] = Unit {0}
IsPositive (n0 ∷ n) = (1 ≤ n0) × IsPositive n

pub volume-IsPositive : (n : List ℕ) → IsPositive n → 1 ≤ volume n
unfolding volume
volume-IsPositive [] h = omega arith
volume-IsPositive (n0 ∷ n) h =
    omega (arith, mul-le-mul_right {m = 1} {n = n0} (volume n) h.0, volume-IsPositive n h.1)

-- The loop that multiplies sizes does not wrap around if the product is below 2^32.
pub product-volume :
    (n : List ℕ) (size : ℕ)
    → IsPositive n
    → size * volume n < 2 ^ 32
    → product n size ≡ size * volume n
unfolding product volume
product-volume [] size h small = omega arith
product-volume (n0 ∷ n) size h small =
    ap (product n) (mod-eq_of_lt below)
    ∙ product-volume n (size * n0) h.1 (omega (arith, mul_assoc size n0 (volume n)))
    ∙ mul_assoc size n0 (volume n)
  where
    below : size * n0 < 2 ^ 32
    below = omega (
      arith,
      mul_assoc size n0 (volume n),
      mul_comm (size * n0) (volume n),
      mul-le-mul_right {m = 1} {n = volume n} (size * n0) (volume-IsPositive n h.1),
    )

-- `(n0 - i) mod n0`
abbrev pub back : ℕ → ℕ → ℕ
back n0 i = (n0 - i) % n0

pub back_lt : (n0 i : ℕ) → i < n0 → back n0 i < n0
back_lt n0 i lt = mod-lt (n0 - i) (omega arith)

pub back_first : (n0 : ℕ) → back n0 0 ≡ 0
back_first n0 = ap (λ (x : ℕ). x % n0) {x = n0 - 0} {y = n0} (omega arith) ∙ mod_self n0

pub back_later : (n0 i : ℕ) → 1 ≤ i → i < n0 → back n0 i ≡ n0 - i
back_later n0 i pos lt = mod-eq_of_lt (omega arith)

pub back_twice : (n0 i : ℕ) → i < n0 → back n0 (back n0 i) ≡ i
back_twice n0 i lt = elim (Bool-cases (i == 0)) [
  | inl first ↦
      let e : i ≡ 0 = ==→≡ i 0 first in
      ap (back n0) (ap (back n0) e ∙ back_first n0) ∙ back_first n0 ∙ sym e
  | inr later ↦
      ap (back n0) (back_later n0 i (ground arith) lt)
      ∙ back_later n0 (n0 - i) (omega arith) (ground arith)
      ∙ (ground arith)
]

unfoldable pub mirror : List ℕ → ℕ → ℕ
mirror [] q = 0
mirror (n0 ∷ n) q = let rest = mirror n (q % volume n) in back n0 (q / volume n) * volume n + rest

pub mirror_flat :
    (n0 i k : ℕ) (n : List ℕ)
    → k < volume n
    → mirror (n0 ∷ n) (i * volume n + k) ≡ back n0 i * volume n + mirror n k
unfolding mirror
mirror_flat n0 i k n lt =
    ap₂ (λ (a b : ℕ). back n0 a * volume n + mirror n b) (flat_div i k (volume n) lt)
      (flat_mod i k (volume n) lt)

pub mirror_lt : (n : List ℕ) (q : ℕ) → IsPositive n → q < volume n → mirror n q < volume n
unfolding mirror volume
mirror_lt [] q h lt = omega arith
mirror_lt (n0 ∷ n) q h lt =
    let pos = volume-IsPositive n h.1 in
    let block_lt = (div-lt_iff_lt-mul {k = volume n} {x = q} {y = n0} pos).1 lt in
    let within_lt = mod-lt q {m = volume n} pos in
    flat_lt (back n0 (q / volume n)) (mirror n (q % volume n)) n0 (volume n)
      (back_lt n0 (q / volume n) block_lt) (mirror_lt n (q % volume n) h.1 within_lt)

-- The mirror of the mirror of a place is the place.
pub mirror_twice : (n : List ℕ) (q : ℕ) → IsPositive n → q < volume n → mirror n (mirror n q) ≡ q
unfolding mirror volume
mirror_twice [] q h lt = omega arith
mirror_twice (n0 ∷ n) q h lt =
    let pos = volume-IsPositive n h.1 in
    let block_lt = (div-lt_iff_lt-mul {k = volume n} {x = q} {y = n0} pos).1 lt in
    let within_lt = mod-lt q {m = volume n} pos in
    mirror_flat n0 (back n0 (q / volume n)) (mirror n (q % volume n)) n
      (mirror_lt n (q % volume n) h.1 within_lt)
    ∙ ap₂ (λ (a b : ℕ). a * volume n + b) (back_twice n0 (q / volume n) block_lt)
        (mirror_twice n (q % volume n) h.1 within_lt)
    ∙ div-add-mod' q (volume n)
