-- ===== src/Mp/Normal.antt =====
-- Normal numbers, and `pack` as the way into them.
use native.Mathlib.Nat.{le-div_iff_mul-le, pow-le-pow_right}
use bench_fft.Base.{
  ℕ, zero, suc, ◌-◌, ◌*◌, ◌/◌, ◌^◌, ◌≤◌, ◌<◌, List, [], ◌≡◌, refl, ap, sym, ◌∙◌, arith, length,
  take, take-length, All, ◌⊎◌, inl, inr, Bool-cases, true, false, ltb, ◌==◌,
}
use bench_fft.Base.Int.{ℤ, ◌+ℤ◌, ◌≤ℤ◌}
use bench_fft.Base.Int.ℤ.{pos, negsuc}
use bench_fft.Mp.{Number, radix, len, top_digit, pack, zero_number, zero_expt, to_short}
use bench_fft.Mp.Digits.{value, IsDigit, power-suc, power_pos, value-take-lt}
use bench_fft.Mp.Pack.{
  IsTop, top_digit-IsTop, copy_digits-value, copy_digits-size, copy_digits-IsDigit,
}

abbrev pub IsSign : ℤ → Type 0
IsSign x = (x ≡ pos 1) ⊎ (x ≡ negsuc 0)

-- Ten digits, a sign of -1 or 1, an exponent that a `short` holds, and a top digit that is not
-- zero unless the number is.
pub record IsNumber (a : Number) : Type 0 where
  pub size : length a.d ≡ len
  pub digits : All IsDigit a.d
  pub signed : IsSign a.sign
  pub ranged : zero_expt ≤ℤ a.expt
  pub normal : (a ≡ zero_number) ⊎ (radix ^ 9 ≤ value a.d)

pub zero_number-IsNumber : IsNumber zero_number
zero_number-IsNumber = record {
  size = refl;
  digits = omega arith;
  signed = inl refl;
  ranged = omega arith;
  normal = inl refl;
}

pub to_short-sign : (s : ℤ) → IsSign s → to_short s ≡ s
to_short-sign s (inl e) = rw e
to_short-sign s (inr e) = rw e

-- What `pack` makes of a run of `l` digits with the positive value `v`: `used` digits matter, the
-- exponent falls with the unused ones, and the digits past the tenth are cut off.
pub record IsPacked (v : ℕ) (e s : ℤ) (l : ℕ) (a : Number) : Type 0 where
  pub used : ℕ
  pub positive : 0 < used
  pub least : radix ^ (used - 1) ≤ v
  pub most : v < radix ^ used
  pub sign : a.sign ≡ to_short s
  pub exponent : ℤ
  pub expt : a.expt ≡ to_short exponent
  pub lowered : exponent +ℤ pos l ≡ e +ℤ pos used
  pub size : length a.d ≡ len
  pub digits : All IsDigit a.d
  pub total : value a.d ≡ v * radix ^ len / radix ^ used

is_zero : {k : ℕ} → k ≡ 0 → (k == 0) ≡ true
is_zero e = ground arith

not_zero : {k : ℕ} → 0 < k → (k == 0) ≡ false
not_zero h = ground arith

no_count : (k v : ℕ) → (k ≡ 0) ⊎ (radix ^ (k - 1) ≤ v) → v ≡ 0 → k ≡ 0
no_count k v (inl e) none = e
no_count k v (inr le) none = absurd (omega (arith, power_pos (k - 1)))

at_least : (k v : ℕ) → (k ≡ 0) ⊎ (radix ^ (k - 1) ≤ v) → 0 < k → radix ^ (k - 1) ≤ v
at_least k v (inl e) h = absurd (omega arith)
at_least k v (inr le) h = le

some_count : (k : ℕ) (d : List ℕ) → 0 < value (take k d) → 0 < k
some_count zero d h = absurd (omega arith)
some_count (suc k) d h = omega arith

module _ (d : List ℕ) (e s : ℤ) (l : ℕ) (size : length d ≡ l) (h : All IsDigit d) where
  abbrev found : ℕ × ℤ
  found = top_digit d l e

  top : IsTop d l e found
  top = top_digit-IsTop d l e

  whole : value (take found.0 d) ≡ value d
  whole = sym top.same ∙ ap value (take-length l d size)

  pub pack-zero : value d ≡ 0 → pack d e s l ≡ zero_number
  unfolding pack
  pack-zero none =
      let stopped : (found.0 == 0) ≡ true =
        is_zero (no_count found.0 (value (take found.0 d)) top.least (whole ∙ none)) in
      rw stopped

  counted : 0 < value d → 0 < found.0
  counted positive = some_count found.0 d (omega (arith, whole))

  least : 0 < value d → radix ^ (found.0 - 1) ≤ value d
  least positive = rw whole at (at_least found.0 _ top.least (counted positive))

  pub pack-IsPacked : 0 < value d → IsPacked (value d) e s l (pack d e s l)
  unfolding pack
  pack-IsPacked positive =
      let k = counted positive in
      let more : (found.0 == 0) ≡ false = not_zero k in
      rw more (record {
        used = found.0;
        positive = k;
        least = least positive;
        most = rw whole at (value-take-lt found.0 d h);
        sign = refl;
        exponent = found.1;
        expt = refl;
        lowered = top.expt;
        size = copy_digits-size d len found.0 [];
        digits = copy_digits-IsDigit d len found.0 [] h tt;
        total = copy_digits-value d len found.0 [] h ∙ rw whole (omega arith);
      })

to_short-ranged : (x : ℤ) → zero_expt ≤ℤ to_short x
to_short-ranged x = ground arith

normal_total : (v k : ℕ) → 0 < k → radix ^ (k - 1) ≤ v → radix ^ 9 ≤ v * radix ^ len / radix ^ k
normal_total v zero h le = absurd (omega arith)
normal_total v (suc j) h le =
    (le-div_iff_mul-le {k = radix ^ suc j} {x = radix ^ 9} {y = v * radix ^ len}
        (power_pos (suc j))).1
      (omega (arith, power-suc j, ap (λ (i : ℕ). radix ^ i) {x = suc j - 1} {y = j} (omega arith)))

pub IsPacked-IsNumber :
    {v l : ℕ} {e s : ℤ} {a : Number} → IsSign s → IsPacked v e s l a → IsNumber a
IsPacked-IsNumber {v} {s} hs p = record {
  size = p.size;
  digits = p.digits;
  signed = rw (p.sign, to_short-sign s hs) hs;
  ranged = rw p.expt (to_short-ranged p.exponent);
  normal = inr (rw p.total (normal_total v p.used p.positive p.least));
}

-- `pack` always makes a normal number.
pub pack-IsNumber :
    (d : List ℕ) (e s : ℤ) (l : ℕ)
    → length d ≡ l
    → All IsDigit d
    → IsSign s
    → IsNumber (pack d e s l)
pack-IsNumber d e s l size h hs = elim (Bool-cases (value d == 0)) [
  | inl none ↦ rw (pack-zero d e s l size h (ground arith)) zero_number-IsNumber
  | inr some ↦ IsPacked-IsNumber hs (pack-IsPacked d e s l size h (ground arith))
]

-- The count of used digits is fixed by the value.
pub used_le :
    {v l : ℕ} {e s : ℤ} {a : Number} (j : ℕ) (p : IsPacked v e s l a) → v < radix ^ j → p.used ≤ j
used_le j p lt = elim (Bool-cases (ltb j p.used)) [
  | inl less ↦ absurd (
      omega (
        arith,
        p.least,
        pow-le-pow_right {n = radix} (omega arith) {i = j} {j = p.used - 1} (ground arith),
      ))
  | inr enough ↦ ground arith
]

pub lt-used :
    {v l : ℕ} {e s : ℤ} {a : Number} (j : ℕ) (p : IsPacked v e s l a) → radix ^ j ≤ v → j < p.used
lt-used j p le = elim (Bool-cases (ltb j p.used)) [
  | inl less ↦ ground arith
  | inr enough ↦ absurd (
      omega (
        arith,
        p.most,
        pow-le-pow_right {n = radix} (omega arith) {i = p.used} {j = j} (ground arith),
      ))
]
