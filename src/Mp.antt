-- ===== src/Mp.antt =====
-- Multiple-precision numbers (libbench/mp.c): a sign, an exponent and ten digits to base 65536.
pub mod Digits
pub mod Carry
pub mod Product
pub mod Pack
pub mod Normal
pub mod Compare
pub mod Sum
pub mod Equal
pub mod Short
pub mod Bluestein
pub mod Cache
pub mod Fft
mod Tests
use bench_fft.Base.{
  ℕ, zero, suc, ◌+◌, ◌-◌, ◌*◌, ◌/◌, ◌%◌, ◌^◌, Bool, true, false, ◌&&◌, ltb, ◌==◌, List, [], ◌∷◌,
  ◌++◌, get_or, drop, replicate, if◌then◌else◌,
}
use bench_fft.Base.Int.{ℤ, ◌+ℤ◌, ◌-ℤ◌, ◌*ℤ◌, negate, pos_part, neg_part, ltb_ℤ, eqb_ℤ, sub_ℕ}
use bench_fft.Base.Int.ℤ.{pos, negsuc}

abbrev pub radix : ℕ
radix = 65536

abbrev pub len : ℕ
len = 10

-- `d` has `len` digits, the least significant first.
pub record Number : Type 0 where
  pub sign : ℤ
  pub expt : ℤ
  pub d : List ℕ

-- A value stored into a `short`.
abbrev pub to_short : ℤ → ℤ
to_short x = sub_ℕ ((pos_part x + 32768 + neg_part x * 65535) % 65536) 32768

-- `unsigned long` arithmetic, 64 bits wide.
abbrev pub acc : ℕ → ℕ
acc r = r % 2 ^ 64

abbrev pub lo : ℕ → ℕ
lo r = r % radix

abbrev pub hi : ℕ → ℕ
hi r = r / radix

-- `((r + (ACC)(RADIX >> 1) * RADIX) >> SHFT) - (RADIX >> 1)`
abbrev pub hi_signed : ℕ → ℕ
hi_signed r = acc (hi (acc (r + 32768 * radix)) + 2 ^ 64 - 32768)

abbrev pub zero_expt : ℤ
zero_expt = negsuc 32767

abbrev pub zero_number : Number
zero_number = record { sign = pos 1; expt = zero_expt; d = replicate len 0 }

-- `for (i = l - 1; i >= 0; --i, --e) if (d[i] != 0) break;`: the count `i + 1` and `e` at the end.
unfoldable pub top_digit : List ℕ → ℕ → ℤ → ℕ × ℤ
top_digit d zero e = (0, e)
top_digit d (suc i) e =
    let below = top_digit d i (e -ℤ pos 1) in if get_or d i 0 == 0 then below else (suc i, e)

-- The copying loops from the top digit down: `j` digits of the result are still to be written,
-- `i` digits of `d` to be read, and zeros follow where `d` is used up.
unfoldable pub copy_digits : List ℕ → ℕ → ℕ → List ℕ → List ℕ
copy_digits d zero i out = out
copy_digits d (suc j) zero out = copy_digits d j zero (0 ∷ out)
copy_digits d (suc j) (suc i) out = copy_digits d j i (get_or d i 0 ∷ out)

unfoldable pub pack : List ℕ → ℤ → ℤ → ℕ → Number
pack d e s l =
    let (i, e') = top_digit d l e in
    if i == 0
    then zero_number
    else record { sign = to_short s; expt = to_short e'; d = copy_digits d len i [] }

-- The loop of `abscmp` over the top `i` digits.
unfoldable pub compare_digits : List ℕ → List ℕ → ℕ → ℤ
compare_digits a b zero = pos 0
compare_digits a b (suc i) =
    let below = compare_digits a b i in
    if ltb (get_or b i 0) (get_or a i 0)
    then pos 1
    else if ltb (get_or a i 0) (get_or b i 0)
    then negsuc 0
    else below

unfoldable pub abscmp : Number → Number → ℤ
abscmp a b =
    if ltb_ℤ b.expt a.expt
    then pos 1
    else if ltb_ℤ a.expt b.expt
    then negsuc 0
    else compare_digits a.d b.d len

unfoldable pub eq : Number → Number → Bool
eq a b = eqb_ℤ a.sign b.sign && eqb_ℤ (abscmp a b) (pos 0)

-- Both loops of `addmag0`: the digits of `b` from `ib` on are added while there are any.
unfoldable pub add_digits : List ℕ → List ℕ → ℕ → List ℕ
add_digits [] bl r = lo r ∷ []
add_digits (a ∷ al) [] r = let s = acc (r + a) in lo s ∷ add_digits al [] (hi s)
add_digits (a ∷ al) (b ∷ bl) r = let s = acc (r + (a + b)) in lo s ∷ add_digits al bl (hi s)

-- `EXA - EXB`, which the callers make nonnegative.
abbrev pub shift : Number → Number → ℕ
shift a b = pos_part (a.expt -ℤ b.expt)

unfoldable pub addmag0 : ℤ → Number → Number → Number
addmag0 s a b =
    pack (add_digits a.d (drop (shift a b) b.d) 0) (a.expt +ℤ pos 1) (s *ℤ a.sign) (len + 1)

abbrev pub is_greater : ℤ → Bool
is_greater c = ltb_ℤ (pos 0) c

unfoldable pub addmag : ℤ → Number → Number → Number
addmag s a b = if is_greater (abscmp a b) then addmag0 (pos 1) a b else addmag0 s b a

-- Both loops of `submag0`.
unfoldable pub sub_digits : List ℕ → List ℕ → ℕ → List ℕ
sub_digits [] bl r = []
sub_digits (a ∷ al) [] r = let s = acc (r + a) in lo s ∷ sub_digits al [] (hi_signed s)
sub_digits (a ∷ al) (b ∷ bl) r =
    let s = acc (r + acc (a + 2 ^ 64 - b)) in lo s ∷ sub_digits al bl (hi_signed s)

unfoldable pub submag0 : ℤ → Number → Number → Number
submag0 s a b = pack (sub_digits a.d (drop (shift a b) b.d) 0) a.expt (s *ℤ a.sign) len

unfoldable pub submag : ℤ → Number → Number → Number
submag s a b = if is_greater (abscmp a b) then submag0 (pos 1) a b else submag0 s b a

unfoldable pub add : Number → Number → Number
add a b = if eqb_ℤ a.sign b.sign then addmag (pos 1) a b else submag (pos 1) a b

unfoldable pub sub : Number → Number → Number
sub a b = if eqb_ℤ a.sign b.sign then submag (negsuc 0) a b else addmag (negsuc 0) a b

-- The inner loop of `mul` from `d[k]` on, and the store of the last carry.
unfoldable pub mul_row : ℕ → List ℕ → List ℕ → ℕ → List ℕ
mul_row ai [] [] r = []
mul_row ai [] (x ∷ ds) r = lo r ∷ ds
mul_row ai (b ∷ bl) [] r = []
mul_row ai (b ∷ bl) (x ∷ ds) r = let s = acc (r + (ai * b + x)) in lo s ∷ mul_row ai bl ds (hi s)

-- The outer loop from `d[i]` on: no later round touches `d[i]`.
unfoldable pub mul_rows : List ℕ → List ℕ → List ℕ → List ℕ
mul_rows [] b d = d
mul_rows (ai ∷ al) b d = elim (if ai == 0 then d else mul_row ai b d 0) [
  | [] ↦ []
  | x ∷ rest ↦ x ∷ mul_rows al b rest
]

unfoldable pub mul : Number → Number → Number
mul a b =
    pack (mul_rows a.d b.d (replicate (2 * len) 0)) (a.expt +ℤ b.expt) (a.sign *ℤ b.sign) (2 * len)

unfoldable pub neg : Number → Number
neg a = record a { sign = to_short (negate a.sign) }

-- `AD[LEN - 1] = x` stores into an `unsigned short`.
unfoldable pub fromshort : ℤ → Number
fromshort x = record {
  sign = if ltb_ℤ x (pos 0) then negsuc 0 else pos 1;
  expt = pos 1;
  d = replicate 9 0 ++ ((pos_part x + neg_part x) % radix) ∷ [];
}
