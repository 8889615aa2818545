-- ===== src/Mp/Sum.antt =====
-- `add` and `sub` are exact up to the digits that the shift and the tenth place cut off.
pub mod Magnitude
pub mod Laws
use mathlib.Core.Path.{subst}
use bench_fft.Base.{
  ℕ, ◌+◌, ◌-◌, ◌≤◌, ◌<◌, ◌≡◌, ◌≢◌, refl, ap, sym, ◌∙◌, arith, ◌⊎◌, inl, inr, Bool, true, false,
  Bool-cases, if◌then◌else◌,
}
use bench_fft.Base.Int.{ℤ, ◌+ℤ◌, ◌*ℤ◌, eqb_ℤ, negate}
use bench_fft.Base.Int.ℤ.{pos, negsuc}
use bench_fft.Mp.{
  Number, radix, len, zero_number, to_short, shift, abscmp, is_greater, addmag0, submag0, addmag,
  submag, add, sub, neg,
}
use bench_fft.Mp.Digits.{value}
use bench_fft.Mp.Normal.{
  IsNumber, IsSign, IsPacked, IsPacked-IsNumber, zero_number-IsNumber, to_short-sign,
}
use bench_fft.Mp.Compare.{IsLarger, shifted, abscmp-cases, IsLarger-same}
use Magnitude.{Result, addmag0-Result, submag0-Result}

-- The operand that the code takes for the larger one, and the other.
abbrev pub bigger : Number → Number → Number
bigger a b = if is_greater (abscmp a b) then a else b

abbrev pub smaller : Number → Number → Number
smaller a b = if is_greater (abscmp a b) then b else a

pub bigger-IsLarger : (a b : Number) → IsNumber a → IsNumber b → IsLarger (bigger a b) (smaller a b)
bigger-IsLarger a b ha hb = choose (abscmp-cases a b ha hb)
  where
    choose :
        ((abscmp a b ≡ pos 1) × IsLarger a b)
          ⊎ ((abscmp a b ≡ negsuc 0) × IsLarger b a)
          ⊎ ((abscmp a b ≡ pos 0) × (a.expt ≡ b.expt) × (value a.d ≡ value b.d))
        → IsLarger (bigger a b) (smaller a b)
    choose (inl (e, larger)) = rw e larger
    choose (inr (inl (e, larger))) = rw e larger
    choose (inr (inr (e, p, q))) = rw e (IsLarger-same b a (sym p) (omega (arith, q)))

-- The sign of the sum or difference of magnitudes, as the code passes it to `pack`.
abbrev pub sign_of : ℤ → Number → Number → ℤ
sign_of s a b = if is_greater (abscmp a b) then pos 1 *ℤ a.sign else s *ℤ b.sign

abbrev pub magnitude_sum : Number → Number → ℕ
magnitude_sum a b = value (bigger a b).d + shifted (bigger a b) (smaller a b)

abbrev pub magnitude_difference : Number → Number → ℕ
magnitude_difference a b = value (bigger a b).d - shifted (bigger a b) (smaller a b)

module _ (s : ℤ) (a b : Number) (ha : IsNumber a) (hb : IsNumber b) where
  pub addmag-Result :
      Result (magnitude_sum a b) ((bigger a b).expt +ℤ pos 1) (sign_of s a b) 11 (addmag s a b)
  unfolding addmag
  addmag-Result = elim (Bool-cases (is_greater (abscmp a b))) [
    | inl more ↦ rw more (addmag0-Result (pos 1) a b ha hb)
    | inr not_more ↦ rw not_more (addmag0-Result s b a hb ha)
  ]

  pub submag-Result :
      Result (magnitude_difference a b) (bigger a b).expt (sign_of s a b) 10 (submag s a b)
  unfolding submag
  submag-Result = elim (Bool-cases (is_greater (abscmp a b))) [
    | inl more ↦
        let larger : IsLarger a b = rw more at (bigger-IsLarger a b ha hb) in
        rw more (submag0-Result (pos 1) a b ha hb larger)
    | inr not_more ↦
        let larger : IsLarger b a = rw not_more at (bigger-IsLarger a b ha hb) in
        rw not_more (submag0-Result s b a hb ha larger)
  ]
