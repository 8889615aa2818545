-- ===== src/Mp/Equal.antt =====
-- `eq` decides the equality of normal numbers.
use bench_fft.Base.{◌≡◌, ◌↔◌, ◌&&◌, refl, sym, ◌∙◌, arith, ◌⊎◌, inl, inr, Bool, true, false}
use bench_fft.Base.Int.{ℤ, eqb_ℤ}
use bench_fft.Base.Int.ℤ.{pos, negsuc}
use bench_fft.Mp.{Number, abscmp, eq}
use bench_fft.Mp.Digits.{value, value_injective}
use bench_fft.Mp.Normal.{IsNumber}
use bench_fft.Mp.Compare.{IsLarger, abscmp-cases, abscmp_self}
use bench_fft.Mp.Sum.Laws.{eqb_ℤ-true}

number_path : {a b : Number} → a.sign ≡ b.sign → a.expt ≡ b.expt → a.d ≡ b.d → a ≡ b
number_path p q r = λ i. record { sign = p i; expt = q i; d = r i }

same_sign : (a b : Number) → eq a b ≡ true → eqb_ℤ a.sign b.sign ≡ true
unfolding eq
same_sign a b h = and_left (eqb_ℤ a.sign b.sign) _ h
  where
    and_left : (p q : Bool) → (p && q) ≡ true → p ≡ true
    and_left true q h = refl
    and_left false q h = h

unequal : (a b : Number) (c : ℤ) → abscmp a b ≡ c → eq a b ≡ true → (eqb_ℤ c (pos 0) ≡ true → ⊥) → ⊥
unfolding eq
unequal a b c e h no_zero = no_zero (and_right (eqb_ℤ a.sign b.sign) _ (rw e at h))
  where
    and_right : (p q : Bool) → (p && q) ≡ true → q ≡ true
    and_right true q h = h
    and_right false q h = cc

eq_refl : (a : Number) → eq a a ≡ true
unfolding eq
eq_refl a = let same : eqb_ℤ a.sign a.sign ≡ true = ground arith in rw (same, abscmp_self a)

same_number : (a b : Number) → IsNumber a → IsNumber b → eq a b ≡ true → a ≡ b
same_number a b ha hb h = choose (abscmp-cases a b ha hb)
  where
    choose :
        ((abscmp a b ≡ pos 1) × IsLarger a b)
          ⊎ ((abscmp a b ≡ negsuc 0) × IsLarger b a)
          ⊎ ((abscmp a b ≡ pos 0) × (a.expt ≡ b.expt) × (value a.d ≡ value b.d))
        → a ≡ b
    choose (inl (e, _)) = absurd (unequal a b (pos 1) e h (λ x. cc x))
    choose (inr (inl (e, _))) = absurd (unequal a b (negsuc 0) e h (λ x. cc x))
    choose (inr (inr (_, p, q))) =
        number_path (eqb_ℤ-true a.sign b.sign (same_sign a b h)) p
          (value_injective a.d b.d ha.digits hb.digits (ha.size ∙ sym hb.size) q)

-- `eq` answers yes exactly for the same sign, exponent and digits.
pub eq_iff : (a b : Number) → IsNumber a → IsNumber b → (eq a b ≡ true) ↔ (a ≡ b)
eq_iff a b ha hb = (same_number a b ha hb, λ e. rw e (eq_refl b))
