-- ===== src/Mp/Short.antt =====
-- The conversion of a `short`.
use bench_fft.Base.{◌+◌, ◌^◌, ◌*◌, ◌<◌, ◌≡◌, refl, arith, inl, inr, Bool-cases}
use bench_fft.Base.Int.{ℤ, pos_part, neg_part, ltb_ℤ}
use bench_fft.Base.Int.ℤ.{pos}
use bench_fft.Mp.{radix, fromshort}
use bench_fft.Mp.Digits.{value}
use bench_fft.Mp.Normal.{IsNumber, IsSign}

module _ (x : ℤ) (fits : pos_part x + neg_part x < radix) where
  fromshort-value : value (fromshort x).d ≡ (pos_part x + neg_part x) * radix ^ 9
  unfolding fromshort
  fromshort-value = omega arith

  fromshort-signed : IsSign (fromshort x).sign
  unfolding fromshort
  fromshort-signed = elim (Bool-cases (ltb_ℤ x (pos 0))) [
    | inl less ↦ rw less (inr refl)
    | inr not_less ↦ rw not_less (inl refl)
  ]

  -- `fromshort` of a nonzero `short` is a normal number whose value, the mantissa read with its
  -- exponent 1, is the magnitude of the argument.
  pub fromshort-IsNumber :
      0 < pos_part x + neg_part x
      → IsNumber (fromshort x)
        × (value (fromshort x).d ≡ (pos_part x + neg_part x) * radix ^ 9)
        × ((fromshort x).expt ≡ pos 1)
  unfolding fromshort
  fromshort-IsNumber positive = (
    record {
      size = refl;
      digits = omega arith;
      signed = fromshort-signed;
      ranged = omega arith;
      normal = inr (omega (arith, fromshort-value));
    },
    fromshort-value,
    refl,
  )
