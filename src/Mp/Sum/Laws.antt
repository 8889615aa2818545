-- ===== src/Mp/Sum/Laws.antt =====
-- What `add` and `sub` return, and the laws that follow.
use bench_fft.Base.{
  ℕ, ◌≡◌, ◌≢◌, refl, ap, sym, ◌∙◌, arith, ◌⊎◌, inl, inr, true, false, Bool-cases, not,
}
use bench_fft.Base.Int.{ℤ, ◌+ℤ◌, ◌*ℤ◌, eqb_ℤ, negate}
use bench_fft.Base.Int.ℤ.{pos, negsuc}
use bench_fft.Mp.{
  Number, zero_number, to_short, abscmp, is_greater, addmag0, submag0, addmag, submag, add, sub,
  neg,
}
use bench_fft.Mp.Normal.{IsNumber, IsSign, IsPacked-IsNumber, zero_number-IsNumber}
use bench_fft.Mp.Compare.{IsLarger, same_shift}
use bench_fft.Mp.Sum.Magnitude.{Result}
use bench_fft.Mp.Sum.{
  bigger, smaller, bigger-IsLarger, sign_of, magnitude_sum, magnitude_difference, addmag-Result,
  submag-Result,
}

plus_sign : (x : ℤ) → IsSign x → pos 1 *ℤ x ≡ x
unfolding ◌*ℤ◌
plus_sign x (inl e) = rw e
plus_sign x (inr e) = rw e

minus_sign : (x y : ℤ) → IsSign x → IsSign y → x ≢ y → negsuc 0 *ℤ y ≡ x
unfolding ◌*ℤ◌
minus_sign x y (inl e) (inl f) ne = absurd (ne (e ∙ sym f))
minus_sign x y (inl e) (inr f) ne = rw (e, f)
minus_sign x y (inr e) (inl f) ne = rw (e, f)
minus_sign x y (inr e) (inr f) ne = absurd (ne (e ∙ sym f))

pub product-IsSign : (x y : ℤ) → IsSign x → IsSign y → IsSign (x *ℤ y)
unfolding ◌*ℤ◌
product-IsSign x y (inl e) (inl f) = rw (e, f) (inl refl)
product-IsSign x y (inl e) (inr f) = rw (e, f) (inr refl)
product-IsSign x y (inr e) (inl f) = rw (e, f) (inr refl)
product-IsSign x y (inr e) (inr f) = rw (e, f) (inl refl)

pub eqb_ℤ-true : (x y : ℤ) → eqb_ℤ x y ≡ true → x ≡ y
eqb_ℤ-true x y h = ground arith

eqb_ℤ-false : (x y : ℤ) → eqb_ℤ x y ≡ false → x ≢ y
eqb_ℤ-false x y h = ground arith

-- How a sum relates to its operands: the larger one gives the sign and the exponent, by `abscmp`;
-- the magnitudes add up for equal signs and subtract for different ones.
pub record IsSum (a b c : Number) : Type 0 where
  pub larger : IsLarger (bigger a b) (smaller a b)
  pub same :
      a.sign ≡ b.sign
      → Result (magnitude_sum a b) ((bigger a b).expt +ℤ pos 1) (bigger a b).sign 11 c
  pub different :
      a.sign ≢ b.sign → Result (magnitude_difference a b) (bigger a b).expt (bigger a b).sign 10 c
  pub normal : IsNumber c

module _ (a b : Number) (ha : IsNumber a) (hb : IsNumber b) where
  add_sign : sign_of (pos 1) a b ≡ (bigger a b).sign
  add_sign = elim (Bool-cases (is_greater (abscmp a b))) [
    | inl more ↦ rw more (plus_sign a.sign ha.signed)
    | inr not_more ↦ rw not_more (plus_sign b.sign hb.signed)
  ]

  bigger-signed : IsSign (bigger a b).sign
  bigger-signed = elim (Bool-cases (is_greater (abscmp a b))) [
    | inl more ↦ rw more ha.signed
    | inr not_more ↦ rw not_more hb.signed
  ]

pub Result-IsNumber : {v l : ℕ} {e s : ℤ} {c : Number} → IsSign s → Result v e s l c → IsNumber c
Result-IsNumber hs (inl (z, e)) = rw e zero_number-IsNumber
Result-IsNumber hs (inr (p, packed)) = IsPacked-IsNumber hs packed

-- `add` of two normal numbers is normal, and is exact but for the digits that it cuts off: those
-- of the smaller operand below the last place of the larger, and, after a carry out, the last one.
pub add-IsSum : (a b : Number) → IsNumber a → IsNumber b → IsSum a b (add a b)
add-IsSum a b ha hb = elim (Bool-cases (eqb_ℤ a.sign b.sign)) [
  | inl same ↦
      let sum = rw (add_sign a b ha hb) at (addmag-Result (pos 1) a b ha hb) in
      let e : add a b ≡ addmag (pos 1) a b = unfold add in rw same in
      rw e (record {
        larger = bigger-IsLarger a b ha hb;
        same = λ _. sum;
        different = λ ne. absurd (ne (eqb_ℤ-true a.sign b.sign same));
        normal = Result-IsNumber (bigger-signed a b ha hb) sum;
      })
  | inr differ ↦
      let difference = rw (add_sign a b ha hb) at (submag-Result (pos 1) a b ha hb) in
      let e : add a b ≡ submag (pos 1) a b = unfold add in rw differ in
      rw e (record {
        larger = bigger-IsLarger a b ha hb;
        same = λ e. absurd (eqb_ℤ-false a.sign b.sign differ e);
        different = λ _. difference;
        normal = Result-IsNumber (bigger-signed a b ha hb) difference;
      })
]

neg_sign : (x : ℤ) → IsSign x → to_short (negate x) ≡ negsuc 0 *ℤ x
unfolding negate ◌*ℤ◌
neg_sign x (inl e) = rw e
neg_sign x (inr e) = rw e

flip_sign : (x y : ℤ) → IsSign x → IsSign y → eqb_ℤ x (negsuc 0 *ℤ y) ≡ not (eqb_ℤ x y)
unfolding ◌*ℤ◌
flip_sign x y (inl e) (inl f) = rw (e, f)
flip_sign x y (inl e) (inr f) = rw (e, f)
flip_sign x y (inr e) (inl f) = rw (e, f)
flip_sign x y (inr e) (inr f) = rw (e, f)

abbrev signed_as : Number → ℤ → Number
signed_as b y = record b { sign = y }

module _ (s y : ℤ) (a b : Number) (e : pos 1 *ℤ y ≡ s *ℤ b.sign) where
  addmag_signed : addmag (pos 1) a (signed_as b y) ≡ addmag s a b
  unfolding addmag addmag0 abscmp
  addmag_signed = rw e

  submag_signed : submag (pos 1) a (signed_as b y) ≡ submag s a b
  unfolding submag submag0 abscmp
  submag_signed = rw e

neg-signed_as : (b : Number) → IsSign b.sign → neg b ≡ signed_as b (negsuc 0 *ℤ b.sign)
unfolding neg
neg-signed_as b h = ap (signed_as b) (neg_sign b.sign h)

-- `sub` and `add` differ in the sign of the second operand only.
pub sub-eq-add_neg : (a b : Number) → IsSign a.sign → IsSign b.sign → sub a b ≡ add a (neg b)
sub-eq-add_neg a b ha hb = rw (neg-signed_as b hb) (choose (Bool-cases (eqb_ℤ a.sign b.sign)))
  where
    y : ℤ
    y = negsuc 0 *ℤ b.sign

    positive : pos 1 *ℤ y ≡ negsuc 0 *ℤ b.sign
    positive = plus_sign y (product-IsSign (negsuc 0) b.sign (inr refl) hb)

    choose :
        (eqb_ℤ a.sign b.sign ≡ true) ⊎ (eqb_ℤ a.sign b.sign ≡ false)
        → sub a b ≡ add a (signed_as b y)
    choose (inl same) =
        unfold sub add in
        rw (same, flip_sign a.sign b.sign ha hb, same)
          (sym (submag_signed (negsuc 0) y a b positive))
    choose (inr differ) =
        unfold sub add in
        rw (differ, flip_sign a.sign b.sign ha hb, differ)
          (sym (addmag_signed (negsuc 0) y a b positive))

no_difference : (a : Number) → magnitude_difference a a ≡ 0
no_difference a = elim (Bool-cases (is_greater (abscmp a a))) [
  | inl more ↦ rw more (omega (arith, same_shift a a refl))
  | inr not_more ↦ rw not_more (omega (arith, same_shift a a refl))
]

-- Subtracting a normal number from itself gives zero.
pub sub_self : (a : Number) → IsNumber a → sub a a ≡ zero_number
sub_self a ha =
    let same : eqb_ℤ a.sign a.sign ≡ true = ground arith in
    let e : sub a a ≡ submag (negsuc 0) a a = unfold sub in rw same in
    e ∙ vanish (submag-Result (negsuc 0) a a ha ha)
  where
    vanish :
        {c : Number}
        → Result (magnitude_difference a a) (bigger a a).expt (sign_of (negsuc 0) a a) 10 c
        → c ≡ zero_number
    vanish (inl (_, e)) = e
    vanish (inr (positive, _)) = absurd (omega (arith, no_difference a))
