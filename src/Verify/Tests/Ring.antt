-- ===== src/Verify/Tests/Ring.antt =====
-- Laws of the integers that the two-point transform needs.
use native.Mathlib.Nat.{add-mul}
use bench_fft.Base.{ℕ, ◌+◌, ◌*◌, ◌≡◌, sym, ap, ◌∙◌, arith}
use bench_fft.Base.Int.{
  ℤ, ◌+ℤ◌, ◌-ℤ◌, ◌*ℤ◌, negate, sub_ℕ, pos_part, neg_part, +ℤ_parts, -ℤ_parts, eq_of_parts, int_laws,
}
use bench_fft.Base.Int.ℤ.{pos, negsuc}

sub_ℕ_parts : (m n : ℕ) → pos_part (sub_ℕ m n) + n ≡ neg_part (sub_ℕ m n) + m
sub_ℕ_parts m n = ground arith

*ℤ_parts :
    (a b : ℤ)
    → pos_part (a *ℤ b) + pos_part a * neg_part b + neg_part a * pos_part b
      ≡ neg_part (a *ℤ b) + pos_part a * pos_part b + neg_part a * neg_part b
unfolding ◌*ℤ◌
*ℤ_parts a b =
    let h =
      sub_ℕ_parts (pos_part a * pos_part b + neg_part a * neg_part b)
        (pos_part a * neg_part b + neg_part a * pos_part b) in
    omega (arith, h)

spread : (x y z k : ℕ) → (x + y + z) * k ≡ x * k + y * k + z * k
spread x y z k = omega (arith, add-mul (x + y) z k, add-mul x y k)

-- An equation of three-term sums, multiplied.
spread_eq :
    (x y z x' y' z' k : ℕ)
    → x + y + z ≡ x' + y' + z'
    → x * k + y * k + z * k ≡ x' * k + y' * k + z' * k
spread_eq x y z x' y' z' k e = sym (spread x y z k) ∙ ap (λ (m : ℕ). m * k) e ∙ spread x' y' z' k

pub +ℤ-*ℤ : (a b c : ℤ) → (a +ℤ b) *ℤ c ≡ a *ℤ c +ℤ b *ℤ c
+ℤ-*ℤ a b c =
    let s = a +ℤ b in
    let p =
      spread_eq (pos_part s) (neg_part a) (neg_part b) (neg_part s) (pos_part a) (pos_part b)
        (pos_part c) (+ℤ_parts a b) in
    let n =
      spread_eq (pos_part s) (neg_part a) (neg_part b) (neg_part s) (pos_part a) (pos_part b)
        (neg_part c) (+ℤ_parts a b) in
    eq_of_parts (s *ℤ c) (a *ℤ c +ℤ b *ℤ c)
      (omega (arith, p, n, *ℤ_parts s c, *ℤ_parts a c, *ℤ_parts b c, +ℤ_parts (a *ℤ c) (b *ℤ c)))

pub -ℤ-*ℤ : (a b c : ℤ) → (a -ℤ b) *ℤ c ≡ a *ℤ c -ℤ b *ℤ c
-ℤ-*ℤ a b c =
    let s = a -ℤ b in
    let p =
      spread_eq (pos_part s) (neg_part a) (pos_part b) (neg_part s) (pos_part a) (neg_part b)
        (pos_part c) (-ℤ_parts a b) in
    let n =
      spread_eq (pos_part s) (neg_part a) (pos_part b) (neg_part s) (pos_part a) (neg_part b)
        (neg_part c) (-ℤ_parts a b) in
    eq_of_parts (s *ℤ c) (a *ℤ c -ℤ b *ℤ c)
      (omega (arith, p, n, *ℤ_parts s c, *ℤ_parts a c, *ℤ_parts b c, -ℤ_parts (a *ℤ c) (b *ℤ c)))

pub times_one : (x : ℤ) → x *ℤ pos 1 ≡ x
unfolding ◌*ℤ◌
times_one x = ground arith

pub times_minus_one : (x : ℤ) → x *ℤ negsuc 0 ≡ negate x
unfolding ◌*ℤ◌ negate
times_minus_one x = ground arith

pub times_zero : (x : ℤ) → x *ℤ pos 0 ≡ pos 0
unfolding ◌*ℤ◌
times_zero x = ground arith

pub negate_twice : (x : ℤ) → negate (negate x) ≡ x
unfolding negate
negate_twice x = ground arith

negate_parts : (x : ℤ) → pos_part (negate x) + pos_part x ≡ neg_part (negate x) + neg_part x
unfolding negate
negate_parts x = ground arith

pub cancel_ℤ : (x : ℤ) → x -ℤ x ≡ pos 0
cancel_ℤ x = grind int_laws

pub restored_ℤ : (x y : ℤ) → y +ℤ (x -ℤ y) ≡ x
restored_ℤ x y = grind int_laws

-- The sums that the transform of a linear combination rearranges.
pub +ℤ-+ℤ : (a b c d : ℤ) → a +ℤ b +ℤ (c +ℤ d) ≡ a +ℤ c +ℤ (b +ℤ d)
+ℤ-+ℤ a b c d = grind int_laws

pub +ℤ--ℤ : (a b c d : ℤ) → a +ℤ b -ℤ (c +ℤ d) ≡ a -ℤ c +ℤ (b -ℤ d)
+ℤ--ℤ a b c d = grind int_laws

pub -ℤ--ℤ : (a b c d : ℤ) → a -ℤ b -ℤ (c -ℤ d) ≡ a -ℤ c -ℤ (b -ℤ d)
-ℤ--ℤ a b c d = grind int_laws

pub minus_zero : (x : ℤ) → x -ℤ pos 0 ≡ x
minus_zero x = grind int_laws

pub plus_zero : (x : ℤ) → pos 0 +ℤ x ≡ x
plus_zero x = grind int_laws

pub plus_negated : (x y : ℤ) → x +ℤ negate y ≡ x -ℤ y
plus_negated x y = grind (int_laws, negate_parts)

pub minus_negated : (x y : ℤ) → x -ℤ negate y ≡ x +ℤ y
minus_negated x y = grind (int_laws, negate_parts)

pub plus_comm : (x y : ℤ) → x +ℤ y ≡ y +ℤ x
plus_comm x y = grind int_laws

pub negated_minus : (x y : ℤ) → negate (x -ℤ y) ≡ y -ℤ x
negated_minus x y = grind (int_laws, negate_parts)
