-- ===== src/Verify/Tests/TwoPoint.antt =====
-- The discrete Fourier transform of two points, over the integers.
use native.Mathlib.Nat.{zero-div}
use bench_fft.Base.{
  ℕ, ◌+◌, ◌<◌, ◌≡◌, ◌⊎◌, refl, sym, ap, ap₂, ◌∙◌, arith, ◌==◌, Bool-cases, inl, inr, true, false,
  if◌then◌else◌, Bool, Buffer, store, store_same, store_other, IsWritten, [], ◌∷◌, one-IsWritten,
  nothing-IsWritten,
}
use bench_fft.Base.Int.{ℤ, ◌+ℤ◌, ◌-ℤ◌, ◌*ℤ◌, negate, eqb_ℤ, ltb_ℤ, sub_ℕ, pos_part, neg_part}
use bench_fft.Base.Int.ℤ.{pos, negsuc}
use bench_fft.Base.Exact.{integers}
use bench_fft.Base.Real.{Complex, Libm}
use bench_fft.Problem.{Kind, Problem}
use bench_fft.Arrays.{Memory, complex_add, complex_sub, complex_mul}
use bench_fft.Verify.{twiddle}
use bench_fft.Verify.Laws.{IsExact}
use bench_fft.Verify.Symmetry.Laws.{HasNegation}
use bench_fft.Verify.Transform.{IsTransform, ones, ones_transform, unit_impulse}
use bench_fft.Verify.Tests.Ring.{
  +ℤ-*ℤ, -ℤ-*ℤ, times_one, times_minus_one, times_zero, negate_twice, cancel_ℤ, restored_ℤ, +ℤ-+ℤ,
  +ℤ--ℤ, -ℤ--ℤ, minus_zero, plus_zero,
}

-- A turn is 2, so that the angles of two points are 0 and 1.
instance unfoldable pub half_turns : Libm ℤ
half_turns = record {
  half = pos 0;
  two_pi = pos 2;
  sin = λ x. pos 0;
  cos = λ x. if eqb_ℤ x (pos 0) then pos 1 else negsuc 0;
  sqrt = λ x. x;
  is_nan = λ x. false;
}

no_quotient : (b : Bool) (q : ℕ) → q ≡ 0 → (if b then sub_ℕ 0 q else pos q) ≡ pos 0
no_quotient true q e = rw e refl
no_quotient false q e = ap pos e

pub integers-IsExact : IsExact ⦃r = integers⦄ ⦃libm = half_turns⦄ (pos 0)
unfolding integers half_turns
integers-IsExact = record {
  cancel = cancel_ℤ;
  irreflexive = refl;
  ratio = ratio;
  number = refl;
  accepted = refl;
}
  where
    ratio : (x : ℤ) → integers.div (pos 0) x ≡ pos 0
    ratio x = no_quotient (ltb_ℤ (pos 0 *ℤ x) (pos 0)) _ (zero-div (pos_part x + neg_part x))

zero_negated : negate (pos 0) ≡ pos 0
unfolding negate
zero_negated = refl

pub integers-HasNegation : HasNegation ℤ ⦃r = integers⦄
unfolding integers
integers-HasNegation = record { neg_zero = zero_negated; neg_twice = negate_twice }

abbrev pub two_points : Problem
two_points = record {
  kind = Kind.problem_complex;
  dims = record { rank = 1; n = 2 ∷ []; size = 2 };
  vector = record { rank = 0; n = []; size = 1 };
  phys_size = 2;
  sign = negsuc 0;
  in_place = false;
  split = false;
  input = 0;
  output = 2;
  pstring = b'2' ∷ [];
  userinfo = 0;
}

unfoldable pub dft : (ℕ → Complex ℤ) → ℕ → Complex ℤ
unfolding integers
dft x i = if i == 0 then complex_add (x 0) (x 1) else complex_sub (x 0) (x 1)

unfoldable pub run_dft : Problem → Memory ℤ → Memory ℤ
unfolding integers
run_dft p mem =
    let x = mem.complexes p.input in
    let y = mem.complexes (p.input + 1) in
    record mem {
      complexes =
          store (store mem.complexes (p.output + 0) (complex_add x y)) (p.output + 1)
            (complex_sub x y);
    }

pub complex_path : {x y : Complex ℤ} → x.re ≡ y.re → x.im ≡ y.im → x ≡ y
complex_path e f = λ d. record { re = e d; im = f d }

-- The sum and the difference of two scaled numbers.
scaled_add :
    (x y alpha : Complex ℤ)
    → complex_add (complex_mul x alpha) (complex_mul y alpha) ≡ complex_mul (complex_add x y) alpha
unfolding integers
scaled_add x y alpha =
    complex_path
      (sym (
        ap₂ ◌-ℤ◌ (+ℤ-*ℤ x.re y.re alpha.re) (+ℤ-*ℤ x.im y.im alpha.im)
        ∙ +ℤ--ℤ (x.re *ℤ alpha.re) (y.re *ℤ alpha.re) (x.im *ℤ alpha.im) (y.im *ℤ alpha.im)))
      (sym (
        ap₂ ◌+ℤ◌ (+ℤ-*ℤ x.re y.re alpha.im) (+ℤ-*ℤ x.im y.im alpha.re)
        ∙ +ℤ-+ℤ (x.re *ℤ alpha.im) (y.re *ℤ alpha.im) (x.im *ℤ alpha.re) (y.im *ℤ alpha.re)))

scaled_sub :
    (x y alpha : Complex ℤ)
    → complex_sub (complex_mul x alpha) (complex_mul y alpha) ≡ complex_mul (complex_sub x y) alpha
unfolding integers
scaled_sub x y alpha =
    complex_path
      (sym (
        ap₂ ◌-ℤ◌ (-ℤ-*ℤ x.re y.re alpha.re) (-ℤ-*ℤ x.im y.im alpha.im)
        ∙ -ℤ--ℤ (x.re *ℤ alpha.re) (y.re *ℤ alpha.re) (x.im *ℤ alpha.im) (y.im *ℤ alpha.im)))
      (sym (
        ap₂ ◌+ℤ◌ (-ℤ-*ℤ x.re y.re alpha.im) (-ℤ-*ℤ x.im y.im alpha.re)
        ∙ sym (+ℤ--ℤ (x.re *ℤ alpha.im) (x.im *ℤ alpha.re) (y.re *ℤ alpha.im) (y.im *ℤ alpha.re))))

pub below_two : (i : ℕ) → i < 2 → (i ≡ 0) ⊎ (i ≡ 1)
below_two i lt = omega arith

impulse_lem : (i : ℕ) → dft (unit_impulse ⦃r = integers⦄) i ≡ ones ⦃r = integers⦄ i
unfolding dft integers ◌+ℤ◌ ◌-ℤ◌
impulse_lem i = elim (Bool-cases (i == 0)) [
  | inl first ↦ rw first refl
  | inr second ↦ rw second refl
]

ones_lem : (i : ℕ) → dft (ones ⦃r = integers⦄) i ≡ ones_transform ⦃r = integers⦄ 2 i
unfolding dft integers ◌+ℤ◌ ◌-ℤ◌
ones_lem i = elim (Bool-cases (i == 0)) [ inl first ↦ rw first refl | inr second ↦ rw second refl ]

pub dft-IsTransform : IsTransform ⦃r = integers⦄ two_points dft
unfolding dft integers
dft-IsTransform = record {
  congruent = λ x y same i lt.
      ap₂
        (λ (a b : Complex ℤ).
          if i == 0 then complex_add ⦃r = integers⦄ a b else complex_sub ⦃r = integers⦄ a b)
        (same 0 (omega arith)) (same 1 (omega arith));
  additive = λ x y i lt. elim (Bool-cases (i == 0)) [
    | inl first ↦ rw first (
        complex_path (+ℤ-+ℤ (x 0).re (y 0).re (x 1).re (y 1).re)
          (+ℤ-+ℤ (x 0).im (y 0).im (x 1).im (y 1).im))
    | inr second ↦ rw second (
        complex_path (+ℤ--ℤ (x 0).re (y 0).re (x 1).re (y 1).re)
          (+ℤ--ℤ (x 0).im (y 0).im (x 1).im (y 1).im))
  ];
  homogeneous = λ alpha x i factor lt. elim (Bool-cases (i == 0)) [
    | inl first ↦ rw first (scaled_add (x 0) (x 1) alpha)
    | inr second ↦ rw second (scaled_sub (x 0) (x 1) alpha)
  ];
  restored = λ x y. complex_path (restored_ℤ x.re y.re) (restored_ℤ x.im y.im);
  impulse_response = λ i lt. impulse_lem i;
  ones_response = λ i lt. ones_lem i;
}

-- The transform between the arrays of the problem.
pub run_dft-IsWritten :
    (mem : Memory ℤ)
    → IsWritten 2 2
        (dft (λ k. mem.complexes (0 + k)))
        mem.complexes
        (run_dft two_points mem).complexes
unfolding run_dft dft
run_dft-IsWritten mem =
    one-IsWritten 2 v mem.complexes 1 first (store first 3 (v 1))
      (one-IsWritten 2 v mem.complexes 0 mem.complexes first (nothing-IsWritten 2 v mem.complexes)
        (store_same mem.complexes 2 (v 0)) (λ j ne. store_other mem.complexes 2 (v 0) j ne))
      (store_same first 3 (v 1)) (λ j ne. store_other first 3 (v 1) j ne)
  where
    v : ℕ → Complex ℤ
    v = dft (λ k. mem.complexes (0 + k))

    first : Buffer (Complex ℤ)
    first = store mem.complexes 2 (v 0)

-- The twiddle factors of two points are 1 and -1.
twiddle_first :
    (sign : ℤ)
    → twiddle ⦃r = integers⦄ ⦃libm = half_turns⦄ 2 sign 0
      ≡ record { re = pos 1; im = sign *ℤ pos 0 }
unfolding integers half_turns ◌*ℤ◌
twiddle_first sign = refl

twiddle_second :
    (sign : ℤ)
    → twiddle ⦃r = integers⦄ ⦃libm = half_turns⦄ 2 sign 1
      ≡ record { re = negsuc 0; im = sign *ℤ pos 0 }
unfolding integers half_turns ◌*ℤ◌
twiddle_second sign = refl

pub turned_first :
    (x : Complex ℤ) (sign : ℤ)
    → complex_mul ⦃r = integers⦄ x (twiddle ⦃r = integers⦄ ⦃libm = half_turns⦄ 2 sign 0) ≡ x
unfolding integers
turned_first x sign =
    ap (complex_mul ⦃r = integers⦄ x) (twiddle_first sign ∙ complex_path refl (times_zero sign))
    ∙ complex_path (ap₂ ◌-ℤ◌ (times_one x.re) (times_zero x.im) ∙ minus_zero x.re)
        (ap₂ ◌+ℤ◌ (times_zero x.re) (times_one x.im) ∙ plus_zero x.im)

abbrev pub opposite : Complex ℤ → Complex ℤ
opposite x = record { re = negate x.re; im = negate x.im }

pub turned_second :
    (x : Complex ℤ) (sign : ℤ)
    → complex_mul ⦃r = integers⦄ x (twiddle ⦃r = integers⦄ ⦃libm = half_turns⦄ 2 sign 1)
      ≡ opposite x
unfolding integers
turned_second x sign =
    ap (complex_mul ⦃r = integers⦄ x) (twiddle_second sign ∙ complex_path refl (times_zero sign))
    ∙ complex_path (ap₂ ◌-ℤ◌ (times_minus_one x.re) (times_zero x.im) ∙ minus_zero (negate x.re))
        (ap₂ ◌+ℤ◌ (times_zero x.re) (times_minus_one x.im) ∙ plus_zero (negate x.im))
