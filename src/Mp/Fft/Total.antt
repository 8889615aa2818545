-- ===== src/Mp/Fft/Total.antt =====
-- The calls of the transforms of libbench/mp.c return: the loops of `bitrev`, `fft0`, `bluestein_sequence`
-- and `bluestein` end.
use mathlib.Core.Path.{subst}
use native.Mathlib.Nat.{pow-le-pow_right}
use bench_fft.Base.{
  ℕ, suc, ◌*◌, ◌^◌, ◌<◌, ◌≤◌, leb, Bool, true, false, if◌then◌else◌, Bool-cases, Option, some,
  Buffer, ◌≡◌, inl, inr, refl, sym, ap, ◌∙◌, arith,
}
use bench_fft.Base.Int.{ℤ, eqb_ℤ}
use bench_fft.Base.Int.ℤ.{pos, negsuc}
use bench_fft.Base.Options.{IsSome, IsSome-bind, IsSome-loop}
use bench_fft.Mp.{Number}
use bench_fft.Mp.Bluestein.{ksq_after, next_ksq}
use bench_fft.Mp.Bluestein.Laws.{pow2_atleast-IsLeastPower, ksq_after-square}
use bench_fft.Mp.Fft.{
  bitrev, fft0, butterflies, Kept, sequence_round, bluestein_sequence, prepare, wrap, convolve,
  bluestein, fft1,
}
use bench_fft.Mp.Fft.Laws.{doublings-returns}
use bench_fft.Mp.Fft.Permutation.{bitrev-IsReversed}
use bench_fft.Numeric.Pow2.{power_of_two}
use bench_fft.Numeric.Pow2.Laws.{power_of_two_iff}

-- The call returns.
abbrev pub DoesReturn {ℓ} : {A : Type ℓ} → Option A → Type ℓ
DoesReturn m = IsSome (λ a. Unit {0}) m

DoesReturn-some {ℓ} : {A : Type ℓ} (a : A) → DoesReturn (some a)
DoesReturn-some a = record { value = a; returned = refl; holds = tt }

bitrev-returns : (k : ℕ) (a : Buffer Number) → k ≤ 31 → DoesReturn (bitrev (2 ^ k) a)
bitrev-returns k a le =
    let r = bitrev-IsReversed k a le in
    record { value = r.value; returned = r.returned; holds = tt }

-- An exponent of a number that an `int` holds.
exponent_fits : (k : ℕ) → 2 ^ k < 2 ^ 32 → k ≤ 31
exponent_fits k lt = elim (Bool-cases (leb k 31)) [
  | inl e ↦ ground arith
  | inr e ↦
      absurd
        (omega (arith, lt, pow-le-pow_right {n = 2} (omega arith) {i = 32} {j = k} (ground arith)))
]

module _ (roots : ℕ → ℕ → Number × Number) (inverse : ℕ → Number) (fresh : Buffer Number) where
  fft0-returns :
      (k n : ℕ) (a : Buffer Number) (sign : ℤ)
      → n ≡ 2 ^ k
      → k ≤ 31
      → DoesReturn (fft0 roots n a sign)
  unfolding fft0
  fft0-returns k n a sign e le =
      let bound : 2 ^ k ≤ 2 ^ 31 = pow-le-pow_right {n = 2} (omega arith) {i = k} {j = 31} le in
      IsSome-bind (subst (λ (m : ℕ). DoesReturn (bitrev m a)) (sym e) (bitrev-returns k a le))
        λ (b : Buffer Number) h.
          let r = doublings-returns n (butterflies roots n sign) 31 1 b (omega (arith, bound, e)) in
          record { value = r.0; returned = r.1; holds = tt }

  abbrev IsExponent : ℕ → ℕ → ℕ × Buffer Number → Type 0
  IsExponent n i st = ksq_after n i ≡ some st.0

  IsExponent-starts : (n : ℕ) (a : Buffer Number) → IsExponent n 0 (1, a)
  unfolding ksq_after
  IsExponent-starts n a = refl

  after_round : (n i : ℕ) → ksq_after n (suc i) ≡ next_ksq n i (ksq_after n i)
  unfolding ksq_after
  after_round n i = refl

  sequence_round-returns :
      (n i : ℕ) (st : ℕ × Buffer Number)
      → i < n
      → IsExponent n i st
      → IsSome (IsExponent n (suc i)) (sequence_round roots n i st)
  unfolding sequence_round
  sequence_round-returns n i st lt h =
      let square = ksq_after-square n i lt in
      IsSome-bind {P = λ ksq. ksq_after n (suc i) ≡ some ksq}
        (record {
          value = square.0;
          returned = ap (next_ksq n i) (sym h) ∙ sym (after_round n i) ∙ square.1;
          holds = square.1;
        })
        λ (ksq : ℕ) e. record { value = _; returned = refl; holds = e }

  sequence-returns : (n : ℕ) (a : Buffer Number) → DoesReturn (bluestein_sequence roots n a)
  unfolding bluestein_sequence
  sequence-returns n a =
      IsSome-bind
        (IsSome-loop (IsExponent n) n (sequence_round roots n) (1, a) (sequence_round-returns n)
          (IsExponent-starts n a))
        λ (st : ℕ × Buffer Number) h. DoesReturn-some st.1

  prepare-returns : (k n nb : ℕ) → nb ≡ 2 ^ k → k ≤ 31 → DoesReturn (prepare roots fresh n nb)
  unfolding prepare
  prepare-returns k n nb e le = IsSome-bind (sequence-returns n fresh) λ (w : Buffer Number) h.
      IsSome-bind (fft0-returns k nb (wrap n nb w fresh) (negsuc 0) e le)
        λ (y : Buffer Number) h'. DoesReturn-some _

  convolve-returns :
      (k n nb : ℕ) (nbinv : Number) (c : Kept) (a : Buffer Number)
      → nb ≡ 2 ^ k
      → k ≤ 31
      → DoesReturn (convolve roots fresh n nb nbinv c a)
  unfolding convolve
  convolve-returns k n nb nbinv c a e le =
      IsSome-bind (fft0-returns k nb _ (negsuc 0) e le) λ (there : Buffer Number) h.
        IsSome-bind (fft0-returns k nb _ (pos 1) e le)
          λ (back : Buffer Number) h'. DoesReturn-some _

  arrays-return :
      (k n nb : ℕ) (c : Kept) (b : Bool)
      → nb ≡ 2 ^ k
      → k ≤ 31
      → DoesReturn (if b then some c else prepare roots fresh n nb)
  arrays-return k n nb c true e le = DoesReturn-some c
  arrays-return k n nb c false e le = prepare-returns k n nb e le

  bluestein-returns :
      (n : ℕ) (c : Kept) (a : Buffer Number)
      → n ≤ 2 ^ 29
      → DoesReturn (bluestein roots inverse fresh n c a)
  unfolding bluestein
  bluestein-returns n c a le =
      let p = pow2_atleast-IsLeastPower (2 * n) (omega arith) in
      let small : p.exponent ≤ 31 =
        exponent_fits p.exponent (omega (arith, p.power, p.least, le)) in
      IsSome-bind {P = λ nb. nb ≡ 2 ^ p.exponent}
        (record { value = p.h; returned = p.returns; holds = p.power })
        λ (nb : ℕ) e.
          IsSome-bind (arrays-return p.exponent n nb c (eqb_ℤ c.n (pos n)) e small) λ (c' : Kept) h.
            IsSome-bind (convolve-returns p.exponent n nb (inverse nb) c' a e small)
              λ (out : Buffer Number) h'. DoesReturn-some (c', out)

  pub fft1-DoesReturn :
      (n : ℕ) (c : Kept) (a : Buffer Number) (sign : ℤ)
      → n ≤ 2 ^ 29
      → DoesReturn (fft1 roots inverse fresh n c a sign)
  unfolding fft1
  fft1-DoesReturn n c a sign le = elim (Bool-cases (power_of_two n)) [
    | inl power ↦
        let (k, e) = (power_of_two_iff n).0 power in
        rw power (
          IsSome-bind (fft0-returns k n a sign e (exponent_fits k (omega (arith, e, le))))
            λ (out : Buffer Number) h. DoesReturn-some (c, out))
    | inr other ↦
        rw other (
          IsSome-bind (bluestein-returns n c _ le)
            λ (r : Kept × Buffer Number) h. DoesReturn-some _)
  ]
