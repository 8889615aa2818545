-- ===== src/Mp/Sum/Magnitude.antt =====
-- `addmag0` and `submag0` for |a| >= |b|, and the choice that `addmag` and `submag` make.
use mathlib.Core.Path.{subst}
use bench_fft.Base.{
  ℕ, ◌+◌, ◌-◌, ◌<◌, ◌≡◌, sym, ◌∙◌, arith, drop, length-drop, ◌⊎◌, inl, inr, Bool-cases, ◌==◌, ==→≡,
  List,
}
use bench_fft.Base.Int.{ℤ, ◌+ℤ◌, ◌*ℤ◌}
use bench_fft.Base.Int.ℤ.{pos}
use bench_fft.Mp.{Number, zero_number, shift, add_digits, sub_digits, addmag0, submag0, pack}
use bench_fft.Mp.Digits.{value, drop-IsDigit, value-drop}
use bench_fft.Mp.Carry.{IsRun, add_digits-IsRun, sub_digits-IsRun}
use bench_fft.Mp.Normal.{IsNumber, IsPacked, pack-zero, pack-IsPacked}
use bench_fft.Mp.Compare.{IsLarger, shifted}

-- What a sum or difference of magnitudes is: the packed value, or zero.
abbrev pub Result : ℕ → ℤ → ℤ → ℕ → Number → Type 0
Result v e s l c = ((v ≡ 0) × (c ≡ zero_number)) ⊎ ((0 < v) × IsPacked v e s l c)

pub packed : (d : List ℕ) (e s : ℤ) (l v : ℕ) → IsRun l v d → Result v e s l (pack d e s l)
packed d e s l v run = elim (Bool-cases (value d == 0)) [
  | inl none ↦ inl (
    sym run.total ∙ ==→≡ (value d) 0 none,
    pack-zero d e s l run.size run.digits (==→≡ (value d) 0 none),
  )
  | inr some ↦
      let positive : 0 < value d = ground arith in
      inr (
        omega (arith, run.total),
        subst (λ w. IsPacked w e s l (pack d e s l)) run.total
            (pack-IsPacked d e s l run.size run.digits positive),
      )
]

module _ (s : ℤ) (a b : Number) (ha : IsNumber a) (hb : IsNumber b) where
  sum-IsRun : IsRun 11 (value a.d + shifted a b) (add_digits a.d (drop (shift a b) b.d) 0)
  sum-IsRun =
      let run =
        add_digits-IsRun a.d (drop (shift a b) b.d) 0 ha.digits
          (drop-IsDigit (shift a b) b.d hb.digits)
          (omega (arith, length-drop (shift a b) b.d, ha.size, hb.size)) (omega arith) in
      record {
        size = omega (arith, run.size, ha.size);
        digits = run.digits;
        total = omega (arith, run.total, value-drop (shift a b) b.d hb.digits);
      }

  difference-IsRun :
      IsLarger a b → IsRun 10 (value a.d - shifted a b) (sub_digits a.d (drop (shift a b) b.d) 0)
  difference-IsRun larger =
      let cut = value-drop (shift a b) b.d hb.digits in
      let run =
        sub_digits-IsRun a.d (drop (shift a b) b.d) ha.digits
          (drop-IsDigit (shift a b) b.d hb.digits)
          (omega (arith, length-drop (shift a b) b.d, ha.size, hb.size))
          (omega (arith, cut, larger.bounded)) in
      record {
        size = omega (arith, run.size, ha.size);
        digits = run.digits;
        total = omega (arith, run.total, cut);
      }

  pub addmag0-Result :
      Result (value a.d + shifted a b) (a.expt +ℤ pos 1) (s *ℤ a.sign) 11 (addmag0 s a b)
  unfolding addmag0
  addmag0-Result = packed _ _ _ 11 _ sum-IsRun

  pub submag0-Result :
      IsLarger a b → Result (value a.d - shifted a b) a.expt (s *ℤ a.sign) 10 (submag0 s a b)
  unfolding submag0
  submag0-Result larger = packed _ _ _ 10 _ (difference-IsRun larger)
