-- ===== src/Mp/Tests.antt =====
-- Small numbers on which the laws of this folder are tried.
use bench_fft.Base.{◌*◌, ◌≡◌, ◌↔◌, ◌⊎◌, inr, refl, arith, true, [], ◌∷◌}
use bench_fft.Base.Int.{◌-ℤ◌, ◌+ℤ◌, ◌*ℤ◌}
use bench_fft.Base.Int.ℤ.{pos, negsuc}
use bench_fft.Mp.{
  Number, abscmp, eq, pack, add, mul, fromshort, addmag, addmag0, submag, submag0, compare_digits,
  add_digits, sub_digits, top_digit, copy_digits, mul_rows, mul_row,
}
use bench_fft.Mp.Digits.{value}
use bench_fft.Mp.Normal.{IsNumber, pack-IsNumber}
use bench_fft.Mp.Compare.{IsLarger, abscmp-cases}
use bench_fft.Mp.Sum.Magnitude.{Result}
use bench_fft.Mp.Sum.Laws.{IsSum, add-IsSum}
use bench_fft.Mp.Product.Laws.{mul-Result}
use bench_fft.Mp.Equal.{eq_iff}
use bench_fft.Mp.Short.{fromshort-IsNumber}

abbrev three : Number
three = fromshort (pos 3)

-- 40000 twice carries out of the top digit.
abbrev large : Number
large = fromshort (pos 40000)

abbrev minus_five : Number
minus_five = fromshort (negsuc 4)

three-IsNumber : IsNumber three
three-IsNumber = (fromshort-IsNumber (pos 3) (omega arith) (omega arith)).0

large-IsNumber : IsNumber large
large-IsNumber = (fromshort-IsNumber (pos 40000) (omega arith) (omega arith)).0

minus_five-IsNumber : IsNumber minus_five
minus_five-IsNumber = (fromshort-IsNumber (negsuc 4) (omega arith) (omega arith)).0

sum_runs : add three minus_five ≡ fromshort (negsuc 1)
unfolding add addmag addmag0 submag submag0 abscmp compare_digits add_digits sub_digits pack
    top_digit copy_digits fromshort ◌-ℤ◌ ◌*ℤ◌ ◌+ℤ◌
sum_runs = refl

product_runs : mul three minus_five ≡ fromshort (negsuc 14)
unfolding mul mul_rows mul_row pack top_digit copy_digits fromshort ◌*ℤ◌ ◌+ℤ◌ ◌-ℤ◌
product_runs = refl

add-IsSum_example : IsSum large minus_five (add large minus_five)
add-IsSum_example = add-IsSum large minus_five large-IsNumber minus_five-IsNumber

mul-Result_example :
    Result
      (value large.d * value minus_five.d)
      (large.expt +ℤ minus_five.expt)
      (large.sign *ℤ minus_five.sign)
      20
      (mul large minus_five)
    × IsNumber (mul large minus_five)
mul-Result_example = mul-Result large minus_five large-IsNumber minus_five-IsNumber

pack-IsNumber_example : IsNumber (pack (0 ∷ 7 ∷ 0 ∷ []) (pos 3) (negsuc 0) 3)
pack-IsNumber_example =
    pack-IsNumber (0 ∷ 7 ∷ 0 ∷ []) (pos 3) (negsuc 0) 3 refl (omega arith) (inr refl)

eq_iff_example : (eq large three ≡ true) ↔ (large ≡ three)
eq_iff_example = eq_iff large three large-IsNumber three-IsNumber

abscmp-cases_example :
    ((abscmp large three ≡ pos 1) × IsLarger large three)
    ⊎ ((abscmp large three ≡ negsuc 0) × IsLarger three large)
    ⊎ ((abscmp large three ≡ pos 0) × (large.expt ≡ three.expt) × (value large.d ≡ value three.d))
abscmp-cases_example = abscmp-cases large three large-IsNumber three-IsNumber
