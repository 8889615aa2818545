-- ===== src/Problem/Print/Decimal.antt =====
-- Reading a decimal number back.
use mathlib.Core.List.{append_assoc}
use native.Mathlib.Nat.{pow-suc}
use bench_fft.Base.{
  ℕ, zero, suc, ◌+◌, ◌-◌, ◌*◌, ◌/◌, ◌%◌, ◌^◌, ◌≤◌, ◌<◌, true, false, ltb, leb, List, [], ◌∷◌, ◌++◌,
  ◌≡◌, refl, ap, ◌∙◌, arith, Bool-cases, inl, inr,
}
use bench_fft.Base.Outcome.{ok}
use bench_fft.Problem.{is_digit, int_max, read_digits, starts_with_digit}
use bench_fft.Problem.Print.{show, decimal}

read_digit :
    (c n : ℕ) (s : List ℕ)
    → is_digit c ≡ true
    → n * 10 + (c - b'0') ≤ int_max
    → read_digits (c ∷ s) n ≡ read_digits s (n * 10 + (c - b'0'))
unfolding read_digits
read_digit c n s digit fits =
    let small : leb (n * 10 + (c - b'0')) int_max ≡ true = ground arith in rw (digit, small)

fuel_left : (fuel n : ℕ) → n < 10 ^ suc fuel → 10 ≤ n → 0 < fuel
fuel_left zero n lt h = absurd (omega arith)
fuel_left (suc fuel) n lt h = omega arith

read-show :
    (fuel n : ℕ) (rest : List ℕ)
    → n < 10 ^ fuel
    → 0 < fuel
    → n ≤ int_max
    → read_digits (show fuel n ++ rest) 0 ≡ read_digits rest n
unfolding show
read-show zero n rest lt h fits = absurd (omega arith)
read-show (suc fuel) n rest lt h fits = elim (Bool-cases (ltb n 10)) [
  | inl small ↦ rw small (
      read_digit (n + b'0') 0 rest (ground arith) (omega arith)
      ∙ ap (read_digits rest) (omega arith))
  | inr large ↦
      rw (large, append_assoc)
        (read-show fuel (n / 10) ((n % 10 + b'0') ∷ rest) (omega (arith, pow-suc 10 fuel))
            (fuel_left fuel n lt (ground arith)) (omega arith)
          ∙ read_digit (n % 10 + b'0') (n / 10) rest (ground arith) (omega arith)
          ∙ ap (read_digits rest) (omega arith))
]

read_stops :
    (rest : List ℕ) (n : ℕ) → starts_with_digit rest ≡ false → read_digits rest n ≡ ok (n, rest)
unfolding read_digits
read_stops [] n h = refl
read_stops (c ∷ s) n h = rw h

pub read-decimal :
    (k : ℕ) (rest : List ℕ)
    → k ≤ int_max
    → starts_with_digit rest ≡ false
    → read_digits (decimal k ++ rest) 0 ≡ ok (k, rest)
unfolding decimal
read-decimal k rest fits h =
    read-show 10 k rest (omega arith) (omega arith) fits ∙ read_stops rest k h

show-starts :
    (fuel n : ℕ) (rest : List ℕ)
    → n < 10 ^ fuel
    → 0 < fuel
    → starts_with_digit (show fuel n ++ rest) ≡ true
unfolding show
show-starts zero n rest lt h = absurd (omega arith)
show-starts (suc fuel) n rest lt h = elim (Bool-cases (ltb n 10)) [
  | inl small ↦ rw small (ground arith)
  | inr large ↦
      rw (large, append_assoc)
        (show-starts fuel (n / 10) ((n % 10 + b'0') ∷ rest) (omega (arith, pow-suc 10 fuel))
          (fuel_left fuel n lt (ground arith)))
]

pub decimal-starts :
    (k : ℕ) (rest : List ℕ) → k ≤ int_max → starts_with_digit (decimal k ++ rest) ≡ true
unfolding decimal
decimal-starts k rest fits = show-starts 10 k rest (omega arith) (omega arith)
