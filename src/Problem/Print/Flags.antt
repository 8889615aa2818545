-- ===== src/Problem/Print/Flags.antt =====
-- Reading the flags back.
use bench_fft.Base.{
  ℕ, ◌<◌, Bool, true, false, List, [], ◌∷◌, length, All, if◌then◌else◌, none, ◌≡◌, refl, ap, ◌∙◌,
  arith,
}
use bench_fft.Base.Int.ℤ.{pos, negsuc}
use bench_fft.Problem.{
  Kind, Problem, is_digit, flag, set_flag, parse_flags, starts_with_digit, fresh_problem,
}
use bench_fft.Problem.Print.{Description, print_kind, body, print, IsEntry}
use bench_fft.Problem.Print.SizeList.{starts-print_sizes}

flag_digit : (c : ℕ) → is_digit c ≡ true → flag c ≡ none
unfolding flag
flag_digit c h = ground arith

parse_flags_stop :
    (s : List ℕ) (p : Problem) → starts_with_digit s ≡ true → parse_flags s p ≡ (p, s)
unfolding parse_flags
parse_flags_stop [] p h = cc
parse_flags_stop (c ∷ s) p h = rw (flag_digit c h, parse_flags)

-- One character for each switch.
module _ (s : List ℕ) (p : Problem) where
  place :
      (b : Bool)
      → parse_flags ((if b then b'i' else b'o') ∷ s) p ≡ parse_flags s (record p { in_place = b })
  unfolding parse_flags flag set_flag
  place true = refl
  place false = refl

  direct :
      (b : Bool)
      → parse_flags ((if b then b'f' else b'b') ∷ s) p
        ≡ parse_flags s (record p { sign = if b then negsuc 0 else pos 1 })
  unfolding parse_flags flag set_flag
  direct true = refl
  direct false = refl

  kind : (k : Kind) → parse_flags (print_kind k ∷ s) p ≡ parse_flags s (record p { kind = k })
  unfolding parse_flags flag set_flag print_kind
  kind Kind.problem_complex = refl
  kind Kind.problem_real = refl

  split :
      (b : Bool)
      → parse_flags (if b then b'/' ∷ s else s) p
        ≡ parse_flags s (record p { split = if b then true else p.split })
  unfolding parse_flags flag set_flag
  split true = refl
  split false = refl

unfoldable pub flags_of : Description → Problem
flags_of d = record (fresh_problem (print d)) {
  kind = d.kind;
  sign = if d.forward then negsuc 0 else pos 1;
  in_place = d.in_place;
  split = d.split;
}

if_self : (b : Bool) → (if b then true else false) ≡ b
if_self true = refl
if_self false = refl

pub parse-print_flags :
    (d : Description)
    → 0 < length d.dims
    → All IsEntry d.dims
    → parse_flags (print d) (fresh_problem (print d)) ≡ (flags_of d, body d)
unfolding print flags_of
parse-print_flags d h entries =
    place _ _ d.in_place
    ∙ direct _ _ d.forward
    ∙ kind _ _ d.kind
    ∙ split (body d) _ d.split
    ∙ parse_flags_stop (body d) _ (starts-print_sizes d.dims _ h entries)
    ∙ ap (λ b. (record (flags_of d) { split = b }, body d)) (if_self d.split)
