-- ===== src/Problem/Print/Laws.antt =====
-- A printed description is read back as it was.
use mathlib.Core.List.{append-nil}
use bench_fft.Base.{ℕ, ◌<◌, List, [], ◌∷◌, length, All, ◌≡◌, refl, ap, arith}
use bench_fft.Base.Outcome.{ok}
use bench_fft.Problem.{Problem, max_rank, no_sizes, parse_vector, problem_parse}
use bench_fft.Problem.Print.{
  Description, print_vector, print, IsEntry, sizes_of, IsPrintable, described,
}
use bench_fft.Problem.Print.SizeList.{Ends, parse-full_sizes}
use bench_fft.Problem.Print.Flags.{flags_of, parse-print_flags}

vector-Ends : (vs : List ℕ) → Ends (print_vector vs)
unfolding print_vector
vector-Ends [] = (refl, refl)
vector-Ends (k ∷ ks) = (refl, refl)

parse-print_vector :
    (vs : List ℕ) (p : Problem)
    → length vs < max_rank
    → All IsEntry vs
    → p.vector ≡ no_sizes
    → parse_vector (print_vector vs) p ≡ ok (record p { vector = sizes_of vs })
unfolding parse_vector print_vector
parse-print_vector [] p room entries e = ap (λ v. ok (record p { vector = v })) e
parse-print_vector (k ∷ ks) p room entries e =
    let read =
      rw append-nil at (parse-full_sizes (k ∷ ks) [] (omega arith) room entries (refl, refl)) in
    rw (e, read)

-- `problem_parse` reads back every printed description: kind, direction, placement, split flag,
-- and from 1 to 19 sizes and up to 19 vector sizes, each a positive `int`, with the two products
-- in 32 bits.
pub parse-print : (d : Description) → IsPrintable d → problem_parse (print d) ≡ ok (described d)
unfolding problem_parse described flags_of
parse-print d h =
    rw
      (
        parse-print_flags d h.ranked.0 h.dims,
        parse-full_sizes d.dims (print_vector d.vector) h.ranked.0 h.ranked.1 h.dims
            (vector-Ends d.vector),
      )
      (parse-print_vector d.vector (record (flags_of d) { dims = sizes_of d.dims }) h.vranked
        h.vector refl)
