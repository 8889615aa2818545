-- ===== src/Problem/Storage.antt =====
-- The blocks that a problem owns: allocate.c, deallocate.c, zero.c, `problem_destroy` of problem.c and
-- the production versions of `bench_malloc` and `bench_free` in util.c of libbench. The C library's
-- `malloc` is a parameter.
pub mod Laws
pub mod Tests
use bench_fft.Base.{
  ℕ, zero, suc, ◌+◌, ◌-◌, ◌*◌, ◌%◌, ◌^◌, Bool, true, false, ◌&&◌, not, ltb, ◌==◌, List, [], ◌∷◌,
  length, loop_below, get_or, if◌then◌else◌,
}
use bench_fft.Base.Outcome.{Outcome, ok, invalid_free, ◌>>=◌, ◌>>◌, bench_assert}
use bench_fft.Problem.{Kind, Problem}

-- The addresses of the blocks that are allocated.
pub record Heap : Type 0 where
  pub live : List ℕ

-- `malloc`, which returns 0 when it fails.
abbrev pub Allocator : Type 0
Allocator = Heap → ℕ → ℕ

-- A problem at its address, with the address of its text.
pub record Object : Type 0 where
  pub self : ℕ
  pub text : ℕ
  pub problem : Problem

unfoldable pub release : ℕ → List ℕ → Outcome (List ℕ)
release p [] = invalid_free
release p (q ∷ live) =
    let rest = release p live in if p == q then ok live else (rest >>= λ l. ok (q ∷ l))

-- `free(0)` does nothing.
unfoldable pub bench_free : ℕ → Heap → Outcome Heap
bench_free p h = if p == 0 then ok h else (release p h.live >>= λ live. ok (record { live = live }))

unfoldable pub bench_malloc : Allocator → ℕ → Heap → Outcome (ℕ × Heap)
bench_malloc malloc n h =
    let p = malloc h (if n == 0 then 1 else n) in
    bench_assert (not (p == 0)) >> ok (p, record { live = p ∷ h.live })

-- The two blocks that `problem_parse` allocates; the sizes are those of the C structure and the text.
unfoldable pub problem_create : Allocator → ℕ → Problem → Heap → Outcome (Object × Heap)
problem_create malloc sizeof_problem p h = do
  (self, h') ← bench_malloc malloc sizeof_problem h
  (text, h'') ← bench_malloc malloc (length p.pstring + 1) h'
  ok (record { self = self; text = text; problem = record p { input = 0; output = 0 } }, h'')

-- `s = p->vsize; for (i = 0; i < p->rank; ++i) s *= p->n[i] + 2;`, a `size_t` of 64 bits.
unfoldable pub real_size : Problem → ℕ
real_size p =
    loop_below p.dims.rank (λ i s. (s * ((get_or p.dims.n i 0 + 2) % 2 ^ 32)) % 2 ^ 64)
      p.vector.size

-- `p->size * p->vsize`, a product of `unsigned int`.
abbrev pub complex_size : Problem → ℕ
complex_size p = (p.dims.size * p.vector.size) % 2 ^ 32

-- Both branches of `problem_alloc` end with the same calls for `s` elements of `width` bytes.
abbrev pub alloc_arrays : Allocator → ℕ → ℕ → Object → Heap → Outcome (Object × Heap)
alloc_arrays malloc s width o h = do
  (input, h') ← bench_malloc malloc ((s * width) % 2 ^ 64) h
  if o.problem.in_place
      then ok (
        record o {
          problem = record o.problem { phys_size = s % 2 ^ 32; input = input; output = input };
        },
        h',
      )
      else (bench_malloc malloc ((s * width) % 2 ^ 64) h' >>= λ r. ok (
        record o {
          problem = record o.problem { phys_size = s % 2 ^ 32; input = input; output = r.0 };
        },
        r.1,
      ))

unfoldable pub problem_alloc : Allocator → ℕ → Object → Heap → Outcome (Object × Heap)
problem_alloc malloc sizeof_real o h = elim o.problem.kind [
  | Kind.problem_complex ↦ alloc_arrays malloc (complex_size o.problem) (2 * sizeof_real) o h
  | Kind.problem_real ↦ alloc_arrays malloc (real_size o.problem) sizeof_real o h
]

unfoldable pub problem_free : Problem → Heap → Outcome Heap
problem_free p h = do
  h' ← (if not (p.output == 0) && not (p.output == p.input) then bench_free p.output h else ok h)
  if not (p.input == 0) then bench_free p.input h' else ok h'

unfoldable pub problem_destroy : Object → Heap → Outcome Heap
problem_destroy o h = do
  bench_assert (not (o.self == 0))
  h' ← problem_free o.problem h
  h'' ← bench_free o.text h'
  bench_free o.self h''
