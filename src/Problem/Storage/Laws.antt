-- ===== src/Problem/Storage/Laws.antt =====
-- A problem gives back what it took, once.
use bench_fft.Base.{
  ℕ, ◌+◌, ◌*◌, ◌^◌, ◌%◌, ◌≡◌, ◌≢◌, ◌⊎◌, inl, inr, refl, ap, ◌∙◌, arith, true, false, not, ◌==◌,
  ==_refl, Bool-cases, List, [], ◌∷◌, length, if◌then◌else◌,
}
use bench_fft.Base.Outcome.{ok, ◌>>=◌, bench_assert, Ensures, Ensures-bind, Ensures-assert}
use bench_fft.Problem.{Kind, Problem}
use bench_fft.Problem.Storage.{
  Heap, Allocator, Object, release, bench_free, bench_malloc, problem_create, real_size,
  complex_size, alloc_arrays, problem_alloc, problem_free, problem_destroy,
}

abbrev pub NotIn : ℕ → List ℕ → Type 0
NotIn p [] = Unit {0}
NotIn p (q ∷ live) = (p ≢ q) × NotIn p live

-- `malloc` returns 0, or an address that is not in use.
abbrev pub IsAllocator : Allocator → Type 0
IsAllocator malloc = (h : Heap) (n : ℕ) → (malloc h n ≡ 0) ⊎ NotIn (malloc h n) h.live

pub Kind-cases : (k : Kind) → (k ≡ Kind.problem_complex) ⊎ (k ≡ Kind.problem_real)
Kind-cases Kind.problem_complex = inl refl
Kind-cases Kind.problem_real = inr refl

pub not_same : (p q : ℕ) → p ≢ q → (p == q) ≡ false
not_same p q h = ground arith

release_first : (p : ℕ) (live : List ℕ) → release p (p ∷ live) ≡ ok live
unfolding release
release_first p live = rw (==_refl p)

release_second : (p q : ℕ) (live : List ℕ) → q ≢ p → release q (p ∷ q ∷ live) ≡ ok (p ∷ live)
unfolding release
release_second p q live h = rw (not_same q p h, ==_refl q)

pub bench_free_first :
    (p : ℕ) (live : List ℕ)
    → p ≢ 0
    → bench_free p (record { live = p ∷ live }) ≡ ok (record { live = live })
unfolding bench_free
bench_free_first p live h = rw (not_same p 0 h, release_first p live)

-- What a successful `bench_malloc` gives.
pub record IsFresh (h : Heap) (r : ℕ × Heap) : Type 0 where
  pub nonzero : r.0 ≢ 0
  pub unused : NotIn r.0 h.live
  pub taken : r.1 ≡ record { live = r.0 ∷ h.live }

module _ (malloc : Allocator) (allocates : IsAllocator malloc) where
  pub bench_malloc-IsFresh : (n : ℕ) (h : Heap) → Ensures (IsFresh h) (bench_malloc malloc n h)
  unfolding bench_malloc
  bench_malloc-IsFresh n h =
      let p = malloc h (if n == 0 then 1 else n) in
      Ensures-bind (λ _. p ≢ 0) (IsFresh h) (bench_assert (not (p == 0))) _
        (Ensures-assert (λ _. p ≢ 0) (not (p == 0)) (λ e. ground arith))
        λ _ nonzero. record {
          nonzero = nonzero;
          unused = fresh (allocates h (if n == 0 then 1 else n)) nonzero;
          taken = refl;
        }
    where
      fresh : {p : ℕ} → (p ≡ 0) ⊎ NotIn p h.live → p ≢ 0 → NotIn p h.live
      fresh (inl e) ne = absurd (ne e)
      fresh (inr new) ne = new

-- What a problem owns: its two blocks, and no array, one array for input and output, or two.
pub record IsOwner (base h : Heap) (o : Object) : Type 0 where
  pub self : o.self ≢ 0
  pub text : o.text ≢ 0
  pub arrays :
      ((o.problem.input ≡ 0) × (o.problem.output ≡ 0) × (h.live ≡ o.text ∷ o.self ∷ base.live))
      ⊎ ((o.problem.input ≢ 0)
          × (o.problem.output ≡ o.problem.input)
          × (h.live ≡ o.problem.input ∷ o.text ∷ o.self ∷ base.live))
      ⊎ ((o.problem.input ≢ 0)
          × (o.problem.output ≢ 0)
          × (o.problem.output ≢ o.problem.input)
          × (h.live ≡ o.problem.output ∷ o.problem.input ∷ o.text ∷ o.self ∷ base.live))

pub heap_path : {h : Heap} {live : List ℕ} → h.live ≡ live → h ≡ record { live = live }
heap_path e = λ i. record { live = e i }

pub not_null : (p : ℕ) → p ≢ 0 → not (p == 0) ≡ true
not_null p h = rw (not_same p 0 h)

two_blocks :
    (base : Heap) (o : Object)
    → o.self ≢ 0
    → o.text ≢ 0
    → (bench_free o.text (record { live = o.text ∷ o.self ∷ base.live }) >>= bench_free o.self)
      ≡ ok base
two_blocks base o hs ht =
    rw (bench_free_first o.text (o.self ∷ base.live) ht) (bench_free_first o.self base.live hs)

abbrev own_blocks : Heap → Object → List ℕ
own_blocks base o = o.text ∷ o.self ∷ base.live

-- Whatever a problem owns, `problem_free` frees its arrays.
problem_free-IsOwner :
    (base h : Heap) (o : Object)
    → IsOwner base h o
    → problem_free o.problem h ≡ ok (record { live = o.text ∷ o.self ∷ base.live })
unfolding problem_free
problem_free-IsOwner base h o w = choose w.arrays
  where
    choose :
        ((o.problem.input ≡ 0) × (o.problem.output ≡ 0) × (h.live ≡ own_blocks base o))
          ⊎ ((o.problem.input ≢ 0)
              × (o.problem.output ≡ o.problem.input)
              × (h.live ≡ o.problem.input ∷ own_blocks base o))
          ⊎ ((o.problem.input ≢ 0)
              × (o.problem.output ≢ 0)
              × (o.problem.output ≢ o.problem.input)
              × (h.live ≡ o.problem.output ∷ o.problem.input ∷ own_blocks base o))
        → problem_free o.problem h ≡ ok (record { live = own_blocks base o })
    choose (inl (e, f, g)) = rw (e, f) (ap ok (heap_path g))
    choose (inr (inl (e, f, g))) =
        rw (f, not_null o.problem.input e, ==_refl o.problem.input, heap_path g)
          (bench_free_first o.problem.input (own_blocks base o) e)
    choose (inr (inr (e, f, ne, g))) =
        rw
          (
            not_null o.problem.output f,
            not_same o.problem.output o.problem.input ne,
            heap_path g,
            bench_free_first o.problem.output (o.problem.input ∷ own_blocks base o) f,
            not_null o.problem.input e,
          )
          (bench_free_first o.problem.input (own_blocks base o) e)

-- `problem_destroy` frees every block that a problem owns exactly once, and leaves the heap as it was
-- before the problem: with no array, with one array for input and output, or with two.
pub problem_destroy-returns :
    (base h : Heap) (o : Object) → IsOwner base h o → problem_destroy o h ≡ ok base
unfolding problem_destroy
problem_destroy-returns base h o w =
    rw (not_null o.self w.self, problem_free-IsOwner base h o w) (two_blocks base o w.self w.text)

module _ (malloc : Allocator) (allocates : IsAllocator malloc) where
  problem_create-IsOwner :
      (sizeof_problem : ℕ) (p : Problem) (base : Heap)
      → Ensures
          (λ r. IsOwner base r.1 r.0 × (r.0.problem.input ≡ 0))
          (problem_create malloc sizeof_problem p base)
  unfolding problem_create
  problem_create-IsOwner sizeof_problem p base =
      Ensures-bind (IsFresh base) _ (bench_malloc malloc sizeof_problem base) _
        (bench_malloc-IsFresh malloc allocates sizeof_problem base)
        λ a fa.
          Ensures-bind (IsFresh a.1) _ (bench_malloc malloc (length p.pstring + 1) a.1) _
            (bench_malloc-IsFresh malloc allocates (length p.pstring + 1) a.1)
            λ b fb. (
              record {
                self = fa.nonzero;
                text = fb.nonzero;
                arrays = inl (
                  refl,
                  refl,
                  ap (λ (x : Heap). x.live) fb.taken ∙ ap (λ (x : Heap). b.0 ∷ x.live) fa.taken,
                );
              },
              refl,
            )

  alloc_arrays-IsOwner :
      (s width : ℕ) (base h : Heap) (o : Object)
      → IsOwner base h o
      → o.problem.input ≡ 0
      → Ensures (λ r. IsOwner base r.1 r.0) (alloc_arrays malloc s width o h)
  alloc_arrays-IsOwner s width base h o w empty =
      Ensures-bind (IsFresh h) _ (bench_malloc malloc bytes h) _
        (bench_malloc-IsFresh malloc allocates bytes h)
        λ a fa. elim (Bool-cases o.problem.in_place) [
          | inl shared ↦
              rw (shared, Ensures)
                (record {
                  self = w.self;
                  text = w.text;
                  arrays = inr (
                      inl (
                        fa.nonzero,
                        refl,
                        ap (λ (x : Heap). x.live) fa.taken ∙ ap (◌∷◌ a.0) (none_yet w.arrays),
                      ));
                })
          | inr apart ↦
              rw (apart, Ensures)
                (Ensures-bind (IsFresh a.1) _ (bench_malloc malloc bytes a.1) _
                  (bench_malloc-IsFresh malloc allocates bytes a.1)
                  λ b fb.
                    let taken = ap (λ (x : Heap). x.live) fa.taken in
                    record {
                      self = w.self;
                      text = w.text;
                      arrays = inr (
                          inr (
                            fa.nonzero,
                            fb.nonzero,
                            (rw taken at fb.unused).0,
                            ap (λ (x : Heap). x.live) fb.taken
                                ∙ ap (◌∷◌ b.0) (taken ∙ ap (◌∷◌ a.0) (none_yet w.arrays)),
                          ));
                    })
        ]
    where
      bytes : ℕ
      bytes = (s * width) % 2 ^ 64

      none_yet :
          ((o.problem.input ≡ 0) × (o.problem.output ≡ 0) × (h.live ≡ o.text ∷ o.self ∷ base.live))
            ⊎ ((o.problem.input ≢ 0)
                × (o.problem.output ≡ o.problem.input)
                × (h.live ≡ o.problem.input ∷ o.text ∷ o.self ∷ base.live))
            ⊎ ((o.problem.input ≢ 0)
                × (o.problem.output ≢ 0)
                × (o.problem.output ≢ o.problem.input)
                × (h.live ≡ o.problem.output ∷ o.problem.input ∷ o.text ∷ o.self ∷ base.live))
          → h.live ≡ o.text ∷ o.self ∷ base.live
      none_yet (inl (e, f, g)) = g
      none_yet (inr (inl (ne, same, rest))) = absurd (ne empty)
      none_yet (inr (inr (ne, nonzero, apart, rest))) = absurd (ne empty)

  problem_alloc-IsOwner :
      (sizeof_real : ℕ) (base h : Heap) (o : Object)
      → IsOwner base h o
      → o.problem.input ≡ 0
      → Ensures (λ r. IsOwner base r.1 r.0) (problem_alloc malloc sizeof_real o h)
  unfolding problem_alloc
  problem_alloc-IsOwner sizeof_real base h o w empty = elim (Kind-cases o.problem.kind) [
    | inl complex ↦
        rw (complex, Ensures)
          (alloc_arrays-IsOwner (complex_size o.problem) (2 * sizeof_real) base h o w empty)
    | inr real ↦
        rw (real, Ensures) (alloc_arrays-IsOwner (real_size o.problem) sizeof_real base h o w empty)
  ]

  -- Creating a problem, allocating its arrays and destroying it leaves the heap as it was, if no
  -- `malloc` fails: every block is freed once, and none that was not allocated, in place or not. The
  -- allocator returns 0 or an address not in use.
  pub problem_destroy-alloc :
      (sizeof_problem sizeof_real : ℕ) (p : Problem) (base : Heap)
      → Ensures
          (λ h. h ≡ base)
          (problem_create malloc sizeof_problem p base >>= λ r.
            problem_alloc malloc sizeof_real r.0 r.1 >>= λ s. problem_destroy s.0 s.1)
  problem_destroy-alloc sizeof_problem sizeof_real p base =
      Ensures-bind (λ r. IsOwner base r.1 r.0 × (r.0.problem.input ≡ 0)) (λ h. h ≡ base)
        (problem_create malloc sizeof_problem p base) _
        (problem_create-IsOwner sizeof_problem p base)
        λ r w.
          Ensures-bind (λ s. IsOwner base s.1 s.0) (λ h. h ≡ base)
            (problem_alloc malloc sizeof_real r.0 r.1) _
            (problem_alloc-IsOwner sizeof_real base r.1 r.0 w.0 w.1)
            λ s v. rw (problem_destroy-returns base s.1 s.0 v, Ensures) refl
