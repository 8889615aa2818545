-- ===== src/Problem/Storage/Tests.antt =====
-- A problem in a small heap.
use Prim.Native.Nat.{ℕ, ◌+◌}
use mathlib.Core.Path.{subst}
use bench_fft.Base.{◌≡◌, refl, arith, inr, false, List, [], ◌∷◌}
use bench_fft.Base.Int.ℤ.{negsuc}
use bench_fft.Base.Outcome.{◌>>=◌, Ensures}
use bench_fft.Problem.{Kind, Problem}
use bench_fft.Problem.Storage.{
  Heap, Allocator, Object, problem_create, problem_alloc, problem_destroy,
}
use bench_fft.Problem.Storage.Laws.{IsAllocator, IsOwner, NotIn, problem_destroy-alloc}

pub above : List ℕ → ℕ
above [] = 1
above (p ∷ live) = p + 1 + above live

-- An allocator that never fails.
abbrev pub next_address : Allocator
next_address h n = above h.live

above-NotIn : (live : List ℕ) (k : ℕ) → NotIn (k + above live) live
unfolding above
above-NotIn [] k = tt
above-NotIn (p ∷ live) k = (
  λ e. absurd (omega arith),
  subst (λ a. NotIn a live) (omega arith) (above-NotIn live (k + (p + 1))),
)

pub next_address-IsAllocator : IsAllocator next_address
next_address-IsAllocator h n =
    inr (subst (λ a. NotIn a h.live) (omega arith) (above-NotIn h.live 0))

abbrev eight : Problem
eight = record {
  kind = Kind.problem_real;
  dims = record { rank = 1; n = 8 ∷ []; size = 8 };
  vector = record { rank = 0; n = []; size = 1 };
  phys_size = 0;
  sign = negsuc 0;
  in_place = false;
  split = false;
  input = 0;
  output = 0;
  pstring = b'r' ∷ b'8' ∷ [];
  userinfo = 0;
}

abbrev used : Heap
used = record { live = 7 ∷ [] }

-- Two arrays, at 40 and 30.
abbrev owner : Object
owner = record { self = 10; text = 20; problem = record eight { input = 30; output = 40 } }

abbrev full : Heap
full = record { live = 40 ∷ 30 ∷ 20 ∷ 10 ∷ 7 ∷ [] }

owner-IsOwner : IsOwner used full owner
owner-IsOwner = record {
  self = λ e. absurd (omega arith);
  text = λ e. absurd (omega arith);
  arrays =
      inr (
        inr
          (λ e. absurd (omega arith), λ e. absurd (omega arith), λ e. absurd (omega arith), refl));
}

problem_destroy-alloc_example :
    Ensures
      (λ h. h ≡ used)
      (problem_create next_address 512 eight used >>= λ r.
        problem_alloc next_address 8 r.0 r.1 >>= λ s. problem_destroy s.0 s.1)
problem_destroy-alloc_example =
    problem_destroy-alloc next_address next_address-IsAllocator 512 8 eight used
