-- ===== src/Verify/Transform.antt =====
-- What the tests of libbench/verify.c need of a driver: that it computes a function of the array copied in,
-- and that the function has the properties of a Fourier transform.
pub mod Hooks
use bench_fft.Base.{
  ℕ, zero, suc, ◌+◌, ◌*◌, ◌/◌, ◌<◌, ◌≤◌, ◌≡◌, ◌⊎◌, ◌==◌, if◌then◌else◌, List, get_or,
}
use bench_fft.Base.Real.{Real, Complex, Libm}
use bench_fft.Base.Outcome.{Outcome, Returns}
use bench_fft.Problem.{Kind, Problem}
use bench_fft.Arrays.{complex_add, complex_sub, complex_mul}
use bench_fft.Arrays.Laws.{IsDisjoint}
use bench_fft.Verify.{Session, Driver, do_fft}
use bench_fft.Verify.Rows.Rotate.{rotated}
use bench_fft.Verify.Rows.Phase.{shifted}

-- One run of the driver on arrays that it does not own: the output array holds the transform of the
-- input array, and all other cells that it does not own are as they were.
pub record IsRun {R : Type 0} (n : ℕ) (mine : ℕ → Type 0)
    (transform : (ℕ → Complex R) → ℕ → Complex R) (input out : ℕ) (s t : Session R) : Type 0 where
  pub inside :
      (i : ℕ)
      → i < n
      → t.memory.complexes (out + i) ≡ transform (λ k. s.memory.complexes (input + k)) i
  pub outside :
      (j : ℕ) → mine j → (j < out) ⊎ (out + n ≤ j) → t.memory.complexes j ≡ s.memory.complexes j

abbrev pub Implements :
    {R : Type 0} → Driver R → Problem → (ℕ → Type 0) → ((ℕ → Complex R) → ℕ → Complex R) → Type 0
Implements {R} d p mine transform =
    (input out : ℕ) (s : Session R)
    → ((i : ℕ) → i < p.dims.size → mine (input + i))
    → ((i : ℕ) → i < p.dims.size → mine (out + i))
    → IsDisjoint p.dims.size input out
    → Returns (IsRun p.dims.size mine transform input out s) (do_fft d p input out s)

module _ {R : Type 0} ⦃r : Real R⦄ where
  -- Factors of a real problem have no imaginary part.
  abbrev pub IsFactor : Kind → Complex R → Type 0
  IsFactor kind alpha = kind ≡ Kind.problem_real → alpha.im ≡ r.zero

  abbrev pub unit_impulse : ℕ → Complex R
  unit_impulse i =
      if i == 0 then record { re = r.one; im = r.zero } else record { re = r.zero; im = r.zero }

  -- The transform of the array of ones: `n` at place 0.
  abbrev pub ones_transform : ℕ → ℕ → Complex R
  ones_transform n i =
      if i == 0 then record { re = r.of_ℕ n; im = r.zero } else record { re = r.zero; im = r.zero }

  abbrev pub ones : ℕ → Complex R
  ones i = record { re = r.one; im = r.zero }

  -- A linear transform, with the impulse responses of a Fourier transform.
  pub record IsTransform (p : Problem) (transform : (ℕ → Complex R) → ℕ → Complex R) : Type 0 where
    pub congruent :
        (x y : ℕ → Complex R)
        → ((k : ℕ) → k < p.dims.size → x k ≡ y k)
        → (i : ℕ) → i < p.dims.size
        → transform x i ≡ transform y i
    pub additive :
        (x y : ℕ → Complex R) (i : ℕ)
        → i < p.dims.size
        → transform (λ k. complex_add (x k) (y k)) i ≡ complex_add (transform x i) (transform y i)
    pub homogeneous :
        (alpha : Complex R) (x : ℕ → Complex R) (i : ℕ)
        → IsFactor p.kind alpha
        → i < p.dims.size
        → transform (λ k. complex_mul (x k) alpha) i ≡ complex_mul (transform x i) alpha
    pub restored : (x y : Complex R) → complex_add y (complex_sub x y) ≡ x
    pub impulse_response : (i : ℕ) → i < p.dims.size → transform unit_impulse i ≡ ones i
    pub ones_response : (i : ℕ) → i < p.dims.size → transform ones i ≡ ones_transform p.dims.size i
