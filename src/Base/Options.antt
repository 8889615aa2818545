-- ===== src/Base/Options.antt =====
-- Chains of calls each of which may run out of fuel.
use Prim.Native.Nat.{ℕ, zero, suc, ◌<◌}
use mathlib.Core.Path.{◌≡◌, refl, ap, ◌∙◌}
use native.Mathlib.Omega.{arith}
use mathlib.Core.Option.{Option, none, some}

infixl 5 ◌>>=◌
abbrev pub ◌>>=◌ {ℓ κ} : {A : Type ℓ} {B : Type κ} → Option A → (A → Option B) → Option B
none >>= k = none
some a >>= k = k a

-- `for (i = 0; i < n; ++i) body(i)`, where a round may run out of fuel.
unfoldable pub loop_while_some {ℓ} : {S : Type ℓ} → ℕ → (ℕ → S → Option S) → S → Option S
loop_while_some zero body s = some s
loop_while_some (suc n) body s = loop_while_some n body s >>= body n

-- What is returned, if anything is, satisfies `P`.
abbrev pub IfSome {ℓ} : {A : Type ℓ} → (A → Type 0) → Option A → Type 0
IfSome P none = Unit {0}
IfSome P (some a) = P a

pub IfSome-bind {ℓ κ} :
    {A : Type ℓ} {B : Type κ} (P : B → Type 0) (m : Option A) (k : A → Option B)
    → ((a : A) → IfSome P (k a))
    → IfSome P (m >>= k)
IfSome-bind P none k h = tt
IfSome-bind P (some a) k h = h a

-- A call returns, with a value that satisfies `P`.
pub record IsSome {ℓ κ} {A : Type ℓ} (P : A → Type κ) (m : Option A) : Type (ℓ ⊔ κ) where
  pub value : A
  pub returned : m ≡ some value
  pub holds : P value

pub IsSome-bind {ℓ κ μ ν} :
    {A : Type ℓ} {B : Type μ} {P : A → Type κ} {Q : B → Type ν} {m : Option A} {k : A → Option B}
    → IsSome P m
    → ((a : A) → P a → IsSome Q (k a))
    → IsSome Q (m >>= k)
IsSome-bind {k = k} r rest =
    let s = rest r.value r.holds in
    record {
      value = s.value;
      returned = ap (λ m. m >>= k) r.returned ∙ s.returned;
      holds = s.holds;
    }

pub IsSome-loop {ℓ κ} :
    {S : Type ℓ} (P : ℕ → S → Type κ) (n : ℕ) (body : ℕ → S → Option S) (s : S)
    → ((i : ℕ) (t : S) → i < n → P i t → IsSome (P (suc i)) (body i t))
    → P zero s
    → IsSome (P n) (loop_while_some n body s)
unfolding loop_while_some
IsSome-loop P zero body s keep h = record { value = s; returned = refl; holds = h }
IsSome-loop P (suc n) body s keep h =
    IsSome-bind (IsSome-loop P n body s (λ i t lt p. keep i t (omega arith) p) h)
      λ t p. keep n t (omega arith) p
