-- ===== src/Base/Outcome.antt =====
-- How a call ends: `BENCH_ASSERT` and `exit(EXIT_FAILURE)` stop the program, an `int` that overflows is
-- undefined, and so is `free` of an address that is not allocated, and `out_of_fuel` is a loop that the
-- model cut off.
use Prim.Native.Nat.{ℕ, zero, suc, ◌<◌}
use native.Mathlib.Omega.{arith}
use mathlib.Core.Path.{◌≡◌, refl, ap, ◌∙◌}
use mathlib.Core.Bool.{Bool, true, false}
use bench_fft.Base.Tests.{if◌then◌else◌}

pub data Outcome {ℓ} (A : Type ℓ) : Type ℓ where
  ok : A → Outcome A
  assertion_failed exit_failure overflow invalid_free out_of_fuel : Outcome A

infixl 5 ◌>>=◌ ◌>>◌
abbrev pub ◌>>=◌ {ℓ κ} : {A : Type ℓ} {B : Type κ} → Outcome A → (A → Outcome B) → Outcome B
ok a >>= k = k a
assertion_failed >>= k = assertion_failed
exit_failure >>= k = exit_failure
overflow >>= k = overflow
invalid_free >>= k = invalid_free
out_of_fuel >>= k = out_of_fuel

abbrev pub ◌>>◌ {ℓ} : {B : Type ℓ} → Outcome (Unit {0}) → Outcome B → Outcome B
m >> k = m >>= λ _. k

abbrev pub bench_assert : Bool → Outcome (Unit {0})
bench_assert true = ok tt
bench_assert false = assertion_failed

-- Total correctness: the model never cuts the run off, and what it returns satisfies `P`.
abbrev pub Ensures {ℓ} : {A : Type ℓ} → (A → Type 0) → Outcome A → Type 0
Ensures P (ok a) = P a
Ensures P assertion_failed = Unit
Ensures P exit_failure = Unit
Ensures P overflow = Unit
Ensures P invalid_free = ⊥
Ensures P out_of_fuel = ⊥

pub Ensures-bind {ℓ κ} :
    {A : Type ℓ} {B : Type κ} (P : A → Type 0) (Q : B → Type 0) (m : Outcome A) (k : A → Outcome B)
    → Ensures P m
    → ((a : A) → P a → Ensures Q (k a))
    → Ensures Q (m >>= k)
Ensures-bind P Q (ok a) k h rest = rest a h
Ensures-bind P Q assertion_failed k h rest = tt
Ensures-bind P Q exit_failure k h rest = tt
Ensures-bind P Q overflow k h rest = tt
Ensures-bind P Q invalid_free k h rest = elim h [ ]
Ensures-bind P Q out_of_fuel k h rest = elim h [ ]

pub Ensures-eq {ℓ} :
    {A : Type ℓ} (P : A → Type 0) {m : Outcome A} {a : A} → m ≡ ok a → Ensures P m → P a
Ensures-eq P e h = rw e at h

pub Ensures-assert :
    (P : Unit {0} → Type 0) (b : Bool) → (b ≡ true → P tt) → Ensures P (bench_assert b)
Ensures-assert P true h = h refl
Ensures-assert P false h = tt

pub Ensures-map {ℓ} :
    {A : Type ℓ} (P : A → Type 0) (Q : A → Type 0) (m : Outcome A)
    → ((a : A) → P a → Q a)
    → Ensures P m
    → Ensures Q m
Ensures-map P Q (ok a) f h = f a h
Ensures-map P Q assertion_failed f h = tt
Ensures-map P Q exit_failure f h = tt
Ensures-map P Q overflow f h = tt
Ensures-map P Q invalid_free f h = elim h [ ]
Ensures-map P Q out_of_fuel f h = elim h [ ]

-- What a call ensures holds of the value that it returns.
pub Ensures-self :
    {A : Type 0} (P : A → Type 0) (m : Outcome A) → Ensures P m → Ensures (λ a. m ≡ ok a) m
Ensures-self P (ok a) h = refl
Ensures-self P assertion_failed h = tt
Ensures-self P exit_failure h = tt
Ensures-self P overflow h = tt
Ensures-self P invalid_free h = elim h [ ]
Ensures-self P out_of_fuel h = elim h [ ]

pub Ensures-if {ℓ} :
    {A : Type ℓ} (P : A → Type 0) (b : Bool) (m n : Outcome A)
    → Ensures P m
    → Ensures P n
    → Ensures P (if b then m else n)
Ensures-if P true m n h k = h
Ensures-if P false m n h k = k

-- `for (i = 0; i < n; ++i) body(i)`, where a round may end the program.
unfoldable pub loop_while_ok {ℓ} : {S : Type ℓ} → ℕ → (ℕ → S → Outcome S) → S → Outcome S
loop_while_ok zero body s = ok s
loop_while_ok (suc n) body s = loop_while_ok n body s >>= body n

-- A call returns, with a value that satisfies `P`.
pub record Returns {ℓ κ} {A : Type ℓ} (P : A → Type κ) (m : Outcome A) : Type (ℓ ⊔ κ) where
  pub value : A
  pub returned : m ≡ ok value
  pub holds : P value

pub Returns-ok {ℓ κ} : {A : Type ℓ} {P : A → Type κ} (a : A) → P a → Returns P (ok a)
Returns-ok a h = record { value = a; returned = refl; holds = h }

pub Returns-bind {ℓ κ μ ν} :
    {A : Type ℓ} {B : Type μ} {P : A → Type κ} {Q : B → Type ν} {m : Outcome A} {k : A → Outcome B}
    → Returns P m
    → ((a : A) → P a → Returns Q (k a))
    → Returns Q (m >>= k)
Returns-bind {k = k} r rest =
    let s = rest r.value r.holds in
    record {
      value = s.value;
      returned = ap (λ m. m >>= k) r.returned ∙ s.returned;
      holds = s.holds;
    }

pub Returns-loop {ℓ κ} :
    {S : Type ℓ} (P : ℕ → S → Type κ) (n : ℕ) (body : ℕ → S → Outcome S) (s : S)
    → ((i : ℕ) (t : S) → i < n → P i t → Returns (P (suc i)) (body i t))
    → P zero s
    → Returns (P n) (loop_while_ok n body s)
unfolding loop_while_ok
Returns-loop P zero body s keep h = Returns-ok s h
Returns-loop P (suc n) body s keep h =
    Returns-bind (Returns-loop P n body s (λ i t lt p. keep i t (omega arith) p) h)
      λ t p. keep n t (omega arith) p
