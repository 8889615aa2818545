-- ===== src/Base/Stores.antt =====
-- What loops that store into a buffer leave in it.
use Prim.Native.Nat.{ℕ, zero, suc, ◌+◌, ◌-◌, ◌<◌, ◌≤◌}
use mathlib.Core.Path.{◌≡◌, refl, sym, ap, ◌∙◌}
use mathlib.Core.Logic.{◌≢◌, ◌⊎◌, inl, inr}
use mathlib.Core.Bool.{false}
use native.Mathlib.Omega.{arith}
use bench_fft.Base.Tests.{leb, ◌==◌, ==_refl, ==→≡, Bool-cases}
use bench_fft.Base.Loop.{Buffer, store, loop_below}

not_equal : (j i : ℕ) → j ≢ i → (j == i) ≡ false
not_equal j i h = ground arith

pub store_same {ℓ} : {A : Type ℓ} (buf : Buffer A) (i : ℕ) (v : A) → store buf i v i ≡ v
store_same buf i v = rw (==_refl i)

pub store_other {ℓ} :
    {A : Type ℓ} (buf : Buffer A) (i : ℕ) (v : A) (j : ℕ) → j ≢ i → store buf i v j ≡ buf j
store_other buf i v j h = rw (not_equal j i h)

-- The `n` places from `base` on hold the values `v`, and all other places are as they were.
pub record IsWritten {ℓ} {A : Type ℓ} (base n : ℕ) (v : ℕ → A) (old new : Buffer A) : Type ℓ where
  pub inside : (i : ℕ) → i < n → new (base + i) ≡ v i
  pub outside : (j : ℕ) → (j < base) ⊎ (base + n ≤ j) → new j ≡ old j

module _ {ℓ} {A : Type ℓ} (base : ℕ) (v : ℕ → A) (g : ℕ → Buffer A → A) (old : Buffer A) where
  abbrev fill : ℕ → Buffer A
  fill n = loop_below n (λ i buf. store buf (base + i) (g i buf)) old

  next :
      (n : ℕ) (buf : Buffer A)
      → IsWritten base n v old buf
      → g n buf ≡ v n
      → IsWritten base (suc n) v old (store buf (base + n) (g n buf))
  next n buf h e = record {
    inside = λ i lt. elim (Bool-cases (i == n)) [
      | inl last ↦ rw (==→≡ i n last) (store_same buf (base + n) (g n buf) ∙ e)
      | inr before ↦
          store_other buf (base + n) (g n buf) (base + i) (ground arith) ∙ h.inside i (ground arith)
    ];
    outside = λ j away.
        store_other buf (base + n) (g n buf) j (ground arith) ∙ h.outside j (ground arith);
  }

  -- The loop `for (i = 0; i < n; ++i) base[i] = g(i)`, where each round reads what the rounds before
  -- it leave alone.
  pub fill-IsWritten :
      (n : ℕ)
      → ((i : ℕ) (buf : Buffer A) → i < n → IsWritten base i v old buf → g i buf ≡ v i)
      → IsWritten base n v old (fill n)
  unfolding loop_below
  fill-IsWritten zero reads = record {
    inside = λ i lt. absurd (omega arith);
    outside = λ j away. refl;
  }
  fill-IsWritten (suc n) reads =
      let h = fill-IsWritten n (λ i buf lt w. reads i buf (omega arith) w) in
      next n (fill n) h (reads n (fill n) (omega arith) h)

module _ {ℓ} {A : Type ℓ} (base : ℕ) (v : ℕ → A) (old : Buffer A) where
  pub nothing-IsWritten : IsWritten base 0 v old old
  nothing-IsWritten = record { inside = λ i lt. absurd (omega arith); outside = λ j away. refl }

  pub count-IsWritten :
      {n m : ℕ} {new : Buffer A} → n ≡ m → IsWritten base n v old new → IsWritten base m v old new
  count-IsWritten e h = rw (← e) h

  pub values-IsWritten :
      {n : ℕ} {v' : ℕ → A} {new : Buffer A}
      → ((i : ℕ) → i < n → v i ≡ v' i)
      → IsWritten base n v old new
      → IsWritten base n v' old new
  values-IsWritten same h = record {
    inside = λ i lt. h.inside i lt ∙ same i lt;
    outside = h.outside;
  }

  -- `n` places, and then one more.
  pub one-IsWritten :
      (n : ℕ) (buf new : Buffer A)
      → IsWritten base n v old buf
      → new (base + n) ≡ v n
      → ((j : ℕ) → j ≢ base + n → new j ≡ buf j)
      → IsWritten base (suc n) v old new
  one-IsWritten n buf new h here elsewhere = record {
    inside = λ i lt. elim (Bool-cases (i == n)) [
      | inl last ↦ rw (==→≡ i n last) here
      | inr before ↦ elsewhere (base + i) (λ e. ground arith) ∙ h.inside i (ground arith)
    ];
    outside = λ j away. elsewhere j (λ e. ground arith) ∙ h.outside j (ground arith);
  }

  -- `n` places, and then `m` more.
  pub more-IsWritten :
      (n m : ℕ) (buf new : Buffer A)
      → IsWritten base n v old buf
      → IsWritten (base + n) m (λ i. v (n + i)) buf new
      → IsWritten base (n + m) v old new
  more-IsWritten n m buf new h h' = record {
    inside = λ i lt. elim (Bool-cases (leb n i)) [
      | inl after ↦
          ap new {x = base + i} {y = base + n + (i - n)} (ground arith)
          ∙ h'.inside (i - n) (ground arith)
          ∙ ap v {x = n + (i - n)} {y = i} (ground arith)
      | inr before ↦ h'.outside (base + i) (inl (ground arith)) ∙ h.inside i (ground arith)
    ];
    outside = λ j away. h'.outside j (ground arith) ∙ h.outside j (ground arith);
  }

-- Two places `p i` and `q i` for each round `i`, all of them different.
pub record IsApart (n : ℕ) (p q : ℕ → ℕ) : Type 0 where
  pub first : (i j : ℕ) → i < n → j < n → i ≢ j → p i ≢ p j
  pub second : (i j : ℕ) → i < n → j < n → i ≢ j → q i ≢ q j
  pub across : (i j : ℕ) → i < n → j < n → p i ≢ q j

-- The places `p i` hold `f i`, the places `q i` hold `g i`, and all others are as they were.
pub record IsPaired {ℓ} {A : Type ℓ} (n : ℕ) (p q : ℕ → ℕ) (f g : ℕ → A) (old new : Buffer A)
    : Type ℓ where
  pub at_first : (i : ℕ) → i < n → new (p i) ≡ f i
  pub at_second : (i : ℕ) → i < n → new (q i) ≡ g i
  pub elsewhere : (j : ℕ) → ((i : ℕ) → i < n → (j ≢ p i) × (j ≢ q i)) → new j ≡ old j

module _ {ℓ} {A : Type ℓ} (p q : ℕ → ℕ) (f g : ℕ → A) (old : Buffer A) where
  abbrev pub pair : ℕ → Buffer A → Buffer A
  pair i buf = store (store buf (p i) (f i)) (q i) (g i)

  kept : (i : ℕ) (buf : Buffer A) (j : ℕ) → (j ≢ p i) × (j ≢ q i) → pair i buf j ≡ buf j
  kept i buf j h =
      store_other (store buf (p i) (f i)) (q i) (g i) j h.1 ∙ store_other buf (p i) (f i) j h.0

  first_now : (i : ℕ) (buf : Buffer A) → p i ≢ q i → pair i buf (p i) ≡ f i
  first_now i buf h =
      store_other (store buf (p i) (f i)) (q i) (g i) (p i) h ∙ store_same buf (p i) (f i)

  second_now : (i : ℕ) (buf : Buffer A) → pair i buf (q i) ≡ g i
  second_now i buf = store_same (store buf (p i) (f i)) (q i) (g i)

  one_more :
      (n : ℕ) (before : Buffer A)
      → IsApart (suc n) p q
      → IsPaired n p q f g old before
      → IsPaired (suc n) p q f g old (pair n before)
  one_more n before apart h = record {
    at_first = λ i lt. elim (Bool-cases (i == n)) [
      | inl last ↦
          rw (==→≡ i n last) (first_now n before (apart.across n n (omega arith) (omega arith)))
      | inr early ↦
          kept n before (p i)
            (apart.first i n lt (omega arith) (ground arith), apart.across i n lt (omega arith))
          ∙ h.at_first i (ground arith)
    ];
    at_second = λ i lt. elim (Bool-cases (i == n)) [
      | inl last ↦ rw (==→≡ i n last) (second_now n before)
      | inr early ↦
          kept n before (q i) (
            λ e. apart.across n i (omega arith) lt (sym e),
            apart.second i n lt (omega arith) (ground arith),
          )
          ∙ h.at_second i (ground arith)
    ];
    elsewhere = λ j away.
        kept n before j (away n (omega arith)) ∙ h.elsewhere j (λ i lt. away i (omega arith));
  }

  pub pairs-IsPaired : (n : ℕ) → IsApart n p q → IsPaired n p q f g old (loop_below n pair old)
  unfolding loop_below
  pairs-IsPaired zero apart = record {
    at_first = λ i lt. absurd (omega arith);
    at_second = λ i lt. absurd (omega arith);
    elsewhere = λ j away. refl;
  }
  pairs-IsPaired (suc n) apart = one_more n (loop_below n pair old) apart (
      pairs-IsPaired n (record {
        first = λ i j lt lt'. apart.first i j (omega arith) (omega arith);
        second = λ i j lt lt'. apart.second i j (omega arith) (omega arith);
        across = λ i j lt lt'. apart.across i j (omega arith) (omega arith);
      }))
