-- ===== src/Hermitian/Sweep.antt =====
-- The loops that visit an array from both ends: the first element, then the elements `k` and `n - k`
-- together, then, for even `n`, the middle one.
use bench_fft.Base.{
  ℕ, ◌+◌, ◌-◌, ◌*◌, ◌<◌, ◌≡◌, ◌≢◌, inl, inr, sym, ap, ◌∙◌, arith, true, ◌==◌, Bool-cases, ==→≡,
  Buffer, store, store_same, store_other, loop_below, IsApart, IsPaired, pair, pairs-IsPaired,
  if◌then◌else◌,
}
use bench_fft.Hermitian.{rounds}

-- The places of a round, and of its mirror image, in an array at `base`.
pub mirror-IsApart :
    (base n : ℕ) → IsApart (rounds n) (λ i. base + (i + 1)) (λ i. base + (n - (i + 1)))
mirror-IsApart base n = record {
  first = λ i j lt lt' ne e. absurd (ne (omega arith));
  second = λ i j lt lt' ne e. absurd (ne (omega arith));
  across = λ i j lt lt' e. absurd (omega (arith, lt, lt', e));
}

-- A store at the start, the rounds in pairs, and, for even `n`, a store in the middle.
pub record IsSwept {A : Type 0} (base n : ℕ) (v0 vk : A) (f g : ℕ → A) (new : Buffer A)
    : Type 0 where
  pub first : new base ≡ v0
  pub lower : (k : ℕ) → 0 < k → 2 * k < n → new (base + k) ≡ f (k - 1)
  pub upper : (k : ℕ) → 0 < k → 2 * k < n → new (base + (n - k)) ≡ g (k - 1)
  pub middle : (k : ℕ) → 0 < k → 2 * k ≡ n → new (base + k) ≡ vk

module _ {A : Type 0} (base n : ℕ) (v0 vk : A) (f g : ℕ → A) (mem : Buffer A) where
  abbrev near : ℕ → ℕ
  near i = base + (i + 1)

  abbrev far : ℕ → ℕ
  far i = base + (n - (i + 1))

  abbrev looped : Buffer A
  looped = loop_below (rounds n) (pair near far f g (store mem base v0)) (store mem base v0)

  abbrev pub sweep : Buffer A
  sweep = if 2 * (rounds n + 1) == n then store looped (base + (rounds n + 1)) vk else looped

  paired : IsPaired (rounds n) near far f g (store mem base v0) looped
  paired = pairs-IsPaired near far f g (store mem base v0) (rounds n) (mirror-IsApart base n)

  -- The last store leaves every other place alone.
  before_last : (j : ℕ) → (2 * (rounds n + 1) ≡ n → j ≢ base + (rounds n + 1)) → sweep j ≡ looped j
  before_last j away = elim (Bool-cases (2 * (rounds n + 1) == n)) [
    | inl even ↦ rw even (store_other looped (base + (rounds n + 1)) vk j (away (==→≡ _ _ even)))
    | inr odd ↦ rw odd
  ]

  last_now : 2 * (rounds n + 1) ≡ n → sweep (base + (rounds n + 1)) ≡ vk
  last_now e =
      let even : (2 * (rounds n + 1) == n) ≡ true = ground arith in
      rw even (store_same looped (base + (rounds n + 1)) vk)

  place : (k : ℕ) → 0 < k → 2 * k < n → (near (k - 1) ≡ base + k) × (far (k - 1) ≡ base + (n - k))
  place k lo hi = omega arith

  pub sweep-IsSwept : 0 < n → IsSwept base n v0 vk f g sweep
  sweep-IsSwept h = record {
    first =
        before_last base (λ e f. absurd (omega arith))
        ∙ paired.elsewhere base (λ i lt. (λ e. absurd (omega arith), λ e. absurd (omega arith)))
        ∙ store_same mem base v0;
    lower = λ k lo hi.
        before_last (base + k) (λ e f. absurd (omega arith))
        ∙ ap looped (sym (place k lo hi).0)
        ∙ paired.at_first (k - 1) (omega arith);
    upper = λ k lo hi.
        before_last (base + (n - k)) (λ e f. absurd (omega arith))
        ∙ ap looped (sym (place k lo hi).1)
        ∙ paired.at_second (k - 1) (omega arith);
    middle = λ k lo e. ap sweep (omega arith) ∙ last_now (omega arith);
  }
