-- ===== src/Mp/Fft/Laws.antt =====
-- What Bluestein's algorithm of libbench/mp.c keeps from call to call, and the loops on the bits of an
-- exponent and on the powers of two.
use mathlib.Core.Path.{subst}
use native.Mathlib.Nat.{pow-suc, mul_assoc}
use bench_fft.Base.{
  ℕ, zero, suc, ◌*◌, ◌/◌, ◌%◌, ◌^◌, ◌≤◌, ltb, ◌==◌, true, false, Bool-cases, Option, none, some,
  Buffer, ◌≡◌, ◌⊎◌, inl, inr, refl, sym, ap, ap₂, ◌∙◌, arith, if◌then◌else◌,
}
use bench_fft.Base.Int.{ℤ, eqb_ℤ}
use bench_fft.Base.Int.ℤ.{pos, negsuc}
use bench_fft.Base.Options.{◌>>=◌, IfSome, IfSome-bind}
use bench_fft.Mp.{Number}
use bench_fft.Mp.Bluestein.{pow2_atleast}
use bench_fft.Mp.Fft.{
  power_loop, doublings, Kept, prepare, convolve, bluestein, bluestein_sequence, fft0, wrap,
}

-- Any two fuels that cover the exponent agree in `power_loop`, so that the exponent itself is enough.
pub power_loop_stable :
    (times : Number × Number → Number × Number → Number × Number) (w : ℕ → Number × Number)
    (f g k m : ℕ) (z : Number × Number)
    → m ≤ f
    → m ≤ g
    → power_loop times w f k m z ≡ power_loop times w g k m z
unfolding power_loop
power_loop_stable times w zero zero k m z p q = refl
power_loop_stable times w zero (suc g) k m z p q =
    let e : (m == 0) ≡ true = ground arith in rw (e, power_loop) refl
power_loop_stable times w (suc f) zero k m z p q =
    let e : (m == 0) ≡ true = ground arith in rw (e, power_loop) refl
power_loop_stable times w (suc f) (suc g) k m z p q = elim (Bool-cases (m == 0)) [
  | inl e ↦ rw (e, power_loop) refl
  | inr e ↦
      rw (e, power_loop)
        (power_loop_stable times w f g (suc k) (m / 2) (if m % 2 == 1 then times (w k) z else z)
          (ground arith) (ground arith))
]

twice : (i fuel n : ℕ) → n ≤ i * 2 ^ suc fuel → n ≤ 2 * i * 2 ^ fuel
twice i fuel n le =
    let doubled : i * 2 ^ suc fuel ≡ i * (2 ^ fuel * 2) =
      ap (λ (p : ℕ). i * p) {x = 2 ^ suc fuel} (pow-suc 2 fuel) in
    omega (arith, le, doubled, mul_assoc i (2 ^ fuel) 2, mul_assoc 2 i (2 ^ fuel))

-- The loop `for (i = 1; i < n; i = 2 * i)` ends: fuel of one round more than the doublings that reach
-- `n` gives a result.
pub doublings-returns {ℓ} :
    {S : Type ℓ} (n : ℕ) (body : ℕ → S → S) (fuel i : ℕ) (s : S)
    → n ≤ i * 2 ^ fuel
    → (r : S) × (doublings n body (suc fuel) i s ≡ some r)
unfolding doublings
doublings-returns n body zero i s le =
    let e : ltb i n ≡ false = ground arith in (s, rw (e, doublings) refl)
doublings-returns n body (suc fuel) i s le = elim (Bool-cases (ltb i n)) [
  | inl e ↦ rw (e, doublings) (doublings-returns n body fuel (2 * i) (body i s) (twice i fuel n le))
  | inr e ↦ (s, rw (e, doublings) refl)
]

some_injective : (a b : ℕ) → some a ≡ some b → a ≡ b
some_injective a b e = ap value e
  where
    value : Option ℕ → ℕ
    value none = a
    value (some x) = x

module _ (roots : ℕ → ℕ → Number × Number) (inverse : ℕ → Number) (fresh : Buffer Number) where
  -- The cache holds the arrays of the size it names.
  pub record IsFilled (c : Kept) : Type 0 where
    pub size : ℕ
    pub nb : ℕ
    pub long : pow2_atleast (2 * size) ≡ some nb
    pub named : c.n ≡ pos size
    pub made : prepare roots fresh size nb ≡ some c

  -- The cache is empty, or holds the arrays of the size it names.
  abbrev pub IsCurrent : Kept → Type 0
  IsCurrent c = (c.n ≡ negsuc 0) ⊎ IsFilled c

  prepare-n : (n nb : ℕ) → IfSome (λ (c : Kept). c.n ≡ pos n) (prepare roots fresh n nb)
  unfolding prepare
  prepare-n n nb =
      IfSome-bind named (bluestein_sequence roots n fresh)
        (λ w. fft0 roots nb (wrap n nb w fresh) (negsuc 0) >>= λ y. arrays w y)
        λ w.
          IfSome-bind named (fft0 roots nb (wrap n nb w fresh) (negsuc 0)) (λ y. arrays w y)
            λ y. refl
    where
      named : Kept → Type 0
      named c = c.n ≡ pos n

      arrays : Buffer Number → Buffer Number → Option Kept
      arrays w y = some (record { n = pos n; w = w; y = y })

  new_cache :
      (n nb : ℕ)
      → pow2_atleast (2 * n) ≡ some nb
      → (o : Option Kept) → prepare roots fresh n nb ≡ o
      → IfSome (λ (c : Kept). c.n ≡ pos n) o
      → IfSome IsCurrent o
  new_cache n nb long none e h = tt
  new_cache n nb long (some c) e h =
      inr (record { size = n; nb = nb; long = long; named = h; made = e })

  -- Arrays that a call finds for its size are those that it would make.
  found :
      (n nb : ℕ) (c : Kept)
      → pow2_atleast (2 * n) ≡ some nb
      → IsCurrent c
      → eqb_ℤ c.n (pos n) ≡ true
      → some c ≡ prepare roots fresh n nb
  found n nb c long (inl empty) e =
      let e' : eqb_ℤ (negsuc 0) (pos n) ≡ true =
        subst (λ (k : ℤ). eqb_ℤ k (pos n) ≡ true) empty e in
      absurd (ground arith)
  found n nb c long (inr f) e =
      let e' : eqb_ℤ (pos f.size) (pos n) ≡ true =
        subst (λ (k : ℤ). eqb_ℤ k (pos n) ≡ true) f.named e in
      let size : f.size ≡ n = ground arith in
      let length : f.nb ≡ nb =
        some_injective f.nb nb (sym f.long ∙ ap (λ (k : ℕ). pow2_atleast (2 * k)) size ∙ long) in
      sym f.made ∙ ap₂ (λ (k m : ℕ). prepare roots fresh k m) size length

  same_arrays :
      (n nb : ℕ) (c : Kept)
      → pow2_atleast (2 * n) ≡ some nb
      → IsCurrent c
      → (if eqb_ℤ c.n (pos n) then some c else prepare roots fresh n nb) ≡ prepare roots fresh n nb
  same_arrays n nb c long h = elim (Bool-cases (eqb_ℤ c.n (pos n))) [
    | inl e ↦ rw e (found n nb c long h e)
    | inr e ↦ rw e refl
  ]

  -- The rest of a call, from the arrays on.
  abbrev from_arrays : ℕ → Buffer Number → ℕ → Option Kept → Option (Kept × Buffer Number)
  from_arrays n a nb arrays =
      arrays >>= λ c. convolve roots fresh n nb (inverse nb) c a >>= λ out. some (c, out)

  abbrev arrays_for : ℕ → Kept → ℕ → Option Kept
  arrays_for n c nb = if eqb_ℤ c.n (pos n) then some c else prepare roots fresh n nb

  kept_arrays :
      (n nb : ℕ) (c : Kept)
      → pow2_atleast (2 * n) ≡ some nb
      → IsCurrent c
      → IfSome IsCurrent (arrays_for n c nb)
  kept_arrays n nb c long h =
      subst (IfSome IsCurrent) (sym (same_arrays n nb c long h))
        (new_cache n nb long (prepare roots fresh n nb) refl (prepare-n n nb))

  abbrev pub AfterCall : Option (Kept × Buffer Number) → Type 0
  AfterCall = IfSome (λ (r : Kept × Buffer Number). IsCurrent r.0)

  after_convolve :
      (n nb : ℕ) (a : Buffer Number) (arrays : Option Kept)
      → IfSome IsCurrent arrays
      → AfterCall (from_arrays n a nb arrays)
  after_convolve n nb a none h = tt
  after_convolve n nb a (some c) h =
      IfSome-bind (λ (r : Kept × Buffer Number). IsCurrent r.0)
        (convolve roots fresh n nb (inverse nb) c a) (λ out. some (c, out)) λ out. h

  with_length :
      (n : ℕ) (a : Buffer Number) (c d : Kept) (o : Option ℕ)
      → pow2_atleast (2 * n) ≡ o
      → IsCurrent c
      → IsCurrent d
      → ((o >>= λ nb. from_arrays n a nb (arrays_for n c nb))
          ≡ (o >>= λ nb. from_arrays n a nb (arrays_for n d nb)))
        × AfterCall (o >>= λ nb. from_arrays n a nb (arrays_for n c nb))
  with_length n a c d none long hc hd = (refl, tt)
  with_length n a c d (some nb) long hc hd = (
    ap (from_arrays n a nb) (same_arrays n nb c long hc ∙ sym (same_arrays n nb d long hd)),
    after_convolve n nb a (arrays_for n c nb) (kept_arrays n nb c long hc),
  )

  -- A call of `bluestein` gives the same transform and the same new cache for any two caches that are
  -- current, the empty one among them, so that no call depends on the calls before it; and if the call
  -- returns, then the new cache is current.
  pub bluestein-IsCurrent :
      (n : ℕ) (a : Buffer Number) (c d : Kept)
      → IsCurrent c
      → IsCurrent d
      → (bluestein roots inverse fresh n c a ≡ bluestein roots inverse fresh n d a)
        × AfterCall (bluestein roots inverse fresh n c a)
  unfolding bluestein
  bluestein-IsCurrent n a c d hc hd = with_length n a c d (pow2_atleast (2 * n)) refl hc hd
