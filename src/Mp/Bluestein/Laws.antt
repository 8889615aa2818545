-- ===== src/Mp/Bluestein/Laws.antt =====
-- What the helpers of Bluestein's algorithm compute.
use native.Mathlib.Nat.{pow-suc, add-mul, mul-add, mul_comm, mul_assoc, add-mul-mod_self_left}
use bench_fft.Base.{
  ◌/◌, ℕ, zero, suc, ◌+◌, ◌-◌, ◌*◌, ◌%◌, ◌^◌, ◌<◌, ◌≤◌, ◌≡◌, ◌⊎◌, inl, inr, refl, sym, ap, ◌∙◌,
  arith, true, false, ltb, ◌==◌, Bool-cases, Option, some, Buffer, store, store_same, store_other,
  loop_below,
}
use bench_fft.Mp.{Number}
use bench_fft.Mp.Bluestein.{pow2_loop, pow2_atleast, reduce, ksq_after, swapri}

-- The least power of two that is at least `x`.
pub record IsLeastPower (x : ℕ) (o : Option ℕ) : Type 0 where
  pub h : ℕ
  pub exponent : ℕ
  pub returns : o ≡ some h
  pub power : h ≡ 2 ^ exponent
  pub enough : x ≤ h
  pub least : (h ≡ 1) ⊎ (h < 2 * x)

found :
    (fuel k h x : ℕ)
    → h ≡ 2 ^ k
    → x ≤ h
    → (h ≡ 1) ⊎ (h < 2 * x)
    → IsLeastPower x (pow2_loop (suc fuel) h x)
unfolding pow2_loop
found fuel k h x e enough least =
    let stop : ltb h x ≡ false = ground arith in
    rw stop
      (record { h = h; exponent = k; returns = refl; power = e; enough = enough; least = least })

more_rounds :
    (fuel h x : ℕ)
    → ltb h x ≡ true
    → IsLeastPower x (pow2_loop (suc fuel) (2 * h) x)
    → IsLeastPower x (pow2_loop (suc (suc fuel)) h x)
unfolding pow2_loop
more_rounds fuel h x more next = rw more next

pow2_loop-IsLeastPower :
    (fuel k h x : ℕ)
    → h ≡ 2 ^ k
    → x ≤ h * 2 ^ fuel
    → (h ≡ 1) ⊎ (h < 2 * x)
    → IsLeastPower x (pow2_loop (suc fuel) h x)
pow2_loop-IsLeastPower zero k h x e le least = found zero k h x e (omega arith) least
pow2_loop-IsLeastPower (suc fuel) k h x e le least = elim (Bool-cases (ltb h x)) [
  | inl more ↦
      let doubled : h * 2 ^ suc fuel ≡ 2 * h * 2 ^ fuel =
        ap (λ (y : ℕ). h * y) (pow-suc 2 fuel ∙ mul_comm (2 ^ fuel) 2)
        ∙ sym (mul_assoc h 2 (2 ^ fuel))
        ∙ ap (λ (y : ℕ). y * 2 ^ fuel) (mul_comm h 2) in
      more_rounds fuel h x more (
        pow2_loop-IsLeastPower fuel (suc k) (2 * h) x (omega (arith, pow-suc 2 k))
          (omega (arith, doubled)) (inr (ground arith)))
  | inr enough ↦ found (suc fuel) k h x e (ground arith) least
]

-- For an `int` argument of at most 2^30 the loop of `pow2_atleast` ends, with the least power of two
-- that is at least the argument: it is 1, or less than twice the argument.
pub pow2_atleast-IsLeastPower : (x : ℕ) → x ≤ 2 ^ 30 → IsLeastPower x (pow2_atleast x)
unfolding pow2_atleast
pow2_atleast-IsLeastPower x le = pow2_loop-IsLeastPower 31 0 1 x refl (omega arith) (inl refl)

reduce_once :
    (fuel n2 s : ℕ)
    → s ≤ n2 + n2
    → 0 < n2
    → (e : ℕ) × (q : ℕ) × (reduce (suc (suc fuel)) n2 s ≡ some e) × (e ≤ n2) × (s ≡ e + q * n2)
unfolding reduce
reduce_once fuel n2 s le h = elim (Bool-cases (ltb n2 s)) [
  | inl more ↦
      let stop : ltb n2 (s - n2) ≡ false = ground arith in
      (s - n2, 1, rw (more, stop), omega arith, ground arith)
  | inr fits ↦ (s, 0, rw fits, ground arith, omega arith)
]

-- The exponent of round `k`, the full square being some multiple of 2 n away.
record IsSquare (n k : ℕ) (o : Option ℕ) : Type 0 where
  exponent : ℕ
  turns : ℕ
  returns : o ≡ some exponent
  bounded : exponent ≤ 2 * n
  square : k * k ≡ exponent + turns * (2 * n)

ksq_step :
    (n k : ℕ)
    → suc k < n
    → IsSquare n k (ksq_after n (suc k))
    → IsSquare n (suc k) (ksq_after n (suc (suc k)))
unfolding ksq_after
ksq_step n k lt h =
    let s = h.exponent + 2 * suc k in
    let (e, q, returns, bounded, whole) =
      reduce_once (h.exponent + 2 * k) (2 * n) (s - 1) (omega (arith, h.bounded)) (omega arith) in
    rw h.returns (record {
      exponent = e;
      turns = q + h.turns;
      returns =
          ap (λ (fuel : ℕ). reduce fuel (2 * n) (s - 1)) {x = s}
            {y = suc (suc (h.exponent + 2 * k))} (omega arith)
          ∙ returns;
      bounded = bounded;
      square = omega (arith, h.square, whole, add-mul q h.turns (2 * n), suc_times_suc k);
    })
  where
    suc_times_suc : (k : ℕ) → suc k * suc k ≡ k * k + 2 * k + 1
    suc_times_suc k = omega (arith, add-mul k 1 (k + 1), mul-add k k 1)

ksq_base : (n : ℕ) → 0 < n → IsSquare n 0 (ksq_after n 1)
unfolding ksq_after reduce
ksq_base n h =
    let stop : ltb (2 * n) 0 ≡ false = ground arith in
    rw stop (record {
      exponent = 0;
      turns = 0;
      returns = refl;
      bounded = omega arith;
      square = omega arith;
    })

squares : (n k : ℕ) → k < n → IsSquare n k (ksq_after n (suc k))
squares n zero lt = ksq_base n lt
squares n (suc k) lt = ksq_step n k lt (squares n k (omega arith))

pub ksq_after-square :
    (n k : ℕ)
    → k < n
    → (e : ℕ) × (ksq_after n (suc k) ≡ some e) × (e ≤ 2 * n) × (e % (2 * n) ≡ (k * k) % (2 * n))
ksq_after-square n k lt =
    let s = squares n k lt in
    (
      s.exponent,
      s.returns,
      s.bounded,
      sym (
          ap (λ (x : ℕ). x % (2 * n))
            (s.square ∙ ap (λ (x : ℕ). s.exponent + x) (mul_comm s.turns (2 * n)))
          ∙ add-mul-mod_self_left s.exponent (2 * n) s.turns),
    )

-- What `n` rounds of `swapri` do.
pub record IsSwapped (n : ℕ) (old new : Buffer Number) : Type 0 where
  pub even : (i : ℕ) → i < n → new (2 * i) ≡ old (2 * i + 1)
  pub odd : (i : ℕ) → i < n → new (2 * i + 1) ≡ old (2 * i)
  pub rest : (j : ℕ) → 2 * n ≤ j → new j ≡ old j

swap_pair :
    (n : ℕ) (old b : Buffer Number)
    → IsSwapped n old b
    → IsSwapped (suc n) old (store (store b (2 * n) (b (2 * n + 1))) (2 * n + 1) (b (2 * n)))
swap_pair n old b h = record {
  even = λ i lt.
      store_other inner (2 * n + 1) (b (2 * n)) (2 * i) (λ e. absurd (omega arith))
      ∙ elim (Bool-cases (i == n)) [
        | inl now ↦
            ap inner {x = 2 * i} {y = 2 * n} (ground arith)
            ∙ store_same b (2 * n) (b (2 * n + 1))
            ∙ h.rest (2 * n + 1) (omega arith)
            ∙ ap old {x = 2 * n + 1} {y = 2 * i + 1} (ground arith)
        | inr before ↦
            store_other b (2 * n) (b (2 * n + 1)) (2 * i) (λ e. absurd (ground arith))
            ∙ h.even i (ground arith)
      ];
  odd = λ i lt. elim (Bool-cases (i == n)) [
    | inl now ↦
        ap whole {x = 2 * i + 1} {y = 2 * n + 1} (ground arith)
        ∙ store_same inner (2 * n + 1) (b (2 * n))
        ∙ h.rest (2 * n) (omega arith)
        ∙ ap old {x = 2 * n} {y = 2 * i} (ground arith)
    | inr before ↦
        store_other inner (2 * n + 1) (b (2 * n)) (2 * i + 1) (λ e. absurd (ground arith))
        ∙ store_other b (2 * n) (b (2 * n + 1)) (2 * i + 1) (λ e. absurd (omega arith))
        ∙ h.odd i (ground arith)
  ];
  rest = λ j le.
      store_other inner (2 * n + 1) (b (2 * n)) j (λ e. absurd (omega arith))
      ∙ store_other b (2 * n) (b (2 * n + 1)) j (λ e. absurd (omega arith))
      ∙ h.rest j (omega arith);
}
  where
    inner : Buffer Number
    inner = store b (2 * n) (b (2 * n + 1))

    whole : Buffer Number
    whole = store inner (2 * n + 1) (b (2 * n))

-- `swapri` exchanges the real and imaginary part of each of the first `n` elements of an array and
-- leaves the rest alone.
swapri-IsSwapped : (n : ℕ) (a : Buffer Number) → IsSwapped n a (swapri n a)
unfolding swapri loop_below
swapri-IsSwapped zero a = record {
  even = λ i lt. absurd (omega arith);
  odd = λ i lt. absurd (omega arith);
  rest = λ j le. refl;
}
swapri-IsSwapped (suc n) a = swap_pair n a (swapri n a) (swapri-IsSwapped n a)

-- Two calls of `swapri` with the same count, which is what `fft1` makes around `bluestein` for the
-- sign 1, give every element of the array back.
pub swapri_twice : (n : ℕ) (a : Buffer Number) (j : ℕ) → swapri n (swapri n a) j ≡ a j
swapri_twice n a j = elim (Bool-cases (ltb j (2 * n))) [
  | inl inside ↦ elim (Bool-cases (j % 2 == 0)) [
    | inl even ↦
        ap (swapri n (swapri n a)) {x = j} {y = 2 * (j / 2)} (ground arith)
        ∙ second.even (j / 2) (ground arith)
        ∙ first.odd (j / 2) (ground arith)
        ∙ ap a {x = 2 * (j / 2)} {y = j} (ground arith)
    | inr odd ↦
        ap (swapri n (swapri n a)) {x = j} {y = 2 * (j / 2) + 1} (ground arith)
        ∙ second.odd (j / 2) (ground arith)
        ∙ first.even (j / 2) (ground arith)
        ∙ ap a {x = 2 * (j / 2) + 1} {y = j} (ground arith)
  ]
  | inr outside ↦ second.rest j (ground arith) ∙ first.rest j (ground arith)
]
  where
    first : IsSwapped n a (swapri n a)
    first = swapri-IsSwapped n a

    second : IsSwapped n (swapri n a) (swapri n (swapri n a))
    second = swapri-IsSwapped n (swapri n a)
