-- ===== src/Mp/Fft/Permutation.antt =====
-- `bitrev` of libbench/mp.c puts the elements of an array in the order of the reversed digits of their numbers.
use mathlib.Core.Path.{subst}
use bench_fft.Base.{
  ℕ, suc, ◌+◌, ◌-◌, ◌*◌, ◌^◌, ◌<◌, ◌≤◌, ltb, ◌==◌, ==→≡, if◌then◌else◌, Bool-cases, Buffer, store,
  store_same, store_other, ◌≡◌, ◌≢◌, ◌⊎◌, inl, inr, refl, sym, ap, ap₂, ◌∙◌, arith,
}
use bench_fft.Base.Options.{IsSome, IsSome-bind, IsSome-loop}
use bench_fft.Mp.{Number}
use bench_fft.Mp.Fft.{pair_at, store_pair, swap_pairs, bitrev_round, bitrev, next_reversed}
use bench_fft.Mp.Fft.Reversal.{reversed, reversed-zero, reversed-lt, next_reversed-reversed}
use bench_fft.Mp.Fft.Involution.{reversed_twice}

stored_here : (b : Buffer Number) (k : ℕ) (v : Number × Number) → pair_at (store_pair b k v) k ≡ v
stored_here b k v =
    ap₂ (λ (r i : Number). (r, i))
      (store_other (store b (2 * k) v.0) (2 * k + 1) v.1 (2 * k) (λ e. absurd (omega arith))
        ∙ store_same b (2 * k) v.0)
      (store_same (store b (2 * k) v.0) (2 * k + 1) v.1)

stored_elsewhere :
    (b : Buffer Number) (k : ℕ) (v : Number × Number) (p : ℕ)
    → p ≢ k
    → pair_at (store_pair b k v) p ≡ pair_at b p
stored_elsewhere b k v p ne =
    ap₂ (λ (r i : Number). (r, i))
      (untouched (2 * p) (λ e. ne (omega arith)) (λ e. absurd (omega arith)))
      (untouched (2 * p + 1) (λ e. absurd (omega arith)) (λ e. ne (omega arith)))
  where
    untouched : (j : ℕ) → j ≢ 2 * k → j ≢ 2 * k + 1 → store_pair b k v j ≡ b j
    untouched j h h' =
        store_other (store b (2 * k) v.0) (2 * k + 1) v.1 j h' ∙ store_other b (2 * k) v.0 j h

module _ (b : Buffer Number) (i j : ℕ) where
  swapped_first : i ≢ j → pair_at (swap_pairs b i j) i ≡ pair_at b j
  swapped_first ne =
      stored_elsewhere (store_pair b i (pair_at b j)) j (pair_at b i) i ne
      ∙ stored_here b i (pair_at b j)

  swapped_second : pair_at (swap_pairs b i j) j ≡ pair_at b i
  swapped_second = stored_here (store_pair b i (pair_at b j)) j (pair_at b i)

  not_swapped : (p : ℕ) → p ≢ i → p ≢ j → pair_at (swap_pairs b i j) p ≡ pair_at b p
  not_swapped p ne ne' =
      stored_elsewhere (store_pair b i (pair_at b j)) j (pair_at b i) p ne'
      ∙ stored_elsewhere b i (pair_at b j) p ne

-- After `i` rounds: an element is in place if its number, or the reversed one, is below `i`.
record IsReversing (k : ℕ) (old : Buffer Number) (i : ℕ) (b : Buffer Number) : Type 0 where
  done :
      (p : ℕ) → p < 2 ^ k → (p < i) ⊎ (reversed k p < i) → pair_at b p ≡ pair_at old (reversed k p)
  todo : (p : ℕ) → p < 2 ^ k → i ≤ p → i ≤ reversed k p → pair_at b p ≡ pair_at old p
  rest : (p : ℕ) → 2 ^ k ≤ p → pair_at b p ≡ pair_at old p

mirrored : (k p i : ℕ) → p < 2 ^ k → reversed k p ≡ i → p ≡ reversed k i
mirrored k p i lt e = sym (reversed_twice k p lt) ∙ ap (reversed k) e

module _ (k : ℕ) (old : Buffer Number) (i : ℕ) (b : Buffer Number) (lt : i < 2 ^ k)
    (h : IsReversing k old i b) where
  exchange : i < reversed k i → IsReversing k old (suc i) (swap_pairs b i (reversed k i))
  exchange up =
      let j = reversed k i in
      let back : reversed k j ≡ i = reversed_twice k i lt in
      record {
        done = λ p small below. elim (Bool-cases (p == i)) [
          | inl here ↦
              subst (λ (q : ℕ). pair_at (swap_pairs b i j) q ≡ pair_at old (reversed k q))
                (sym (==→≡ p i here))
                (swapped_first b i j (λ e. absurd (omega arith))
                  ∙ h.todo j (reversed-lt k i) (omega arith) (omega (arith, back)))
          | inr other ↦ elim (Bool-cases (p == j)) [
            | inl there ↦
                subst (λ (q : ℕ). pair_at (swap_pairs b i j) q ≡ pair_at old (reversed k q))
                  (sym (==→≡ p j there))
                  (swapped_second b i j
                    ∙ h.todo i lt (omega arith) (omega arith)
                    ∙ ap (pair_at old) (sym back))
            | inr apart ↦
                not_swapped b i j p (λ e. ground arith) (λ e. ground arith)
                ∙ h.done p small (ground (arith, below, mirrored k p i small))
          ]
        ];
        todo = λ p small le le'.
            not_swapped b i j p (λ e. absurd (omega arith))
              (λ e. absurd (omega (arith, ap (reversed k) e, back)))
            ∙ h.todo p small (omega arith) (omega arith);
        rest = λ p big.
            not_swapped b i j p (λ e. absurd (omega arith))
              (λ e. absurd (omega (arith, reversed-lt k i)))
            ∙ h.rest p big;
      }

  stay : reversed k i ≤ i → IsReversing k old (suc i) b
  stay down = record {
    done = λ p small below. elim (Bool-cases (p == i)) [
      | inl here ↦ elim (Bool-cases (reversed k p == p)) [
        | inl same ↦
            h.todo p small (ground arith) (ground arith)
            ∙ ap (pair_at old) (sym (==→≡ (reversed k p) p same))
        | inr differs ↦ h.done p small (inr (ground (arith, ap (reversed k) (==→≡ p i here))))
      ]
      | inr other ↦ h.done p small (ground (arith, below, mirrored k p i small))
    ];
    todo = λ p small le le'. h.todo p small (omega arith) (omega arith);
    rest = h.rest;
  }

one_round :
    (k : ℕ) (old : Buffer Number) (i : ℕ) (b : Buffer Number)
    → i < 2 ^ k
    → IsReversing k old i b
    → IsReversing k old (suc i) (if ltb i (reversed k i) then swap_pairs b i (reversed k i) else b)
one_round k old i b lt h = elim (Bool-cases (ltb i (reversed k i))) [
  | inl up ↦ rw up (exchange k old i b lt h (ground arith))
  | inr down ↦ rw down (stay k old i b lt h (ground arith))
]

-- The counter, and the array, after `i` rounds.
abbrev AfterRounds : ℕ → Buffer Number → ℕ → ℕ × Buffer Number → Type 0
AfterRounds k old i st = (st.0 ≡ reversed k i) × IsReversing k old i st.1

bitrev_round-AfterRounds :
    (k i : ℕ) (old : Buffer Number) (st : ℕ × Buffer Number)
    → k ≤ 31
    → suc i < 2 ^ k
    → AfterRounds k old i st
    → IsSome (AfterRounds k old (suc i)) (bitrev_round (2 ^ k) i st)
unfolding bitrev_round
bitrev_round-AfterRounds k i old (j, b) le lt h =
    IsSome-bind
      (record {
        value = reversed k (suc i);
        returned =
            ap (next_reversed 32 (2 ^ k)) h.0 ∙ next_reversed-reversed 32 k i (omega arith) lt;
        holds = refl;
      })
      λ (j' : ℕ) (e : j' ≡ reversed k (suc i)). record {
        value = _;
        returned = refl;
        holds = (
          e,
          subst (λ (m : ℕ). IsReversing k old (suc i) (if ltb i m then swap_pairs b i m else b))
              (sym h.0) (one_round k old i b (omega arith) h.1),
        );
      }

starts : (k : ℕ) (a : Buffer Number) → AfterRounds k a 0 (0, a)
starts k a = (
  sym (reversed-zero k),
  record {
    done = λ p small below. absurd (ground (arith, below));
    todo = λ p small le le'. refl;
    rest = λ p big. refl;
  },
)

-- The element `p` of the new array is the one of the old array whose number has the digits of `p` in
-- the reverse order; beyond the `2 ^ k` elements the array is as it was.
pub record IsReversed (k : ℕ) (old new : Buffer Number) : Type 0 where
  pub inside : (p : ℕ) → p < 2 ^ k → pair_at new p ≡ pair_at old (reversed k p)
  pub outside : (p : ℕ) → 2 ^ k ≤ p → pair_at new p ≡ pair_at old p

all_rounds : (k : ℕ) (old b : Buffer Number) → IsReversing k old (2 ^ k - 1) b → IsReversed k old b
all_rounds k old b h = record {
  inside = λ p small. elim (Bool-cases (ltb p (2 ^ k - 1))) [
    | inl before ↦ h.done p small (inl (ground arith))
    | inr last ↦ elim (Bool-cases (ltb (reversed k p) (2 ^ k - 1))) [
      | inl before ↦ h.done p small (inr (ground arith))
      | inr last' ↦
          h.todo p small (ground arith) (ground arith)
          ∙ ap (pair_at old) {x = p} {y = reversed k p} (ground (arith, reversed-lt k p))
    ]
  ];
  outside = h.rest;
}

-- `bitrev` of an array of 2^k elements, for k at most 31, returns, puts each element at the place whose
-- number has its digits in the reverse order, and leaves what follows the array alone.
pub bitrev-IsReversed :
    (k : ℕ) (a : Buffer Number) → k ≤ 31 → IsSome (IsReversed k a) (bitrev (2 ^ k) a)
unfolding bitrev
bitrev-IsReversed k a le =
    IsSome-bind
      (IsSome-loop (AfterRounds k a) (2 ^ k - 1) (bitrev_round (2 ^ k)) (0, a)
        (λ i st lt h. bitrev_round-AfterRounds k i a st le (omega arith) h) (starts k a))
      λ (st : ℕ × Buffer Number) h. record {
        value = st.1;
        returned = refl;
        holds = all_rounds k a st.1 h.1;
      }
