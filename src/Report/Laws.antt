-- ===== src/Report/Laws.antt =====
-- What the statistics are.
use bench_fft.Base.{
  ℕ, zero, suc, ◌+◌, ◌-◌, ◌/◌, ◌<◌, ◌≡◌, ◌⊎◌, refl, sym, ap, ◌∙◌, arith, inl, inr, Bool, true,
  false, Bool-cases, ◌==◌, ==→≡, Buffer, store, loop_below, loop_below_inv, fun_ext, if◌then◌else◌,
}
use bench_fft.Base.Real.{Real}
use bench_fft.Report.{Stats, scan_times, exchange, bubble, mkstat}

-- `<` on floating-point numbers: strict, and transitive, also where a NaN takes part.
pub record IsStrict {R : Type 0} (r : Real R) : Type 0 where
  pub irreflexive : (x : R) → r.lt x x ≡ false
  pub transitive : (x y z : R) → r.lt x y ≡ true → r.lt y z ≡ true → r.lt x z ≡ true

-- Replacing the best value so far by a better one.
module _ {R : Type 0} (less : R → R → Bool) (irreflexive : (x : R) → less x x ≡ false)
    (transitive : (x y z : R) → less x y ≡ true → less y z ≡ true → less x z ≡ true) (t : Buffer R)
    (i : ℕ) (best : R) where
  abbrev better : R
  better = if less (t i) best then t i else best

  still_best :
      ((j : ℕ) → j < i → less (t j) best ≡ false) → (j : ℕ) → j < suc i → less (t j) better ≡ false
  still_best h j lt = elim (Bool-cases (less (t i) best)) [
    | inl change ↦ rw change (elim (Bool-cases (j == i)) [
      | inl now ↦ rw (==→≡ j i now) (irreflexive (t i))
      | inr before ↦ elim (Bool-cases (less (t j) (t i))) [
        | inl more ↦
            absurd (cc (sym (transitive (t j) (t i) best more change) ∙ h j (ground arith)))
        | inr no_more ↦ no_more
      ]
    ])
    | inr keep ↦ rw keep (elim (Bool-cases (j == i)) [
      | inl now ↦ rw (==→≡ j i now) keep
      | inr before ↦ h j (ground arith)
    ])
  ]

  still_taken :
      ((j : ℕ) × (best ≡ t j) × ((j ≡ 0) ⊎ (j < i)))
      → (j : ℕ) × (better ≡ t j) × ((j ≡ 0) ⊎ (j < suc i))
  still_taken (j, e, place) = elim (Bool-cases (less (t i) best)) [
    | inl change ↦ (i, rw change, inr (omega arith))
    | inr keep ↦ (j, rw keep e, ground arith)
  ]

module _ {R : Type 0} ⦃r : Real R⦄ where
  stored_back : (t : Buffer R) (j k : ℕ) → store (store t j (t j)) (j + 1) (t (j + 1)) k ≡ t k
  stored_back t j k = elim (Bool-cases (k == j + 1)) [
    | inl second ↦ rw second (ap t (sym (==→≡ k (j + 1) second)))
    | inr not_second ↦ elim (Bool-cases (k == j)) [
      | inl first ↦ rw (not_second, first) (ap t (sym (==→≡ k j first)))
      | inr neither ↦ rw (not_second, neither)
    ]
  ]

  exchange_idle : (j : ℕ) (t : Buffer R) → exchange j t ≡ t
  unfolding exchange
  exchange_idle j t = elim (Bool-cases (r.lt (t (j + 1)) (t j))) [
    | inl more ↦ rw more (fun_ext (stored_back t j))
    | inr ordered ↦ rw ordered
  ]

  loop_idle :
      (n : ℕ) (body : ℕ → Buffer R → Buffer R) (t : Buffer R)
      → ((i : ℕ) (u : Buffer R) → body i u ≡ u)
      → loop_below n body t ≡ t
  unfolding loop_below
  loop_idle zero body t idle = refl
  loop_idle (suc n) body t idle = idle n (loop_below n body t) ∙ loop_idle n body t idle

  -- The loops that are to sort the measurements for the median leave them as they are: each
  -- exchange stores both values back where they came from. So the `median` that `mkstat` reports is
  -- the measurement in the middle of the order in which they were taken.
  pub mkstat-unsorted :
      (t : Buffer R) (st : ℕ) → ((mkstat t st).0 ≡ t) × ((mkstat t st).1.median ≡ t (st / 2))
  unfolding mkstat bubble
  mkstat-unsorted t st =
      let idle =
        loop_idle (st - 2) (λ m u. loop_below (st - 1 - m - 1) exchange u) t
          λ m u. loop_idle (st - 1 - m - 1) exchange u exchange_idle in
      (idle, ap (λ (u : Buffer R). u (st / 2)) idle)

  -- No measurement is below the minimum or above the maximum, and both are measurements.
  pub record IsRange (t : Buffer R) (n : ℕ) (a : Stats R) : Type 0 where
    pub least : (i : ℕ) → i < n → r.lt (t i) a.min ≡ false
    pub greatest : (i : ℕ) → i < n → r.lt a.max (t i) ≡ false
    pub min_taken : (i : ℕ) × (a.min ≡ t i) × (i < n)
    pub max_taken : (i : ℕ) × (a.max ≡ t i) × (i < n)

  -- The same after `n` rounds of the loop, which starts from the first measurement.
  record RangeSoFar (t : Buffer R) (n : ℕ) (a : Stats R) : Type 0 where
    least : (i : ℕ) → i < n → r.lt (t i) a.min ≡ false
    greatest : (i : ℕ) → i < n → r.lt a.max (t i) ≡ false
    min_taken : (i : ℕ) × (a.min ≡ t i) × ((i ≡ 0) ⊎ (i < n))
    max_taken : (i : ℕ) × (a.max ≡ t i) × ((i ≡ 0) ⊎ (i < n))

  -- For at least one measurement and a strict, transitive `<`, the `min` and `max` of `mkstat` are
  -- measurements, and none of the measurements is below the one or above the other.
  pub mkstat-IsRange : (t : Buffer R) (st : ℕ) → IsStrict r → 0 < st → IsRange t st (mkstat t st).1
  unfolding mkstat scan_times
  mkstat-IsRange t st strict h =
      let range =
        loop_below_inv (RangeSoFar t) st
          (λ i (a : Stats R). record {
            min = if r.lt (t i) a.min then t i else a.min;
            max = if r.lt a.max (t i) then t i else a.max;
            avg = r.add a.avg (t i);
            median = a.median;
          })
          (record { min = t 0; max = t 0; avg = r.zero; median = t 0 })
          (λ i a lt range. record {
            least = still_best r.lt strict.irreflexive strict.transitive t i a.min range.least;
            greatest =
                still_best (λ x y. r.lt y x) strict.irreflexive
                  (λ x y z h k. strict.transitive z y x k h) t i a.max range.greatest;
            min_taken =
                still_taken r.lt strict.irreflexive strict.transitive t i a.min range.min_taken;
            max_taken =
                still_taken (λ x y. r.lt y x) strict.irreflexive
                  (λ x y z h k. strict.transitive z y x k h) t i a.max range.max_taken;
          })
          (record {
            least = λ i lt. absurd (omega arith);
            greatest = λ i lt. absurd (omega arith);
            min_taken = (0, refl, inl refl);
            max_taken = (0, refl, inl refl);
          }) in
      record {
        least = range.least;
        greatest = range.greatest;
        min_taken = taken range.min_taken;
        max_taken = taken range.max_taken;
      }
    where
      taken : {x : R} → (i : ℕ) × (x ≡ t i) × ((i ≡ 0) ⊎ (i < st)) → (i : ℕ) × (x ≡ t i) × (i < st)
      taken (i, e, place) = (i, e, ground arith)
