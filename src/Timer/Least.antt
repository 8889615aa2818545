-- ===== src/Timer/Least.antt =====
-- The least of several times: what replacing the best one so far by a better one comes to.
use bench_fft.Base.{
  ◌≡◌, ◌⊎◌, inl, inr, refl, sym, ◌∙◌, arith, Bool, true, false, Bool-cases, if◌then◌else◌, List, [],
  ◌∷◌, some,
}
use bench_fft.Base.Real.{Real}
use bench_fft.Report.Laws.{IsStrict}
use bench_fft.Timer.Speed.{least}

abbrev pub All : {R : Type 0} → (R → Type 0) → List R → Type 0
All P [] = Unit {0}
All P (y ∷ t) = P y × All P t

module _ {R : Type 0} ⦃r : Real R⦄ where
  -- No time is negative, and none is below the least one.
  abbrev pub IsLeast : R → List R → Type 0
  IsLeast m t = All (λ y. (r.lt y r.zero ≡ false) × (r.lt y m ≡ false)) t

  pub record Chosen (h m : R) (t : List R) : Type 0 where
    pub below : IsLeast m t
    pub from : (m ≡ h) ⊎ (r.lt m h ≡ true)

  -- A number is not below one that is the same or smaller.
  pub not_below : (strict : IsStrict r) (y m : R) → (m ≡ y) ⊎ (r.lt m y ≡ true) → r.lt y m ≡ false
  not_below strict y m (inl same) = rw same (strict.irreflexive y)
  not_below strict y m (inr smaller) = elim (Bool-cases (r.lt y m)) [
    | inl larger ↦ absurd (cc (sym (strict.transitive y m y larger smaller) ∙ strict.irreflexive y))
    | inr fits ↦ fits
  ]

  pub not_longer :
      (strict : IsStrict r) (h m y : R)
      → r.lt y h ≡ false
      → (m ≡ h) ⊎ (r.lt m h ≡ true)
      → r.lt y m ≡ false
  not_longer strict h m y longer (inl same) = rw same longer
  not_longer strict h m y longer (inr smaller) = elim (Bool-cases (r.lt y m)) [
    | inl below ↦ absurd (cc (sym (strict.transitive y m h below smaller) ∙ longer))
    | inr fits ↦ fits
  ]

  -- With another time in front.
  first-Chosen :
      (strict : IsStrict r) (h m y : R) (t : List R)
      → r.lt y r.zero ≡ false
      → (r.lt y h ≡ true) ⊎ (r.lt y h ≡ false)
      → Chosen (if r.lt y h then y else h) m t
      → Chosen h m (y ∷ t)
  first-Chosen strict h m y t nonneg (inl shorter) c =
      let origin : (m ≡ y) ⊎ (r.lt m y ≡ true) = rw shorter at c.from in
      record {
        below = ((nonneg, not_below strict y m origin), c.below);
        from = inr (smaller origin);
      }
    where
      smaller : (m ≡ y) ⊎ (r.lt m y ≡ true) → r.lt m h ≡ true
      smaller (inl same) = rw same shorter
      smaller (inr less) = strict.transitive m y h less shorter
  first-Chosen strict h m y t nonneg (inr longer) c =
      let origin : (m ≡ h) ⊎ (r.lt m h ≡ true) = rw longer at c.from in
      record { below = ((nonneg, not_longer strict h m y longer origin), c.below); from = origin }

  pub least-Chosen :
      (strict : IsStrict r) (t : List R) (h m : R) → least t h ≡ some m → Chosen h m t
  unfolding least
  least-Chosen strict [] h m e = record { below = tt; from = inl (ground (arith, e)) }
  least-Chosen strict (y ∷ t) h m e = elim (Bool-cases (r.lt y r.zero)) [
    | inl negative ↦ absurd (cc (rw negative at e))
    | inr nonneg ↦
        first-Chosen strict h m y t nonneg (Bool-cases (r.lt y h))
          (least-Chosen strict t (if r.lt y h then y else h) m (rw nonneg at e))
  ]

  -- If no time is negative and none is shorter than the bound, neither is the least one.
  pub least-bound :
      (bound : R) (t : List R) (h : R)
      → All (λ y. (r.lt y r.zero ≡ false) × (r.lt y bound ≡ false)) t
      → r.lt h bound ≡ false
      → (m : R) × (least t h ≡ some m) × (r.lt m bound ≡ false)
  unfolding least
  least-bound bound [] h all e = (h, refl, e)
  least-bound bound (y ∷ t) h all e =
      rw all.0.0
        (least-bound bound t (if r.lt y h then y else h) all.1 (either (r.lt y h) all.0.1 e))
    where
      either :
          (b : Bool)
          → r.lt y bound ≡ false
          → r.lt h bound ≡ false
          → r.lt (if b then y else h) bound ≡ false
      either true e f = e
      either false e f = f
