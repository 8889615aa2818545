-- ===== src/Timer/Speed/Finish.antt =====
-- The measuring loop of `speed` ends once its world has settled, and what it reports.
use native.Mathlib.Nat.{pow-suc, pow-le-pow_right}
use mathlib.Core.Path.{subst}
use bench_fft.Base.{
  ℕ, zero, suc, ◌+◌, ◌-◌, ◌*◌, ◌^◌, ◌<◌, ◌≤◌, ◌≡◌, ◌⊎◌, inl, inr, refl, sym, ap, ◌∙◌, arith, true,
  false, Bool-cases, ltb, ltb→lt, lt→ltb, List, length, Option, none, some,
}
use bench_fft.Base.Real.{Real}
use bench_fft.Base.Outcome.{Returns, Returns-ok}
use bench_fft.Report.Laws.{IsStrict}
use bench_fft.Timer.Least.{All, IsLeast, least-Chosen, least-bound}
use bench_fft.Timer.Speed.{Measure, repeated, least, judge, measuring}

length-repeated :
    {R : Type 0} ⦃r : Real R⦄ {W : Type 0} (measure : Measure R W) (k iter : ℕ) (w : W)
    → length (repeated measure k iter w).0 ≡ k
unfolding repeated
length-repeated measure zero iter w = refl
length-repeated measure (suc k) iter w = ap suc (length-repeated measure k iter (measure iter w).1)

module _ {R : Type 0} ⦃r : Real R⦄ {W : Type 0} (measure : Measure R W) (Settled : W → Type 0)
    (time_min : R) where
  -- In a settled world the timer never goes backwards, and 2^29 transforms take `time_min`.
  pub record IsSteady : Type 0 where
    pub stays : (iter : ℕ) (w : W) → Settled w → Settled (measure iter w).1
    pub forward : (iter : ℕ) (w : W) → Settled w → r.lt (measure iter w).0 r.zero ≡ false
    pub enough : (w : W) → Settled w → r.lt (measure (2 ^ 29) w).0 time_min ≡ false

  -- The world has settled after `m` measurements at most, whatever they measure.
  abbrev pub SettlesIn : ℕ → W → Type 0
  SettlesIn zero w = Settled w
  SettlesIn (suc m) w = Settled w ⊎ ((iter : ℕ) → SettlesIn m (measure iter w).1)

  module _ (steady : IsSteady) where
    later : (m : ℕ) (w : W) → SettlesIn m w → SettlesIn (suc m) w
    later zero w h = inl h
    later (suc m) w (inl h) = inl h
    later (suc m) w (inr h) = inr (λ iter. later m (measure iter w).1 (h iter))

    still_settles : (m iter : ℕ) (w : W) → SettlesIn m w → SettlesIn m (measure iter w).1
    still_settles zero iter w h = steady.stays iter w h
    still_settles (suc m) iter w (inl h) = inl (steady.stays iter w h)
    still_settles (suc m) iter w (inr h) = later m (measure iter w).1 (h iter)

    repeated-SettlesIn :
        (m k iter : ℕ) (w : W) → SettlesIn m w → SettlesIn m (repeated measure k iter w).1
    unfolding repeated
    repeated-SettlesIn m zero iter w h = h
    repeated-SettlesIn m (suc k) iter w h =
        repeated-SettlesIn m k iter (measure iter w).1 (still_settles m iter w h)

    -- A round with at least one measurement brings the world nearer.
    round-SettlesIn :
        (m k iter : ℕ) (w : W)
        → ((i : ℕ) → SettlesIn m (measure i w).1)
        → SettlesIn m (repeated measure (suc k) iter w).1
    unfolding repeated
    round-SettlesIn m k iter w h = repeated-SettlesIn m k iter (measure iter w).1 (h iter)

    settled_times :
        (k : ℕ) (w : W)
        → Settled w
        → All
            (λ y. (r.lt y r.zero ≡ false) × (r.lt y time_min ≡ false))
            (repeated measure k (2 ^ 29) w).0
    unfolding repeated
    settled_times zero w h = tt
    settled_times (suc k) w h = (
      (steady.forward (2 ^ 29) w h, steady.enough w h),
      settled_times k (measure (2 ^ 29) w).1 (steady.stays (2 ^ 29) w h),
    )

    -- In a settled world no time is negative.
    forward_times :
        (k iter : ℕ) (w : W)
        → Settled w
        → All (λ y. (r.lt y r.zero ≡ false) × (r.lt y r.zero ≡ false)) (repeated measure k iter w).0
    unfolding repeated
    forward_times zero iter w h = tt
    forward_times (suc k) iter w h = (
      (steady.forward iter w h, steady.forward iter w h),
      forward_times k iter (measure iter w).1 (steady.stays iter w h),
    )

module _ {R : Type 0} ⦃r : Real R⦄ {W : Type 0} (time_min : R) where
  -- What is measured in the end: `time_repeat` times of a power of two of transforms, of which none is
  -- negative, and the least is `time_min` or more.
  pub record IsMeasured (time_repeat : ℕ) (result : List R × ℕ × W) : Type 0 where
    pub least_time : R
    pub below : IsLeast least_time result.0
    pub long_enough : r.lt least_time time_min ≡ false
    pub count : length result.0 ≡ time_repeat
    pub exponent : ℕ
    pub iterations : result.1 ≡ 2 ^ exponent
    pub bounded : exponent < 30

-- The number of transforms doubles below 2^30, and then starts over.
doubled : (j : ℕ) → 2 ^ j * 2 ≡ 2 ^ suc j
doubled j = sym (pow-suc 2 j)

doubles : (j : ℕ) → suc j < 30 → ltb (2 ^ suc j) (2 ^ 30) ≡ true
doubles j lt =
    lt→ltb (2 ^ suc j) (2 ^ 30)
      (omega (arith, pow-le-pow_right {n = 2} (omega arith) {i = suc j} {j = 29} (omega arith)))

restarts : (j : ℕ) → j ≡ 29 → ltb (2 ^ suc j) (2 ^ 30) ≡ false
restarts j e = rw e refl

module _ {R : Type 0} ⦃r : Real R⦄ {W : Type 0} (measure : Measure R W) (time_repeat : ℕ)
    (time_min huge : R) (strict : IsStrict r) where
  -- A round after which the loop goes on, or ends.
  round-Returns :
      (fuel j : ℕ) (w : W)
      → j < 30
      → ((suc j < 30)
          → Returns (IsMeasured time_min time_repeat) (
              measuring measure time_repeat time_min huge fuel
                (2 ^ suc j)
                (repeated measure time_repeat (2 ^ j) w).1))
      → ((j ≡ 29) ⊎ (least (repeated measure time_repeat (2 ^ j) w).0 huge ≡ none)
          → Returns (IsMeasured time_min time_repeat) (
              measuring measure time_repeat time_min huge fuel 1
                (repeated measure time_repeat (2 ^ j) w).1))
      → Returns
          (IsMeasured time_min time_repeat)
          (measuring measure time_repeat time_min huge (suc fuel) (2 ^ j) w)
  unfolding measuring
  round-Returns fuel j w lt go over = judged (least t.0 huge) refl
    where
      t : List R × W
      t = repeated measure time_repeat (2 ^ j) w

      judged :
          (o : Option R)
          → least t.0 huge ≡ o
          → Returns (IsMeasured time_min time_repeat) (
              judge measure time_repeat time_min huge
                (measuring measure time_repeat time_min huge fuel)
                (2 ^ j)
                t
                o)
      judged none e = over (inr e)
      judged (some m) e = elim (Bool-cases (r.lt m time_min)) [
        | inr long_enough ↦ rw long_enough (
            Returns-ok _ (record {
              least_time = m;
              below = (least-Chosen strict t.0 huge m e).below;
              long_enough = long_enough;
              count = length-repeated measure time_repeat (2 ^ j) w;
              exponent = j;
              iterations = refl;
              bounded = lt;
            }))
        | inl short ↦
            rw (short, doubled j)
              (elim (Bool-cases (ltb (suc j) 30)) [
                | inl more ↦ rw (doubles j (ltb→lt (suc j) 30 more)) (go (ltb→lt (suc j) 30 more))
                | inr last ↦ rw (restarts j (ground arith)) (over (inl (ground arith)))
              ])
      ]

  module _ (Settled : W → Type 0) (steady : IsSteady measure Settled time_min)
      (roomy : r.lt huge r.zero ≡ false) (long : r.lt huge time_min ≡ false) where
    -- In a settled world 2^29 transforms take long enough.
    last-Returns :
        (fuel : ℕ) (w : W)
        → Settled w
        → Returns
            (IsMeasured time_min time_repeat)
            (measuring measure time_repeat time_min huge (suc fuel) (2 ^ 29) w)
    unfolding measuring
    last-Returns fuel w settled =
        let t = repeated measure time_repeat (2 ^ 29) w in
        let found =
          least-bound time_min t.0 huge
            (settled_times measure Settled time_min steady time_repeat w settled) long in
        subst
          (λ o. Returns (IsMeasured time_min time_repeat) (
            judge measure time_repeat time_min huge
              (measuring measure time_repeat time_min huge fuel) (2 ^ 29) t o))
          (sym found.1)
          (rw found.2 (
            Returns-ok _ (record {
              least_time = found.0;
              below = (least-Chosen strict t.0 huge found.0 found.1).below;
              long_enough = found.2;
              count = length-repeated measure time_repeat (2 ^ 29) w;
              exponent = 29;
              iterations = refl;
              bounded = omega arith;
            })))

    -- In a settled world a round does not start over before 2^29 transforms, and those are enough.
    measuring-settled :
        (fuel j : ℕ) (w : W)
        → j < 30
        → 30 ≤ j + fuel
        → Settled w
        → Returns
            (IsMeasured time_min time_repeat)
            (measuring measure time_repeat time_min huge fuel (2 ^ j) w)
    measuring-settled zero j w lt le h = absurd (omega arith)
    measuring-settled (suc fuel) j w lt le h = elim (Bool-cases (ltb (suc j) 30)) [
      | inl more ↦
          round-Returns fuel j w lt
            (λ below.
              measuring-settled fuel (suc j) (repeated measure time_repeat (2 ^ j) w).1 below
                (omega arith)
                (repeated-SettlesIn measure Settled time_min steady 0 time_repeat (2 ^ j) w h))
            (λ stuck. absurd (goes_on (ltb→lt (suc j) 30 more) stuck))
      | inr last ↦
          subst
            (λ i.
              Returns (IsMeasured time_min time_repeat)
                (measuring measure time_repeat time_min huge (suc fuel) (2 ^ i) w))
            {x = 29} {y = j} (ground arith) (last-Returns fuel w h)
    ]
      where
        goes_on :
            suc j < 30
            → (j ≡ 29) ⊎ (least (repeated measure time_repeat (2 ^ j) w).0 huge ≡ none)
            → ⊥
        goes_on below (inl e) = absurd (omega arith)
        goes_on below (inr e) =
            let found =
              least-bound r.zero (repeated measure time_repeat (2 ^ j) w).0 huge
                (forward_times measure Settled time_min steady time_repeat (2 ^ j) w h) roomy in
            absurd (cc (sym e ∙ found.1))

    -- The measuring loop ends, within `m + 30` rounds, if the world settles after at most `m`
    -- measurements: in a settled world the timer never goes backwards and 2^29 transforms take at least
    -- `time_min`. It gives `time_repeat` times of one power of two of transforms below 2^30, none
    -- negative, the least at least `time_min`. There is at least one measurement in a round, `<` is
    -- strict and transitive, and the first bound, 1.0e20, is neither negative nor below `time_min`.
    pub measuring-Returns :
        (m fuel j : ℕ) (w : W)
        → 1 ≤ time_repeat
        → j < 30
        → m + 30 ≤ fuel
        → SettlesIn measure Settled time_min m w
        → Returns
            (IsMeasured time_min time_repeat)
            (measuring measure time_repeat time_min huge fuel (2 ^ j) w)
    measuring-Returns zero fuel j w one lt le h = measuring-settled fuel j w lt (omega arith) h
    measuring-Returns (suc m) fuel j w one lt le (inl h) =
        measuring-settled fuel j w lt (omega arith) h
    measuring-Returns (suc m) zero j w one lt le (inr h) = absurd (omega arith)
    measuring-Returns (suc m) (suc fuel) j w one lt le (inr h) =
        round-Returns fuel j w lt
          (λ below. measuring-Returns m fuel (suc j) _ one below (omega arith) nearer)
          (λ stuck. measuring-Returns m fuel 0 _ one (omega arith) (omega arith) nearer)
      where
        nearer : SettlesIn measure Settled time_min m (repeated measure time_repeat (2 ^ j) w).1
        nearer =
            subst (λ k. SettlesIn measure Settled time_min m (repeated measure k (2 ^ j) w).1)
              {x = suc (time_repeat - 1)} {y = time_repeat} (omega arith)
              (round-SettlesIn measure Settled time_min steady m (time_repeat - 1) (2 ^ j) w h)
