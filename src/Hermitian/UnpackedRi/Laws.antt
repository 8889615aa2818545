-- ===== src/Hermitian/UnpackedRi/Laws.antt =====
-- Gathering a Hermitian array into real and imaginary parts, and spreading them again.
use bench_fft.Base.{
  ℕ, suc, ◌+◌, ◌-◌, ◌*◌, ◌/◌, ◌<◌, ◌≡◌, ◌≢◌, inl, inr, sym, ap, ◌∙◌, arith, ltb, ◌==◌, Bool-cases,
  ==→≡, Buffer, store, store_same, store_other, loop_below, IsApart, IsPaired, pair, pairs-IsPaired,
}
use bench_fft.Base.Real.{Real, Complex, IsUnit}
use bench_fft.Base.Outcome.{ok, ◌>>=◌}
use bench_fft.Problem.{Problem}
use bench_fft.Arrays.{Memory}
use bench_fft.Hermitian.{size_1d, rounds, conjugate, signed}
use bench_fft.Hermitian.Spec.{Is1d, ran}
use bench_fft.Hermitian.Sweep.{mirror-IsApart}
use bench_fft.Hermitian.Halfcomplex.{halfcomplex, positive_test, one_before}
use bench_fft.Hermitian.UnpackedRi.{
  to_unpacked_ri, of_unpacked_ri, copy_c2h_1d_unpacked_ri, copy_h2c_1d_unpacked_ri,
}

module _ {R : Type 0} ⦃r : Real R⦄ (n : ℕ) (sign : R) where
  -- The lower half with its middle, each part at its own place.
  record IsParts (z : ℕ → Complex R) (x : ℕ → R) : Type 0 where
    real_part : (k : ℕ) → k < 1 + n / 2 → x k ≡ (z k).re
    imag_part : (k : ℕ) → k < 1 + n / 2 → x (n / 2 + 1 + k) ≡ r.mul (r.neg sign) (z k).im

  parts-IsApart : (base : ℕ) → IsApart (1 + n / 2) (◌+◌ base) (◌+◌ (base + (n / 2 + 1)))
  parts-IsApart base = record {
    first = λ i j lt lt' ne e. absurd (ne (omega arith));
    second = λ i j lt lt' ne e. absurd (ne (omega arith));
    across = λ i j lt lt' e. absurd (omega (arith, e));
  }

  to_unpacked_ri-IsParts :
      (z : ℕ → Complex R) (rpin : ℕ) (mem : Buffer R)
      → IsParts z (λ j. to_unpacked_ri n sign z rpin mem (rpin + j))
  unfolding to_unpacked_ri
  to_unpacked_ri-IsParts z rpin mem = record {
    real_part = done.at_first;
    imag_part = λ k lt. ap (to_unpacked_ri n sign z rpin mem) (omega arith) ∙ done.at_second k lt;
  }
    where
      done :
          IsPaired
            (1 + n / 2)
            (◌+◌ rpin)
            (◌+◌ (rpin + (n / 2 + 1)))
            (λ k. (z k).re)
            (λ k. r.mul (r.neg sign) (z k).im)
            mem
            (to_unpacked_ri n sign z rpin mem)
      done =
          pairs-IsPaired (◌+◌ rpin) (◌+◌ (rpin + (n / 2 + 1))) (λ k. (z k).re)
            (λ k. r.mul (r.neg sign) (z k).im) mem (1 + n / 2) (parts-IsApart rpin)

  module _ (x : ℕ → R) (out : ℕ) (mem : Buffer (Complex R)) where
    abbrev lower : ℕ → Complex R
    lower i = signed sign (x (i + 1)) (x (n / 2 + 1 + (i + 1)))

    abbrev upper : ℕ → Complex R
    upper i = record { re = x (i + 1); im = r.mul sign (x (n / 2 + 1 + (i + 1))) }

    abbrev near : ℕ → ℕ
    near i = out + (i + 1)

    abbrev far : ℕ → ℕ
    far i = out + (n - (i + 1))

    abbrev start : Buffer (Complex R)
    start = store mem out (signed sign (x 0) (x (n / 2 + 1 + 0)))

    abbrev after : ℕ → Buffer (Complex R)
    after m = loop_below m (pair near far lower upper start) start

    paired : IsPaired (rounds n) near far lower upper start (after (rounds n))
    paired = pairs-IsPaired near far lower upper start (rounds n) (mirror-IsApart out n)

    of_unpacked_ri_lem : 0 < n → of_unpacked_ri n sign x out mem ≡ after (n / 2)
    unfolding of_unpacked_ri
    of_unpacked_ri_lem h = rw (positive_test h)

    -- For even `n` a last round stores the middle element twice.
    last_round :
        2 * suc (rounds n) ≡ n
        → after (n / 2) ≡ pair near far lower upper start (rounds n) (after (rounds n))
    unfolding loop_below
    last_round e = ap after {x = n / 2} {y = suc (rounds n)} (omega arith)

    -- Every place but the middle holds what the paired rounds leave there.
    before_middle :
        (j : ℕ)
        → 0 < n
        → (2 * suc (rounds n) ≡ n → j ≢ out + suc (rounds n))
        → after (n / 2) j ≡ after (rounds n) j
    before_middle j h away = elim (Bool-cases (2 * suc (rounds n) == n)) [
      | inl even ↦
          let e : 2 * suc (rounds n) ≡ n = ==→≡ _ _ even in
          ap (λ (b : Buffer (Complex R)). b j) (last_round e)
          ∙ store_other (store (after (rounds n)) (near (rounds n)) (lower (rounds n)))
              (far (rounds n)) (upper (rounds n)) j (λ f. away e (omega arith))
          ∙ store_other (after (rounds n)) (near (rounds n)) (lower (rounds n)) j
              (λ f. away e (omega arith))
      | inr odd ↦ ap (λ m. after m j) {x = n / 2} {y = rounds n} (ground arith)
    ]

    middle_now :
        (k : ℕ)
        → 0 < k
        → 2 * k ≡ n
        → after (n / 2) (out + k) ≡ record { re = x k; im = r.mul sign (x (n / 2 + 1 + k)) }
    middle_now k lo e =
        ap (λ (b : Buffer (Complex R)). b (out + k)) (last_round (omega arith))
        ∙ ap (pair near far lower upper start (rounds n) (after (rounds n))) {x = out + k}
            {y = far (rounds n)} (omega arith)
        ∙ store_same (store (after (rounds n)) (near (rounds n)) (lower (rounds n)))
            (far (rounds n)) (upper (rounds n))
        ∙ ap (λ j. record { re = x j; im = r.mul sign (x (n / 2 + 1 + j)) }) {x = rounds n + 1}
            {y = k} (omega arith)

    lower_now :
        (k : ℕ)
        → 0 < k
        → 2 * k < n
        → after (n / 2) (out + k) ≡ signed sign (x k) (x (n / 2 + 1 + k))
    lower_now k lo hi =
        before_middle (out + k) (omega arith) (λ e f. absurd (omega arith))
        ∙ ap (after (rounds n)) {x = out + k} {y = near (k - 1)} (omega arith)
        ∙ paired.at_first (k - 1) (omega arith)
        ∙ ap (λ j. signed sign (x j) (x (n / 2 + 1 + j))) (one_before k lo)

    upper_now :
        (k : ℕ)
        → 0 < k
        → 2 * k < n
        → after (n / 2) (out + (n - k)) ≡ record { re = x k; im = r.mul sign (x (n / 2 + 1 + k)) }
    upper_now k lo hi =
        before_middle (out + (n - k)) (omega arith) (λ e f. absurd (omega arith))
        ∙ ap (after (rounds n)) {x = out + (n - k)} {y = far (k - 1)} (omega arith)
        ∙ paired.at_second (k - 1) (omega arith)
        ∙ ap (λ j. record { re = x j; im = r.mul sign (x (n / 2 + 1 + j)) }) (one_before k lo)

    first_now : 0 < n → after (n / 2) (out + 0) ≡ signed sign (x 0) (x (n / 2 + 1 + 0))
    first_now h =
        before_middle (out + 0) h (λ e f. absurd (omega arith))
        ∙ paired.elsewhere (out + 0)
            (λ i lt. (λ e. absurd (omega arith), λ e. absurd (omega arith)))
        ∙ ap start {x = out + 0} {y = out} (omega arith)
        ∙ store_same mem out (signed sign (x 0) (x (n / 2 + 1 + 0)))

  -- An array whose upper half mirrors the lower one, with its middle its own conjugate.
  abbrev pub IsMirrored : (ℕ → Complex R) → Type 0
  IsMirrored z = (k : ℕ) → 0 < k → k < n → z (n - k) ≡ conjugate (z k)

  module _ (unit : IsUnit sign) (z : ℕ → Complex R) (x : ℕ → R) (parts : IsParts z x) where
    restored : (k : ℕ) → k < 1 + n / 2 → signed sign (x k) (x (n / 2 + 1 + k)) ≡ z k
    restored k lt = λ i. record {
      re = parts.real_part k lt i;
      im = (ap (r.mul (r.neg sign)) (parts.imag_part k lt) ∙ unit.twice (z k).im) i;
    }

    mirrored :
        (k : ℕ)
        → k < 1 + n / 2
        → record { re = x k; im = r.mul sign (x (n / 2 + 1 + k)) } ≡ conjugate (z k)
    mirrored k lt =
        (λ i. record { re = x k; im = unit.opposite (x (n / 2 + 1 + k)) i })
        ∙ ap conjugate (restored k lt)

    spread-IsRestored :
        (out : ℕ) (mem : Buffer (Complex R))
        → 0 < n
        → IsMirrored z
        → (j : ℕ) → j < n
        → of_unpacked_ri n sign x out mem (out + j) ≡ z j
    spread-IsRestored out mem h herm j lt =
        ap (λ (b : Buffer (Complex R)). b (out + j)) (of_unpacked_ri_lem x out mem h)
        ∙ (elim (Bool-cases (j == 0)) [
          | inl start ↦ rw (==→≡ j 0 start) (first_now x out mem h ∙ restored 0 (omega arith))
          | inr later ↦ elim (Bool-cases (ltb (2 * j) n)) [
            | inl low ↦
                lower_now x out mem j (ground arith) (ground arith) ∙ restored j (ground arith)
            | inr not_low ↦ elim (Bool-cases (2 * j == n)) [
              | inl mid ↦
                  middle_now x out mem j (ground arith) (==→≡ _ _ mid)
                  ∙ mirrored j (ground arith)
                  ∙ sym (herm j (ground arith) lt)
                  ∙ ap z (ground arith)
              | inr high ↦
                  ap (after x out mem (n / 2)) {x = out + j} {y = out + (n - (n - j))} (omega arith)
                  ∙ upper_now x out mem (n - j) (omega arith) (ground arith)
                  ∙ mirrored (n - j) (ground arith)
                  ∙ sym (herm (n - j) (omega arith) (ground arith))
                  ∙ ap z (omega arith)
            ]
          ]
        ])

-- For a one-dimensional real problem of positive size whose output is its input, and a sign like -1
-- or 1: gathering into real and imaginary parts an array in which the element `n - k` is the
-- conjugate of the element `k`, for 0 < k < n, and spreading it again ends without a failed assertion
-- and reproduces every element.
pub spread-gather_unpacked_ri :
    {R : Type 0} ⦃r : Real R⦄ (p : Problem) (sign : R) (base : ℕ) (mem : Memory R)
    → IsUnit sign
    → Is1d halfcomplex p
    → p.output ≡ p.input
    → IsMirrored (size_1d p) sign (λ k. mem.complexes (base + k))
    → (new : Memory R) × ((copy_c2h_1d_unpacked_ri p base sign mem
          >>= copy_h2c_1d_unpacked_ri p base sign)
        ≡ ok new)
      × ((k : ℕ) → k < size_1d p → new.complexes (base + k) ≡ mem.complexes (base + k))
unfolding copy_c2h_1d_unpacked_ri copy_h2c_1d_unpacked_ri
spread-gather_unpacked_ri {R} p sign base mem unit d shared herm =
    let n = size_1d p in
    let z : ℕ → Complex R = λ k. mem.complexes (base + k) in
    let gathered : Memory R = record mem { reals = to_unpacked_ri n sign z p.input mem.reals } in
    let parts = to_unpacked_ri-IsParts n sign z p.input mem.reals in
    (
      record gathered {
        complexes =
            of_unpacked_ri n sign (λ k. gathered.reals (p.output + k)) base gathered.complexes;
      },
      rw (ran d (ok gathered)) (ran d _),
      spread-IsRestored n sign unit z (λ k. gathered.reals (p.output + k)) (rw shared parts) base
          mem.complexes d.held herm,
    )
