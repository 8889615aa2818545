-- ===== src/Timer/Laws.antt =====
-- What the calibration of the timer finds, and that it ends.
use bench_fft.Base.{
  ℕ, zero, suc, ◌+◌, ◌-◌, ◌*◌, ◌<◌, ◌≡◌, ◌⊎◌, inl, inr, refl, ap, arith, Bool, true, false, ◌==◌,
  ==→≡, Bool-cases, loop_below_inv, if◌then◌else◌,
}
use bench_fft.Base.Int.{ℤ, ◌*ℤ◌, pos_part}
use bench_fft.Base.Int.ℤ.{pos, negsuc}
use bench_fft.Base.Real.{Real}
use bench_fft.Base.Outcome.{Outcome, ok, overflow, Ensures, Ensures-bind, Ensures-if}
use bench_fft.Report.Laws.{IsStrict}
use bench_fft.Timer.{
  Timeval, Decimals, duration, shorter, time_n, close_to, next_n, find_tries, find_n, to_int,
  of_int, in_int, int_result, tmin_try,
}
use bench_fft.Timer.Least.{not_longer}

pub int_result-Ensures : (z : ℤ) → Ensures (λ k. Unit {0}) (int_result z)
int_result-Ensures z = either (in_int z)
  where
    either : (b : Bool) → Ensures (λ k. Unit {0}) (if b then ok z else overflow)
    either true = tt
    either false = tt

module _ {R : Type 0} ⦃r : Real R⦄ ⦃dec : Decimals R⦄ (clock : ℕ → Timeval) (time_repeat : ℤ) where
  -- The duration that is measured after `j` others.
  abbrev pub sample : ℤ → ℕ → ℕ → R
  sample n ticks j = (duration clock time_repeat n (ticks + 2 * j)).0

  -- The least of the first `count` durations, after which the clock has been read twice for each.
  pub record IsMinimum (n : ℤ) (ticks count : ℕ) (st : R × ℕ) : Type 0 where
    pub least : (j : ℕ) → j < count → r.lt (sample n ticks j) st.0 ≡ false
    pub taken : (j : ℕ) × (st.0 ≡ sample n ticks j) × (j < count)
    pub readings : st.1 ≡ ticks + 2 * count

  next_sample :
      (strict : IsStrict r) (n : ℤ) (ticks i : ℕ) (st : R × ℕ)
      → IsMinimum n ticks (suc i) st
      → IsMinimum n ticks (suc (suc i)) (shorter clock time_repeat n st)
  unfolding duration
  next_sample strict n ticks i st h = chosen (r.lt now st.0) refl
    where
      now : R
      now = (duration clock time_repeat n st.1).0

      latest : now ≡ sample n ticks (suc i)
      latest = ap (λ (k : ℕ). (duration clock time_repeat n k).0) h.readings

      read_twice : st.1 + 2 ≡ ticks + 2 * suc (suc i)
      read_twice = omega (arith, h.readings)

      chosen :
          (b : Bool)
          → r.lt now st.0 ≡ b
          → IsMinimum n ticks (suc (suc i)) (if b then now else st.0, st.1 + 2)
      chosen true e = record {
        least = λ j lt. elim (Bool-cases (j == suc i)) [
          | inl last ↦ rw (==→≡ j (suc i) last, ← latest) (strict.irreflexive now)
          | inr before ↦
              not_longer strict st.0 now (sample n ticks j) (h.least j (ground arith)) (inr e)
        ];
        taken = (suc i, latest, omega arith);
        readings = read_twice;
      }
      chosen false e = record {
        least = λ j lt. elim (Bool-cases (j == suc i)) [
          | inl last ↦ rw (==→≡ j (suc i) last, ← latest) e
          | inr before ↦ h.least j (ground arith)
        ];
        taken = (h.taken.0, h.taken.1, omega (arith, h.taken.2));
        readings = read_twice;
      }

  first_sample :
      (strict : IsStrict r) (n : ℤ) (ticks : ℕ)
      → IsMinimum n ticks 1 (duration clock time_repeat n ticks)
  unfolding duration
  first_sample strict n ticks = record {
    least = λ j lt. rw (← at j lt) (strict.irreflexive (duration clock time_repeat n ticks).0);
    taken = (0, at 0 (omega arith), omega arith);
    readings = omega arith;
  }
    where
      at : (j : ℕ) → j < 1 → (duration clock time_repeat n ticks).0 ≡ sample n ticks j
      at j lt =
          ap (λ (k : ℕ). (duration clock time_repeat n k).0) {x = ticks} {y = ticks + 2 * j}
            (omega arith)

  -- For a strict, transitive `<`, `time_n` gives the least of `time_repeat` durations, and of one
  -- duration if `time_repeat` is not positive; it is one of them.
  pub time_n-IsMinimum :
      (strict : IsStrict r) (n : ℤ) (ticks : ℕ)
      → IsMinimum n ticks (suc (pos_part time_repeat - 1)) (time_n clock time_repeat n ticks)
  unfolding time_n
  time_n-IsMinimum strict n ticks =
      loop_below_inv (λ i st. IsMinimum n ticks (suc i) st) (pos_part time_repeat - 1)
        (λ _. shorter clock time_repeat n) (duration clock time_repeat n ticks)
        (λ i st lt h. next_sample strict n ticks i st h) (first_sample strict n ticks)

  -- A number of units that took about `tmin` when it was measured.
  abbrev pub IsFound : R → ℤ × ℕ → Type 0
  IsFound tmin found =
      (found.0 ≡ negsuc 0)
      ⊎ ((ticks : ℕ) × (close_to clock time_repeat tmin
              (time_n {R = R} clock time_repeat found.0 ticks).0
            ≡ true)
          × ((time_n {R = R} clock time_repeat found.0 ticks).1 ≡ found.1))

  next_n-Ensures :
      (tmin : R) (n : ℤ) (t : R) → Ensures (λ k. Unit {0}) (next_n clock time_repeat tmin n t)
  next_n-Ensures tmin n t =
      Ensures-if (λ k. Unit {0}) (r.lt t tmin_try) (int_result (n *ℤ pos 10))
        (to_int (r.add (r.mul (r.div (of_int n) t) tmin) r.one)) (int_result-Ensures (n *ℤ pos 10))
        (int_result-Ensures (dec.truncate (r.add (r.mul (r.div (of_int n) t) tmin) r.one)))

  find_tries-IsFound :
      (tmin : R) (tries : ℕ) (n : ℤ) (ticks : ℕ)
      → Ensures
          (IsFound tmin)
          (find_tries clock time_repeat tmin tries n (time_n clock time_repeat n ticks))
  unfolding find_tries
  find_tries-IsFound tmin zero n ticks = inl refl
  find_tries-IsFound tmin (suc tries) n ticks =
      let t = time_n {R = R} clock time_repeat n ticks in
      decided (close_to clock time_repeat tmin t.0) refl _ (
        Ensures-bind (λ k. Unit {0}) (IsFound tmin) (next_n clock time_repeat tmin n t.0)
          (λ k. find_tries clock time_repeat tmin tries k (time_n clock time_repeat k t.1))
          (next_n-Ensures tmin n t.0) λ k _. find_tries-IsFound tmin tries k t.1)
    where
      decided :
          (b : Bool)
          → close_to clock time_repeat tmin (time_n {R = R} clock time_repeat n ticks).0 ≡ b
          → (m : Outcome (ℤ × ℕ)) → Ensures (IsFound tmin) m
          → Ensures
              (IsFound tmin)
              (if b then ok (n, (time_n {R = R} clock time_repeat n ticks).1) else m)
      decided true e m h = inr (ticks, e, refl)
      decided false e m h = h

  pub find_n-IsFound :
      (tmin : R) (ticks : ℕ) → Ensures (IsFound tmin) (find_n clock time_repeat tmin ticks)
  unfolding find_n
  find_n-IsFound tmin ticks = find_tries-IsFound tmin 10 (pos 10000) ticks
