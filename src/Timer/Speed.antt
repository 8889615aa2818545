-- ===== src/Timer/Speed.antt =====
-- The measuring loop of `speed` (libbench/speed.c). The world of a measurement is a parameter: what the timer
-- shows for a number of transforms, and what becomes of the world.
pub mod Finish
use bench_fft.Base.{
  ℕ, zero, suc, ◌+◌, ◌*◌, ◌^◌, Bool, true, false, ltb, not, if◌then◌else◌, List, [], ◌∷◌, map,
  Option, none, some,
}
use bench_fft.Base.Real.{Real}
use bench_fft.Base.Outcome.{Outcome, ok, out_of_fuel, ◌>>=◌}

-- `timer_start(); doit(iter, p); timer_stop()`
abbrev pub Measure : Type 0 → Type 0 → Type 0
Measure R W = ℕ → W → R × W

module _ {R : Type 0} ⦃r : Real R⦄ {W : Type 0} (measure : Measure R W) where
  -- The array `t`: `time_repeat` measurements, one after the other.
  unfoldable pub repeated : ℕ → ℕ → W → List R × W
  repeated zero iter w = ([], w)
  repeated (suc k) iter w =
      let first = measure iter w in let rest = repeated k iter first.1 in (first.0 ∷ rest.0, rest.1)

-- The least of the times and `tmin`, or `none` if one is negative.
unfoldable pub least : {R : Type 0} ⦃r : Real R⦄ → List R → R → Option R
least [] tmin = some tmin
least ⦃r⦄ (y ∷ t) tmin =
    let rest = least t (if r.lt y tmin then y else tmin) in if r.lt y r.zero then none else rest

module _ {R : Type 0} ⦃r : Real R⦄ {W : Type 0} (measure : Measure R W) (time_repeat : ℕ)
    (time_min huge : R) where
  -- What follows a round of `iter` transforms: `again` goes on with another number of them, and
  -- `start_over` is the state with one.
  abbrev pub judge :
      (ℕ → W → Outcome (List R × ℕ × W)) → ℕ → List R × W → Option R → Outcome (List R × ℕ × W)
  judge again iter t none = again 1 t.1
  judge again iter t (some tmin) =
      if not (r.lt tmin time_min)
      then ok (t.0, iter, t.1)
      else if ltb (iter * 2) (2 ^ 30)
      then again (iter * 2) t.1
      else again 1 t.1

  -- `huge` is 1.0e20, and the fuel counts the rounds.
  unfoldable pub measuring : ℕ → ℕ → W → Outcome (List R × ℕ × W)
  measuring zero iter w = out_of_fuel
  measuring (suc fuel) iter w =
      let again = measuring fuel in
      let t = repeated measure time_repeat iter w in judge again iter t (least t.0 huge)

  -- The times that are reported are those of one transform.
  unfoldable pub speed_times : ℕ → W → Outcome (List R × W)
  speed_times fuel w = do
    (t, iter, w') ← measuring fuel 1 w
    ok (map (λ x. r.div x (r.of_ℕ iter)) t, w')
