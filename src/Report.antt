-- ===== src/Report.antt =====
-- The statistics over repeated measurements (libbench/report.c).
pub mod Laws
mod Tests
use bench_fft.Base.{ℕ, zero, suc, ◌+◌, ◌-◌, ◌/◌, loop_below, Buffer, store, if◌then◌else◌}
use bench_fft.Base.Real.{Real}

-- `struct stats`
pub record Stats (R : Type 0) : Type 0 where
  pub min : R
  pub max : R
  pub avg : R
  pub median : R

module _ {R : Type 0} ⦃r : Real R⦄ where
  -- The first loop of `mkstat`; the median is set at the end.
  unfoldable pub scan_times : Buffer R → ℕ → Stats R
  scan_times t st =
      loop_below st
        (λ i a. record {
          min = if r.lt (t i) a.min then t i else a.min;
          max = if r.lt a.max (t i) then t i else a.max;
          avg = r.add a.avg (t i);
          median = a.median;
        })
        (record { min = t 0; max = t 0; avg = r.zero; median = t 0 })

  -- `if ((t0 = t[j]) > (t1 = t[j + 1])) { t[j] = t0; t[j + 1] = t1; }`
  unfoldable pub exchange : ℕ → Buffer R → Buffer R
  exchange j t =
      let t0 = t j in
      let t1 = t (j + 1) in if r.lt t1 t0 then store (store t j t0) (j + 1) t1 else t

  -- `for (i = st - 1; i > 1; --i) for (j = 0; j < i - 1; ++j)`
  unfoldable pub bubble : ℕ → Buffer R → Buffer R
  bubble st t = loop_below (st - 2) (λ m u. loop_below (st - 1 - m - 1) exchange u) t

  -- The array as the function leaves it, and the statistics.
  unfoldable pub mkstat : Buffer R → ℕ → Buffer R × Stats R
  mkstat t st =
      let a = scan_times t st in
      let sorted = bubble st t in
      (sorted, record a { avg = r.div a.avg (r.of_ℕ st); median = sorted (st / 2) })
