-- ===== src/Metrics/Collector/Laws.antt =====
-- What the samples add up to (metrics/metrics.go), also from the statistics that the container gives
-- (container/container.go).
use damon.Prelude.{ℕ, ◌+◌, ◌-◌, ◌*◌, ◌^◌, ◌≤◌, ◌<◌, ◌≡◌, ◌↔◌, refl, List, [], ◌∷◌, arith, All}
use native.Mathlib.Nat.{mod-eq_of_lt}
use damon.Prelude.Words.{add64, sub64, mul64}
use damon.Job.Accounting.{Accounting}
use damon.Container.Stats.{MemoryCounters, process_stats}
use damon.Metrics.Collector.{measurement_of, Float, Measurement, Collector, Sample, sample, samples}

scaled_sum : (a d n : ℕ) → (a + d) * n < 2 ^ 64 → sub64 (mul64 (a + d) n) (mul64 a n) ≡ d * n
scaled_sum a d n p = omega arith

-- `(b * n - a * n) * n`, of 64-bit words, is `(b - a) * n * n` where nothing overflows.
scaled_difference :
    (a b n : ℕ)
    → a ≤ b
    → b * n < 2 ^ 64
    → (b - a) * n * n < 2 ^ 64
    → mul64 (sub64 (mul64 b n) (mul64 a n)) n ≡ (b - a) * n * n
scaled_difference a b n h p q =
    let e = scaled_sum a (b - a) n in
    let whole : a + (b - a) ≡ b = omega arith in rw (rw whole at e p) (mod-eq_of_lt q)

module _ (L : Float) where
  abbrev pub sum_total : List (Sample L) → ℕ
  sum_total [] = 0
  sum_total (s ∷ ss) = add64 s.delta_total_time (sum_total ss)

  abbrev pub sum_kernel : List (Sample L) → ℕ
  sum_kernel [] = 0
  sum_kernel (s ∷ ss) = add64 s.delta_kernel_time (sum_kernel ss)

  abbrev InRange : Measurement → Type 0
  InRange m = (m.total_time < 2 ^ 64) × (m.kernel_time < 2 ^ 64) × (m.user_time < 2 ^ 64)

  -- The changes of total and kernel time that the samples report add up to the whole change, modulo
  -- 2 ^ 64, where every time is a 64-bit word; the collector's times stay such words.
  pub samples-sum :
      (ms : List Measurement) (c : Collector L)
      → All InRange ms
      → c.last_total_duration < 2 ^ 64
      → c.last_kernel_duration < 2 ^ 64
      → let (ss, c') = samples L ms c in
        (sum_total ss ≡ sub64 c'.last_total_duration c.last_total_duration)
        × (sum_kernel ss ≡ sub64 c'.last_kernel_duration c.last_kernel_duration)
        × (c'.last_total_duration < 2 ^ 64)
        × (c'.last_kernel_duration < 2 ^ 64)
  unfolding samples sample
  samples-sum [] c h t k = omega arith
  samples-sum (m ∷ ms) c h t k = omega (arith, samples-sum ms (sample L m c).1 h.1 h.0.0 h.0.1)

  -- A sample of the statistics that the container polls divides by the square of the number of
  -- processors: the run time, which the container has multiplied by it already, is multiplied by it
  -- again. The first poll came at `before` and the second at `after`, the collector has the same number
  -- of cores, and no product overflows.
  pub sample-process_stats :
      (c : Collector L) (cpus before after : ℕ) (i j : Accounting) (m n : MemoryCounters)
      → c.cores ≡ cpus
      → before ≤ after
      → after * cpus < 2 ^ 64
      → (after - before) * cpus * cpus < 2 ^ 64
      → let c' = (sample L (measurement_of (process_stats cpus before i m)) c).1 in
        let s = (sample L (measurement_of (process_stats cpus after j n)) c').0 in
        (s.kernel_percent
          ≡ L.div
              (L.of_int64 (sub64 j.basic.total_kernel_time i.basic.total_kernel_time))
              (L.of_int64 ((after - before) * cpus * cpus)))
        × (s.user_percent
            ≡ L.div
                (L.of_int64 (sub64 j.basic.total_user_time i.basic.total_user_time))
                (L.of_int64 ((after - before) * cpus * cpus)))
  unfolding sample process_stats measurement_of
  sample-process_stats c cpus before after i j m n e h p q =
      rw e (rw (scaled_difference before after cpus h p q) (refl, refl))

  -- The reported change of the user time, of 64-bit words, is the one since the last user time exactly
  -- when the user and the kernel time were equal at the last sample.
  pub sample-delta_user_time :
      (m : Measurement) (c : Collector L)
      → m.user_time < 2 ^ 64
      → c.last_user_duration < 2 ^ 64
      → c.last_kernel_duration < 2 ^ 64
      → ((sample L m c).0.delta_user_time ≡ sub64 m.user_time c.last_user_duration)
        ↔ (c.last_user_duration ≡ c.last_kernel_duration)
  unfolding sample
  sample-delta_user_time m c hm hu hk = (λ e. omega arith, λ e. omega arith)
