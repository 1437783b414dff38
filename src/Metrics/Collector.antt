-- ===== src/Metrics/Collector.antt =====
-- `CPUCollector` of metrics/metrics.go. A duration is the bit pattern of an int64; the lock makes the
-- exchange of the last measurement one step.
pub mod Laws
use damon.Prelude.{ℕ, List, [], ◌∷◌}
use damon.Prelude.Words.{sub64, mul64}
use damon.Container.Stats.{ProcessStats}

-- The floating-point operations that the metrics use. No law of them is assumed.
pub record Float : Type 1 where
  pub F : Type 0
  pub of_uint64 : ℕ → F  -- `float64` of a uint64
  pub of_int64 : ℕ → F  -- `float64` of an int64, by its bit pattern
  pub seconds : ℕ → F  -- `Duration.Seconds`
  pub million : F
  pub div : F → F → F
  pub mul : F → F → F
  pub to_uint64 : F → ℕ

pub record Measurement : Type 0 where
  pub total_time : ℕ
  pub user_time : ℕ
  pub kernel_time : ℕ

-- The measurement that `OnStats` takes from the statistics.
unfoldable pub measurement_of : ProcessStats → Measurement
measurement_of s = record {
  total_time = s.cpu_stats.total_cpu_time;
  user_time = s.cpu_stats.total_user_time;
  kernel_time = s.cpu_stats.total_kernel_time;
}

module _ (L : Float) where
  open L use {F, of_int64, million, div, mul, to_uint64}

  pub record Collector : Type 0 where
    pub last_total_duration : ℕ
    pub last_user_duration : ℕ
    pub last_kernel_duration : ℕ
    pub cores : ℕ
    pub mhz_per_core : F

  pub record Sample : Type 0 where
    pub measurement : Measurement
    pub delta_kernel_time : ℕ
    pub delta_user_time : ℕ
    pub delta_total_time : ℕ
    pub kernel_percent : F
    pub kernel_hz : ℕ
    pub user_percent : F
    pub user_hz : ℕ

  remember : Measurement → Collector → Collector
  remember m c = record c {
    last_total_duration = m.total_time;
    last_kernel_duration = m.kernel_time;
    last_user_duration = m.user_time;
  }

  -- `Sample`. The change of the user time is taken from the last kernel time, as in the source.
  unfoldable pub sample : Measurement → Collector → Sample × Collector
  unfolding remember
  sample m c =
      let t0 : ℕ = c.last_total_duration in
      let k0 : ℕ = c.last_kernel_duration in
      let u0 : ℕ = c.last_user_duration in
      let ttime : ℕ = mul64 (sub64 m.total_time t0) c.cores in
      let tmhz : F = mul c.mhz_per_core (of_int64 c.cores) in
      let kperc : F = div (of_int64 (sub64 m.kernel_time k0)) (of_int64 ttime) in
      let uperc : F = div (of_int64 (sub64 m.user_time u0)) (of_int64 ttime) in
      (
        record {
          measurement = m;
          delta_kernel_time = sub64 m.kernel_time k0;
          delta_user_time = sub64 m.user_time k0;
          delta_total_time = sub64 m.total_time t0;
          kernel_percent = kperc;
          kernel_hz = to_uint64 (mul (mul kperc million) tmhz);
          user_percent = uperc;
          user_hz = to_uint64 (mul (mul uperc million) tmhz);
        },
        remember m c,
      )

  -- The samples of a list of measurements, and the collector after them.
  unfoldable pub samples : List Measurement → Collector → List Sample × Collector
  samples [] c = ([], c)
  samples (m ∷ ms) c = let (s, c') = sample m c in let (ss, c'') = samples ms c' in (s ∷ ss, c'')
