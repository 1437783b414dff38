-- ===== src/Metrics/Gauges.antt =====
-- `OnStats` of metrics/metrics.go: the gauges that the statistics set.
pub mod Laws
use damon.Prelude.{ℕ}
use damon.Container.Stats.{ProcessStats}
use damon.Metrics.Collector.{Float, Measurement, measurement_of, Collector, Sample, sample}

module _ (L : Float) where
  open L use {F, of_uint64, of_int64, seconds, million, div, mul}

  -- The fields that `main` sets.
  pub record Settings : Type 0 where
    pub mhz_per_core : F
    pub cores : ℕ
    pub cpu_limit_hz : F
    pub memory_limit_bytes : F

  pub record Gauges : Type 0 where
    pub cpu_kernel_time : F
    pub cpu_user_time : F
    pub cpu_kernel_percent : F
    pub cpu_user_percent : F
    pub cpu_kernel_hz : F
    pub cpu_user_hz : F
    pub cpu_limit_hz : F
    pub cpu_limit_percent : F
    pub memory_working_set : F
    pub memory_commit_charge : F
    pub memory_page_fault_count : F
    pub memory_limit_bytes : F
    pub io_tx_total_bytes : F
    pub io_tx_read_bytes : F
    pub io_tx_write_bytes : F
    pub io_tx_other_bytes : F
    pub io_read_ops_total : F
    pub io_write_ops_total : F
    pub io_other_ops_total : F
    pub io_total_operations : F

  pub record Metrics : Type 0 where
    pub settings : Settings
    pub collector : Collector L
    pub gauges : Gauges

  -- The collector that `Init` makes.
  unfoldable pub init_collector : Settings → Collector L
  init_collector s = record {
    last_total_duration = 0;
    last_user_duration = 0;
    last_kernel_duration = 0;
    cores = s.cores;
    mhz_per_core = s.mhz_per_core;
  }

  set_cpu : Settings → Sample L → ProcessStats → Gauges → Gauges
  set_cpu m sample stats g = record g {
    cpu_user_time = seconds stats.cpu_stats.total_user_time;
    cpu_kernel_time = seconds stats.cpu_stats.total_kernel_time;
    cpu_kernel_hz = of_uint64 sample.kernel_hz;
    cpu_kernel_percent = sample.kernel_percent;
    cpu_user_hz = of_uint64 sample.user_hz;
    cpu_user_percent = sample.user_percent;
    cpu_limit_hz = m.cpu_limit_hz;
    cpu_limit_percent = div m.cpu_limit_hz (mul (mul m.mhz_per_core (of_int64 m.cores)) million);
  }

  set_memory : Settings → ProcessStats → Gauges → Gauges
  set_memory m stats g = record g {
    memory_commit_charge = of_uint64 stats.memory_stats.private_usage_bytes;
    memory_working_set = of_uint64 stats.memory_stats.working_set_size_bytes;
    memory_page_fault_count = of_uint64 stats.memory_stats.page_fault_count;
    memory_limit_bytes = m.memory_limit_bytes;
  }

  set_io : ProcessStats → Gauges → Gauges
  set_io stats g = record g {
    io_tx_read_bytes = of_uint64 stats.io_stats.total_tx_read_bytes;
    io_tx_write_bytes = of_uint64 stats.io_stats.total_tx_written_bytes;
    io_tx_other_bytes = of_uint64 stats.io_stats.total_tx_other_bytes;
    io_tx_total_bytes = of_uint64 stats.io_stats.total_tx_count_bytes;
    io_read_ops_total = of_uint64 stats.io_stats.total_read_io_operations;
    io_write_ops_total = of_uint64 stats.io_stats.total_write_io_operations;
    io_other_ops_total = of_uint64 stats.io_stats.total_other_io_operations;
    io_total_operations = of_uint64 stats.io_stats.total_io_operations;
  }

  unfoldable pub on_stats : ProcessStats → Metrics → Metrics
  unfolding set_cpu set_memory set_io
  on_stats stats m =
      let (s, c) = sample L (measurement_of stats) m.collector in
      record m {
        collector = c;
        gauges = set_io stats (set_memory m.settings stats (set_cpu m.settings s stats m.gauges));
      }
