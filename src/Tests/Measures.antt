-- ===== src/Tests/Measures.antt =====
-- Runs of metrics/metrics.go over the statistics of container/container.go.
use damon.Prelude.{
  Bool, true, if◌then◌else◌, ℕ, ◌^◌, ◌<◌, ◌≡◌, refl, String, ◌<>◌, [], ◌∷◌, arith, map,
}
use damon.Prelude.Words.{sub64}
use damon.Process.{done, panic}
use damon.Job.Accounting.{Accounting}
use damon.Container.Stats.{MemoryCounters, process_stats}
use damon.Metrics.Collector.{Measurement, Collector, sample, samples, measurement_of}
use damon.Metrics.Collector.Laws.{samples-sum, sample-process_stats, sum_total, sum_kernel}
use damon.Metrics.Registration.{init, all_opts}
use damon.Metrics.Registration.Laws.{prefix, prefixed, all_valid, reverse_onto, init-valid}
use damon.Tests.Data.{fixed_metrics}

abbrev collector : Collector fixed_metrics
collector = record {
  last_total_duration = 10;
  last_user_duration = 4;
  last_kernel_duration = 3;
  cores = 2;
  mhz_per_core = 2000;
}

abbrev first : Measurement
first = record { total_time = 20; user_time = 6; kernel_time = 5 }

abbrev second : Measurement
second = record { total_time = 50; user_time = 9; kernel_time = 8 }

samples-sum_example :
    let (ss, c') = samples fixed_metrics (first ∷ second ∷ []) collector in
    (sum_total fixed_metrics ss ≡ sub64 c'.last_total_duration 10)
    × (sum_kernel fixed_metrics ss ≡ sub64 c'.last_kernel_duration 3)
    × (c'.last_total_duration < 2 ^ 64)
    × (c'.last_kernel_duration < 2 ^ 64)
samples-sum_example =
    samples-sum fixed_metrics (first ∷ second ∷ []) collector
      ((omega arith, omega arith, omega arith), ((omega arith, omega arith, omega arith), tt))
      (omega arith) (omega arith)

abbrev accounts : ℕ → Accounting
accounts n = record {
  basic = record {
    total_user_time = n;
    total_kernel_time = n;
    this_period_total_user_time = 0;
    this_period_total_kernel_time = 0;
    total_page_fault_count = 0;
    total_processes = 1;
    active_processes = 1;
    total_terminated_processes = 0;
  };
  io = record {
    read_operation_count = n;
    write_operation_count = 2;
    other_operation_count = 3;
    read_transfer_count = 40;
    write_transfer_count = 50;
    other_transfer_count = 60;
  };
}

abbrev used_memory : MemoryCounters
used_memory = record { working_set_size = 4096; private_usage = 2048; page_faults = 7 }

-- Two processors, of which the job used one for the ten seconds between the polls.
sample-process_stats_example :
    let L = fixed_metrics in
    let c' =
      (sample L (measurement_of (process_stats 2 10 (accounts 0) used_memory)) collector).1 in
    let s = (sample L (measurement_of (process_stats 2 20 (accounts 10) used_memory)) c').0 in
    (s.kernel_percent ≡ L.div (L.of_int64 (sub64 10 0)) (L.of_int64 40))
    × (s.user_percent ≡ L.div (L.of_int64 (sub64 10 0)) (L.of_int64 40))
sample-process_stats_example =
    sample-process_stats fixed_metrics collector 2 10 20 (accounts 0) (accounts 10) used_memory
      used_memory refl (omega arith) (omega arith) (omega arith)

-- `BuildFQName` for a subsystem and a name that are not empty, and a library that takes every name.
abbrev joined : String → String → String → String
joined namespace s n = prefix namespace <> (s <> ("_" <> n))

abbrev any_name : String → Bool
any_name s = true

init-valid_example : init joined any_name true "damon" ≡ (
    if all_valid any_name true "damon" all_opts
    then done (map (prefixed "damon") (reverse_onto [] all_opts))
    else panic)
init-valid_example = init-valid joined any_name true "damon" (λ s n h k. refl)
