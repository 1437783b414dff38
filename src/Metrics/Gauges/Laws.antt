-- ===== src/Metrics/Gauges/Laws.antt =====
-- What the gauges show after statistics came in (metrics/metrics.go, container/container.go).
use damon.Prelude.{ℕ, ◌+◌, ◌^◌, ◌<◌, ◌≡◌, refl, arith}
use damon.Job.Accounting.{Accounting}
use damon.Container.Stats.{ProcessStats, MemoryCounters, process_stats}
use damon.Metrics.Collector.{Float}
use damon.Metrics.Gauges.{Gauges, Metrics, on_stats}

module _ (L : Float) where
  -- No gauge is left over from before: what the gauges show after statistics came in depends on those,
  -- on the collector and on the settings alone.
  pub on_stats-gauges :
      (stats : ProcessStats) (m : Metrics L) (g : Gauges L)
      → (on_stats L stats (record m { gauges = g })).gauges ≡ (on_stats L stats m).gauges
  unfolding on_stats
  on_stats-gauges stats m g = refl

  -- The totals that are shown for operations and bytes are those of their three parts, where the
  -- kernel's counters add up to less than 2 ^ 64.
  pub on_stats-totals :
      (cpus run_time : ℕ) (i : Accounting) (mem : MemoryCounters) (m : Metrics L)
      → i.io.read_operation_count + i.io.write_operation_count + i.io.other_operation_count < 2 ^ 64
      → i.io.read_transfer_count + i.io.write_transfer_count + i.io.other_transfer_count < 2 ^ 64
      → let c = i.io in
        let g = (on_stats L (process_stats cpus run_time i mem) m).gauges in
        (g.io_total_operations
          ≡ L.of_uint64
              (c.read_operation_count + c.write_operation_count + c.other_operation_count))
        × (g.io_tx_total_bytes
            ≡ L.of_uint64 (c.read_transfer_count + c.write_transfer_count + c.other_transfer_count))
  unfolding on_stats process_stats
  on_stats-totals cpus run_time i mem m h k = ground arith
