-- ===== src/Metrics.antt =====
-- metrics/metrics.go: the CPU sampler, the gauges and counters, and their registration.
pub mod Counters
pub mod Collector
pub mod Registration
pub mod Gauges
