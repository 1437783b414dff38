-- ===== src/Tests/Jobs.antt =====
-- Runs of the limits of win32/job_object_info.go.
use damon.Prelude.{◌≤◌, ◌≡◌, true, false, none, some, arith}
use damon.Prelude.Int.{pos}
use damon.Prelude.Words.{has_flag}
use damon.Job.Flags.{
  limit_job_memory, limit_kill_on_job_close, limit_breakaway_ok, limit_silent_breakaway_ok,
  limit_process_memory,
}
use damon.Job.Limits.{BasicLimitInformation, ExtendedLimitInformation, extended_info}
use damon.Job.Limits.Laws.{extended_info-flags}
use damon.Job.Notify.{NotificationLimitInformation}
use damon.Job.CpuRate.{mhz_to_cpu_rate, mhz_to_weight, max_cpu_rate, max_weight}
use damon.Job.CpuRate.Laws.{mhz_bounds}
use damon.Tests.Data.{fixed, ticks}

abbrev basic : BasicLimitInformation
basic = record {
  scheduling_class = 5;
  priority_class = 0;
  min_working_set_size = pos 4096;
  max_working_set_size = pos 8192;
  processor_affinity = 3;
}

-- A limit on the memory of a process, and none on the job.
abbrev process_only : ExtendedLimitInformation
process_only = record {
  basic = some basic;
  kill_on_job_close = true;
  breakaway_ok = false;
  silent_breakaway_ok = false;
  job_memory_limit = 0;
  process_memory_limit = 65536;
}

extended_info-flags_example :
    let e = extended_info process_only in
    (has_flag e.basic_info.limit_flags limit_job_memory ≡ false)
    × (e.job_memory ≡ 0)
    × (has_flag e.basic_info.limit_flags limit_kill_on_job_close ≡ true)
    × (has_flag e.basic_info.limit_flags limit_breakaway_ok ≡ false)
    × (has_flag e.basic_info.limit_flags limit_silent_breakaway_ok ≡ false)
    × (has_flag e.basic_info.limit_flags limit_process_memory ≡ false)
    × (e.process_memory ≡ 0)
extended_info-flags_example = extended_info-flags process_only

abbrev write_only : NotificationLimitInformation
write_only = record {
  user_time_limit = pos 1000;
  cpu_rate_limit = some (record { level = 1; interval = 3 });
  io_rate_limit = none;
  network_rate_limit = none;
  job_memory = some 65536;
  job_low_memory = none;
  io_read_bytes = 0;
  io_write_bytes = 512;
}

mhz_bounds_example :
    (mhz_to_cpu_rate fixed ticks 0 ≡ 0)
    × (mhz_to_weight fixed ticks 0 ≡ 0)
    × (1 ≤ mhz_to_cpu_rate fixed ticks 500)
    × (mhz_to_cpu_rate fixed ticks 500 ≤ max_cpu_rate)
    × (1 ≤ mhz_to_weight fixed ticks 500)
    × (mhz_to_weight fixed ticks 500 ≤ max_weight)
mhz_bounds_example = mhz_bounds fixed ticks 500 (omega arith)
