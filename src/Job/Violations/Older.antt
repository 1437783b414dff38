-- ===== src/Job/Violations/Older.antt =====
-- The older of the two reports of the kernel, and its reading (win32/job_object_info_win32.go).
use damon.Prelude.{ℕ, ◌≡◌, refl, false, none, bit_and}
use damon.Prelude.Words.{has_flag}
use damon.Job.Flags.{
  limit_job_time, limit_rate_control, limit_io_rate_control, limit_net_rate_control,
  limit_job_memory, limit_job_memory_low, limit_read_bytes, limit_write_bytes,
}
use damon.Job.Violations.{
  LimitViolationInfo, ViolationReport, no_violation, overwrite, crossed, limit_violation_info,
}

-- _JOBOBJECT_LIMIT_VIOLATION_INFORMATION
pub record OlderReport : Type 0 where
  pub limit_flags : ℕ
  pub violation_limit_flags : ℕ
  pub read_bytes : ℕ
  pub read_bytes_limit : ℕ
  pub write_bytes : ℕ
  pub write_bytes_limit : ℕ
  pub user_time : ℕ
  pub user_time_limit : ℕ
  pub job_memory : ℕ
  pub job_memory_limit : ℕ
  pub rate_tolerance : ℕ
  pub rate_tolerance_limit : ℕ

abbrev older_crossed : OlderReport → ℕ
older_crossed i = bit_and i.violation_limit_flags i.limit_flags

-- Its `LimitViolationInfo`, where written bytes are stored as read ones too.
unfoldable pub older_violation_info : OlderReport → LimitViolationInfo
unfolding overwrite
older_violation_info i =
    let v : ℕ = older_crossed i in
    record no_violation {
      high_memory = overwrite v limit_job_memory i.job_memory i.job_memory_limit none;
      io_read_bytes =
          overwrite v limit_write_bytes i.write_bytes i.write_bytes_limit
            (overwrite v limit_read_bytes i.read_bytes i.read_bytes_limit none);
      job_time = overwrite v limit_job_time i.user_time i.user_time_limit none;
      cpu_rate = overwrite v limit_rate_control i.rate_tolerance i.rate_tolerance_limit none;
    }

-- The part of a report that the older structure has room for.
abbrev pub older : ViolationReport → OlderReport
older r = record {
  limit_flags = r.limit_flags;
  violation_limit_flags = r.violation_limit_flags;
  read_bytes = r.read_bytes;
  read_bytes_limit = r.read_bytes_limit;
  write_bytes = r.write_bytes;
  write_bytes_limit = r.write_bytes_limit;
  user_time = r.user_time;
  user_time_limit = r.user_time_limit;
  job_memory = r.job_memory;
  job_memory_limit = r.job_memory_limit;
  rate_tolerance = r.rate_tolerance;
  rate_tolerance_limit = r.rate_tolerance_limit;
}

-- The two reports are read alike where the limits that only the newer one knows, on low memory and on
-- the I/O and network rates, are not crossed.
pub older_violation_info-newer :
    (r : ViolationReport)
    → has_flag (crossed r) limit_job_memory_low ≡ false
    → has_flag (crossed r) limit_io_rate_control ≡ false
    → has_flag (crossed r) limit_net_rate_control ≡ false
    → older_violation_info (older r) ≡ limit_violation_info r
unfolding older_violation_info limit_violation_info overwrite
older_violation_info-newer r low rate net = rw (low, rate, net) refl
