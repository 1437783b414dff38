-- ===== src/Job/Notify.antt =====
-- The notification limits of win32/job_object_info.go.
pub mod Laws
use damon.Prelude.{ℕ, zero, suc, ◌/◌, Option, none, some, bit_or, ltb, if◌then◌else◌}
use damon.Prelude.Int.{ℤ, pos, negsuc}
use damon.Job.Flags.{
  limit_job_time, limit_rate_control, limit_io_rate_control, limit_net_rate_control,
  limit_job_memory, limit_job_memory_low, limit_read_bytes, limit_write_bytes,
}
use damon.Job.Kernel.{NotificationInfo}

pub record RateTolerance : Type 0 where
  pub level : ℕ
  pub interval : ℕ

pub record NotificationLimitInformation : Type 0 where
  pub user_time_limit : ℤ  -- nanoseconds
  pub cpu_rate_limit : Option RateTolerance
  pub io_rate_limit : Option RateTolerance
  pub network_rate_limit : Option RateTolerance
  pub job_memory : Option ℕ  -- bytes
  pub job_low_memory : Option ℕ
  pub io_read_bytes : ℕ
  pub io_write_bytes : ℕ

zero_notification : NotificationInfo
zero_notification = record {
  io_read_bytes_limit = 0;
  io_write_bytes_limit = 0;
  per_job_user_time_limit = 0;
  job_memory_limit = 0;
  rate_control_tolerance = 0;
  rate_control_tolerance_interval = 0;
  limit_flags = 0;
  io_rate_control_tolerance = 0;
  job_low_memory_limit = 0;
  io_rate_control_tolerance_interval = 0;
  net_rate_control_tolerance = 0;
  net_rate_control_tolerance_interval = 0;
}

with_flag : ℕ → NotificationInfo → NotificationInfo
with_flag flag n = record n { limit_flags = bit_or n.limit_flags flag }

with_user_time : ℤ → NotificationInfo → NotificationInfo
unfolding with_flag
with_user_time (pos zero) n = n
with_user_time (pos (suc t)) n = record (with_flag limit_job_time n) {
  per_job_user_time_limit = suc t / 100;
}
with_user_time (negsuc t) n = n

with_cpu_rate : Option RateTolerance → NotificationInfo → NotificationInfo
unfolding with_flag
with_cpu_rate none n = n
with_cpu_rate (some t) n = record (with_flag limit_rate_control n) {
  rate_control_tolerance = t.level;
  rate_control_tolerance_interval = t.interval;
}

with_io_rate : Option RateTolerance → NotificationInfo → NotificationInfo
unfolding with_flag
with_io_rate none n = n
with_io_rate (some t) n = record (with_flag limit_io_rate_control n) {
  io_rate_control_tolerance = t.level;
  io_rate_control_tolerance_interval = t.interval;
}

with_net_rate : Option RateTolerance → NotificationInfo → NotificationInfo
unfolding with_flag
with_net_rate none n = n
with_net_rate (some t) n = record (with_flag limit_net_rate_control n) {
  net_rate_control_tolerance = t.level;
  net_rate_control_tolerance_interval = t.interval;
}

with_job_memory : Option ℕ → NotificationInfo → NotificationInfo
unfolding with_flag
with_job_memory none n = n
with_job_memory (some b) n = record (with_flag limit_job_memory n) { job_memory_limit = b }

with_low_memory : Option ℕ → NotificationInfo → NotificationInfo
unfolding with_flag
with_low_memory none n = n
with_low_memory (some b) n = record (with_flag limit_job_memory_low n) { job_low_memory_limit = b }

with_read_bytes : NotificationLimitInformation → NotificationInfo → NotificationInfo
unfolding with_flag
with_read_bytes i n =
    if ltb 0 i.io_read_bytes
    then (record (with_flag limit_read_bytes n) { io_read_bytes_limit = i.io_read_bytes })
    else n

-- The source tests `IOReadBytesLimit` here too.
with_write_bytes : NotificationLimitInformation → NotificationInfo → NotificationInfo
unfolding with_flag
with_write_bytes i n =
    if ltb 0 i.io_read_bytes
    then (record (with_flag limit_write_bytes n) { io_write_bytes_limit = i.io_write_bytes })
    else n

-- The structure that `(*NotificationLimitInformation).SetJobInfo` hands to the kernel.
unfoldable pub notification_info : NotificationLimitInformation → NotificationInfo
unfolding zero_notification with_user_time with_cpu_rate with_io_rate with_net_rate with_job_memory
    with_low_memory with_read_bytes with_write_bytes
notification_info i =
    let n0 = with_user_time i.user_time_limit zero_notification in
    let n1 = with_cpu_rate i.cpu_rate_limit n0 in
    let n2 = with_io_rate i.io_rate_limit n1 in
    let n3 = with_net_rate i.network_rate_limit n2 in
    let n4 = with_job_memory i.job_memory n3 in
    let n5 = with_low_memory i.job_low_memory n4 in with_write_bytes i (with_read_bytes i n5)
