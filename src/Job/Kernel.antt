-- ===== src/Job/Kernel.antt =====
-- The call `SetInformationJobObject` of the Windows kernel, as the code sees it: a structure and its
-- size go in, a return value and an error number come out.
use damon.Prelude.{ℕ, Option, none, some, ◌==◌, if◌then◌else◌}
use damon.Job.Limits.{BasicInfo, ExtendedInfo}

pub record CpuRateInfo : Type 0 where
  pub control_flags : ℕ
  pub rate : ℕ

pub record CpuRateMinMaxInfo : Type 0 where
  pub control_flags : ℕ
  pub min_rate : ℕ
  pub max_rate : ℕ

pub record NetRateInfo : Type 0 where
  pub max_bandwidth : ℕ
  pub control_flags : ℕ
  pub dscp_tag : ℕ

-- _JOBOBJECT_NOTIFICATION_LIMIT_INFORMATION_2
pub record NotificationInfo : Type 0 where
  pub io_read_bytes_limit : ℕ
  pub io_write_bytes_limit : ℕ
  pub per_job_user_time_limit : ℕ
  pub job_memory_limit : ℕ
  pub rate_control_tolerance : ℕ
  pub rate_control_tolerance_interval : ℕ
  pub limit_flags : ℕ
  pub io_rate_control_tolerance : ℕ
  pub job_low_memory_limit : ℕ
  pub io_rate_control_tolerance_interval : ℕ
  pub net_rate_control_tolerance : ℕ
  pub net_rate_control_tolerance_interval : ℕ

-- What a setter hands over, by its information class. A CPU rate is passed with an explicit size, and
-- may be no structure at all.
pub data Payload : Type 0 where
  basic : BasicInfo → Payload
  extended : ExtendedInfo → Payload
  cpu_rate : ℕ → CpuRateInfo → Payload
  cpu_rate_min_max : ℕ → CpuRateMinMaxInfo → Payload
  cpu_rate_nil : ℕ → Payload
  net_rate : NetRateInfo → Payload
  notification : NotificationInfo → Payload

pub record CallResult : Type 0 where
  pub ret : ℕ
  pub errno : ℕ

abbrev pub Handle : Type 0
Handle = ℕ

-- The end of every `SetJobInfo`: the call fails if it returns 0.
unfoldable pub set_job_info : (Handle → Payload → CallResult) → Handle → Payload → Option ℕ
set_job_info call job p = let r = call job p in if r.ret == 0 then some r.errno else none
