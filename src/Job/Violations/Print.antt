-- ===== src/Job/Violations/Print.antt =====
-- The texts of violations and of tolerances (win32/job_object.go, win32/job_object_info_win32.go). `decimal`
-- is what `%d` makes of a number.
use damon.Prelude.{ℕ, String, ◌<>◌, Option, none, some}
use damon.Job.Violations.{LimitViolation, LimitViolationInfo}

-- The codes of the packets that `JobObjectNotification` shows under names of its own.
pub data MsgCode : Type 0 where
  end_of_job_time : MsgCode
  end_of_process_time : MsgCode
  active_process_limit : MsgCode
  active_process_zero : MsgCode
  new_process : MsgCode
  exit_process : MsgCode
  abnormal_exit_process : MsgCode
  process_memory_limit : MsgCode
  job_memory_limit : MsgCode
  notification_limit : MsgCode

-- The first has the code of the second.
unfoldable pub msg_code : MsgCode → ℕ
msg_code end_of_job_time = 2
msg_code end_of_process_time = 2
msg_code active_process_limit = 3
msg_code active_process_zero = 4
msg_code new_process = 6
msg_code exit_process = 7
msg_code abnormal_exit_process = 8
msg_code process_memory_limit = 9
msg_code job_memory_limit = 10
msg_code notification_limit = 11

-- The keys of the two tables of tolerances: a percentage, and a time in seconds.
pub data Tolerance : Type 0 where
  tolerance_low : Tolerance
  tolerance_medium : Tolerance
  tolerance_high : Tolerance

unfoldable pub tolerance_percent : Tolerance → ℕ
tolerance_percent tolerance_low = 20
tolerance_percent tolerance_medium = 40
tolerance_percent tolerance_high = 60

pub data ToleranceInterval : Type 0 where
  interval_short : ToleranceInterval
  interval_medium : ToleranceInterval
  interval_long : ToleranceInterval

unfoldable pub interval_seconds : ToleranceInterval → ℕ
interval_seconds interval_short = 10
interval_seconds interval_medium = 60
interval_seconds interval_long = 600

module _ (decimal : ℕ → String) where
  -- `(*LimitViolation).String`
  unfoldable pub violation_string : LimitViolation → String
  violation_string v = "measured=" <> (decimal v.measured <> (" limit=" <> decimal v.limit))

  line : String → Option LimitViolation → String
  unfolding violation_string
  line label none = ""
  line label (some v) = label <> (" Violation " <> (violation_string v <> "\n"))

  -- `(*LimitViolationInfo).String`
  unfoldable pub info_string : LimitViolationInfo → String
  unfolding line
  info_string i =
      "violation info: \n"
      <> (line "Job Time" i.job_time
          <> (line "CPU Rate" i.cpu_rate
              <> (line "Memory" i.memory
                  <> (line "High Memory" i.high_memory
                      <> (line "Low Memory" i.low_memory
                          <> (line "IO Read Bytes" i.io_read_bytes
                              <> (line "IO Write Bytes" i.io_write_bytes
                                  <> (line "IO Rate" i.io_rate <> line "Net Rate" i.net_rate))))))))
