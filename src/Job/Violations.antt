-- ===== src/Job/Violations.antt =====
-- What the kernel reports of limits that were crossed (win32/job_object_info_win32.go,
-- win32/job_object.go), and the completion port that the reports come by (win32/job_object_win32.go).
pub mod Older
pub mod Print
use damon.Prelude.{
  ℕ, ◌%◌, ◌^◌, Bool, ◌||◌, Option, none, some, bit_and, ◌==◌, if◌then◌else◌, Result, ok, err,
}
use damon.Prelude.Words.{has_flag}
use damon.Job.Flags.{
  limit_job_time, limit_rate_control, limit_io_rate_control, limit_net_rate_control,
  limit_job_memory, limit_job_memory_low, limit_read_bytes, limit_write_bytes,
}

pub record LimitViolation : Type 0 where
  pub measured : ℕ
  pub limit : ℕ

pub record LimitViolationInfo : Type 0 where
  pub job_time : Option LimitViolation
  pub cpu_rate : Option LimitViolation
  pub memory : Option LimitViolation
  pub high_memory : Option LimitViolation
  pub low_memory : Option LimitViolation
  pub io_read_bytes : Option LimitViolation
  pub io_write_bytes : Option LimitViolation
  pub io_rate : Option LimitViolation
  pub net_rate : Option LimitViolation

-- _JOBOBJECT_LIMIT_VIOLATION_INFORMATION_2
pub record ViolationReport : Type 0 where
  pub limit_flags : ℕ
  pub violation_limit_flags : ℕ
  pub read_bytes : ℕ
  pub read_bytes_limit : ℕ
  pub write_bytes : ℕ
  pub write_bytes_limit : ℕ
  pub user_time : ℕ
  pub user_time_limit : ℕ
  pub job_memory : ℕ
  pub job_memory_limit : ℕ
  pub rate_tolerance : ℕ
  pub rate_tolerance_limit : ℕ
  pub job_low_memory_limit : ℕ
  pub io_rate_tolerance : ℕ
  pub io_rate_tolerance_limit : ℕ
  pub net_rate_tolerance : ℕ
  pub net_rate_tolerance_limit : ℕ

abbrev pub no_violation : LimitViolationInfo
no_violation = record {
  job_time = none;
  cpu_rate = none;
  memory = none;
  high_memory = none;
  low_memory = none;
  io_read_bytes = none;
  io_write_bytes = none;
  io_rate = none;
  net_rate = none;
}

abbrev violation : ℕ → ℕ → Option LimitViolation
violation m l = some (record { measured = m; limit = l })

-- `if (v & flag) > 0 { field = &LimitViolation{m, l} }`; a later test may overwrite the field.
unfoldable overwrite : ℕ → ℕ → ℕ → ℕ → Option LimitViolation → Option LimitViolation
overwrite v flag m l old = if has_flag v flag then violation m l else old

-- `v` in the source: the limits that were crossed and are in force.
abbrev pub crossed : ViolationReport → ℕ
crossed i = bit_and i.violation_limit_flags i.limit_flags

-- `LimitViolationInfo` of the second report: a low-memory violation is stored as a high one, written
-- bytes as read ones, and a network rate as an I/O rate.
unfoldable pub limit_violation_info : ViolationReport → LimitViolationInfo
unfolding overwrite
limit_violation_info i =
    let v : ℕ = crossed i in
    record no_violation {
      high_memory =
          overwrite v limit_job_memory_low i.job_memory i.job_low_memory_limit
            (overwrite v limit_job_memory i.job_memory i.job_memory_limit none);
      io_read_bytes =
          overwrite v limit_write_bytes i.write_bytes i.write_bytes_limit
            (overwrite v limit_read_bytes i.read_bytes i.read_bytes_limit none);
      job_time = overwrite v limit_job_time i.user_time i.user_time_limit none;
      cpu_rate = overwrite v limit_rate_control i.rate_tolerance i.rate_tolerance_limit none;
      io_rate =
          overwrite v limit_net_rate_control i.net_rate_tolerance i.net_rate_tolerance_limit
            (overwrite v limit_io_rate_control i.io_rate_tolerance i.io_rate_tolerance_limit none);
    }

pub record Notification : Type 0 where
  pub code : ℕ
  pub process_id : ℕ
  pub info : Option LimitViolationInfo

pub data QueueError : Type 0 where
  call_failed : ℕ → QueueError  -- from `GetQueuedCompletionStatus` or the query
  wrong_completion_key : QueueError
  unknown_message : ℕ → QueueError

-- A packet that the completion port gives.
pub record Packet : Type 0 where
  pub packet_code : ℕ
  pub key : ℕ
  pub overlapped : ℕ

abbrev pub msg_notification_limit : ℕ
msg_notification_limit = 11

-- The `case`s of the switch that need no query.
abbrev pub plain_message : ℕ → Bool
plain_message c =
    c == 1 || c == 2 || c == 3 || c == 4 || c == 6 || c == 7 || c == 8 || c == 9 || c == 10

with_report : Packet → Result ℕ ViolationReport → Result QueueError Notification
unfolding limit_violation_info
with_report p (err e) = err (call_failed e)
with_report p (ok r) = ok (record {
  code = p.packet_code;
  process_id = p.overlapped;
  info = some (limit_violation_info r);
})

read_packet : ℕ → Packet → Result ℕ ViolationReport → Result QueueError Notification
unfolding with_report
read_packet job p query =
    if p.key == job % 2 ^ 32
    then (if plain_message p.packet_code
        then ok (record { code = p.packet_code; process_id = p.overlapped; info = none })
        else if p.packet_code == msg_notification_limit
        then with_report p query
        else err (unknown_message p.packet_code))
    else err wrong_completion_key

-- `getQueuedCompletionStatus`: what the port gives, and what the query for a report would give.
unfoldable pub get_queued_completion_status :
    ℕ → Result ℕ Packet → Result ℕ ViolationReport → Result QueueError Notification
unfolding read_packet
get_queued_completion_status job (err e) query = err (call_failed e)
get_queued_completion_status job (ok p) query = read_packet job p query

-- `(*JobObject).PollNotifications`; with no completion port it gives neither a value nor an error.
unfoldable pub poll_job_notifications :
    ℕ → ℕ → Result ℕ Packet → Result ℕ ViolationReport → Result QueueError (Option Notification)
unfolding get_queued_completion_status
poll_job_notifications job completion packet query =
    if completion == 0 then ok none else (elim (get_queued_completion_status job packet query) [
      | err e ↦ err e
      | ok n ↦ ok (some n)
    ])
