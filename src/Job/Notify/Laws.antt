-- ===== src/Job/Notify/Laws.antt =====
-- Which notifications are asked for (win32/job_object_info.go).
use damon.Prelude.{
  if◌then◌else◌, ℕ, bit_or, ◌/◌, ◌≡◌, Bool, true, false, Option, none, some, arith, ltb,
}
use damon.Prelude.Int.{pos, pos_part, ltb_ℤ}
use damon.Prelude.Words.{has_flag}
use damon.Job.Flags.{
  limit_job_time, limit_rate_control, limit_io_rate_control, limit_net_rate_control,
  limit_job_memory, limit_job_memory_low, limit_read_bytes, limit_write_bytes,
}
use damon.Job.Notify.{NotificationLimitInformation, notification_info}

abbrev is_some {ℓ} : {A : Type ℓ} → Option A → Bool
is_some none = false
is_some (some a) = true

or_if : Bool → ℕ → ℕ → ℕ
or_if b flag v = if b then bit_or v flag else v

-- The flags of a structure, by the tests that set them.
notify_flags : Bool → Bool → Bool → Bool → Bool → Bool → Bool → ℕ
unfolding or_if
notify_flags time cpu io net memory low read = or_if read limit_write_bytes (
    or_if read limit_read_bytes (
      or_if low limit_job_memory_low (
        or_if memory limit_job_memory (
          or_if net limit_net_rate_control (
            or_if io limit_io_rate_control
              (or_if cpu limit_rate_control (or_if time limit_job_time 0)))))))

notify_flags-agree :
    (time cpu io net memory low read : Bool)
    → let v = notify_flags time cpu io net memory low read in
      (has_flag v limit_job_time ≡ time)
      × (has_flag v limit_rate_control ≡ cpu)
      × (has_flag v limit_io_rate_control ≡ io)
      × (has_flag v limit_net_rate_control ≡ net)
      × (has_flag v limit_job_memory ≡ memory)
      × (has_flag v limit_job_memory_low ≡ low)
      × (has_flag v limit_read_bytes ≡ read)
      × (has_flag v limit_write_bytes ≡ read)
unfolding notify_flags
notify_flags-agree time cpu io net memory low read = ground arith

notification_info-limit_flags :
    (i : NotificationLimitInformation)
    → (notification_info i).limit_flags
      ≡ notify_flags
          (ltb_ℤ (pos 0) i.user_time_limit)
          (is_some i.cpu_rate_limit)
          (is_some i.io_rate_limit)
          (is_some i.network_rate_limit)
          (is_some i.job_memory)
          (is_some i.job_low_memory)
          (ltb 0 i.io_read_bytes)
unfolding notification_info notify_flags
notification_info-limit_flags i = ground arith

notification_info-user_time :
    (i : NotificationLimitInformation)
    → (notification_info i).per_job_user_time_limit ≡ pos_part i.user_time_limit / 100
unfolding notification_info
notification_info-user_time i = ground arith

notification_info-read_bytes :
    (i : NotificationLimitInformation) → (notification_info i).io_read_bytes_limit ≡ i.io_read_bytes
unfolding notification_info
notification_info-read_bytes i = ground arith

-- Each notification is asked for exactly when its limit is given, and carries the values given; a user
-- time is passed in ticks of 100 ns. The one exception is the limit on bytes written: it is asked for
-- exactly when a limit on bytes read is given.
pub notification_info-flags :
    (i : NotificationLimitInformation)
    → let n = notification_info i in
      (has_flag n.limit_flags limit_job_time ≡ ltb_ℤ (pos 0) i.user_time_limit)
      × (n.per_job_user_time_limit ≡ pos_part i.user_time_limit / 100)
      × (has_flag n.limit_flags limit_rate_control ≡ is_some i.cpu_rate_limit)
      × (has_flag n.limit_flags limit_io_rate_control ≡ is_some i.io_rate_limit)
      × (has_flag n.limit_flags limit_net_rate_control ≡ is_some i.network_rate_limit)
      × (has_flag n.limit_flags limit_job_memory ≡ is_some i.job_memory)
      × (has_flag n.limit_flags limit_job_memory_low ≡ is_some i.job_low_memory)
      × (has_flag n.limit_flags limit_read_bytes ≡ ltb 0 i.io_read_bytes)
      × (n.io_read_bytes_limit ≡ i.io_read_bytes)
      × (has_flag n.limit_flags limit_write_bytes ≡ ltb 0 i.io_read_bytes)
notification_info-flags i =
    let e = notification_info-limit_flags i in
    let v =
      notify_flags-agree (ltb_ℤ (pos 0) i.user_time_limit) (is_some i.cpu_rate_limit)
        (is_some i.io_rate_limit) (is_some i.network_rate_limit) (is_some i.job_memory)
        (is_some i.job_low_memory) (ltb 0 i.io_read_bytes) in
    (
      rw e v.0,
      notification_info-user_time i,
      rw e v.1,
      rw e v.2,
      rw e v.3,
      rw e v.4,
      rw e v.5,
      rw e v.6,
      notification_info-read_bytes i,
      rw e v.7,
    )

-- A limit on bytes written that comes without one on bytes read is dropped: the structure is the one
-- for no limit on bytes at all.
pub notification_info-write_only :
    (i : NotificationLimitInformation)
    → i.io_read_bytes ≡ 0
    → notification_info i ≡ notification_info (record i { io_write_bytes = 0 })
unfolding notification_info
notification_info-write_only i h = ground arith
