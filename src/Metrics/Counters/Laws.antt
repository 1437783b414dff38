-- ===== src/Metrics/Counters/Laws.antt =====
-- From the kernel's report to the counters that are served (win32/job_object_info_win32.go,
-- container/container.go, metrics/metrics.go).
use damon.Prelude.{
  ℕ, ◌+◌, ◌≡◌, String, Bool, true, false, ◌||◌, List, [], ◌∷◌, arith, ok, length, if◌then◌else◌,
  ◌==◌,
}
use damon.Prelude.Words.{has_flag}
use damon.Job.Flags.{
  limit_rate_control, limit_io_rate_control, limit_net_rate_control, limit_job_memory,
  limit_job_memory_low,
}
use damon.Job.Violations.{
  ViolationReport, Notification, Packet, crossed, limit_violation_info,
  get_queued_completion_status, msg_notification_limit,
}
use damon.Container.Notifications.{Violation, violations_of}
use damon.Metrics.Counters.{Counters, on_violation, on_violations}

abbrev count_if : Bool → ℕ
count_if true = 1
count_if false = 0

-- A notification of the completion port adds one to the CPU counter exactly if the CPU rate was
-- crossed, one to the I/O counter exactly if the I/O or the network rate was, and one to the memory
-- counter exactly if the high or the low memory limit was; it changes no counter otherwise.
pub notified-counts :
    (decimal : ℕ → String) (job : ℕ) (p : Packet) (r : ViolationReport) (n : Notification)
    (c : Counters)
    → get_queued_completion_status job (ok p) (ok r) ≡ ok n
    → let v = crossed r in
      let told = p.packet_code == msg_notification_limit in
      let after = on_violations c (violations_of decimal n) in
      (after.cpu_notification
        ≡ c.cpu_notification + (if told then count_if (has_flag v limit_rate_control) else 0))
      × (after.io_notification
          ≡ c.io_notification
            + (if told
                then count_if
                    (has_flag v limit_io_rate_control || has_flag v limit_net_rate_control)
                else 0))
      × (after.memory_notification
          ≡ c.memory_notification
            + (if told
                then count_if (has_flag v limit_job_memory || has_flag v limit_job_memory_low)
                else 0))
unfolding get_queued_completion_status violations_of on_violations limit_violation_info
notified-counts decimal job p r n c h = ground arith

-- No violation is lost or counted twice: the three counters together grow by the number of violations.
pub on_violations-sum :
    (vs : List Violation) (c : Counters)
    → let after = on_violations c vs in
      after.cpu_notification + after.io_notification + after.memory_notification
      ≡ c.cpu_notification + c.io_notification + c.memory_notification + length vs
unfolding on_violations
on_violations-sum [] c = ground arith
on_violations-sum (v ∷ vs) c = ground (arith, on_violations-sum vs (on_violation c v))
