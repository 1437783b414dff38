-- ===== src/Metrics/Counters/Served.antt =====
-- The counters that are served for the notifications that `Start` asks for: container/container.go at both
-- ends, and metrics/metrics.go.
use damon.Prelude.{
  ℕ, ◌≡◌, ◌≢◌, ◌∙◌, refl, String, Bool, false, List, [], ◌∷◌, map, All, arith, ok, err, bit_and,
}
use damon.Prelude.Words.{has_flag}
use damon.Prelude.Masks.{bit_and_assoc, bit_and-nothing}
use damon.Config.{Config}
use damon.Job.Flags.{
  limit_rate_control, limit_io_rate_control, limit_net_rate_control, limit_job_memory,
  limit_job_memory_low,
}
use damon.Job.Notify.{notification_info}
use damon.Job.CpuRate.{Float}
use damon.Job.Kernel.{Handle}
use damon.Job.Violations.{ViolationReport}
use damon.Container.Start.{Answers, notification_limits}
use damon.Container.Notifications.{cpu, io, memory, poll_notifications, start}
use damon.Container.Notifications.Laws.{Answer, port_turn}
use damon.Metrics.Counters.{Counters, on_violations}
use damon.Metrics.Counters.Refinement.{plus, reports, crossed_under, poll_notifications-refines}

-- A report for limits of one kind tells of no other kind.
masked : (v flags mask : ℕ) → bit_and flags mask ≡ 0 → has_flag (bit_and v flags) mask ≡ false
masked v flags mask h = rw (bit_and_assoc v flags mask, h, bit_and-nothing v) refl

module _ (flags : ℕ) where
  abbrev pub IsOf : Answer → Type 0
  IsOf (ok p, ok r) = r.limit_flags ≡ flags
  IsOf (_, _) = Unit

  reports-none :
      (kind : ViolationReport → Bool) (job : ℕ) (answers : List Answer)
      → ((r : ViolationReport) → r.limit_flags ≡ flags → kind r ≡ false)
      → All IsOf answers
      → reports kind job answers ≡ 0
  reports-none kind job [] k h = refl
  reports-none kind job ((ok p, ok r) ∷ answers) k (f, h) =
      ground (arith, k r f, reports-none kind job answers k h)
  reports-none kind job ((ok p, err e) ∷ answers) k (f, h) = reports-none kind job answers k h
  reports-none kind job ((err e, r) ∷ answers) k (f, h) = reports-none kind job answers k h

io_of_cpu : (r : ViolationReport) → r.limit_flags ≡ limit_rate_control → crossed_under io r ≡ false
io_of_cpu r h = rw h (
    rw (masked r.violation_limit_flags limit_rate_control limit_io_rate_control refl)
      (rw (masked r.violation_limit_flags limit_rate_control limit_net_rate_control refl) refl))

memory_of_cpu :
    (r : ViolationReport) → r.limit_flags ≡ limit_rate_control → crossed_under memory r ≡ false
memory_of_cpu r h = rw h (
    rw (masked r.violation_limit_flags limit_rate_control limit_job_memory refl)
      (rw (masked r.violation_limit_flags limit_rate_control limit_job_memory_low refl) refl))

module _ (L : Float) (total : L.F) (handle : Handle) (has_stats : Bool) (cfg : Config)
    (a : Answers) where
  abbrev pub asked_flags : ℕ
  asked_flags = (notification_info (notification_limits L total handle has_stats cfg a)).limit_flags

  asked_cpu : asked_flags ≡ limit_rate_control
  unfolding notification_info notification_limits
  asked_cpu = refl

  -- Where the kernel reports only of the limits that `Start` asked to be told of, for a job with a
  -- completion port, the counter of CPU violations goes up by the number of such reports for this job,
  -- and those of memory and I/O violations never move.
  pub on_violations-asked :
      (decimal : ℕ → String) (job completion : ℕ) (answers : List Answer) (c : Counters)
      → completion ≢ 0
      → All (IsOf asked_flags) answers
      → on_violations c
          (poll_notifications decimal start (map (port_turn job completion) answers)).delivered
        ≡ plus c (reports (crossed_under cpu) job answers) 0 0
  on_violations-asked decimal job completion answers c h f =
      poll_notifications-refines decimal job completion answers c h
      ∙ rw
          (
            reports-none asked_flags (crossed_under io) job answers
                (λ r e. io_of_cpu r (e ∙ asked_cpu)) f,
            reports-none asked_flags (crossed_under memory) job answers
                (λ r e. memory_of_cpu r (e ∙ asked_cpu)) f,
          )
          refl
