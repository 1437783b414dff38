-- ===== src/Container/Start/Cleanup.antt =====
-- What a failed `Start` leaves of the job that it made (container/container.go).
use damon.Prelude.{◌≡◌, Bool, true, false, some, arith}
use damon.Config.{Config}
use damon.Job.CpuRate.{Float}
use damon.Job.Kernel.{Handle}
use damon.Container.Start.{
  Call, close_job, Answers, StartError, basic_limits_failed, notification_failed, cpu_rate_failed,
  resume_failed, start,
}
use damon.Container.Start.Laws.{any_call}

abbrev pub is_close_job : Call → Bool
is_close_job close_job = true
is_close_job _ = false

-- The errors behind the assignment of the child to its job, but for a CPU limit that is too low.
abbrev pub is_late : StartError → Bool
is_late (basic_limits_failed e) = true
is_late (notification_failed e) = true
is_late (cpu_rate_failed e) = true
is_late (resume_failed e) = true
is_late _ = false

module _ (L : Float) (total : L.F) (job : Handle) (has_stats : Bool) (cfg : Config)
    (a : Answers) where
  -- A failed start closes the job exactly where a limit could not be set or the child not be resumed; on
  -- every other failure, of the tokens, the start, the assignment or a CPU limit that is too low, the
  -- job's handle stays open.
  pub start-close_job :
      (e : StartError)
      → (start L total job has_stats cfg a).1 ≡ some e
      → any_call is_close_job (start L total job has_stats cfg a).0 ≡ is_late e
  unfolding start
  start-close_job e h = ground arith
