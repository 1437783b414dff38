-- ===== src/Container/Start.antt =====
-- `Start` of container/container.go, with `killOnError` and `closeLogError`: the calls that it makes of
-- the operating system, in order, for each way in which they can be answered.
pub mod Laws
pub mod Limits
pub mod InForce
pub mod Promise
pub mod Cleanup
use damon.Prelude.{
  ℕ, ◌*◌, Bool, true, false, ◌&&◌, Option, none, some, List, [], ◌∷◌, ◌++◌, ◌==◌, if◌then◌else◌,
  Result, ok, err,
}
use damon.Prelude.Int.{ℤ, pos, ltb_ℤ, to_uint64}
use damon.Prelude.Words.{mul64}
use damon.Config.{Config, minimum_cpu_mhz}
use damon.Job.Limits.{ExtendedLimitInformation, extended_info}
use damon.Job.Notify.{NotificationLimitInformation, RateTolerance, notification_info}
use damon.Job.CpuRate.{
  CpuRateControlInformation, CpuMaxRateInformation, cpu_rate_payload, Float, mhz_to_cpu_rate,
}
use damon.Job.Kernel.{Payload, extended, notification, CallResult, Handle, set_job_info}

-- What is done, in the order in which it is done. A limit is recorded when it is in force.
pub data Call : Type 0 where
  create_job close_job : Call
  open_token restrict_token close_token : ℕ → Call
  start_suspended : ℕ → Call  -- with the token of the child
  assign set_limit_failed : Call
  set_limit : Payload → Call
  kill resume : Call
  poll_stats poll_notifications : Call

-- How the calls are answered: an error, or the value that is asked for.
pub record Answers : Type 0 where
  pub job : Option ℕ
  pub current_token : Result ℕ ℕ
  pub restricted : ℕ → Result ℕ ℕ
  pub started : Result ℕ ℕ  -- the process id
  pub opened : Option ℕ  -- `OpenProcess`
  pub assigned : Option ℕ
  pub set_information : Handle → Payload → CallResult
  pub resumed : Option ℕ

pub data StartError : Type 0 where
  job_failed token_failed restriction_failed start_failed assign_failed : ℕ → StartError
  no_process_id : StartError
  basic_limits_failed notification_failed cpu_rate_failed resume_failed : ℕ → StartError
  cpu_limit_too_low : StartError

abbrev pub mb_to_bytes : ℕ
mb_to_bytes = 1024 * 1024

abbrev pub Run : Type 0
Run = List Call × Option StartError

-- The calls made so far stand in front of those to come.
abbrev after_calls : List Call → Run → Run
after_calls cs r = (cs ++ r.0, r.1)

-- `JobObject.Assign`
assign_process : Answers → ℕ → Option StartError
assign_process a pid = if pid == 0 then some no_process_id else (elim a.opened [
  | some e ↦ some (assign_failed e)
  | none ↦ (elim a.assigned [ some e ↦ some (assign_failed e) | none ↦ none ])
])

module _ (L : Float) (total : L.F) (job : Handle) (has_stats : Bool) (cfg : Config)
    (a : Answers) where
  unfoldable pub extended_limits : ExtendedLimitInformation
  extended_limits = record {
    basic = none;
    kill_on_job_close = true;
    breakaway_ok = false;
    silent_breakaway_ok = false;
    job_memory_limit =
        if cfg.enforce_memory then mul64 mb_to_bytes (to_uint64 cfg.memory_mb_limit) else 0;
    process_memory_limit = 0;
  }

  -- `ToleranceLow` over `ToleranceIntervalLong`
  unfoldable pub notification_limits : NotificationLimitInformation
  notification_limits = record {
    user_time_limit = pos 0;
    cpu_rate_limit = some (record { level = 1; interval = 3 });
    io_rate_limit = none;
    network_rate_limit = none;
    job_memory = none;
    job_low_memory = none;
    io_read_bytes = 0;
    io_write_bytes = 0;
  }

  unfoldable pub cpu_rate_limits : CpuRateControlInformation
  cpu_rate_limits = record {
    max =
        some (record {
          rate = mhz_to_cpu_rate L total (to_uint64 cfg.cpu_mhz_limit);
          hard_cap = true;
        });
    weight = 0;
    min_max = none;
    notify = true;
  }

  -- `killOnError(job.SetInformation(p))`, and what follows: the job is closed on an error.
  set_information : Payload → (ℕ → StartError) → Run → Run
  unfolding set_job_info
  set_information p wrap rest = elim (set_job_info a.set_information job p) [
    | some e ↦ (set_limit_failed ∷ kill ∷ close_job ∷ [], some (wrap e))
    | none ↦ after_calls (set_limit p ∷ []) rest
  ]

  polls : List Call
  polls = if has_stats then poll_stats ∷ poll_notifications ∷ [] else poll_notifications ∷ []

  resume_process : Run
  unfolding polls
  resume_process = elim a.resumed [
    | some e ↦ (kill ∷ close_job ∷ [], some (resume_failed e))
    | none ↦ (resume ∷ polls, none)
  ]

  set_cpu_limits : Run
  unfolding set_information notification_limits cpu_rate_limits resume_process
  set_cpu_limits =
      if ltb_ℤ cfg.cpu_mhz_limit (pos minimum_cpu_mhz)
      then ([], some cpu_limit_too_low)
      else set_information (notification (notification_info notification_limits))
          notification_failed
          (set_information (cpu_rate_payload cpu_rate_limits) cpu_rate_failed resume_process)

  set_limits : Run
  unfolding set_information extended_limits set_cpu_limits resume_process
  set_limits =
      set_information (extended (extended_info extended_limits)) basic_limits_failed
        (if cfg.enforce_cpu then set_cpu_limits else resume_process)

  assign_job : ℕ → Run
  unfolding assign_process set_limits
  assign_job pid = elim (assign_process a pid) [
    | some e ↦ (kill ∷ [], some e)
    | none ↦ after_calls (assign ∷ []) set_limits
  ]

  start_process : ℕ → Run
  unfolding assign_job
  start_process token = elim a.started [
    | err e ↦ ([], some (start_failed e))
    | ok pid ↦ after_calls (start_suspended token ∷ []) (assign_job pid)
  ]

  -- `defer c.closeLogError(token, …)`
  with_token : ℕ → Run
  unfolding start_process
  with_token token = ((start_process token).0 ++ (close_token token ∷ []), (start_process token).1)

  restrict : ℕ → Run
  unfolding with_token
  restrict token =
      if cfg.restricted_token
      then (elim (a.restricted token) [
        | err e ↦ (close_token token ∷ [], some (restriction_failed e))
        | ok t ↦ after_calls (restrict_token t ∷ close_token token ∷ []) (with_token t)
      ])
      else with_token token

  open_current_token : Run
  unfolding restrict
  open_current_token = elim a.current_token [
    | err e ↦ ([], some (token_failed e))
    | ok t ↦ after_calls (open_token t ∷ []) (restrict t)
  ]

  unfoldable pub start : Run
  unfolding open_current_token
  start = elim a.job [
    | some e ↦ ([], some (job_failed e))
    | none ↦ after_calls (create_job ∷ []) open_current_token
  ]
