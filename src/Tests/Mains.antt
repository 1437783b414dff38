-- ===== src/Tests/Mains.antt =====
-- Runs of main.go, and of the system's resources and the handles of a job.
use damon.Prelude.{ℕ, ◌+◌, ◌*◌, ◌/◌, ◌≡◌, refl, true, false, none, some, [], ◌∷◌, ok, err, arith}
use damon.Host.{Host}
use damon.Prelude.Int.{pos}
use damon.Job.Notify.{notification_info}
use damon.Job.Limits.{extended_info}
use damon.Job.CpuRate.{mhz_to_cpu_rate, cpu_rate_payload}
use damon.Container.Start.InForce.{Limits, no_limits, at_resume}
use damon.Main.Promise.{asked, main-promise}
use damon.Config.{
  cpu_variables, memory_variables, load_container_config_from_environment, env_to_int, env_to_bool,
}
use damon.Process.{done, panic}
use damon.Process.Wait.{WaitResult}
use damon.Container.Start
use damon.Container.Start.{Answers}
use damon.Container.Start.Laws.{any_call, is_kill, is_start, is_resume}
use damon.Log.{new_logger, log_config_from_environment}
use damon.Main.{Ended, main}
use damon.Main.Laws.{main-kill}
use damon.Resources.{
  Probe, SystemResources, calls, initial_cache, zero_resources, all_are, calls-probe,
}
use damon.Job.Object.{
  Creation, create_job_object, opens, closes, life, lost, create_job_object-close,
}
use damon.Tests.Data.{fixed, answers, host, ticks}

abbrev good : Host
good = host "500" "256"

-- The last call of the start fails.
abbrev unresumed : Answers
unresumed = record answers { resumed = some 6 }

good_loads : (load_container_config_from_environment good).1 ≡ none
unfolding load_container_config_from_environment env_to_int env_to_bool
good_loads = refl

abbrev killed : Ended
killed = main good fixed ticks 5 "" "" ("app" ∷ []) unresumed none

killed_starts : any_call is_start killed.calls ≡ true
unfolding main damon.Container.Start.start new_logger log_config_from_environment
    load_container_config_from_environment env_to_int env_to_bool
killed_starts = refl

killed_resumes : any_call is_resume killed.calls ≡ false
unfolding main damon.Container.Start.start new_logger log_config_from_environment
    load_container_config_from_environment env_to_int env_to_bool
killed_resumes = refl

main-kill_example : (any_call is_kill killed.calls ≡ true) × (killed.code ≡ done 1)
main-kill_example =
    main-kill good fixed ticks 5 "" "" "app" [] unresumed none good_loads killed_starts
      killed_resumes

abbrev result : WaitResult
result = record { error = none; exit_status = 3; result_start = 90; result_end = 150 }

abbrev waited : Ended
waited = main good fixed ticks 5 "" "" ("app" ∷ "-v" ∷ []) answers (some result)

waited_resumes : any_call is_resume waited.calls ≡ true
unfolding main damon.Container.Start.start new_logger log_config_from_environment
    load_container_config_from_environment env_to_int env_to_bool
waited_resumes = refl

abbrev same : ℕ → ℕ
same n = n

abbrev kilobytes : ℕ → ℕ
kilobytes n = n / 1024

abbrev product : ℕ → ℕ → ℕ
product a b = a * b

abbrev unknown : Probe
unknown = record { cores_answer = ok 4; mhz_answer = err 5; memory_answer = ok (4096, 8192) }

abbrev known : Probe
known = record unknown { mhz_answer = ok 2000 }

calls-probe_example :
    calls same kilobytes product (initial_cache same kilobytes product) (unknown ∷ known ∷ [])
    ≡ panic ∷ done (zero_resources same kilobytes product) ∷ []
unfolding damon.Resources.probe
calls-probe_example = calls-probe same kilobytes product unknown (known ∷ [])

-- A job of that name exists.
abbrev existing : Creation
existing = record { job_return = 40; job_error = 183; port_answer = ok 44; associated = none }

create_job_object-close_example :
    opens 40 (life (create_job_object existing))
    ≡ closes 40 (life (create_job_object existing)) + lost 40 existing
create_job_object-close_example = create_job_object-close existing 40 (omega arith)

abbrev in_force : Limits
in_force = record {
  kill_on_close = true;
  memory = some 268435456;
  cpu = some 625;
  hard_cap = true;
  cpu_notified = true;
}

resumes_under : at_resume no_limits waited.calls ≡ some in_force
unfolding main damon.Container.Start.start new_logger log_config_from_environment
    load_container_config_from_environment env_to_int env_to_bool mhz_to_cpu_rate notification_info
    cpu_rate_payload extended_info
resumes_under = refl

cpu_of_good : env_to_int good (pos 0) cpu_variables ≡ ok (pos 500)
unfolding env_to_int
cpu_of_good = refl

memory_of_good : env_to_int good (pos 0) memory_variables ≡ ok (pos 256)
unfolding env_to_int
memory_of_good = refl

main-promise_example : in_force ≡ asked good 256 500 fixed ticks
main-promise_example =
    main-promise good 256 500 fixed ticks 5 "" "" "app" ("-v" ∷ []) answers (some result) in_force
      cpu_of_good memory_of_good (omega arith) (omega arith) (omega arith) (omega arith)
      resumes_under
