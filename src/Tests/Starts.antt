-- ===== src/Tests/Starts.antt =====
-- Runs of `Start` of container/container.go.
use damon.Prelude.{ℕ, ◌≡◌, ◌↔◌, ◌⊎◌, refl, true, false, none, some, ok, arith, if◌then◌else◌}
use damon.Prelude.Int.{pos}
use damon.Config.{Config}
use damon.Job.CpuRate.{mhz_to_cpu_rate}
use damon.Container.Start.{Run, start, cpu_limit_too_low}
use damon.Container.Start.Laws.{
  any_call, is_kill, is_start, opens, closes, successful_calls, start-closes_tokens, start-kill,
  start-calls,
}
use damon.Container.Start.InForce.{at_resume, no_limits, promise, is_none}
use damon.Container.Start.Promise.{start-promise}
use damon.Container.Start.Cleanup.{is_close_job, is_late, start-close_job}
use damon.Tests.Data.{fixed, config, answers, ticks}

abbrev good : Run
good = start fixed ticks 5 true config answers

good_ends : good.1 ≡ none
unfolding start
good_ends = refl

-- The limit is enforced and too low.
abbrev low : Config
low = record config { cpu_mhz_limit = pos 50 }

abbrev low_run : Run
low_run = start fixed ticks 5 true low answers

low_starts : any_call is_start low_run.0 ≡ true
unfolding start
low_starts = refl

start-calls_example :
    (opened : ℕ) × (given : ℕ) × (answers.current_token ≡ ok opened)
    × (answers.restricted opened ≡ ok given)
    × (good.0 ≡ successful_calls fixed ticks 5 true config answers opened given)
start-calls_example = start-calls fixed ticks 5 true config answers good_ends

start-closes_tokens_example : opens 8 good.0 ≡ closes 8 good.0
start-closes_tokens_example = start-closes_tokens fixed ticks 5 true config answers 8

start-kill_example :
    (any_call is_kill low_run.0 ≡ false)
    ↔ ((low_run.1 ≡ none) ⊎ (low_run.1 ≡ some cpu_limit_too_low))
start-kill_example = start-kill fixed ticks 5 true low answers low_starts

-- 500 MHz of 8000 are a sixteenth.
rate_of_500 : mhz_to_cpu_rate fixed ticks 500 ≡ 625
unfolding mhz_to_cpu_rate
rate_of_500 = refl

-- The promise for the configuration of the tests: 256 MB and a sixteenth of the machine.
start-promise_example :
    at_resume no_limits good.0
    ≡ (if is_none good.1 then some (promise fixed ticks config 256 500) else none)
start-promise_example =
    start-promise fixed ticks 5 true config answers 256 500 refl (omega arith) (omega arith) refl
      (omega arith) (omega arith)

low_fails : low_run.1 ≡ some cpu_limit_too_low
unfolding start
low_fails = refl

start-close_job_example : any_call is_close_job low_run.0 ≡ is_late cpu_limit_too_low
start-close_job_example = start-close_job fixed ticks 5 true low answers cpu_limit_too_low low_fails
