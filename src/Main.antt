-- ===== src/Main.antt =====
-- `main` of main.go and `Wait` of container/container.go: how the parts are put together, up to the exit
-- of the supervisor.
pub mod Laws
pub mod Signals
pub mod Promise
pub mod Exit
pub mod Journal
use damon.Prelude.{
  ℕ, ◌*◌, String, Bool, true, false, Option, none, some, List, [], ◌∷◌, Result, ok, err,
}
use damon.Prelude.Int.{ℤ, to_uint64}
use damon.Prelude.Words.{mul64}
use damon.Host.{Host}
use damon.Config.{Config, load_container_config_from_environment}
use damon.Log.{Rotation, new_logger, log_config_from_environment}
use damon.Version.{Info, get_info, full_string}
use damon.Process.{Outcome, done, panic, WaitError}
use damon.Process.Wait.{WaitResult}
use damon.Job.CpuRate.{Float}
use damon.Job.Kernel.{Handle}
use damon.Container.Start
use damon.Container.Start.{Answers, Call, Run}

-- container.Result, with the error that is returned beside it.
pub record WaitEnd : Type 0 where
  pub run_start : ℕ
  pub run_end : ℕ
  pub exit_code : ℕ
  pub run_error : Option WaitError

-- `(*Container).Wait`, of what `Process.Wait` gives: with an error it gives a nil result, of which the
-- first line reads the exit status.
unfoldable pub container_wait : Option WaitResult → Outcome WaitEnd
container_wait none = panic
container_wait (some r) = done (record {
  run_start = r.result_start;
  run_end = r.result_end;
  exit_code = r.exit_status;
  run_error = r.error;
})

-- The values of the two limits that the metrics show, before they are converted to float64: bit patterns
-- of 64-bit integers.
unfoldable pub cpu_limit_hz : Config → ℕ
cpu_limit_hz cfg = mul64 (to_uint64 cfg.cpu_mhz_limit) 1000000

unfoldable pub memory_limit_bytes : Config → ℕ
memory_limit_bytes cfg = mul64 (mul64 (to_uint64 cfg.memory_mb_limit) 1024) 1024

-- How the supervisor ends: what it printed, the calls that `Start` made, the configuration that it ran
-- with, and its exit code or a panic.
pub record Ended : Type 0 where
  pub printed : List String
  pub calls : List Call
  pub config : Option Config
  pub code : Outcome ℕ

exit_before_start : List String → ℕ → Ended
exit_before_start out code = record { printed = out; calls = []; config = none; code = done code }

exit_of : Outcome WaitEnd → Outcome ℕ
exit_of panic = panic
exit_of (done r) = done r.exit_code

-- After `Start`: an error ends with 1, and otherwise the child is waited for.
after_start : Config → Run → Option WaitResult → Ended
unfolding exit_of container_wait
after_start cfg (calls, some e) waited = record {
  printed = [];
  calls = calls;
  config = some cfg;
  code = done 1;
}
after_start cfg (calls, none) waited = record {
  printed = [];
  calls = calls;
  config = some cfg;
  code = exit_of (container_wait waited);
}

-- `os.Args` without the program's own name. The error of the configuration is logged and dropped.
-- `waited` is what `Process.Wait` gives if it is reached, and `host_error` the text of the error of
-- `os.Getwd`, which is printed; `total` is read from the system's resources, where a failed probe ends
-- the supervisor.
module _ (P : Host) (L : Float) (total : L.F) (job : Handle) (git_commit host_error : String) where
  with_logger : Option Rotation → Answers → Option WaitResult → Ended
  unfolding exit_before_start after_start
  with_logger none a waited = exit_before_start (host_error ∷ []) 1
  with_logger (some r) a waited =
      let cfg = (load_container_config_from_environment P).0 in
      after_start cfg (damon.Container.Start.start L total job true cfg a) waited

  unfoldable pub main : List String → Answers → Option WaitResult → Ended
  unfolding with_logger exit_before_start
  main [] a waited = exit_before_start (full_string true (get_info git_commit) ∷ []) 0
  main (command ∷ args) a waited =
      with_logger (new_logger P (log_config_from_environment P)) a waited
