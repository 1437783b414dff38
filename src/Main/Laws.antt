-- ===== src/Main/Laws.antt =====
-- What a run of the supervisor guarantees (main.go).
use damon.Prelude.{◌≡◌, String, true, false, Option, none, some, List, ◌∷◌, arith}
use damon.Host.{Host}
use damon.Config.{load_container_config_from_environment}
use damon.Config.Laws.{load-IsUsable}
use damon.Process.{done}
use damon.Process.Wait.{WaitResult}
use damon.Job.CpuRate.{Float}
use damon.Job.Kernel.{Handle}
use damon.Container.Start.{Answers}
use damon.Container.Start.Laws.{
  any_call, is_resume, is_kill, is_start, start-kill_of_IsUsable, start-resume,
}
use damon.Main.{main}

module _ (P : Host) (L : Float) (total : L.F) (job : Handle) (git_commit host_error : String) where
  -- If the environment is read without an error, a child that was started and not resumed is killed, and
  -- the exit code is then 1.
  pub main-kill :
      (command : String) (args : List String) (a : Answers) (waited : Option WaitResult)
      → (load_container_config_from_environment P).1 ≡ none
      → let e = main P L total job git_commit host_error (command ∷ args) a waited in
        any_call is_start e.calls ≡ true
        → any_call is_resume e.calls ≡ false
        → (any_call is_kill e.calls ≡ true) × (e.code ≡ done 1)
  unfolding main
  main-kill command args a waited h s r =
      let cfg = (load_container_config_from_environment P).0 in
      ground (
        arith,
        start-resume L total job true cfg a,
        start-kill_of_IsUsable L total job true cfg a (load-IsUsable P h),
      )

  -- Where the child was resumed and then waited for, the supervisor's exit code is the child's, as `Wait`
  -- reports it.
  pub main-exit_code :
      (command : String) (args : List String) (a : Answers) (r : WaitResult)
      → let e = main P L total job git_commit host_error (command ∷ args) a (some r) in
        any_call is_resume e.calls ≡ true → e.code ≡ done r.exit_status
  unfolding main
  main-exit_code command args a r s =
      let cfg = (load_container_config_from_environment P).0 in
      ground (arith, start-resume L total job true cfg a)
