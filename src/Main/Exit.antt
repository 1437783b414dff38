-- ===== src/Main/Exit.antt =====
-- The exit code of the supervisor, from the child's end on: main.go over the steps of `Process.Wait`
-- (win32/process.go).
use damon.Prelude.{
  ◌⊎◌, inl, inr, none, ℕ, ◌≡◌, ◌∙◌, ap, sym, String, Bool, true, Option, some, List, ◌∷◌,
}
use damon.Host.{Host}
use damon.Process.{ProcessState, WaitError, done, get_exit_code}
use damon.Process.Wait.{State, Reach, initial, WaitResult}
use damon.Process.Wait.Laws.{wait_result}
use damon.Job.CpuRate.{Float}
use damon.Job.Kernel.{Handle}
use damon.Container.Start.{Answers}
use damon.Container.Start.Laws.{any_call, is_resume}
use damon.Main.{Ended, main}
use damon.Main.Laws.{main-exit_code}

module _ (P : Host) (L : Float) (total : L.F) (job : Handle) (git_commit host_error : String) where
  -- Where the child was resumed, and `Wait` returned after any interleaving of its caller, its two
  -- goroutines, the requests to exit, the child's end and a failure of `Cmd.Wait`, then either the child has
  -- ended, and the exit code of the supervisor is the one that the child's end gives; or `Cmd.Wait` has given
  -- no state of the process, and the exit code is 255.
  pub main-child_exit :
      (command : String) (args : List String) (a : Answers) (has_exit : Bool)
      (start_time timeout now : ℕ) (s : State) (r : WaitResult)
      → Reach has_exit start_time timeout (initial now) s
      → s.returned ≡ some r
      → let e = main P L total job git_commit host_error (command ∷ args) a s.returned in
        any_call is_resume e.calls ≡ true
        → ((ps : ProcessState) × (w : Option WaitError) × (s.exited ≡ some (ps, w))
            × (e.code ≡ done (get_exit_code (some ps) w)))
          ⊎ ((s.process_state ≡ none) × (e.code ≡ done 255))
  unfolding get_exit_code
  main-child_exit command args a has_exit start_time timeout now s r reach h resumed = elim ended [
    | inl n ↦ inr (n, code ∙ ap (λ (o : Option ProcessState). done (get_exit_code o s.werr)) n)
    | inr (ps, p, x) ↦
        inl
          (ps, s.werr, x, code ∙ ap (λ (o : Option ProcessState). done (get_exit_code o s.werr)) p)
  ]
    where
      run : Option WaitResult → Ended
      run o = main P L total job git_commit host_error (command ∷ args) a o

      runs : any_call is_resume (run (some r)).calls ≡ true
      runs = ap (λ (o : Option WaitResult). any_call is_resume (run o).calls) (sym h) ∙ resumed

      status : r.exit_status ≡ get_exit_code s.process_state s.werr
      status = (wait_result has_exit start_time timeout r reach h).4

      ended :
          (s.process_state ≡ none)
          ⊎ ((ps : ProcessState) × (s.process_state ≡ some ps) × (s.exited ≡ some (ps, s.werr)))
      ended = (wait_result has_exit start_time timeout r reach h).5

      code : (run s.returned).code ≡ done (get_exit_code s.process_state s.werr)
      code =
          ap (λ (o : Option WaitResult). (run o).code) h
          ∙ main-exit_code P L total job git_commit host_error command args a r runs
          ∙ ap done status
