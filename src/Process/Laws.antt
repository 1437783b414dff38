-- ===== src/Process/Laws.antt =====
-- The life of a process object (win32/process.go).
use damon.Prelude.{
  ℕ, ◌≡◌, ◌≢◌, ◌↔◌, ◌⊎◌, true, false, Option, none, some, arith, Result, ok, List, [], ◌∷◌,
}
use damon.Process.{
  Process, Outcome, done, panic, create_process_with_token, start, start_suspended, resume, pid,
  get_exit_code, ProcessState, WaitError, exit_error,
}

-- A step of the object between its creation and its wait, with the operating system's answer.
pub data Step : Type 0 where
  starts starts_suspended : Result ℕ ℕ → ℕ → Step
  resumes : Result ℕ ℕ → Option ℕ → Step

after_suspended : Process → Outcome (Process × Option ℕ) → Process
after_suspended p panic = p
after_suspended p (done r) = r.0

pub run_step : Step → Process → Process
unfolding after_suspended
run_step (starts answer now) p = (start answer now p).0
run_step (starts_suspended answer now) p = after_suspended p (start_suspended answer now p)
run_step (resumes thread answer) p = (resume thread answer p).0

pub run_steps : List Step → Process → Process
unfolding run_step
run_steps [] p = p
run_steps (s ∷ ss) p = run_steps ss (run_step s p)

-- What holds of a process object at all times before it is waited for.
pub record IsConsistent (p : Process) : Type 0 where
  pub attributes : p.creation_flags ≢ none
  pub started_child : p.started ≡ true → p.child ≢ none
  pub child_started : p.child ≢ none → p.started ≡ true
  pub not_ended : p.ended ≡ false

run_step-IsConsistent : (s : Step) (p : Process) → IsConsistent p → IsConsistent (run_step s p)
unfolding run_step start start_suspended resume
run_step-IsConsistent s p h = ground arith

run_steps-IsConsistent :
    (ss : List Step) (p : Process) → IsConsistent p → IsConsistent (run_steps ss p)
unfolding run_steps
run_steps-IsConsistent [] p h = h
run_steps-IsConsistent (s ∷ ss) p h =
    run_steps-IsConsistent ss (run_step s p) (run_step-IsConsistent s p h)

-- A process made by `CreateProcessWithToken` is consistent after any starts and resumes, whatever the
-- operating system answers: it has its attributes, so that `StartSuspended` does not panic, and it has
-- a child, so that `Kill` does not panic, exactly when it counts as started.
pub created-IsConsistent :
    (attr token : Option ℕ) (ss : List Step)
    → IsConsistent (run_steps ss (create_process_with_token attr token))
unfolding create_process_with_token
created-IsConsistent attr token ss = run_steps-IsConsistent ss _ (ground arith)

-- A suspended start asks for a suspended main thread and marks the object as suspended, so that the
-- next resume with two good answers clears the mark; a second resume does nothing, whatever it would
-- have been answered.
pub start_suspended-resume :
    (p q : Process) (child now thread : ℕ) (thread' : Result ℕ ℕ) (answer' : Option ℕ)
    → start_suspended (ok child) now p ≡ done (q, none)
    → let r = resume (ok thread) none q in
      (q.suspended ≡ true)
      × (q.started ≡ true)
      × (pid q ≡ child)
      × (r.1 ≡ none)
      × (r.0.suspended ≡ false)
      × (resume thread' answer' r.0 ≡ (r.0, none))
unfolding start_suspended resume
start_suspended-resume p q child now thread thread' answer' h = ground arith

-- The exit code is 0 exactly for a process that exited with success, or that exited without and whose
-- wait failed with an exit error of status 0.
pub get_exit_code-zero :
    (s : ProcessState) (e : Option WaitError)
    → (get_exit_code (some s) e ≡ 0) ↔ (
        (s.exited ≡ true)
        × ((s.success ≡ true) ⊎ ((s.success ≡ false) × (e ≡ some (exit_error (some 0))))))
unfolding get_exit_code
get_exit_code-zero s e = ground arith
