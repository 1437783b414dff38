-- ===== src/Tests/Processes.antt =====
-- Runs of win32/process.go and win32/thread_win32.go.
use damon.Prelude.{
  ℕ, ◌+◌, ◌≤◌, ◌≡◌, ◌≢◌, ◌⊎◌, refl, true, false, Option, none, some, [], ◌∷◌, Result, ok, arith,
}
use damon.Process.{
  Process, Outcome, done, create_process_with_token, start_suspended, resume, pid, ProcessState,
  WaitError, exit_error, get_exit_code,
}
use damon.Process.Laws.{IsConsistent, starts_suspended, resumes, run_steps, created-IsConsistent}
use damon.Process.Wait.{
  State, WaitResult, Reach, here, next, initial, tick, request, child_exits, ender_told, break_sent,
  grace_over, wait_returns, close_done, returns,
}
use damon.Process.Wait.Laws.{wait_ends_child_on_request, wait_returns_possible}
use damon.Config.{load_container_config_from_environment, env_to_int, env_to_bool}
use damon.Log.{new_logger, log_config_from_environment}
use damon.Container.Start
use damon.Container.Start.Laws.{any_call, is_resume}
use damon.Main.{Ended, main}
use damon.Main.Exit.{main-child_exit}
use damon.Tests.Data.{host, fixed, ticks, answers}
use damon.Process.Threads.{
  ThreadEntry, opening, open_process_main_thread_for_resume, open_process_main_thread-owned,
}

created-IsConsistent_example : IsConsistent (
    run_steps
      (starts_suspended (ok 4242) 10 ∷ resumes (ok 9) none ∷ [])
      (create_process_with_token none (some 8)))
created-IsConsistent_example =
    created-IsConsistent none (some 8) (starts_suspended (ok 4242) 10 ∷ resumes (ok 9) none ∷ [])

abbrev failed : ProcessState
failed = record { exited = true; success = false }

-- The child is told to end, is killed after the timeout, and is waited for.
abbrev after_kill : State
after_kill = record (initial 100) {
  now = 150;
  requested = true;
  exited = some (failed, none);
  ender = damon.Process.Wait.Ender.over;
  breaks = 1;
  kills = 1;
  grace_since = 100;
}

killed : Reach true 90 30 (initial 100) after_kill
killed =
    next
      (next
        (next
          (next (next (next here (request _ refl)) (ender_told _ refl refl)) (break_sent _ refl))
          (tick _ 50))
        (grace_over _ refl (omega arith)))
      (child_exits _ (failed, none) refl)

wait_ends_child_on_request_example :
    (1 ≤ 1)
    × (1 ≤ 1)
    × ((after_kill.breaks + after_kill.kills ≡ 0) ⊎ ((true ≡ true) × (true ≡ true)))
    × ((after_kill.kills ≡ 0)
        ⊎ ((false ≡ true) ⊎ ((after_kill.breaks ≡ 1) × (130 ≤ after_kill.now))))
wait_ends_child_on_request_example = wait_ends_child_on_request true 90 30 killed

abbrev result : WaitResult
result = record { error = none; exit_status = 255; result_start = 90; result_end = 150 }

abbrev after_wait : State
after_wait = record after_kill {
  process_state = some failed;
  waiter = damon.Process.Wait.Waiter.closed;
  ended = true;
  end_time = 150;
  returned = some result;
}

waited : Reach true 90 30 (initial 100) after_wait
unfolding get_exit_code
waited =
    next (next (next killed (wait_returns _ failed none refl refl)) (close_done _ refl))
      (returns _ refl refl)

wait_returns_possible_example : (t : State) × Reach true 90 30 after_kill t × (t.returned ≢ none)
wait_returns_possible_example = wait_returns_possible true 90 30 after_kill failed none refl refl

abbrev ours : ThreadEntry
ours = record { thread_id = 9; owner = 4242 }

abbrev others : ThreadEntry
others = record { thread_id = 6; owner = 17 }

abbrev left_alone : ThreadEntry → ThreadEntry
left_alone t = t

abbrev opens_thread : ℕ → Result ℕ ℕ
opens_thread t = ok (t + 100)

-- No entry is the process's, and a failing call leaves the last one in the buffer.
open_process_main_thread-owned_example :
    open_process_main_thread_for_resume left_alone (ok (others ∷ others ∷ [])) opens_thread 4242
    ≡ opening opens_thread 6
open_process_main_thread-owned_example =
    open_process_main_thread-owned left_alone opens_thread 4242 (others ∷ others ∷ [])

-- The supervisor of the child that was killed.
abbrev supervisor : Ended
supervisor = main (host "500" "256") fixed ticks 5 "" "" ("app" ∷ []) answers after_wait.returned

supervisor_resumes : any_call is_resume supervisor.calls ≡ true
unfolding main damon.Container.Start.start new_logger log_config_from_environment
    load_container_config_from_environment env_to_int env_to_bool
supervisor_resumes = refl

main-child_exit_example :
    ((ps : ProcessState) × (e : Option WaitError) × (after_wait.exited ≡ some (ps, e))
      × (supervisor.code ≡ done (get_exit_code (some ps) e)))
    ⊎ ((after_wait.process_state ≡ none) × (supervisor.code ≡ done 255))
main-child_exit_example =
    main-child_exit (host "500" "256") fixed ticks 5 "" "" "app" [] answers true 90 30 100
      after_wait result waited refl supervisor_resumes
