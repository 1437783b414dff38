-- ===== src/Tests/Handling.antt =====
-- Runs of the system's calls and of what win32/ and main.go do over them in time.
use damon.Prelude.{◌+◌, ◌≡◌, inl, inr, refl, true, none, some, List, [], ◌∷◌, ok, arith}
use damon.Sys.{Nothing, Call}
use damon.Process.Threads.{ThreadEntry}
use damon.Sessions.{Operation, affinity_mask_op, assign_op, resume_op}
use damon.Token.RunAs.{Thread, work, run_as, run_as-nested}
use damon.Logger.{
  user_logger, log_wrapper, setting, logging_ln, logging_error, Use, init, blank, run,
}
use damon.Logger.Laws.{written_of, log_book, run-log_book}
use damon.Main.Signals.{
  Happening, signal_comes, goroutine_runs, Signals, waiting, starts, delivers, loses, closes_exit,
  Reach, here, then_, finished, taken, closed_at, signals, reach-signals,
}

-- A success, and a failure of which nothing is known.
abbrev succeeds : Call Nothing
succeeds = record { ret = 9; last_error = 0; out = tt }

abbrev fails : Call Nothing
fails = record { ret = 0; last_error = 0; out = tt }

abbrev left : ThreadEntry → ThreadEntry
left e = e

abbrev entries : List ThreadEntry
entries = record { thread_id = 3; owner = 4 } ∷ record { thread_id = 5; owner = 42 } ∷ []

-- A query of the affinity, an assignment to a job that fails, and a resume that finds its thread.
abbrev three : List Operation
three =
    affinity_mask_op true succeeds (record { ret = 0; last_error = 5; out = (1, 3) })
    ∷ assign_op 42 (ok 30) fails
    ∷ resume_op left succeeds entries succeeds 42 succeeds
    ∷ []

abbrev idle : Thread
idle = record { identity = none; done_as = []; logged = 0 }

run_as-nested_example :
    (run_as 7 succeeds succeeds
      (λ s. work 3 (run_as 8 succeeds succeeds (work 2) (work 1 s)).0)
      idle).0.done_as
    ≡ (1, some 7) ∷ (2, some 8) ∷ (3, none) ∷ []
run_as-nested_example =
    run_as-nested 7 8 succeeds succeeds succeeds succeeds 1 2 3 idle (omega arith) (omega arith)
      (omega arith) (omega arith)

-- A line before a logger is set, two loggers of different types, one of them wrapped, and a nil error.
abbrev uses : List Use
uses =
    logging_ln ("early" ∷ [])
    ∷ setting (user_logger 1 10)
    ∷ logging_error (some "failed") "open"
    ∷ setting (log_wrapper (user_logger 2 20))
    ∷ logging_error none "close"
    ∷ logging_ln ("late" ∷ [])
    ∷ []

run-log_book_example : written_of (run uses (init blank)) ≡ some (log_book none uses)
run-log_book_example = run-log_book uses (tt, (tt, (tt, (tt, (tt, (tt, tt))))))

-- A signal before the goroutine receives, one that it takes, and one that comes too late.
abbrev happenings : List Happening
happenings = signal_comes ∷ goroutine_runs ∷ signal_comes ∷ signal_comes ∷ goroutine_runs ∷ []

abbrev ended : Signals
ended = record { place = finished; lost = 2; closes = 1 }

ends : Reach waiting happenings ended
ends = then_ (loses _ (inl refl)) (
    then_ (starts _ refl) (
      then_ (delivers _ refl)
        (then_ (loses _ (inr (inl refl))) (then_ (closes_exit _ refl) (here _)))))

reach-signals_example :
    (ended.closes ≡ closed_at ended.place) × (ended.lost + taken ended.place ≡ signals happenings)
reach-signals_example = reach-signals ends
