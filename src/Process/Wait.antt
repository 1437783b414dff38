-- ===== src/Process/Wait.antt =====
-- `Wait` of win32/process.go: the caller, the goroutine that ends the child on request, and the one that
-- waits for it, as interleaved steps over what they share.
pub mod Laws
use damon.Prelude.{ℕ, suc, ◌+◌, ◌≤◌, ◌≡◌, Bool, true, false, Option, none, some}
use damon.Process.{ProcessState, WaitError, get_exit_code}

-- Where the goroutine that ends the child stands: at its first `select`, about to send Ctrl-Break, at
-- its second `select`, or finished.
pub data Ender : Type 0 where
  selecting signalling grace over : Ender

-- Where the goroutine that waits stands: in `Cmd.Wait`, with the end recorded but `doneCh` still open,
-- or finished with `doneCh` closed.
pub data Waiter : Type 0 where
  waiting recorded closed : Waiter

pub record WaitResult : Type 0 where
  pub error : Option WaitError
  pub exit_status : ℕ
  pub result_start : ℕ
  pub result_end : ℕ

pub record State : Type 0 where
  pub now : ℕ
  pub requested : Bool  -- `exitCh` is closed or has a value
  pub exited : Option (ProcessState × Option WaitError)  -- the child's end, as `Cmd.Wait` tells it
  pub process_state : Option ProcessState  -- `Cmd.ProcessState`, nil until `Cmd.Wait` sets it
  pub ender : Ender
  pub waiter : Waiter
  pub breaks : ℕ  -- Ctrl-Break events that were sent
  pub kills : ℕ  -- calls of `Process.Kill`
  pub break_failed : Bool
  pub grace_since : ℕ
  pub ended : Bool
  pub end_time : ℕ
  pub werr : Option WaitError
  pub returned : Option WaitResult

-- A call of `Wait` that was given a channel (`has_exit`) or nil, on a process with a start time and a
-- timeout. Time and the end of the child are the environment's. `Cmd.Wait` returns after the end of the
-- child, or fails at any time, with an error and no state of the process.
module _ (has_exit : Bool) (start_time timeout : ℕ) where
  pub data Step : State → State → Type 0 where
    tick : (s : State) (d : ℕ) → Step s (record s { now = s.now + d })
    request : (s : State) → has_exit ≡ true → Step s (record s { requested = true })
    child_exits :
        (s : State) (e : ProcessState × Option WaitError)
        → s.exited ≡ none
        → Step s (record s { exited = some e })
    ender_told :
        (s : State)
        → s.ender ≡ selecting
        → s.requested ≡ true
        → Step s (record s { ender = signalling })
    ender_done :
        (s : State) → s.ender ≡ selecting → s.waiter ≡ closed → Step s (record s { ender = over })
    break_sent :
        (s : State)
        → s.ender ≡ signalling
        → Step s (record s { ender = grace; breaks = suc s.breaks; grace_since = s.now })
    break_fails :
        (s : State)
        → s.ender ≡ signalling
        → Step s (record s { ender = over; break_failed = true; kills = suc s.kills })
    grace_done :
        (s : State) → s.ender ≡ grace → s.waiter ≡ closed → Step s (record s { ender = over })
    grace_over :
        (s : State)
        → s.ender ≡ grace
        → s.grace_since + timeout ≤ s.now
        → Step s (record s { ender = over; kills = suc s.kills })
    wait_returns :
        (s : State) (ps : ProcessState) (e : Option WaitError)
        → s.waiter ≡ waiting
        → s.exited ≡ some (ps, e)
        → Step s (record s {
          process_state = some ps;
          waiter = recorded;
          ended = true;
          end_time = s.now;
          werr = e;
        })
    wait_fails :
        (s : State) (e : WaitError)
        → s.waiter ≡ waiting
        → Step s (record s { waiter = recorded; ended = true; end_time = s.now; werr = some e })
    close_done : (s : State) → s.waiter ≡ recorded → Step s (record s { waiter = closed })
    returns :
        (s : State)
        → s.waiter ≡ closed
        → s.returned ≡ none
        → Step s (record s {
          returned = some (record {
            error = s.werr;
            exit_status = get_exit_code s.process_state s.werr;
            result_start = start_time;
            result_end = s.end_time;
          });
        })

  pub data Reach (s : State) : State → Type 0 where
    here : Reach s s
    next : {t u : State} → Reach s t → Step t u → Reach s u

abbrev pub initial : ℕ → State
initial now = record {
  now = now;
  requested = false;
  exited = none;
  process_state = none;
  ender = selecting;
  waiter = waiting;
  breaks = 0;
  kills = 0;
  break_failed = false;
  grace_since = 0;
  ended = false;
  end_time = 0;
  werr = none;
  returned = none;
}
