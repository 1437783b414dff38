-- ===== src/Container/Notifications.antt =====
-- `pollNotifications` of container/container.go: from the kernel's reports to the violations that the
-- callback `OnViolation` is given.
pub mod Laws
use damon.Prelude.{
  ℕ, suc, String, ◌<>◌, Bool, true, false, Option, none, some, List, [], ◌∷◌, ◌++◌, ◌==◌,
  if◌then◌else◌, Result, ok, err,
}
use damon.Job.Violations.{
  LimitViolation, LimitViolationInfo, Notification, QueueError, msg_notification_limit,
}

-- The constants of container.LimitViolation's `Type`.
pub data ViolationType : Type 0 where
  cpu memory io : ViolationType

pub record Violation : Type 0 where
  pub kind : ViolationType
  pub message : String

-- What one turn of the loop meets: a channel that was closed, or an answer of `PollNotifications`.
pub data Turn : Type 0 where
  exit_closed done_closed : Turn
  polled : Result QueueError (Option Notification) → Turn

-- How far the goroutine is, what it handed to `OnViolation`, and how many errors it logged.
pub data Status : Type 0 where
  looping returned panicked : Status

pub record Watch : Type 0 where
  pub status : Status
  pub delivered : List Violation
  pub logged : ℕ

abbrev tolerance : ℕ → String
tolerance l =
    if l == 1
    then " > 20% of the time"
    else if l == 2
    then " > 40% of the time"
    else if l == 3
    then " > 60% of the time"
    else ""

-- `decimal` is `fmt`'s `%d`.
module _ (decimal : ℕ → String) where
  cpu_violation : Option LimitViolation → List Violation
  cpu_violation none = []
  cpu_violation (some v) =
      (record { kind = cpu; message = "CPU Rate exceeded threshold" <> tolerance v.limit }) ∷ []

  abbrev exceeded : String → LimitViolation → String
  exceeded what v =
      what <> (" exceeded threshold: " <> (decimal v.measured <> (" > " <> decimal v.limit)))

  io_violation : Option LimitViolation → List Violation
  io_violation none = []
  io_violation (some v) = (record { kind = io; message = exceeded "IO Rate" v }) ∷ []

  memory_violation : Option LimitViolation → List Violation
  memory_violation none = []
  memory_violation (some v) = (record { kind = memory; message = exceeded "Memory" v }) ∷ []

  report_violations : Option LimitViolationInfo → List Violation
  unfolding cpu_violation io_violation memory_violation
  report_violations none = []
  report_violations (some i) =
      cpu_violation i.cpu_rate ++ (io_violation i.io_rate ++ memory_violation i.high_memory)

  -- The list `violations` of one notification.
  unfoldable pub violations_of : Notification → List Violation
  unfolding report_violations
  violations_of n = if n.code == msg_notification_limit then report_violations n.info else []

  -- One turn; a nil notification with no error is dereferenced.
  watch_turn : Turn → Watch → Watch
  unfolding violations_of
  watch_turn exit_closed w = record w { status = returned }
  watch_turn done_closed w = record w { status = returned }
  watch_turn (polled (err e)) w = record w { logged = suc w.logged }
  watch_turn (polled (ok none)) w = record w { status = panicked }
  watch_turn (polled (ok (some n))) w = record w { delivered = w.delivered ++ violations_of n }

  step_if : Status → Turn → Watch → Watch
  unfolding watch_turn
  step_if looping t w = watch_turn t w
  step_if returned t w = w
  step_if panicked t w = w

  unfoldable pub step : Watch → Turn → Watch
  unfolding step_if
  step w t = step_if w.status t w

  unfoldable pub poll_notifications : Watch → List Turn → Watch
  unfolding step
  poll_notifications w [] = w
  poll_notifications w (t ∷ ts) = poll_notifications (step w t) ts

abbrev pub start : Watch
start = record { status = looping; delivered = []; logged = 0 }
