-- ===== src/Container/Notifications/Laws.antt =====
-- The notification loop as a whole (container/container.go, win32/job_object.go).
use mathlib.Core.List.{append_assoc, append-nil}
use native.Mathlib.Nat.{add-zero, add_assoc}
use native.Mathlib.Numerals.{add-one}
use damon.Prelude.{
  ℕ, ◌+◌, ◌%◌, ◌^◌, ◌≡◌, ◌≢◌, ◌↔◌, refl, ◌∙◌, String, true, ◌||◌, Option, none, some, List, [], ◌∷◌,
  ◌++◌, map, arith, ok, err, Result, ◌==◌, if◌then◌else◌,
}
use damon.Job.Violations.{
  Notification, QueueError, Packet, ViolationReport, poll_job_notifications,
  get_queued_completion_status, plain_message, msg_notification_limit, limit_violation_info,
}
use damon.Container.Notifications.{
  Violation, violations_of, Turn, polled, Watch, looping, step, poll_notifications,
}

-- Where a report can be read, a packet is accepted exactly when it carries the job's handle for a key and a message that is
-- known; the reports are read for message 11 alone, and none is made up for the others.
pub get_queued_completion_status-ok :
    (job : ℕ) (p : Packet) (r : ViolationReport) (n : Notification)
    → (get_queued_completion_status job (ok p) (ok r) ≡ ok n) ↔ (
        (p.key ≡ job % 2 ^ 32)
        × ((plain_message p.packet_code || p.packet_code == msg_notification_limit) ≡ true)
        × (n ≡ record {
          code = p.packet_code;
          process_id = p.overlapped;
          info =
              if p.packet_code == msg_notification_limit
              then some (limit_violation_info r)
              else none;
        }))
unfolding get_queued_completion_status
get_queued_completion_status-ok job p r n = ground arith

-- What the port and the query answer in one turn.
abbrev pub Answer : Type 0
Answer = Result ℕ Packet × Result ℕ ViolationReport

-- The turn of a job with a completion port.
pub port_turn : ℕ → ℕ → Answer → Turn
port_turn job completion a = polled (poll_job_notifications job completion a.0 a.1)

-- What an answer delivers, and how many errors it logs.
abbrev pub delivers : (ℕ → String) → Result QueueError Notification → List Violation
delivers decimal (ok n) = violations_of decimal n
delivers decimal (err e) = []

abbrev logs : Result QueueError Notification → ℕ
logs (ok n) = 0
logs (err e) = 1

abbrev pub deliveries : (ℕ → String) → ℕ → List Answer → List Violation
deliveries decimal job [] = []
deliveries decimal job ((p, r) ∷ answers) =
    delivers decimal (get_queued_completion_status job p r) ++ deliveries decimal job answers

abbrev pub errors : ℕ → List Answer → ℕ
errors job [] = 0
errors job ((p, r) ∷ answers) = logs (get_queued_completion_status job p r) + errors job answers

lift : Result QueueError Notification → Result QueueError (Option Notification)
lift (ok n) = ok (some n)
lift (err e) = err e

poll-lift :
    (job completion : ℕ) (p : Result ℕ Packet) (r : Result ℕ ViolationReport)
    → completion ≢ 0
    → poll_job_notifications job completion p r ≡ lift (get_queued_completion_status job p r)
unfolding poll_job_notifications lift
poll-lift job completion p r h = ground arith

step-lift :
    (decimal : ℕ → String) (w : Watch) (a : Result QueueError Notification)
    → w.status ≡ looping
    → step decimal w (polled (lift a)) ≡ record {
      status = looping;
      delivered = w.delivered ++ delivers decimal a;
      logged = w.logged + logs a;
    }
unfolding step lift
step-lift decimal w (ok n) h = rw h (rw add-zero)
step-lift decimal w (err e) h = rw h (rw (append-nil, add-one))

-- Over any answers of the kernel, the loop of a job that has a completion port neither stops nor
-- panics: it hands over the violations of every accepted notification, in order, and logs each error
-- once.
pub poll_notifications-port :
    (decimal : ℕ → String) (job completion : ℕ) (answers : List Answer) (w : Watch)
    → completion ≢ 0
    → w.status ≡ looping
    → poll_notifications decimal w (map (port_turn job completion) answers) ≡ record {
      status = looping;
      delivered = w.delivered ++ deliveries decimal job answers;
      logged = w.logged + errors job answers;
    }
unfolding poll_notifications port_turn
poll_notifications-port decimal job completion [] w h s = rw (append-nil, add-zero) (ground arith)
poll_notifications-port decimal job completion ((p, r) ∷ answers) w h s =
    rw (poll-lift job completion p r h) (
      rw (step-lift decimal w (get_queued_completion_status job p r) s) (
        poll_notifications-port decimal job completion answers _ h refl
        ∙ rw (append_assoc, add_assoc) refl))

step-stopped :
    (decimal : ℕ → String) (t : Turn) (w : Watch) → w.status ≢ looping → step decimal w t ≡ w
unfolding step
step-stopped decimal t w h = ground arith

-- Once a channel is closed or a nil notification came, the loop does nothing more.
pub poll_notifications-stopped :
    (decimal : ℕ → String) (ts : List Turn) (w : Watch)
    → w.status ≢ looping
    → poll_notifications decimal w ts ≡ w
unfolding poll_notifications
poll_notifications-stopped decimal [] w h = refl
poll_notifications-stopped decimal (t ∷ ts) w h =
    rw (step-stopped decimal t w h) (poll_notifications-stopped decimal ts w h)
