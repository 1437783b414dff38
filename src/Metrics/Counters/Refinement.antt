-- ===== src/Metrics/Counters/Refinement.antt =====
-- The counters that are served, over a whole run of the notification loop, against a count of the
-- kernel's reports (container/container.go, metrics/metrics.go, win32/job_object_win32.go).
use native.Mathlib.Nat.{add-zero, add_assoc}
use damon.Prelude.{
  ℕ, ◌+◌, ◌%◌, ◌^◌, ◌≡◌, ◌≢◌, refl, ◌∙◌, String, Bool, true, false, ◌&&◌, ◌||◌, List, [], ◌∷◌, ◌++◌,
  map, arith, Result, ok, err, ◌==◌, if◌then◌else◌,
}
use damon.Prelude.Words.{has_flag}
use damon.Job.Flags.{
  limit_job_time, limit_read_bytes, limit_write_bytes, limit_rate_control, limit_io_rate_control,
  limit_net_rate_control, limit_job_memory, limit_job_memory_low,
}
use damon.Job.Violations.{
  ViolationReport, Packet, crossed, limit_violation_info, get_queued_completion_status,
  msg_notification_limit,
}
use damon.Container.Notifications.{
  ViolationType, cpu, memory, io, Violation, violations_of, poll_notifications, start,
}
use damon.Container.Notifications.Laws.{
  Answer, port_turn, delivers, deliveries, poll_notifications-port,
}
use damon.Metrics.Counters.{Counters, on_violation, on_violations}

-- A report of limits that the kernel addressed to this job.
abbrev pub is_report : ℕ → Packet → Bool
is_report job p = p.key == job % 2 ^ 32 && p.packet_code == msg_notification_limit

-- How many answers are reports of a crossed limit of one kind.
abbrev pub reports : (ViolationReport → Bool) → ℕ → List Answer → ℕ
reports kind job [] = 0
reports kind job ((ok p, ok r) ∷ answers) =
    (if is_report job p && kind r then 1 else 0) + reports kind job answers
reports kind job (_ ∷ answers) = reports kind job answers

-- Every limit that a report can tell of, by its flag, and the counter that is to count it: the network rate
-- stands with the I/O rate, and the limits on the job's time and on bytes read and written have none.
pub data Limit : Type 0 where
  job_time : Limit
  read_bytes : Limit
  write_bytes : Limit
  cpu_rate : Limit
  io_rate : Limit
  net_rate : Limit
  job_memory : Limit
  low_memory : Limit

abbrev pub flag_of : Limit → ℕ
flag_of job_time = limit_job_time
flag_of read_bytes = limit_read_bytes
flag_of write_bytes = limit_write_bytes
flag_of cpu_rate = limit_rate_control
flag_of io_rate = limit_io_rate_control
flag_of net_rate = limit_net_rate_control
flag_of job_memory = limit_job_memory
flag_of low_memory = limit_job_memory_low

abbrev pub counted_as : ViolationType → Limit → Bool
counted_as cpu cpu_rate = true
counted_as io io_rate = true
counted_as io net_rate = true
counted_as memory job_memory = true
counted_as memory low_memory = true
counted_as t l = false

abbrev all_limits : List Limit
all_limits =
    job_time ∷ read_bytes ∷ write_bytes ∷ cpu_rate ∷ io_rate ∷ net_rate ∷ job_memory ∷ low_memory
    ∷ []

abbrev any_crossed : ViolationType → List Limit → ViolationReport → Bool
any_crossed t [] r = false
any_crossed t (l ∷ ls) r =
    if counted_as t l
    then has_flag (crossed r) (flag_of l) || any_crossed t ls r
    else any_crossed t ls r

-- Some limit was crossed that this counter is to count.
abbrev pub crossed_under : ViolationType → ViolationReport → Bool
crossed_under t r = any_crossed t all_limits r

abbrev count_if : Bool → ℕ
count_if b = if b then 1 else 0

abbrev pub plus : Counters → ℕ → ℕ → ℕ → Counters
plus c n k m = record {
  cpu_notification = c.cpu_notification + n;
  memory_notification = c.memory_notification + m;
  io_notification = c.io_notification + k;
}

on_violations-append :
    (vs ws : List Violation) (c : Counters)
    → on_violations c (vs ++ ws) ≡ on_violations (on_violations c vs) ws
unfolding on_violations
on_violations-append [] ws c = refl
on_violations-append (v ∷ vs) ws c = on_violations-append vs ws (on_violation c v)

on_violations-report :
    (decimal : ℕ → String) (job : ℕ) (p : Packet) (r : ViolationReport) (c : Counters)
    → on_violations c (delivers decimal (get_queued_completion_status job (ok p) (ok r)))
      ≡ plus c
          (count_if (is_report job p && crossed_under cpu r))
          (count_if (is_report job p && crossed_under io r))
          (count_if (is_report job p && crossed_under memory r))
unfolding get_queued_completion_status violations_of on_violations limit_violation_info
on_violations-report decimal job p r c = ground arith

on_violations-unread :
    (decimal : ℕ → String) (job e : ℕ) (p : Packet) (c : Counters)
    → on_violations c (delivers decimal (get_queued_completion_status job (ok p) (err e))) ≡ c
unfolding get_queued_completion_status violations_of on_violations
on_violations-unread decimal job e p c = ground arith

on_violations-no_packet :
    (decimal : ℕ → String) (job e : ℕ) (r : Result ℕ ViolationReport) (c : Counters)
    → on_violations c (delivers decimal (get_queued_completion_status job (err e) r)) ≡ c
unfolding get_queued_completion_status on_violations
on_violations-no_packet decimal job e r c = refl

plus-plus :
    (c : Counters) (a b d x y z : ℕ) → plus (plus c a b d) x y z ≡ plus c (a + x) (b + y) (d + z)
plus-plus c a b d x y z = rw (add_assoc, add_assoc, add_assoc) refl

reports-cons :
    (kind : ViolationReport → Bool) (job : ℕ) (p : Packet) (r : ViolationReport)
    (answers : List Answer)
    → reports kind job ((ok p, ok r) ∷ answers)
      ≡ count_if (is_report job p && kind r) + reports kind job answers
reports-cons kind job p r answers = refl

-- The counters after every answer, from any start.
on_violations-deliveries :
    (decimal : ℕ → String) (job : ℕ) (answers : List Answer) (c : Counters)
    → on_violations c (deliveries decimal job answers)
      ≡ plus c
          (reports (crossed_under cpu) job answers)
          (reports (crossed_under io) job answers)
          (reports (crossed_under memory) job answers)
unfolding on_violations
on_violations-deliveries decimal job [] c = rw (add-zero, add-zero, add-zero) refl
on_violations-deliveries decimal job ((ok p, ok r) ∷ answers) c =
    on_violations-append (delivers decimal (get_queued_completion_status job (ok p) (ok r)))
      (deliveries decimal job answers) c
    ∙ (rw (on_violations-report decimal job p r c)
        (on_violations-deliveries decimal job answers _ ∙ plus-plus c _ _ _ _ _ _))
on_violations-deliveries decimal job ((ok p, err e) ∷ answers) c =
    on_violations-append (delivers decimal (get_queued_completion_status job (ok p) (err e)))
      (deliveries decimal job answers) c
    ∙ rw (on_violations-unread decimal job e p c) (on_violations-deliveries decimal job answers c)
on_violations-deliveries decimal job ((err e, r) ∷ answers) c =
    on_violations-append (delivers decimal (get_queued_completion_status job (err e) r))
      (deliveries decimal job answers) c
    ∙ rw (on_violations-no_packet decimal job e r c)
        (on_violations-deliveries decimal job answers c)

-- For a job with a completion port, the counters that are served after any answers of the kernel are those
-- at the start, each plus a number of readable reports addressed to this job: the CPU counter those in which
-- the CPU rate was crossed, the memory counter those in which one of the two memory limits was, and the I/O
-- counter those in which the I/O rate or the network rate was. A report that crossed two limits of one counter
-- counts there once, and one that crossed only limits on bytes read or written, or on time, counts nowhere.
pub poll_notifications-refines :
    (decimal : ℕ → String) (job completion : ℕ) (answers : List Answer) (c : Counters)
    → completion ≢ 0
    → on_violations c
        (poll_notifications decimal start (map (port_turn job completion) answers)).delivered
      ≡ plus c
          (reports (crossed_under cpu) job answers)
          (reports (crossed_under io) job answers)
          (reports (crossed_under memory) job answers)
poll_notifications-refines decimal job completion answers c h =
    rw (poll_notifications-port decimal job completion answers start h refl)
      (on_violations-deliveries decimal job answers c)
