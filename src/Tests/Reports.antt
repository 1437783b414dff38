-- ===== src/Tests/Reports.antt =====
-- Runs from a report of the completion port to the counters.
use damon.Prelude.{ℕ, ◌+◌, ◌≡◌, refl, String, some, List, [], ◌∷◌, map, true, All, ok, err, arith}
use damon.Job.Violations.{
  ViolationReport, Packet, Notification, get_queued_completion_status, limit_violation_info,
}
use damon.Container.Notifications.{cpu, io, memory, poll_notifications, start, looping}
use damon.Container.Notifications.Laws.{
  Answer, port_turn, deliveries, errors, poll_notifications-port,
}
use damon.Metrics.Counters.{Counters, on_violations}
use damon.Metrics.Counters.Served.{IsOf, asked_flags, on_violations-asked}
use damon.Job.Notify.{notification_info}
use damon.Container.Start.{notification_limits}
use damon.Tests.Data.{fixed, ticks, config, answers}
use damon.Metrics.Counters.Refinement.{plus, reports, crossed_under, poll_notifications-refines}

abbrev digits : ℕ → String
digits n = "?"

-- The CPU rate was crossed, and the low memory limit.
abbrev report : ViolationReport
report = record {
  limit_flags = 0x48200;
  violation_limit_flags = 0x48000;
  read_bytes = 0;
  read_bytes_limit = 0;
  write_bytes = 0;
  write_bytes_limit = 0;
  user_time = 0;
  user_time_limit = 0;
  job_memory = 10;
  job_memory_limit = 90;
  rate_tolerance = 2;
  rate_tolerance_limit = 1;
  job_low_memory_limit = 20;
  io_rate_tolerance = 0;
  io_rate_tolerance_limit = 0;
  net_rate_tolerance = 0;
  net_rate_tolerance_limit = 0;
}

abbrev packet : Packet
packet = record { packet_code = 11; key = 64; overlapped = 4242 }

abbrev told : Notification
told = record { code = 11; process_id = 4242; info = some (limit_violation_info report) }

accepted : get_queued_completion_status 64 (ok packet) (ok report) ≡ ok told
unfolding get_queued_completion_status
accepted = refl

-- A report, a packet of another job, and a failed call.
abbrev three : List Answer
three =
    (ok packet, ok report) ∷ (ok (record packet { key = 65 }), ok report) ∷ (err 258, err 0) ∷ []

poll_notifications-port_example :
    poll_notifications digits start (map (port_turn 64 12) three) ≡ record {
      status = looping;
      delivered = deliveries digits 64 three;
      logged = 0 + errors 64 three;
    }
poll_notifications-port_example =
    poll_notifications-port digits 64 12 three start (omega arith) refl

errors_of_three : errors 64 three ≡ 2
unfolding get_queued_completion_status
errors_of_three = refl

abbrev zero_counters : Counters
zero_counters = record { cpu_notification = 0; memory_notification = 0; io_notification = 0 }

-- Of the three answers one is a report for this job, of a crossed CPU rate and low memory.
poll_notifications-refines_example :
    on_violations zero_counters
      (poll_notifications digits start (map (port_turn 64 12) three)).delivered
    ≡ plus zero_counters
        (reports (crossed_under cpu) 64 three)
        (reports (crossed_under io) 64 three)
        (reports (crossed_under memory) 64 three)
poll_notifications-refines_example =
    poll_notifications-refines digits 64 12 three zero_counters (omega arith)

counted_of_three :
    plus zero_counters
      (reports (crossed_under cpu) 64 three)
      (reports (crossed_under io) 64 three)
      (reports (crossed_under memory) 64 three)
    ≡ record { cpu_notification = 1; memory_notification = 1; io_notification = 0 }
counted_of_three = refl

-- A report of the kind that `Start` asks for, which claims a low-memory violation too.
abbrev told_of_cpu : ViolationReport
told_of_cpu = record report { limit_flags = 0x40000 }

abbrev one : List Answer
one = (ok packet, ok told_of_cpu) ∷ []

one_is_asked : All (IsOf (asked_flags fixed ticks 5 true config answers)) one
unfolding notification_info notification_limits
one_is_asked = (refl, tt)

on_violations-asked_example :
    on_violations zero_counters
      (poll_notifications digits start (map (port_turn 64 12) one)).delivered
    ≡ plus zero_counters (reports (crossed_under cpu) 64 one) 0 0
on_violations-asked_example =
    on_violations-asked fixed ticks 5 true config answers digits 64 12 one zero_counters
      (omega arith) one_is_asked
