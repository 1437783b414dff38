-- ===== src/Job/Limits/Laws.antt =====
-- Which flags the limit structures carry (win32/job_object_info.go).
use damon.Prelude.{
  ℕ, ◌≡◌, refl, Bool, true, false, Option, none, some, arith, ltb, if◌then◌else◌, bit_or,
}
use damon.Prelude.Words.{has_flag}
use damon.Prelude.Int.{to_uint64}
use damon.Job.Flags.{
  limit_workingset, limit_affinity, limit_priority_class, limit_scheduling_class, limit_job_memory,
  limit_breakaway_ok, limit_silent_breakaway_ok, limit_kill_on_job_close, limit_process_memory,
}
use damon.Job.Limits.{
  BasicLimitInformation, info, sets_working_set, sets_priority, sets_scheduling, sets_affinity,
  ExtendedLimitInformation, extended_info,
}

-- Each flag of the basic limits is set exactly when its field asks for a limit: a maximum working set
-- above 0 and above the minimum, a priority class, a scheduling class from 1 to 9, an affinity mask.
-- The value beside a flag is the one asked for, and 0 where the flag is not set.
pub info-flags :
    (i : BasicLimitInformation)
    → let b = info (some i) in
      (has_flag b.limit_flags limit_workingset ≡ sets_working_set i)
      × (b.maximum_working_set_size
          ≡ (if sets_working_set i then to_uint64 i.max_working_set_size else 0))
      × (has_flag b.limit_flags limit_priority_class ≡ sets_priority i)
      × (b.priority ≡ i.priority_class)
      × (has_flag b.limit_flags limit_scheduling_class ≡ sets_scheduling i)
      × (b.scheduling ≡ (if sets_scheduling i then i.scheduling_class else 0))
      × (has_flag b.limit_flags limit_affinity ≡ sets_affinity i)
      × (b.affinity ≡ i.processor_affinity)
unfolding info
info-flags i = ground arith

-- The sixteen values of the basic flags, by the four tests.
basic_flags : Bool → Bool → Bool → Bool → ℕ
basic_flags w p s a =
    bit_or
      (bit_or (bit_or (if w then limit_workingset else 0) (if p then limit_priority_class else 0))
        (if s then limit_scheduling_class else 0))
      (if a then limit_affinity else 0)

info-basic_flags :
    (i : BasicLimitInformation)
    → (info (some i)).limit_flags
      ≡ basic_flags (sets_working_set i) (sets_priority i) (sets_scheduling i) (sets_affinity i)
unfolding info basic_flags
info-basic_flags i = ground arith

info-basic_flags_any :
    (b : Option BasicLimitInformation)
    → (w : Bool) × (p : Bool) × (s : Bool) × (a : Bool) × ((info b).limit_flags
        ≡ basic_flags w p s a)
unfolding basic_flags info
info-basic_flags_any none = (false, false, false, false, refl)
info-basic_flags_any (some i) = (
  sets_working_set i,
  sets_priority i,
  sets_scheduling i,
  sets_affinity i,
  unfold basic_flags in info-basic_flags i,
)

or_if : Bool → ℕ → ℕ → ℕ
or_if b flag v = if b then bit_or v flag else v

-- The flags of the extended limits over any basic flags.
extended_flags : Bool → Bool → Bool → Bool → Bool → Bool → Bool → Bool → ℕ
unfolding or_if basic_flags
extended_flags w p s a job kill breakaway silent = or_if silent limit_silent_breakaway_ok (
    or_if breakaway limit_breakaway_ok (
      or_if kill limit_kill_on_job_close
        (or_if job limit_job_memory (or_if job limit_job_memory (basic_flags w p s a)))))

extended_flags-agree :
    (w p s a job kill breakaway silent : Bool)
    → let v = extended_flags w p s a job kill breakaway silent in
      (has_flag v limit_job_memory ≡ job)
      × (has_flag v limit_kill_on_job_close ≡ kill)
      × (has_flag v limit_breakaway_ok ≡ breakaway)
      × (has_flag v limit_silent_breakaway_ok ≡ silent)
      × (has_flag v limit_process_memory ≡ false)
unfolding extended_flags
extended_flags-agree w p s a true true true true = ground arith
extended_flags-agree w p s a _ _ _ _ = ground arith

extended_info-flags_eq :
    (i : ExtendedLimitInformation) (w p s a : Bool)
    → (info i.basic).limit_flags ≡ basic_flags w p s a
    → (extended_info i).basic_info.limit_flags
      ≡ extended_flags w p s a
          (ltb 0 i.job_memory_limit)
          i.kill_on_job_close
          i.breakaway_ok
          i.silent_breakaway_ok
unfolding extended_info extended_flags
extended_info-flags_eq i w p s a h = ground arith

extended_info-job_memory :
    (i : ExtendedLimitInformation) → (extended_info i).job_memory ≡ i.job_memory_limit
unfolding extended_info
extended_info-job_memory i = ground arith

extended_info-process_memory :
    (i : ExtendedLimitInformation)
    → (extended_info i).process_memory
      ≡ (if ltb 0 i.job_memory_limit then i.process_memory_limit else 0)
unfolding extended_info
extended_info-process_memory i = refl

-- What the kernel is asked for by extended limits: the job's memory limit exactly when one is given,
-- and kill-on-close, breakaway and silent breakaway exactly when they are chosen, whatever the basic
-- limits hold. No choice of fields asks for a limit on the memory of a process, and with no limit on
-- the job a process limit is dropped.
pub extended_info-flags :
    (i : ExtendedLimitInformation)
    → let e = extended_info i in
      (has_flag e.basic_info.limit_flags limit_job_memory ≡ ltb 0 i.job_memory_limit)
      × (e.job_memory ≡ i.job_memory_limit)
      × (has_flag e.basic_info.limit_flags limit_kill_on_job_close ≡ i.kill_on_job_close)
      × (has_flag e.basic_info.limit_flags limit_breakaway_ok ≡ i.breakaway_ok)
      × (has_flag e.basic_info.limit_flags limit_silent_breakaway_ok ≡ i.silent_breakaway_ok)
      × (has_flag e.basic_info.limit_flags limit_process_memory ≡ false)
      × (e.process_memory ≡ (if ltb 0 i.job_memory_limit then i.process_memory_limit else 0))
extended_info-flags i =
    let (w, p, s, a, h) = info-basic_flags_any i.basic in
    let flags =
      extended_flags-agree w p s a (ltb 0 i.job_memory_limit) i.kill_on_job_close i.breakaway_ok
        i.silent_breakaway_ok in
    let e = extended_info-flags_eq i w p s a h in
    (
      rw e flags.0,
      extended_info-job_memory i,
      rw e flags.1,
      rw e flags.2,
      rw e flags.3,
      rw e flags.4,
      extended_info-process_memory i,
    )
