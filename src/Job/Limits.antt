-- ===== src/Job/Limits.antt =====
-- The basic and extended limits of win32/job_object_info.go, as the structures of
-- win32/job_object_info_win32.go that the kernel is handed.
pub mod Laws
use damon.Prelude.{
  ℕ, ◌≡◌, Bool, true, false, ◌&&◌, not, Option, none, some, bit_or, ltb, leb, ◌==◌, if◌then◌else◌,
}
use damon.Prelude.Int.{ℤ, pos, ltb_ℤ, to_uint64}
use damon.Job.Flags.{
  limit_workingset, limit_affinity, limit_priority_class, limit_scheduling_class, limit_job_memory,
  limit_breakaway_ok, limit_silent_breakaway_ok, limit_kill_on_job_close,
}

pub record BasicLimitInformation : Type 0 where
  pub scheduling_class : ℕ
  pub priority_class : ℕ
  pub min_working_set_size : ℤ
  pub max_working_set_size : ℤ
  pub processor_affinity : ℕ

-- _JOBOBJECT_BASIC_LIMIT_INFORMATION: the fields that the code sets; the others stay 0.
pub record BasicInfo : Type 0 where
  pub limit_flags : ℕ
  pub minimum_working_set_size : ℕ
  pub maximum_working_set_size : ℕ
  pub affinity : ℕ
  pub priority : ℕ
  pub scheduling : ℕ

abbrev pub zero_basic : BasicInfo
zero_basic = record {
  limit_flags = 0;
  minimum_working_set_size = 0;
  maximum_working_set_size = 0;
  affinity = 0;
  priority = 0;
  scheduling = 0;
}

-- The tests of `info`.
abbrev pub sets_working_set : BasicLimitInformation → Bool
sets_working_set i =
    ltb_ℤ i.min_working_set_size i.max_working_set_size && ltb_ℤ (pos 0) i.max_working_set_size

abbrev pub sets_priority : BasicLimitInformation → Bool
sets_priority i = not (i.priority_class == 0)

abbrev pub sets_scheduling : BasicLimitInformation → Bool
sets_scheduling i = leb 1 i.scheduling_class && leb i.scheduling_class 9

abbrev pub sets_affinity : BasicLimitInformation → Bool
sets_affinity i = not (i.processor_affinity == 0)

with_working_set : BasicLimitInformation → BasicInfo → BasicInfo
with_working_set i info =
    if sets_working_set i
    then (record info {
      limit_flags = bit_or info.limit_flags limit_workingset;
      maximum_working_set_size = to_uint64 i.max_working_set_size;
      minimum_working_set_size = to_uint64 i.min_working_set_size;
    })
    else info

with_priority : BasicLimitInformation → BasicInfo → BasicInfo
with_priority i info =
    if sets_priority i
    then (record info {
      limit_flags = bit_or info.limit_flags limit_priority_class;
      priority = i.priority_class;
    })
    else info

with_scheduling : BasicLimitInformation → BasicInfo → BasicInfo
with_scheduling i info =
    if sets_scheduling i
    then (record info {
      scheduling = i.scheduling_class;
      limit_flags = bit_or info.limit_flags limit_scheduling_class;
    })
    else info

with_affinity : BasicLimitInformation → BasicInfo → BasicInfo
with_affinity i info =
    if sets_affinity i
    then (record info {
      affinity = i.processor_affinity;
      limit_flags = bit_or info.limit_flags limit_affinity;
    })
    else info

-- `(*BasicLimitInformation).info`; the receiver may be nil.
unfoldable pub info : Option BasicLimitInformation → BasicInfo
unfolding with_working_set with_priority with_scheduling with_affinity
info none = zero_basic
info (some i) =
    with_affinity i (with_scheduling i (with_priority i (with_working_set i zero_basic)))

pub record ExtendedLimitInformation : Type 0 where
  pub basic : Option BasicLimitInformation
  pub kill_on_job_close : Bool
  pub breakaway_ok : Bool
  pub silent_breakaway_ok : Bool
  pub job_memory_limit : ℕ
  pub process_memory_limit : ℕ

-- `(*BasicLimitInformation).Extended`
unfoldable pub extended : BasicLimitInformation → ExtendedLimitInformation
extended i = record {
  basic = some i;
  kill_on_job_close = false;
  breakaway_ok = false;
  silent_breakaway_ok = false;
  job_memory_limit = 0;
  process_memory_limit = 0;
}

-- _JOBOBJECT_EXTENDED_LIMIT_INFORMATION; the I/O counters and peaks stay 0.
pub record ExtendedInfo : Type 0 where
  pub basic_info : BasicInfo
  pub process_memory : ℕ
  pub job_memory : ℕ

add_flag : Bool → ℕ → BasicInfo → BasicInfo
add_flag true flag b = record b { limit_flags = bit_or b.limit_flags flag }
add_flag false flag b = b

-- The structure that `(*ExtendedLimitInformation).SetJobInfo` hands to the kernel. Both of its
-- memory tests read `JobMemoryLimit`, and both set the flag of the job's limit.
unfoldable pub extended_info : ExtendedLimitInformation → ExtendedInfo
unfolding info add_flag
extended_info i =
    let job = ltb 0 i.job_memory_limit in
    let b0 = info i.basic in
    let b1 = add_flag job limit_job_memory b0 in
    let b2 = add_flag job limit_job_memory b1 in
    let b3 = add_flag i.kill_on_job_close limit_kill_on_job_close b2 in
    let b4 = add_flag i.breakaway_ok limit_breakaway_ok b3 in
    record {
      basic_info = add_flag i.silent_breakaway_ok limit_silent_breakaway_ok b4;
      process_memory = if job then i.process_memory_limit else 0;
      job_memory = if job then i.job_memory_limit else 0;
    }
