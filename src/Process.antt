-- ===== src/Process.antt =====
-- win32/process.go: a child process around `exec.Cmd`. The mutex makes each method one step; what the
-- operating system answers is an argument.
pub mod Laws
pub mod Wait
pub mod Threads
pub mod Handles
pub mod HandleLaws
use damon.Prelude.{
  ℕ, ◌-◌, Bool, true, false, Option, none, some, bit_or, if◌then◌else◌, Result, ok, err,
}

-- A run-time panic of Go, as a dereference of nil gives, ends the call.
pub data Outcome {ℓ} (A : Type ℓ) : Type ℓ where
  done : A → Outcome A
  panic : Outcome A

pub record Process : Type 0 where
  pub child : Option ℕ  -- `Cmd.Process`, by its process id
  pub creation_flags : Option ℕ  -- `Cmd.SysProcAttr`, nil or its `CreationFlags`
  pub token : Option ℕ
  pub exit_timeout : ℕ
  pub suspended : Bool
  pub started : Bool
  pub ended : Bool
  pub start_time : ℕ
  pub end_time : ℕ

abbrev pub create_suspended : ℕ
create_suspended = 0x4

abbrev pub create_new_process_group : ℕ
create_new_process_group = 0x200

-- 30 seconds, in nanoseconds
abbrev pub default_exit_timeout : ℕ
default_exit_timeout = 30_000_000_000

-- `SysProcAttr` is made if the command has none.
abbrev group_flags : Option ℕ → ℕ
group_flags none = create_new_process_group
group_flags (some f) = bit_or f create_new_process_group

-- `CreateProcessWithToken`, of a command whose `SysProcAttr` is given.
unfoldable pub create_process_with_token : Option ℕ → Option ℕ → Process
create_process_with_token attr token = record {
  child = none;
  creation_flags = some (group_flags attr);
  token = token;
  exit_timeout = default_exit_timeout;
  suspended = false;
  started = false;
  ended = false;
  start_time = 0;
  end_time = 0;
}

-- `start`, under the lock: `answer` is that of `Cmd.Start`, a process id or an error.
unfoldable pub start : Result ℕ ℕ → ℕ → Process → Process × Option ℕ
start (err e) now p = (p, some e)
start (ok pid) now p = (record p { child = some pid; start_time = now; started = true }, none)

suspend_flags : Option ℕ → Result ℕ ℕ → ℕ → Process → Outcome (Process × Option ℕ)
unfolding start
suspend_flags none answer now p = panic
suspend_flags (some f) answer now p = done (
    start answer now
      (record p { suspended = true; creation_flags = some (bit_or f create_suspended) }))

unfoldable pub start_suspended : Result ℕ ℕ → ℕ → Process → Outcome (Process × Option ℕ)
unfolding suspend_flags
start_suspended answer now p = suspend_flags p.creation_flags answer now p

unfoldable pub running_duration : ℕ → Process → ℕ
running_duration now p = if p.ended then p.end_time - p.start_time else now - p.start_time

abbrev pub pid : Process → ℕ
pid p = elim p.child [ none ↦ 0 | some n ↦ n ]

-- `Resume`: the answers are those of the search for the main thread and of `ResumeThread`.
resume_thread : Process → Result ℕ ℕ → Option ℕ → Process × Option ℕ
resume_thread p (err e) r = (p, some e)
resume_thread p (ok thread) (some e) = (p, some e)
resume_thread p (ok thread) none = (record p { suspended = false }, none)

unfoldable pub resume : Result ℕ ℕ → Option ℕ → Process → Process × Option ℕ
unfolding resume_thread
resume thread answer p = if p.suspended then resume_thread p thread answer else (p, none)

-- `Kill`: the answer is that of `Process.Kill`.
unfoldable pub kill : Option ℕ → Process → Outcome (Option ℕ)
kill answer p = elim p.child [ none ↦ panic | some n ↦ done answer ]

-- `AffinityMask`; a failure to open the process is answered by 0, 0 and no error.
pub data AffinityError : Type 0 where
  not_started : AffinityError
  query_failed : ℕ → AffinityError

opened_masks : Result ℕ ℕ → Result ℕ (ℕ × ℕ) → Result AffinityError (ℕ × ℕ)
opened_masks (err e) masks = ok (0, 0)
opened_masks (ok handle) (err e) = err (query_failed e)
opened_masks (ok handle) (ok m) = ok m

unfoldable pub affinity_mask :
    Result ℕ ℕ → Result ℕ (ℕ × ℕ) → Process → Result AffinityError (ℕ × ℕ)
unfolding opened_masks
affinity_mask handle masks p = if p.started then opened_masks handle masks else err not_started

-- What `getExitCode` reads of `os.ProcessState`, and the error of `Cmd.Wait`.
pub record ProcessState : Type 0 where
  pub exited : Bool
  pub success : Bool

pub data WaitError : Type 0 where
  exit_error : Option ℕ → WaitError  -- `*exec.ExitError`, with the status if `Sys` is a `WaitStatus`
  other_error : WaitError

abbrev pub exit_status_error : ℕ
exit_status_error = 254

abbrev pub exit_status_unknown : ℕ
exit_status_unknown = 255

abbrev error_status : Option WaitError → ℕ
error_status none = exit_status_unknown
error_status (some (exit_error (some status))) = status
error_status (some (exit_error none)) = exit_status_error
error_status (some other_error) = exit_status_error

unfoldable pub get_exit_code : Option ProcessState → Option WaitError → ℕ
get_exit_code none e = exit_status_unknown
get_exit_code (some s) e =
    if s.exited then (if s.success then 0 else error_status e) else exit_status_unknown
