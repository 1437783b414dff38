-- ===== src/Process/Handles.antt =====
-- The handles of the operations on a process (win32/process.go, win32/process_win32.go,
-- win32/thread_win32.go, and `Assign` of win32/job_object.go).
use damon.Prelude.{ℕ, Bool, List, [], ◌∷◌, ◌++◌, ◌==◌, if◌then◌else◌, Result, ok, err}
use damon.Sys.{SysError, Nothing, Call}
use damon.Sys.Wrappers.{
  MemoryCountersEx, open_process, get_process_memory_info, get_process_affinity_mask,
  assign_process_to_job_object, open_thread, resume_thread, create_toolhelp32_snapshot,
}
use damon.Handles.{HandleEvent, opened, closed, used, Traced, with_handle}
use damon.Process.Threads.{ThreadEntry, find_thread}

-- An error of the system, or one that the code makes itself.
pub data OpError : Type 0 where
  failed : SysError → OpError
  refused : OpError

unfoldable pub lift {ℓ} : {A : Type ℓ} → Result SysError A → Result OpError A
lift (ok a) = ok a
lift (err e) = err (failed e)

-- `MemoryInfo`: `call` answers `OpenProcess`, and `query` `GetProcessMemoryInfo`.
unfoldable pub memory_info : Call Nothing → Call MemoryCountersEx → Traced OpError MemoryCountersEx
unfolding with_handle lift open_process get_process_memory_info
memory_info call query =
    with_handle (lift (open_process call))
      (λ h. (used h ∷ [], lift (get_process_memory_info query)))

-- `AffinityMask`: a failure to open the process is no error.
opened_affinity : Result SysError ℕ → Call (ℕ × ℕ) → Traced OpError (ℕ × ℕ)
unfolding with_handle lift get_process_affinity_mask
opened_affinity (err e) query = ([], ok (0, 0))
opened_affinity (ok h) query =
    with_handle (ok h) (λ p. (used p ∷ [], lift (get_process_affinity_mask query)))

unfoldable pub affinity_mask : Bool → Call Nothing → Call (ℕ × ℕ) → Traced OpError (ℕ × ℕ)
unfolding opened_affinity open_process
affinity_mask started call query =
    if started then opened_affinity (open_process call) query else ([], err refused)

-- `(*JobObject).Assign`; `process` is what `syscall.OpenProcess` gives.
unfoldable pub assign : ℕ → Result OpError ℕ → Call Nothing → Traced OpError Nothing
unfolding with_handle lift assign_process_to_job_object
assign pid process call =
    if pid == 0
    then ([], err refused)
    else with_handle process (λ h. (used h ∷ [], lift (assign_process_to_job_object call)))

-- One use of the snapshot for each entry that is asked for.
unfoldable pub entry_calls : ℕ → ℕ → List ThreadEntry → List HandleEvent
entry_calls pid s [] = used s ∷ []
entry_calls pid s (e ∷ es) =
    let rest = entry_calls pid s es in if e.owner == pid then used s ∷ [] else used s ∷ rest

unfoldable pub open_found : ThreadEntry → Call Nothing → Traced OpError ℕ
unfolding lift open_thread
open_found te call =
    if te.thread_id == 0
    then ([], err refused)
    else (elim (open_thread call) [ err e ↦ ([], err (failed e)) | ok h ↦ (opened h ∷ [], ok h) ])

-- What `syscall.CloseHandle` of the snapshot ends: the entries come from it, `leave` is what a failing
-- call leaves in the buffer, and `thread` answers `OpenThread`.
unfoldable pub open_process_main_thread :
    (ThreadEntry → ThreadEntry)
    → Call Nothing
    → List ThreadEntry
    → Call Nothing
    → ℕ
    → Traced OpError ℕ
unfolding with_handle lift create_toolhelp32_snapshot find_thread open_found
open_process_main_thread leave snapshot entries thread pid =
    with_handle (lift (create_toolhelp32_snapshot snapshot)) (λ s.
      let te = find_thread leave pid (record { thread_id = 0; owner = 0 }) entries in
      (entry_calls pid s entries ++ (open_found te thread).0, (open_found te thread).1))

unfoldable pub resumed : Result OpError ℕ → Call Nothing → Traced OpError Nothing
unfolding lift resume_thread
resumed (err e) call = ([], err e)
resumed (ok h) call = (used h ∷ closed h ∷ [], lift (resume_thread call))

-- `Resume` of a process that is marked as suspended: the thread's handle is closed at the end.
unfoldable pub resume_suspended :
    (ThreadEntry → ThreadEntry)
    → Call Nothing
    → List ThreadEntry
    → Call Nothing
    → ℕ
    → Call Nothing
    → Traced OpError Nothing
unfolding open_process_main_thread resumed
resume_suspended leave snapshot entries thread pid call =
    let t = open_process_main_thread leave snapshot entries thread pid in
    (t.0 ++ (resumed t.1 call).0, (resumed t.1 call).1)
