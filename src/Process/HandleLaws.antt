-- ===== src/Process/HandleLaws.antt =====
-- No operation on a process keeps a handle (win32/process.go, win32/thread_win32.go).
use damon.Prelude.{ℕ, ◌≡◌, ◌∙◌, refl, Bool, some, List, [], ◌∷◌, arith, Result, ok, err}
use damon.Sys.{Nothing, Call}
use damon.Sys.Wrappers.{MemoryCountersEx, create_toolhelp32_snapshot}
use damon.Handles.{scan, held, scan-append, scan-with_handle-held}
use damon.Process.Threads.{ThreadEntry, find_thread}
use damon.Process.Handles.{
  OpError, lift, open_found, resumed, memory_info, affinity_mask, assign, entry_calls,
  open_process_main_thread, resume_suspended,
}

pub memory_info-closes :
    (call : Call Nothing) (query : Call MemoryCountersEx) (live : List ℕ)
    → scan live (memory_info call query).0 ≡ some live
unfolding memory_info scan
memory_info-closes call query live = ground arith

pub affinity_mask-closes :
    (started : Bool) (call : Call Nothing) (query : Call (ℕ × ℕ)) (live : List ℕ)
    → scan live (affinity_mask started call query).0 ≡ some live
unfolding affinity_mask scan
affinity_mask-closes started call query live = ground arith

pub assign-closes :
    (pid : ℕ) (process : Result OpError ℕ) (call : Call Nothing) (live : List ℕ)
    → scan live (assign pid process call).0 ≡ some live
unfolding assign scan
assign-closes pid process call live = ground arith

pub entry_calls-scan :
    (pid s : ℕ) (es : List ThreadEntry) (live : List ℕ)
    → scan (s ∷ live) (entry_calls pid s es) ≡ some (s ∷ live)
unfolding entry_calls scan
entry_calls-scan pid s [] live = ground arith
entry_calls-scan pid s (e ∷ es) live = ground (arith, entry_calls-scan pid s es live)

open_found-held :
    (te : ThreadEntry) (call : Call Nothing) (live : List ℕ)
    → scan live (open_found te call).0 ≡ some (held live (open_found te call).1)
unfolding open_found scan
open_found-held te call live = ground arith

-- The snapshot is closed on every path, and the caller holds the thread's handle if it got one.
pub open_process_main_thread-held :
    (leave : ThreadEntry → ThreadEntry) (snapshot : Call Nothing) (entries : List ThreadEntry)
    (thread : Call Nothing) (pid : ℕ) (live : List ℕ)
    → scan live (open_process_main_thread leave snapshot entries thread pid).0
      ≡ some (held live (open_process_main_thread leave snapshot entries thread pid).1)
unfolding open_process_main_thread
open_process_main_thread-held leave snapshot entries thread pid live =
    scan-with_handle-held (lift (create_toolhelp32_snapshot snapshot)) _ live λ s.
      let te = find_thread leave pid (record { thread_id = 0; owner = 0 }) entries in
      scan-append (entry_calls pid s entries) (open_found te thread).0 (s ∷ live) (s ∷ live)
        (entry_calls-scan pid s entries live)
      ∙ open_found-held te thread (s ∷ live)

resumed-closes :
    (r : Result OpError ℕ) (call : Call Nothing) (live : List ℕ)
    → scan (held live r) (resumed r call).0 ≡ some live
unfolding resumed scan
resumed-closes (err e) call live = refl
resumed-closes (ok h) call live = ground arith

pub resume_suspended-closes :
    (leave : ThreadEntry → ThreadEntry) (snapshot : Call Nothing) (entries : List ThreadEntry)
    (thread : Call Nothing) (pid : ℕ) (call : Call Nothing) (live : List ℕ)
    → scan live (resume_suspended leave snapshot entries thread pid call).0 ≡ some live
unfolding resume_suspended
resume_suspended-closes leave snapshot entries thread pid call live =
    scan-append _ _ live _ (open_process_main_thread-held leave snapshot entries thread pid live)
    ∙ resumed-closes (open_process_main_thread leave snapshot entries thread pid).1 call live
