-- ===== src/Sessions.antt =====
-- What a program does with win32 over time: any sequence of the operations that keep no handle, and the
-- life of a token.
use damon.Prelude.{ℕ, ◌≡◌, ◌∙◌, refl, Bool, some, List, [], ◌∷◌, ◌++◌, arith, Result, ok, err}
use damon.Sys.{SysError, Nothing, Call}
use damon.Sys.Wrappers.{MemoryCountersEx}
use damon.Handles.{HandleEvent, closed, scan, held, scan-append}
use damon.Process.Threads.{ThreadEntry}
use damon.Process.Handles.{OpError, memory_info, affinity_mask, assign, resume_suspended}
use damon.Token.Handles.{
  create_batch_user_token, create_batch_user_token-held, environment, environment-closes,
}

-- An operation with the system's answers to it.
pub data Operation : Type 0 where
  memory_info_op : Call Nothing → Call MemoryCountersEx → Operation
  affinity_mask_op : Bool → Call Nothing → Call (ℕ × ℕ) → Operation
  assign_op : ℕ → Result OpError ℕ → Call Nothing → Operation
  resume_op :
      (ThreadEntry → ThreadEntry)
      → Call Nothing
      → List ThreadEntry
      → Call Nothing
      → ℕ
      → Call Nothing
      → Operation

events_of : Operation → List HandleEvent
events_of (memory_info_op call query) = (memory_info call query).0
events_of (affinity_mask_op started call query) = (affinity_mask started call query).0
events_of (assign_op pid process call) = (assign pid process call).0
events_of (resume_op leave snapshot entries thread pid call) =
    (resume_suspended leave snapshot entries thread pid call).0

unfoldable pub session : List Operation → List HandleEvent
unfolding events_of
session [] = []
session (o ∷ os) = events_of o ++ session os

-- A batch token that reads its environment and is then closed.
after_logon : {A : Type 0} → Call ℕ → (ℕ → A) → Result SysError ℕ → List HandleEvent
after_logon block read (err e) = []
after_logon block read (ok t) = (environment t block read).0 ++ (closed t ∷ [])

unfoldable pub token_life : {A : Type 0} → Call ℕ → Call ℕ → Call ℕ → (ℕ → A) → List HandleEvent
unfolding after_logon
token_life logon duplicate block read =
    let t = create_batch_user_token logon duplicate in t.0 ++ after_logon block read t.1

after_logon-closes :
    {A : Type 0} (block : Call ℕ) (read : ℕ → A) (r : Result SysError ℕ) (live : List ℕ)
    → scan (held live r) (after_logon block read r) ≡ some live
unfolding after_logon scan
after_logon-closes block read (err e) live = refl
after_logon-closes block read (ok t) live =
    scan-append (environment t block read).0 (closed t ∷ []) (t ∷ live) (t ∷ live)
      (environment-closes t block read live)
    ∙ ground arith

-- A batch token that is made, read for its environment and closed leaves no handle open, however the
-- four calls of the system are answered: the token of the logon is closed too.
pub token_life-closes :
    {A : Type 0} (logon duplicate block : Call ℕ) (read : ℕ → A) (live : List ℕ)
    → scan live (token_life logon duplicate block read) ≡ some live
unfolding token_life
token_life-closes logon duplicate block read live =
    let t = create_batch_user_token logon duplicate in
    scan-append t.0 (after_logon block read t.1) live (held live t.1)
      (create_batch_user_token-held logon duplicate live)
    ∙ after_logon-closes block read t.1 live
