-- ===== src/Token/Handles.antt =====
-- The life of a token (win32/tokens.go, win32/tokens_win32.go, win32/userenv_win32.go).
use damon.Prelude.{ℕ, ◌≡◌, some, List, [], ◌∷◌, arith, Result, ok, err}
use damon.Sys.{SysError, Call}
use damon.Sys.Wrappers.{logon_user, duplicate_token_ex, create_environment_block}
use damon.Handles.{opened, used, Traced, with_handle, scan, held}

-- A call that opens a handle and returns it.
opens : Result SysError ℕ → Traced SysError ℕ
opens (ok h) = (opened h ∷ [], ok h)
opens (err e) = ([], err e)

-- `CurrentProcessToken`, over the answers of `GetCurrentProcess` and `OpenProcessToken`.
unfoldable pub current_process_token : Result SysError ℕ → Result SysError ℕ → Traced SysError ℕ
unfolding with_handle opens
current_process_token process token =
    with_handle process (λ h. (used h ∷ (opens token).0, (opens token).1))

-- `CreateBatchUserToken`: the token of the logon is closed, and its duplicate returned.
unfoldable pub create_batch_user_token : Call ℕ → Call ℕ → Traced SysError ℕ
unfolding with_handle opens logon_user duplicate_token_ex
create_batch_user_token logon duplicate =
    with_handle (logon_user logon)
      (λ h. let d = opens (duplicate_token_ex duplicate) in (used h ∷ d.0, d.1))

-- `(*Token).CreateRestrictedToken`, over the answer of `CreateRestrictedToken`.
unfoldable pub create_restricted_token : ℕ → Result SysError ℕ → Traced SysError ℕ
unfolding opens
create_restricted_token token answer = (used token ∷ (opens answer).0, (opens answer).1)

-- `(*Token).Environment`: the block is a resource as a handle is; `read` is what is read of it.
unfoldable pub environment {ℓ} : {A : Type ℓ} → ℕ → Call ℕ → (ℕ → A) → Traced SysError A
unfolding with_handle create_environment_block
environment token block read = (
  used token ∷ (with_handle (create_environment_block block) (λ b. (used b ∷ [], ok (read b)))).0,
  (with_handle (create_environment_block block) (λ b. (used b ∷ [], ok (read b)))).1,
)

pub current_process_token-held :
    (process token : Result SysError ℕ) (live : List ℕ)
    → scan live (current_process_token process token).0
      ≡ some (held live (current_process_token process token).1)
unfolding current_process_token scan
current_process_token-held process token live = ground arith

pub create_batch_user_token-held :
    (logon duplicate : Call ℕ) (live : List ℕ)
    → scan live (create_batch_user_token logon duplicate).0
      ≡ some (held live (create_batch_user_token logon duplicate).1)
unfolding create_batch_user_token scan
create_batch_user_token-held logon duplicate live = ground arith

pub environment-closes {ℓ} :
    {A : Type ℓ} (token : ℕ) (block : Call ℕ) (read : ℕ → A) (live : List ℕ)
    → scan (token ∷ live) (environment token block read).0 ≡ some (token ∷ live)
unfolding environment scan
environment-closes token block read live = ground arith
