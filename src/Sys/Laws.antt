-- ===== src/Sys/Laws.antt =====
-- What the conventions of win32/base_types_win32.go promise, and where they differ.
use damon.Prelude.{ℕ, ◌%◌, ◌^◌, ◌≡◌, ◌≢◌, ◌↔◌, ◌⊎◌, Bool, true, Result, ok, err, arith}
use damon.Sys.{
  SysError, errno, Nothing, Call, to_bool, boolean, test_return_code_non_zero,
  test_return_code_true,
}
use damon.Sys.Wrappers.{
  open_process, open_thread, resume_thread, create_toolhelp32_snapshot, thread32_next, logon_user,
  duplicate_token_ex, impersonate_logged_on_user, create_environment_block,
}

-- A Boolean that goes out as a BOOL comes back as it was, and no other 32-bit value is read as true.
pub boolean-to_bool :
    (b : Bool) (r : ℕ)
    → (boolean (to_bool b) ≡ b) × (boolean (r % 2 ^ 32) ≡ true → r % 2 ^ 32 ≡ to_bool true)
unfolding boolean to_bool
boolean-to_bool b r = ground arith

-- The two tests of a return value agree exactly on 0 and on the values whose low 32 bits are 1: any
-- other value, a success by the convention of Windows, is a failure for `testReturnCodeTrue`.
pub test_return_code_true-non_zero :
    {A : Type 0} (c : Call A)
    → (test_return_code_true c ≡ test_return_code_non_zero c) ↔ ((c.ret ≡ 0) ⊎ (c.ret % 2 ^ 32 ≡ 1))
unfolding test_return_code_true test_return_code_non_zero
test_return_code_true-non_zero c = ground arith

-- An error that can be told from success when it is printed or compared: not the number 0.
abbrev pub IsProper {ℓ} : {A : Type ℓ} → Result SysError A → Type 0
IsProper (ok a) = Unit
IsProper (err e) = e ≢ errno 0

-- No wrapper that goes through `errnoToError` reports the error number 0, whatever the system answers.
pub wrappers-IsProper :
    (c : Call Nothing) (d : Call ℕ)
    → IsProper (open_process c)
      × IsProper (open_thread c)
      × IsProper (resume_thread c)
      × IsProper (create_toolhelp32_snapshot c)
      × IsProper (thread32_next c)
      × IsProper (logon_user d)
      × IsProper (duplicate_token_ex d)
      × IsProper (impersonate_logged_on_user c)
      × IsProper (create_environment_block d)
unfolding open_process open_thread resume_thread create_toolhelp32_snapshot thread32_next logon_user
    duplicate_token_ex impersonate_logged_on_user create_environment_block
wrappers-IsProper c d = ground arith
