-- ===== src/Sys/Wrappers.antt =====
-- The functions of win32 that wrap one call each, by what they make of its answer.
use damon.Prelude.{
  Option, none, some, List, ℕ, ◌%◌, ◌^◌, ◌-◌, Bool, ◌==◌, if◌then◌else◌, Result, ok, err,
}
use damon.Sys.{
  SysError, errno, einval, Nothing, Call, boolean, errno_to_error, test_return_code_non_zero,
  test_return_code_true, raw_non_zero,
}

-- win32/process_win32.go; a handle is the return value.
unfoldable pub open_process : Call Nothing → Result SysError ℕ
unfolding errno_to_error
open_process c = if c.ret == 0 then err (errno_to_error c.last_error) else ok c.ret

unfoldable pub generate_console_ctrl_event : Call Nothing → Result SysError Nothing
unfolding test_return_code_non_zero
generate_console_ctrl_event c = test_return_code_non_zero c

unfoldable pub get_process_affinity_mask : Call (ℕ × ℕ) → Result SysError (ℕ × ℕ)
unfolding test_return_code_non_zero
get_process_affinity_mask c = test_return_code_non_zero c

-- The mask goes in by its address, where the call takes the mask itself.
unfoldable pub set_process_affinity_mask : Call Nothing → Result SysError Nothing
unfolding test_return_code_non_zero
set_process_affinity_mask c = test_return_code_non_zero c

-- _PROCESS_MEMORY_COUNTERS_EX
pub record MemoryCountersEx : Type 0 where
  pub page_fault_count : ℕ
  pub peak_working_set_size : ℕ
  pub working_set_size : ℕ
  pub quota_peak_paged_pool_usage : ℕ
  pub quota_paged_pool_usage : ℕ
  pub quota_peak_non_paged_pool_usage : ℕ
  pub quota_non_paged_pool_usage : ℕ
  pub pagefile_usage : ℕ
  pub peak_pagefile_usage : ℕ
  pub private_usage : ℕ

unfoldable pub get_process_memory_info : Call MemoryCountersEx → Result SysError MemoryCountersEx
unfolding test_return_code_non_zero
get_process_memory_info c = test_return_code_non_zero c

-- win32/thread_win32.go
unfoldable pub open_thread : Call Nothing → Result SysError ℕ
unfolding errno_to_error
open_thread c = if c.ret == 0 then err (errno_to_error c.last_error) else ok c.ret

abbrev pub dword_max : ℕ
dword_max = 0xffffffff

unfoldable pub resume_thread : Call Nothing → Result SysError Nothing
unfolding errno_to_error
resume_thread c =
    if c.ret % 2 ^ 32 == dword_max then err (errno_to_error c.last_error) else ok c.out

abbrev pub invalid_handle : ℕ
invalid_handle = 2 ^ 64 - 1

unfoldable pub create_toolhelp32_snapshot : Call Nothing → Result SysError ℕ
unfolding errno_to_error
create_toolhelp32_snapshot c =
    if c.ret == invalid_handle then err (errno_to_error c.last_error) else ok c.ret

abbrev pub error_no_more_files : ℕ
error_no_more_files = 18

-- Whether there is an entry, and an error beside it.
unfoldable pub thread32_first : Call Nothing → Result SysError Bool
unfolding errno_to_error boolean
thread32_first c =
    if c.last_error == error_no_more_files
    then err (errno_to_error c.last_error)
    else ok (boolean c.ret)

unfoldable pub thread32_next : Call Nothing → Result SysError Bool
unfolding errno_to_error boolean
thread32_next c =
    if c.last_error == error_no_more_files
    then err (errno_to_error c.last_error)
    else ok (boolean c.ret)

-- win32/tokens_win32.go; the handle of a token is written through a pointer.
unfoldable pub lookup_luid : Call ℕ → Result SysError ℕ
unfolding raw_non_zero
lookup_luid c = raw_non_zero c

unfoldable pub logon_user : Call ℕ → Result SysError ℕ
unfolding test_return_code_non_zero
logon_user c = test_return_code_non_zero c

unfoldable pub set_token_information : Call Nothing → Result SysError Nothing
unfolding test_return_code_non_zero
set_token_information c = test_return_code_non_zero c

unfoldable pub duplicate_token_ex : Call ℕ → Result SysError ℕ
unfolding test_return_code_non_zero
duplicate_token_ex c = test_return_code_non_zero c

unfoldable pub impersonate_logged_on_user : Call Nothing → Result SysError Nothing
unfolding test_return_code_non_zero
impersonate_logged_on_user c = test_return_code_non_zero c

unfoldable pub revert_to_self : Call Nothing → Result SysError Nothing
unfolding test_return_code_non_zero
revert_to_self c = test_return_code_non_zero c

-- win32/userenv_win32.go
unfoldable pub create_environment_block : Call ℕ → Result SysError ℕ
unfolding test_return_code_true
create_environment_block c = test_return_code_true c

unfoldable pub destroy_environment_block : Call Nothing → Result SysError Nothing
unfolding test_return_code_true
destroy_environment_block c = test_return_code_true c

-- win32/resources_win32.go
unfoldable pub global_memory_status_ex : Call (ℕ × ℕ) → Result SysError (ℕ × ℕ)
unfolding test_return_code_non_zero
global_memory_status_ex c = test_return_code_non_zero c

-- `GetSystemInfo` returns nothing, and is taken to have failed by the thread's error number alone.
unfoldable pub get_system_info : Call ℕ → Result SysError ℕ
get_system_info c = if c.last_error == 0 then ok c.out else err (errno c.last_error)

-- win32/job_object_win32.go and win32/job_object_info_win32.go
unfoldable pub assign_process_to_job_object : Call Nothing → Result SysError Nothing
unfolding raw_non_zero
assign_process_to_job_object c = raw_non_zero c

-- The three queries of a job, by the structure that is filled in.
unfoldable pub query_information_job_object {ℓ} : {A : Type ℓ} → Call A → Result SysError A
unfolding raw_non_zero
query_information_job_object c = raw_non_zero c

unfoldable pub create_job_object : Call Nothing → Result SysError ℕ
create_job_object c = if c.last_error == 0 then ok c.ret else err (errno c.last_error)

unfoldable pub set_io_rate_control_information_job_object : Call Nothing → Result SysError Nothing
unfolding test_return_code_non_zero
set_io_rate_control_information_job_object c = test_return_code_non_zero c

-- `freeMemoryJobObject` gives an error always.
unfoldable pub free_memory_job_object : Call Nothing → Result SysError Nothing
unfolding errno_to_error
free_memory_job_object c = err (errno_to_error c.last_error)

-- win32/registry_win32.go: the return value is the error, but the thread's is passed on.
unfoldable pub reg_close_key : Call Nothing → Result SysError Nothing
reg_close_key c = if c.ret == 0 then ok c.out else err (errno c.last_error)

-- The key is written through a pointer; a path that has no UTF-16 form, for a NUL in it, is an error.
unfoldable pub reg_open_key_ex_w : Option (List ℕ) → Call ℕ → Result SysError ℕ
reg_open_key_ex_w none c = err einval
reg_open_key_ex_w (some path) c = if c.ret == 0 then ok c.out else err (errno c.last_error)

-- win32/lsa_win32.go: a status becomes a number of Windows by a call, whose result 317 has no message.
unfoldable pub lsa_nt_status_to_win_error : (ℕ → ℕ) → ℕ → SysError
lsa_nt_status_to_win_error to_win status =
    if to_win status == 317 then einval else errno (to_win status)

unfoldable pub lsa_close : (ℕ → ℕ) → Call Nothing → Result SysError Nothing
unfolding lsa_nt_status_to_win_error
lsa_close to_win c = if c.ret == 0 then ok c.out else err (lsa_nt_status_to_win_error to_win c.ret)

unfoldable pub lsa_open_policy : (ℕ → ℕ) → Call ℕ → Result SysError ℕ
unfolding lsa_nt_status_to_win_error
lsa_open_policy to_win c =
    if c.ret == 0 then ok c.out else err (lsa_nt_status_to_win_error to_win c.ret)

unfoldable pub lsa_free_memory : (ℕ → ℕ) → Call Nothing → Result SysError Nothing
unfolding lsa_nt_status_to_win_error
lsa_free_memory to_win c =
    if c.ret == 0 then ok c.out else err (lsa_nt_status_to_win_error to_win c.ret)
