-- ===== src/Access.antt =====
-- The access rights that win32/ asks for when it opens processes, threads, tokens, keys and the policy
-- (win32/base_types_win32.go, win32/process_win32.go, win32/thread_win32.go, win32/lsa_win32.go,
-- win32/registry_win32.go), and the operations that ask for them.
pub mod Laws
use damon.Prelude.{ℕ, ◌^◌, Bool, true, false, bit_and, bit_or, ◌==◌}
use damon.Registry.{Permissions, access_mask}

abbrev pub standard_rights_required : ℕ
standard_rights_required = bit_or 0x10000 (bit_or 0x20000 (bit_or 0x40000 0x80000))

abbrev pub read_control : ℕ
read_control = 0x20000

abbrev pub synchronize : ℕ
synchronize = 0x100000

-- The rights to a process in the order of their bits.
pub data ProcessRight : Type 0 where
  process_terminate : ProcessRight
  process_create_thread : ProcessRight
  process_set_sessionid : ProcessRight
  process_vm_operation : ProcessRight
  process_vm_read : ProcessRight
  process_vm_write : ProcessRight
  process_dup_handle : ProcessRight
  process_create_process : ProcessRight
  process_set_quota : ProcessRight
  process_set_information : ProcessRight
  process_query_information : ProcessRight
  process_suspend_resume : ProcessRight
  process_query_limited_information : ProcessRight
  process_set_limited_information : ProcessRight

-- `1 << iota`
unfoldable pub process_right : ProcessRight → ℕ
process_right process_terminate = 2 ^ 0
process_right process_create_thread = 2 ^ 1
process_right process_set_sessionid = 2 ^ 2
process_right process_vm_operation = 2 ^ 3
process_right process_vm_read = 2 ^ 4
process_right process_vm_write = 2 ^ 5
process_right process_dup_handle = 2 ^ 6
process_right process_create_process = 2 ^ 7
process_right process_set_quota = 2 ^ 8
process_right process_set_information = 2 ^ 9
process_right process_query_information = 2 ^ 10
process_right process_suspend_resume = 2 ^ 11
process_right process_query_limited_information = 2 ^ 12
process_right process_set_limited_information = 2 ^ 13

abbrev pub process_all_access : ℕ
process_all_access = bit_or (bit_or standard_rights_required synchronize) 0xffff

pub data ThreadRight : Type 0 where
  thread_terminate : ThreadRight
  thread_suspend_resume : ThreadRight
  thread_get_context : ThreadRight
  thread_set_context : ThreadRight
  thread_query_information : ThreadRight
  thread_set_information : ThreadRight
  thread_set_thread_token : ThreadRight
  thread_impersonate : ThreadRight
  thread_direct_impersonation : ThreadRight
  thread_set_limited_information : ThreadRight
  thread_query_limited_information : ThreadRight
  thread_resume : ThreadRight

unfoldable pub thread_right : ThreadRight → ℕ
thread_right thread_terminate = 0x0001
thread_right thread_suspend_resume = 0x0002
thread_right thread_get_context = 0x0008
thread_right thread_set_context = 0x0010
thread_right thread_query_information = 0x0040
thread_right thread_set_information = 0x0020
thread_right thread_set_thread_token = 0x0080
thread_right thread_impersonate = 0x0100
thread_right thread_direct_impersonation = 0x0200
thread_right thread_set_limited_information = 0x0400
thread_right thread_query_limited_information = 0x0800
thread_right thread_resume = 0x1000

abbrev pub thread_all_access : ℕ
thread_all_access = bit_or (bit_or standard_rights_required synchronize) 0xffff

pub data PolicyRight : Type 0 where
  policy_view_local_information : PolicyRight
  policy_view_audit_information : PolicyRight
  policy_get_private_information : PolicyRight
  policy_trust_admin : PolicyRight
  policy_create_account : PolicyRight
  policy_create_secret : PolicyRight
  policy_create_privilege : PolicyRight
  policy_set_default_quota_limits : PolicyRight
  policy_set_audit_requirements : PolicyRight
  policy_audit_log_admin : PolicyRight
  policy_server_admin : PolicyRight
  policy_lookup_names : PolicyRight

unfoldable pub policy_right : PolicyRight → ℕ
policy_right policy_view_local_information = 0x0001
policy_right policy_view_audit_information = 0x0002
policy_right policy_get_private_information = 0x0004
policy_right policy_trust_admin = 0x0008
policy_right policy_create_account = 0x0010
policy_right policy_create_secret = 0x0020
policy_right policy_create_privilege = 0x0040
policy_right policy_set_default_quota_limits = 0x0080
policy_right policy_set_audit_requirements = 0x0100
policy_right policy_audit_log_admin = 0x0200
policy_right policy_server_admin = 0x0400
policy_right policy_lookup_names = 0x0800

abbrev pub policy_read : ℕ
policy_read = bit_or read_control 0x0006

abbrev pub policy_write : ℕ
policy_write = bit_or read_control 0x07f8

abbrev pub policy_execute : ℕ
policy_execute = bit_or read_control 0x0801

abbrev pub policy_all_access : ℕ
policy_all_access = bit_or standard_rights_required 0x0fff

-- The operations that open something.
pub data Operation : Type 0 where
  affinity_mask : Operation
  memory_info : Operation
  assign : Operation
  resume : Operation
  current_process_token : Operation
  add_account_rights : Operation
  remove_account_rights : Operation
  remove_all_account_rights : Operation
  enumerate_account_rights : Operation
  open_registry_key : Permissions → Operation

unfoldable pub affinity_mask_access : ℕ
unfolding process_right
affinity_mask_access = process_right process_query_information

unfoldable pub memory_info_access : ℕ
unfolding process_right
memory_info_access =
    bit_or (process_right process_query_information) (process_right process_vm_read)

abbrev pub assign_access : ℕ
assign_access = process_all_access

unfoldable pub resume_access : ℕ
unfolding thread_right
resume_access = thread_right thread_suspend_resume

-- `syscall.TOKEN_DUPLICATE|TOKEN_ADJUST_DEFAULT|TOKEN_QUERY|TOKEN_ASSIGN_PRIMARY` is 2, 0x80, 8 and 1.
abbrev pub current_process_token_access : ℕ
current_process_token_access = bit_or 0x2 (bit_or 0x80 (bit_or 0x8 0x1))

abbrev pub add_account_rights_access : ℕ
add_account_rights_access = policy_write

abbrev pub remove_account_rights_access : ℕ
remove_account_rights_access = policy_write

abbrev pub remove_all_account_rights_access : ℕ
remove_all_account_rights_access = policy_write

abbrev pub enumerate_account_rights_access : ℕ
enumerate_account_rights_access = policy_read

-- What each asks for.
unfoldable pub asked : Operation → ℕ
unfolding affinity_mask_access memory_info_access resume_access access_mask
asked affinity_mask = affinity_mask_access
asked memory_info = memory_info_access
asked assign = assign_access
asked resume = resume_access
asked current_process_token = current_process_token_access
asked add_account_rights = add_account_rights_access
asked remove_account_rights = remove_account_rights_access
asked remove_all_account_rights = remove_all_account_rights_access
asked enumerate_account_rights = enumerate_account_rights_access
asked (open_registry_key p) = access_mask p

-- Everything of `wanted` is in `mask`.
unfoldable pub covers : ℕ → ℕ → Bool
covers mask wanted = bit_and mask wanted == wanted
