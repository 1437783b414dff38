-- ===== src/Access/Laws.antt =====
-- The rights that win32/ asks for against those that Windows documents for what is then called.
use damon.Prelude.{ℕ, ◌≡◌, refl, Bool, true, false, not, ◌||◌, bit_or, if◌then◌else◌}
use damon.Registry.{access_mask}
use damon.Access.{
  ProcessRight, process_right, process_all_access, ThreadRight, thread_right, thread_all_access,
  PolicyRight, policy_right, policy_read, policy_write, policy_execute, policy_all_access,
  Operation, asked, covers, process_terminate, process_create_thread, process_set_sessionid,
  process_vm_operation, process_vm_read, process_vm_write, process_dup_handle,
  process_create_process, process_set_quota, process_set_information, process_query_information,
  process_suspend_resume, process_query_limited_information, process_set_limited_information,
  thread_terminate, thread_suspend_resume, thread_get_context, thread_set_context,
  thread_query_information, thread_set_information, thread_set_thread_token, thread_impersonate,
  thread_direct_impersonation, thread_set_limited_information, thread_query_limited_information,
  thread_resume, policy_view_local_information, policy_view_audit_information,
  policy_get_private_information, policy_trust_admin, policy_create_account, policy_create_secret,
  policy_create_privilege, policy_set_default_quota_limits, policy_set_audit_requirements,
  policy_audit_log_admin, policy_server_admin, policy_lookup_names, affinity_mask, memory_info,
  assign, resume, current_process_token, add_account_rights, remove_account_rights,
  remove_all_account_rights, enumerate_account_rights, open_registry_key,
}

abbrev key_query_value : ℕ
key_query_value = 0x1

abbrev key_set_value : ℕ
key_set_value = 0x2

abbrev key_create_sub_key : ℕ
key_create_sub_key = 0x4

-- What Windows documents: GetProcessAffinityMask, GetProcessMemoryInfo, AssignProcessToJobObject and
-- ResumeThread; to start a process with a token, and to restrict a token, TOKEN_QUERY, TOKEN_DUPLICATE and
-- TOKEN_ASSIGN_PRIMARY; the LSA's functions for account rights POLICY_LOOKUP_NAMES; a key is read with
-- KEY_QUERY_VALUE, and written with KEY_SET_VALUE and KEY_CREATE_SUB_KEY.
pub needed : Operation → ℕ
unfolding process_right thread_right policy_right
needed affinity_mask = process_right process_query_information
needed memory_info =
    bit_or (process_right process_query_information) (process_right process_vm_read)
needed assign = bit_or (process_right process_set_quota) (process_right process_terminate)
needed resume = thread_right thread_suspend_resume
needed current_process_token = bit_or 0x8 (bit_or 0x2 0x1)
needed add_account_rights = policy_right policy_lookup_names
needed remove_account_rights = policy_right policy_lookup_names
needed remove_all_account_rights = policy_right policy_lookup_names
needed enumerate_account_rights = policy_right policy_lookup_names
needed (open_registry_key p) =
    bit_or (if p.read then key_query_value else 0)
      (if p.write then bit_or key_set_value key_create_sub_key else 0)

pub of_policy : Operation → Bool
of_policy add_account_rights = true
of_policy remove_account_rights = true
of_policy remove_all_account_rights = true
of_policy enumerate_account_rights = true
of_policy op = false

key-covers :
    (r w : Bool)
    → let op = open_registry_key (record { read = r; write = w }) in
      covers (asked op) (needed op) ≡ true
unfolding asked covers needed access_mask
key-covers false false = refl
key-covers false true = refl
key-covers true false = refl
key-covers true true = refl

-- What an operation opens a process, a thread, a token or a registry key with covers what Windows documents
-- for what it then calls; the four operations on the rights of accounts open the policy without the right
-- to look names up, which their calls are documented to need.
pub asked-covers-needed : (op : Operation) → covers (asked op) (needed op) ≡ not (of_policy op)
unfolding asked covers needed of_policy access_mask
asked-covers-needed affinity_mask = refl
asked-covers-needed memory_info = refl
asked-covers-needed assign = refl
asked-covers-needed resume = refl
asked-covers-needed current_process_token = refl
asked-covers-needed add_account_rights = refl
asked-covers-needed remove_account_rights = refl
asked-covers-needed remove_all_account_rights = refl
asked-covers-needed enumerate_account_rights = refl
asked-covers-needed (open_registry_key p) = key-covers p.read p.write

all_access-process_right : (r : ProcessRight) → covers process_all_access (process_right r) ≡ true
unfolding covers process_right
all_access-process_right process_terminate = refl
all_access-process_right process_create_thread = refl
all_access-process_right process_set_sessionid = refl
all_access-process_right process_vm_operation = refl
all_access-process_right process_vm_read = refl
all_access-process_right process_vm_write = refl
all_access-process_right process_dup_handle = refl
all_access-process_right process_create_process = refl
all_access-process_right process_set_quota = refl
all_access-process_right process_set_information = refl
all_access-process_right process_query_information = refl
all_access-process_right process_suspend_resume = refl
all_access-process_right process_query_limited_information = refl
all_access-process_right process_set_limited_information = refl

all_access-thread_right : (r : ThreadRight) → covers thread_all_access (thread_right r) ≡ true
unfolding covers thread_right
all_access-thread_right thread_terminate = refl
all_access-thread_right thread_suspend_resume = refl
all_access-thread_right thread_get_context = refl
all_access-thread_right thread_set_context = refl
all_access-thread_right thread_query_information = refl
all_access-thread_right thread_set_information = refl
all_access-thread_right thread_set_thread_token = refl
all_access-thread_right thread_impersonate = refl
all_access-thread_right thread_direct_impersonation = refl
all_access-thread_right thread_set_limited_information = refl
all_access-thread_right thread_query_limited_information = refl
all_access-thread_right thread_resume = refl

abbrev one_of : Bool → Bool → Bool → Bool
one_of a b c = if a then not (b || c) else if b then not c else c

-- Each right to the policy belongs to reading, to writing or to executing, and to one of them only.
policy_right-one :
    (r : PolicyRight)
    → (covers policy_all_access (policy_right r) ≡ true)
      × (one_of
            (covers policy_read (policy_right r))
            (covers policy_write (policy_right r))
            (covers policy_execute (policy_right r))
          ≡ true)
unfolding covers policy_right
policy_right-one policy_view_local_information = (refl, refl)
policy_right-one policy_view_audit_information = (refl, refl)
policy_right-one policy_get_private_information = (refl, refl)
policy_right-one policy_trust_admin = (refl, refl)
policy_right-one policy_create_account = (refl, refl)
policy_right-one policy_create_secret = (refl, refl)
policy_right-one policy_create_privilege = (refl, refl)
policy_right-one policy_set_default_quota_limits = (refl, refl)
policy_right-one policy_set_audit_requirements = (refl, refl)
policy_right-one policy_audit_log_admin = (refl, refl)
policy_right-one policy_server_admin = (refl, refl)
policy_right-one policy_lookup_names = (refl, refl)
