-- ===== src/Layout/Agreement.antt =====
-- Whether the structures of win32/ lie in memory as Windows documents them.
use damon.Prelude.{
  ◌+◌, String, ◌=s◌, ◌≡◌, refl, Bool, true, false, not, ◌&&◌, List, [], ◌∷◌, ltb, ◌==◌,
  if◌then◌else◌,
}
use damon.Layout.{Declared, Place, size, places, round_up, align, width}
use damon.Layout.Structures.{
  Structure, go_type, a_io_counters, a_basic_limit_information, a_notification_limit_information,
  a_notification_limit_information_2, a_limit_violation_information,
  a_limit_violation_information_2, a_extended_limit_information, a_cpu_rate_control_information,
  a_cpu_rate_control_information_minmax, a_associate_completion_port,
  a_net_rate_control_information, a_basic_accounting_information,
  a_basic_and_io_accounting_information, a_io_rate_control_information, a_mib_tcprow_owner_pid,
  a_mib_tcptable_owner_pid, a_mib_tcp6row_owner_pid, a_mib_tcp6table_owner_pid,
  a_mib_tcprow_owner_module, a_mib_tcptable_owner_module, a_mib_tcp6row_owner_module,
  a_mib_tcp6table_owner_module, a_owner_module_basic_info, a_process_memory_counters_ex,
  a_threadentry32, a_system_info, a_memorystatusex, a_lsa_object_attributes, a_lsa_unicode_string,
  a_luid, a_luid_and_attributes,
}
use damon.Layout.Documented.{c_type}

-- The documented name of a member whose name in the code is another: one of the names of a union, or
-- the same name in other case.
documented_name : String → String
documented_name name =
    if name =s "Rate"
    then "CpuRate"
    else if name =s "IORateControlTolerance"
    then "IoRateControlTolerance"
    else if name =s "IORateControlToleranceLimit"
    then "IoRateControlToleranceLimit"
    else name

same_place : Place → Place → Bool
unfolding documented_name
same_place p q = (documented_name p.label =s q.label) && (p.at == q.at) && (p.extent == q.extent)

meets : Place → Place → Bool
meets p q = ltb p.at (q.at + q.extent) && ltb q.at (p.at + p.extent)

some_of : (Place → Bool) → List Place → Bool
some_of test [] = false
some_of test (p ∷ ps) = if test p then true else some_of test ps

each_of : (Place → Bool) → List Place → Bool
each_of test [] = true
each_of test (p ∷ ps) = test p && each_of test ps

-- The sizes are equal; each number of the Go structure is one of the C structure, at the same offset, of
-- the same size and by its documented name; and no number of the C structure is left out.
unfoldable pub agrees : Declared → Declared → Bool
unfolding size places same_place meets some_of each_of
agrees go c =
    let gs = places "" 0 go in
    let cs = places "" 0 c in
    (size go == size c)
    && each_of (λ p. some_of (same_place p) cs) gs
    && each_of (λ q. some_of (meets q) gs) cs

unfoldable pub departs : Structure → Bool
departs a_limit_violation_information = true
departs a_lsa_unicode_string = true
departs s = false

-- On amd64 every structure that win32/ declares lies in memory as the C declaration in its comment says,
-- but for two: the older report of violations, and the counted strings of the LSA.
pub agrees-not-departs : (s : Structure) → agrees (go_type s) (c_type s) ≡ not (departs s)
unfolding agrees size places go_type c_type departs same_place meets some_of each_of documented_name
    round_up align width
agrees-not-departs a_io_counters = refl
agrees-not-departs a_basic_limit_information = refl
agrees-not-departs a_notification_limit_information = refl
agrees-not-departs a_notification_limit_information_2 = refl
agrees-not-departs a_limit_violation_information = refl
agrees-not-departs a_limit_violation_information_2 = refl
agrees-not-departs a_extended_limit_information = refl
agrees-not-departs a_cpu_rate_control_information = refl
agrees-not-departs a_cpu_rate_control_information_minmax = refl
agrees-not-departs a_associate_completion_port = refl
agrees-not-departs a_net_rate_control_information = refl
agrees-not-departs a_basic_accounting_information = refl
agrees-not-departs a_basic_and_io_accounting_information = refl
agrees-not-departs a_io_rate_control_information = refl
agrees-not-departs a_mib_tcprow_owner_pid = refl
agrees-not-departs a_mib_tcptable_owner_pid = refl
agrees-not-departs a_mib_tcp6row_owner_pid = refl
agrees-not-departs a_mib_tcp6table_owner_pid = refl
agrees-not-departs a_mib_tcprow_owner_module = refl
agrees-not-departs a_mib_tcptable_owner_module = refl
agrees-not-departs a_mib_tcp6row_owner_module = refl
agrees-not-departs a_mib_tcp6table_owner_module = refl
agrees-not-departs a_owner_module_basic_info = refl
agrees-not-departs a_process_memory_counters_ex = refl
agrees-not-departs a_threadentry32 = refl
agrees-not-departs a_system_info = refl
agrees-not-departs a_memorystatusex = refl
agrees-not-departs a_lsa_object_attributes = refl
agrees-not-departs a_lsa_unicode_string = refl
agrees-not-departs a_luid = refl
agrees-not-departs a_luid_and_attributes = refl
