-- ===== src/Layout/Documented.antt =====
-- What Windows documents for each of the structures. The one of minimal and maximal CPU rates is a view
-- of the documented union.
mod Job
mod Network
mod System
use Job.*
use Network.*
use System.*
use damon.Layout.{Declared}
use damon.Layout.Structures.{
  Structure, a_io_counters, a_basic_limit_information, a_notification_limit_information,
  a_notification_limit_information_2, a_limit_violation_information,
  a_limit_violation_information_2, a_extended_limit_information, a_cpu_rate_control_information,
  a_cpu_rate_control_information_minmax, a_associate_completion_port,
  a_net_rate_control_information, a_basic_accounting_information,
  a_basic_and_io_accounting_information, a_io_rate_control_information, a_mib_tcprow_owner_pid,
  a_mib_tcptable_owner_pid, a_mib_tcp6row_owner_pid, a_mib_tcp6table_owner_pid,
  a_mib_tcprow_owner_module, a_mib_tcptable_owner_module, a_mib_tcp6row_owner_module,
  a_mib_tcp6table_owner_module, a_owner_module_basic_info, a_process_memory_counters_ex,
  a_threadentry32, a_system_info, a_memorystatusex, a_lsa_object_attributes, a_lsa_unicode_string,
  a_luid, a_luid_and_attributes,
}

unfoldable pub c_type : Structure → Declared
c_type a_io_counters = c_io_counters
c_type a_basic_limit_information = c_basic_limit_information
c_type a_notification_limit_information = c_notification_limit_information
c_type a_notification_limit_information_2 = c_notification_limit_information_2
c_type a_limit_violation_information = c_limit_violation_information
c_type a_limit_violation_information_2 = c_limit_violation_information_2
c_type a_extended_limit_information = c_extended_limit_information
c_type a_cpu_rate_control_information = c_cpu_rate_control_information
c_type a_cpu_rate_control_information_minmax = c_cpu_rate_control_information
c_type a_associate_completion_port = c_associate_completion_port
c_type a_net_rate_control_information = c_net_rate_control_information
c_type a_basic_accounting_information = c_basic_accounting_information
c_type a_basic_and_io_accounting_information = c_basic_and_io_accounting_information
c_type a_io_rate_control_information = c_io_rate_control_information
c_type a_mib_tcprow_owner_pid = c_mib_tcprow_owner_pid
c_type a_mib_tcptable_owner_pid = c_mib_tcptable_owner_pid
c_type a_mib_tcp6row_owner_pid = c_mib_tcp6row_owner_pid
c_type a_mib_tcp6table_owner_pid = c_mib_tcp6table_owner_pid
c_type a_mib_tcprow_owner_module = c_mib_tcprow_owner_module
c_type a_mib_tcptable_owner_module = c_mib_tcptable_owner_module
c_type a_mib_tcp6row_owner_module = c_mib_tcp6row_owner_module
c_type a_mib_tcp6table_owner_module = c_mib_tcp6table_owner_module
c_type a_owner_module_basic_info = c_owner_module_basic_info
c_type a_process_memory_counters_ex = c_process_memory_counters_ex
c_type a_threadentry32 = c_threadentry32
c_type a_system_info = c_system_info
c_type a_memorystatusex = c_memorystatusex
c_type a_lsa_object_attributes = c_lsa_object_attributes
c_type a_lsa_unicode_string = c_lsa_unicode_string
c_type a_luid = c_luid
c_type a_luid_and_attributes = c_luid_and_attributes
