-- ===== src/Layout/Structures.antt =====
-- The structures that win32/ declares for Windows, and a name for each.
mod Job
mod Network
mod System
pub use Job.*
pub use Network.*
pub use System.*
use damon.Layout.{Declared}

pub data Structure : Type 0 where
  a_io_counters : Structure
  a_basic_limit_information : Structure
  a_notification_limit_information : Structure
  a_notification_limit_information_2 : Structure
  a_limit_violation_information : Structure
  a_limit_violation_information_2 : Structure
  a_extended_limit_information : Structure
  a_cpu_rate_control_information : Structure
  a_cpu_rate_control_information_minmax : Structure
  a_associate_completion_port : Structure
  a_net_rate_control_information : Structure
  a_basic_accounting_information : Structure
  a_basic_and_io_accounting_information : Structure
  a_io_rate_control_information : Structure
  a_mib_tcprow_owner_pid : Structure
  a_mib_tcptable_owner_pid : Structure
  a_mib_tcp6row_owner_pid : Structure
  a_mib_tcp6table_owner_pid : Structure
  a_mib_tcprow_owner_module : Structure
  a_mib_tcptable_owner_module : Structure
  a_mib_tcp6row_owner_module : Structure
  a_mib_tcp6table_owner_module : Structure
  a_owner_module_basic_info : Structure
  a_process_memory_counters_ex : Structure
  a_threadentry32 : Structure
  a_system_info : Structure
  a_memorystatusex : Structure
  a_lsa_object_attributes : Structure
  a_lsa_unicode_string : Structure
  a_luid : Structure
  a_luid_and_attributes : Structure

unfoldable pub go_type : Structure → Declared
go_type a_io_counters = io_counters
go_type a_basic_limit_information = basic_limit_information
go_type a_notification_limit_information = notification_limit_information
go_type a_notification_limit_information_2 = notification_limit_information_2
go_type a_limit_violation_information = limit_violation_information
go_type a_limit_violation_information_2 = limit_violation_information_2
go_type a_extended_limit_information = extended_limit_information
go_type a_cpu_rate_control_information = cpu_rate_control_information
go_type a_cpu_rate_control_information_minmax = cpu_rate_control_information_minmax
go_type a_associate_completion_port = associate_completion_port
go_type a_net_rate_control_information = net_rate_control_information
go_type a_basic_accounting_information = basic_accounting_information
go_type a_basic_and_io_accounting_information = basic_and_io_accounting_information
go_type a_io_rate_control_information = io_rate_control_information
go_type a_mib_tcprow_owner_pid = mib_tcprow_owner_pid
go_type a_mib_tcptable_owner_pid = mib_tcptable_owner_pid
go_type a_mib_tcp6row_owner_pid = mib_tcp6row_owner_pid
go_type a_mib_tcp6table_owner_pid = mib_tcp6table_owner_pid
go_type a_mib_tcprow_owner_module = mib_tcprow_owner_module
go_type a_mib_tcptable_owner_module = mib_tcptable_owner_module
go_type a_mib_tcp6row_owner_module = mib_tcp6row_owner_module
go_type a_mib_tcp6table_owner_module = mib_tcp6table_owner_module
go_type a_owner_module_basic_info = owner_module_basic_info
go_type a_process_memory_counters_ex = process_memory_counters_ex
go_type a_threadentry32 = threadentry32
go_type a_system_info = system_info
go_type a_memorystatusex = memorystatusex
go_type a_lsa_object_attributes = lsa_object_attributes
go_type a_lsa_unicode_string = lsa_unicode_string
go_type a_luid = luid
go_type a_luid_and_attributes = luid_and_attributes
