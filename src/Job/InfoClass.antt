-- ===== src/Job/InfoClass.antt =====
-- The information classes of job objects (win32/job_object_info_win32.go).
use damon.Prelude.{ℕ}

-- The classes in the order of their numbers, from 1 on.
pub data InfoClass : Type 0 where
  class_basic_accounting_information : InfoClass
  class_basic_limit_information : InfoClass
  class_basic_process_id_list : InfoClass
  class_basic_ui_restrictions : InfoClass
  class_security_limit_information : InfoClass
  class_end_of_job_time_information : InfoClass
  class_associate_completion_port_information : InfoClass
  class_basic_and_io_accounting_information : InfoClass
  class_extended_limit_information : InfoClass
  class_job_set_information : InfoClass
  class_group_information : InfoClass
  class_notification_limit_information : InfoClass
  class_limit_violation_information : InfoClass
  class_group_information_ex : InfoClass
  class_cpu_rate_control_information : InfoClass
  class_completion_filter : InfoClass
  class_completion_counter : InfoClass
  class_reserved1_information : InfoClass
  class_reserved2_information : InfoClass
  class_reserved3_information : InfoClass
  class_reserved4_information : InfoClass
  class_reserved5_information : InfoClass
  class_reserved6_information : InfoClass
  class_reserved7_information : InfoClass
  class_reserved8_information : InfoClass
  class_reserved9_information : InfoClass
  class_reserved10_information : InfoClass
  class_reserved11_information : InfoClass
  class_reserved12_information : InfoClass
  class_reserved13_information : InfoClass
  class_reserved14_information : InfoClass
  class_net_rate_control_information : InfoClass
  class_notification_limit_information2 : InfoClass
  class_limit_violation_information2 : InfoClass
  class_create_silo : InfoClass
  class_silo_basic_information : InfoClass
  class_reserved15_information : InfoClass
  class_reserved16_information : InfoClass
  class_reserved17_information : InfoClass
  class_reserved18_information : InfoClass
  class_reserved19_information : InfoClass
  class_reserved20_information : InfoClass
  class_reserved21_information : InfoClass
  class_reserved22_information : InfoClass
  class_reserved23_information : InfoClass
  class_reserved24_information : InfoClass
  class_reserved25_information : InfoClass
  class_max_job_object_info_class : InfoClass

unfoldable pub number : InfoClass → ℕ
number class_basic_accounting_information = 1
number class_basic_limit_information = 2
number class_basic_process_id_list = 3
number class_basic_ui_restrictions = 4
number class_security_limit_information = 5
number class_end_of_job_time_information = 6
number class_associate_completion_port_information = 7
number class_basic_and_io_accounting_information = 8
number class_extended_limit_information = 9
number class_job_set_information = 10
number class_group_information = 11
number class_notification_limit_information = 12
number class_limit_violation_information = 13
number class_group_information_ex = 14
number class_cpu_rate_control_information = 15
number class_completion_filter = 16
number class_completion_counter = 17
number class_reserved1_information = 18
number class_reserved2_information = 19
number class_reserved3_information = 20
number class_reserved4_information = 21
number class_reserved5_information = 22
number class_reserved6_information = 23
number class_reserved7_information = 24
number class_reserved8_information = 25
number class_reserved9_information = 26
number class_reserved10_information = 27
number class_reserved11_information = 28
number class_reserved12_information = 29
number class_reserved13_information = 30
number class_reserved14_information = 31
number class_net_rate_control_information = 32
number class_notification_limit_information2 = 33
number class_limit_violation_information2 = 34
number class_create_silo = 35
number class_silo_basic_information = 36
number class_reserved15_information = 37
number class_reserved16_information = 38
number class_reserved17_information = 39
number class_reserved18_information = 40
number class_reserved19_information = 41
number class_reserved20_information = 42
number class_reserved21_information = 43
number class_reserved22_information = 44
number class_reserved23_information = 45
number class_reserved24_information = 46
number class_reserved25_information = 47
number class_max_job_object_info_class = 48
