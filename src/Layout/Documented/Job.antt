-- ===== src/Layout/Documented/Job.antt =====
-- The C declarations that Windows documents for job objects, as the comments above those of win32/job_object_info_win32.go give them; a
-- member of an anonymous union or structure has no name of its own.
use damon.Layout.{
  Declared, one, struct, union, done, ◌is◌, ◌&◌, uint8, uint16, uint32, uint64, uintptr,
}

-- IO_COUNTERS
abbrev pub c_io_counters : Declared
c_io_counters = struct (
    "ReadOperationCount" is one uint64
    & "WriteOperationCount" is one uint64
    & "OtherOperationCount" is one uint64
    & "ReadTransferCount" is one uint64
    & "WriteTransferCount" is one uint64
    & "OtherTransferCount" is one uint64
    & done)

-- JOBOBJECT_BASIC_LIMIT_INFORMATION
abbrev pub c_basic_limit_information : Declared
c_basic_limit_information = struct (
    "PerProcessUserTimeLimit" is one uint64
    & "PerJobUserTimeLimit" is one uint64
    & "LimitFlags" is one uint32
    & "MinimumWorkingSetSize" is one uintptr
    & "MaximumWorkingSetSize" is one uintptr
    & "ActiveProcessLimit" is one uint32
    & "Affinity" is one uintptr
    & "PriorityClass" is one uint32
    & "SchedulingClass" is one uint32
    & done)

-- JOBOBJECT_NOTIFICATION_LIMIT_INFORMATION
abbrev pub c_notification_limit_information : Declared
c_notification_limit_information = struct (
    "IoReadBytesLimit" is one uint64
    & "IoWriteBytesLimit" is one uint64
    & "PerJobUserTimeLimit" is one uint64
    & "JobMemoryLimit" is one uint64
    & "RateControlTolerance" is one uint32
    & "RateControlToleranceInterval" is one uint32
    & "LimitFlags" is one uint32
    & done)

-- JOBOBJECT_NOTIFICATION_LIMIT_INFORMATION_2
abbrev pub c_notification_limit_information_2 : Declared
c_notification_limit_information_2 = struct (
    "IoReadBytesLimit" is one uint64
    & "IoWriteBytesLimit" is one uint64
    & "PerJobUserTimeLimit" is one uint64
    & "" is union ("JobHighMemoryLimit" is one uint64 & "JobMemoryLimit" is one uint64 & done)
    & ""
      is union
          ("RateControlTolerance" is one uint32 & "CpuRateControlTolerance" is one uint32 & done)
    & ""
      is union (
          "RateControlToleranceInterval" is one uint32
          & "CpuRateControlToleranceInterval" is one uint32
          & done)
    & "LimitFlags" is one uint32
    & "IoRateControlTolerance" is one uint32
    & "JobLowMemoryLimit" is one uint64
    & "IoRateControlToleranceInterval" is one uint32
    & "NetRateControlTolerance" is one uint32
    & "NetRateControlToleranceInterval" is one uint32
    & done)

-- JOBOBJECT_LIMIT_VIOLATION_INFORMATION
abbrev pub c_limit_violation_information : Declared
c_limit_violation_information = struct (
    "LimitFlags" is one uint32
    & "ViolationLimitFlags" is one uint32
    & "IoReadBytes" is one uint64
    & "IoReadBytesLimit" is one uint64
    & "IoWriteBytes" is one uint64
    & "IoWriteBytesLimit" is one uint64
    & "PerJobUserTime" is one uint64
    & "PerJobUserTimeLimit" is one uint64
    & "JobMemory" is one uint64
    & "JobMemoryLimit" is one uint64
    & "RateControlTolerance" is one uint32
    & "RateControlToleranceLimit" is one uint32
    & done)

-- JOBOBJECT_LIMIT_VIOLATION_INFORMATION_2
abbrev pub c_limit_violation_information_2 : Declared
c_limit_violation_information_2 = struct (
    "LimitFlags" is one uint32
    & "ViolationLimitFlags" is one uint32
    & "IoReadBytes" is one uint64
    & "IoReadBytesLimit" is one uint64
    & "IoWriteBytes" is one uint64
    & "IoWriteBytesLimit" is one uint64
    & "PerJobUserTime" is one uint64
    & "PerJobUserTimeLimit" is one uint64
    & "JobMemory" is one uint64
    & "" is union ("JobHighMemoryLimit" is one uint64 & "JobMemoryLimit" is one uint64 & done)
    & ""
      is union
          ("RateControlTolerance" is one uint32 & "CpuRateControlTolerance" is one uint32 & done)
    & ""
      is union (
          "RateControlToleranceLimit" is one uint32
          & "CpuRateControlToleranceLimit" is one uint32
          & done)
    & "JobLowMemoryLimit" is one uint64
    & "IoRateControlTolerance" is one uint32
    & "IoRateControlToleranceLimit" is one uint32
    & "NetRateControlTolerance" is one uint32
    & "NetRateControlToleranceLimit" is one uint32
    & done)

-- JOBOBJECT_EXTENDED_LIMIT_INFORMATION
abbrev pub c_extended_limit_information : Declared
c_extended_limit_information = struct (
    "BasicLimitInformation" is c_basic_limit_information
    & "IoInfo" is c_io_counters
    & "ProcessMemoryLimit" is one uintptr
    & "JobMemoryLimit" is one uintptr
    & "PeakProcessMemoryUsed" is one uintptr
    & "PeakJobMemoryUsed" is one uintptr
    & done)

-- JOBOBJECT_CPU_RATE_CONTROL_INFORMATION
abbrev pub c_cpu_rate_control_information : Declared
c_cpu_rate_control_information = struct (
    "ControlFlags" is one uint32
    & ""
      is union (
          "CpuRate" is one uint32
          & "Weight" is one uint32
          & "" is struct ("MinRate" is one uint16 & "MaxRate" is one uint16 & done)
          & done)
    & done)

-- JOBOBJECT_ASSOCIATE_COMPLETION_PORT
abbrev pub c_associate_completion_port : Declared
c_associate_completion_port =
    struct ("CompletionKey" is one uintptr & "CompletionPort" is one uintptr & done)

-- JOBOBJECT_NET_RATE_CONTROL_INFORMATION
abbrev pub c_net_rate_control_information : Declared
c_net_rate_control_information =
    struct
      ("MaxBandwidth" is one uint64 & "ControlFlags" is one uint32 & "DscpTag" is one uint8 & done)

-- JOBOBJECT_BASIC_ACCOUNTING_INFORMATION
abbrev pub c_basic_accounting_information : Declared
c_basic_accounting_information = struct (
    "TotalUserTime" is one uint64
    & "TotalKernelTime" is one uint64
    & "ThisPeriodTotalUserTime" is one uint64
    & "ThisPeriodTotalKernelTime" is one uint64
    & "TotalPageFaultCount" is one uint32
    & "TotalProcesses" is one uint32
    & "ActiveProcesses" is one uint32
    & "TotalTerminatedProcesses" is one uint32
    & done)

-- JOBOBJECT_BASIC_AND_IO_ACCOUNTING_INFORMATION
abbrev pub c_basic_and_io_accounting_information : Declared
c_basic_and_io_accounting_information =
    struct ("BasicInfo" is c_basic_accounting_information & "IoInfo" is c_io_counters & done)

-- JOBOBJECT_IO_RATE_CONTROL_INFORMATION
abbrev pub c_io_rate_control_information : Declared
c_io_rate_control_information = struct (
    "MaxIops" is one uint64
    & "MaxBandwidth" is one uint64
    & "ReservationIops" is one uint64
    & "VolumeName" is one uintptr
    & "BaseIoSize" is one uint32
    & "ControlFlags" is one uint32
    & done)
