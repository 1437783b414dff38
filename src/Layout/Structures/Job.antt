-- ===== src/Layout/Structures/Job.antt =====
-- The structures of job objects that win32/job_object_info_win32.go declares, as they are declared.
use damon.Layout.{
  Declared, one, struct, done, ◌is◌, ◌&◌, pad, uint8, uint16, uint32, uint64, uintptr,
}

-- _IO_COUNTERS
abbrev pub io_counters : Declared
io_counters = struct (
    "ReadOperationCount" is one uint64
    & "WriteOperationCount" is one uint64
    & "OtherOperationCount" is one uint64
    & "ReadTransferCount" is one uint64
    & "WriteTransferCount" is one uint64
    & "OtherTransferCount" is one uint64
    & done)

-- _JOBOBJECT_BASIC_LIMIT_INFORMATION
abbrev pub basic_limit_information : Declared
basic_limit_information = struct (
    "PerProcessUserTimeLimit" is one uint64
    & "PerJobUserTimeLimit" is one uint64
    & "LimitFlags" is one uint32
    & "MinimumWorkingSetSize" is one uintptr
    & "MaximumWorkingSetSize" is one uintptr
    & "ActiveProcessLimit" is one uint32
    & "Affinity" is one uintptr
    & "PriorityClass" is one uint32
    & "SchedulingClass" is one uint32
    & done)

-- _JOBOBJECT_NOTIFICATION_LIMIT_INFORMATION
abbrev pub notification_limit_information : Declared
notification_limit_information = struct (
    "IoReadBytesLimit" is one uint64
    & "IoWriteBytesLimit" is one uint64
    & "PerJobUserTimeLimit" is one uint64
    & "JobMemoryLimit" is one uint64
    & "RateControlTolerance" is one uint32
    & "RateControlToleranceInterval" is one uint32
    & "LimitFlags" is one uint32
    & pad 4
    & done)

-- _JOBOBJECT_NOTIFICATION_LIMIT_INFORMATION_2
abbrev pub notification_limit_information_2 : Declared
notification_limit_information_2 = struct (
    "IoReadBytesLimit" is one uint64
    & "IoWriteBytesLimit" is one uint64
    & "PerJobUserTimeLimit" is one uint64
    & "JobMemoryLimit" is one uint64
    & "RateControlTolerance" is one uint32
    & "RateControlToleranceInterval" is one uint32
    & "LimitFlags" is one uint32
    & "IoRateControlTolerance" is one uint32
    & "JobLowMemoryLimit" is one uint64
    & "IoRateControlToleranceInterval" is one uint32
    & "NetRateControlTolerance" is one uint32
    & "NetRateControlToleranceInterval" is one uint32
    & pad 4
    & done)

-- _JOBOBJECT_LIMIT_VIOLATION_INFORMATION
abbrev pub limit_violation_information : Declared
limit_violation_information = struct (
    "LimitFlags" is one uint32
    & "ViolationLimitFlags" is one uint32
    & "IoReadBytes" is one uint64
    & "IoReadBytesLimit" is one uint64
    & "IoWriteBytes" is one uint64
    & "IoWriteBytesLimit" is one uint64
    & "PerJobUserTime" is one uint64
    & "PerJobUserTimeLimit" is one uint64
    & "JobMemory" is one uint64
    & "JobMemoryLimit" is one uint64
    & "RateControlTolerance" is one uint8
    & "RateControlToleranceLimit" is one uint8
    & done)

-- _JOBOBJECT_LIMIT_VIOLATION_INFORMATION_2
abbrev pub limit_violation_information_2 : Declared
limit_violation_information_2 = struct (
    "LimitFlags" is one uint32
    & "ViolationLimitFlags" is one uint32
    & "IoReadBytes" is one uint64
    & "IoReadBytesLimit" is one uint64
    & "IoWriteBytes" is one uint64
    & "IoWriteBytesLimit" is one uint64
    & "PerJobUserTime" is one uint64
    & "PerJobUserTimeLimit" is one uint64
    & "JobMemory" is one uint64
    & "JobMemoryLimit" is one uint64
    & "RateControlTolerance" is one uint32
    & "RateControlToleranceLimit" is one uint32
    & "JobLowMemoryLimit" is one uint64
    & "IORateControlTolerance" is one uint32
    & "IORateControlToleranceLimit" is one uint32
    & "NetRateControlTolerance" is one uint32
    & "NetRateControlToleranceLimit" is one uint32
    & done)

-- _JOBOBJECT_EXTENDED_LIMIT_INFORMATION
abbrev pub extended_limit_information : Declared
extended_limit_information = struct (
    "BasicLimitInformation" is basic_limit_information
    & "IoInfo" is io_counters
    & "ProcessMemoryLimit" is one uintptr
    & "JobMemoryLimit" is one uintptr
    & "PeakProcessMemoryUsed" is one uintptr
    & "PeakJobMemoryUsed" is one uintptr
    & done)

-- _JOBOBJECT_CPU_RATE_CONTROL_INFORMATION
abbrev pub cpu_rate_control_information : Declared
cpu_rate_control_information = struct ("ControlFlags" is one uint32 & "Rate" is one uint32 & done)

-- _JOBOBJECT_CPU_RATE_CONTROL_INFORMATION_MINMAX
abbrev pub cpu_rate_control_information_minmax : Declared
cpu_rate_control_information_minmax =
    struct ("ControlFlags" is one uint32 & "MinRate" is one uint16 & "MaxRate" is one uint16 & done)

-- _JOBOBJECT_ASSOCIATE_COMPLETION_PORT
abbrev pub associate_completion_port : Declared
associate_completion_port =
    struct ("CompletionKey" is one uintptr & "CompletionPort" is one uintptr & done)

-- _JOBOBJECT_NET_RATE_CONTROL_INFORMATION
abbrev pub net_rate_control_information : Declared
net_rate_control_information = struct (
    "MaxBandwidth" is one uint64
    & "ControlFlags" is one uint32
    & "DscpTag" is one uint8
    & pad 3
    & done)

-- _JOBOBJECT_BASIC_ACCOUNTING_INFORMATION
abbrev pub basic_accounting_information : Declared
basic_accounting_information = struct (
    "TotalUserTime" is one uint64
    & "TotalKernelTime" is one uint64
    & "ThisPeriodTotalUserTime" is one uint64
    & "ThisPeriodTotalKernelTime" is one uint64
    & "TotalPageFaultCount" is one uint32
    & "TotalProcesses" is one uint32
    & "ActiveProcesses" is one uint32
    & "TotalTerminatedProcesses" is one uint32
    & done)

-- _JOBOBJECT_BASIC_AND_IO_ACCOUNTING_INFORMATION
abbrev pub basic_and_io_accounting_information : Declared
basic_and_io_accounting_information =
    struct ("BasicInfo" is basic_accounting_information & "IoInfo" is io_counters & done)

-- _JOBOBJECT_IO_RATE_CONTROL_INFORMATION
abbrev pub io_rate_control_information : Declared
io_rate_control_information = struct (
    "MaxIops" is one uint64
    & "MaxBandwidth" is one uint64
    & "ReservationIops" is one uint64
    & "VolumeName" is one uintptr
    & "BaseIoSize" is one uint32
    & "ControlFlags" is one uint32
    & done)
