-- ===== src/Layout/Documented/System.antt =====
-- The C declarations that Windows documents for the other structures, as the comments above the Go ones
-- give them.
use damon.Layout.{Declared, one, struct, union, done, ◌is◌, ◌&◌, uint16, uint32, uint64, uintptr}

-- PROCESS_MEMORY_COUNTERS_EX
abbrev pub c_process_memory_counters_ex : Declared
c_process_memory_counters_ex = struct (
    "cb" is one uint32
    & "PageFaultCount" is one uint32
    & "PeakWorkingSetSize" is one uintptr
    & "WorkingSetSize" is one uintptr
    & "QuotaPeakPagedPoolUsage" is one uintptr
    & "QuotaPagedPoolUsage" is one uintptr
    & "QuotaPeakNonPagedPoolUsage" is one uintptr
    & "QuotaNonPagedPoolUsage" is one uintptr
    & "PagefileUsage" is one uintptr
    & "PeakPagefileUsage" is one uintptr
    & "PrivateUsage" is one uintptr
    & done)

-- THREADENTRY32
abbrev pub c_threadentry32 : Declared
c_threadentry32 = struct (
    "dwSize" is one uint32
    & "cntUsage" is one uint32
    & "th32ThreadID" is one uint32
    & "th32OwnerProcessID" is one uint32
    & "tpBasePri" is one uint32
    & "tpDeltaPri" is one uint32
    & "dwFlags" is one uint32
    & done)

-- SYSTEM_INFO
abbrev pub c_system_info : Declared
c_system_info = struct (
    ""
      is union (
          "dwOemId" is one uint32
          & "" is struct ("wProcessorArchitecture" is one uint16 & "wReserved" is one uint16 & done)
          & done)
    & "dwPageSize" is one uint32
    & "lpMinimumApplicationAddress" is one uintptr
    & "lpMaximumApplicationAddress" is one uintptr
    & "dwActiveProcessorMask" is one uintptr
    & "dwNumberOfProcessors" is one uint32
    & "dwProcessorType" is one uint32
    & "dwAllocationGranularity" is one uint32
    & "wProcessorLevel" is one uint16
    & "wProcessorRevision" is one uint16
    & done)

-- MEMORYSTATUSEX
abbrev pub c_memorystatusex : Declared
c_memorystatusex = struct (
    "dwLength" is one uint32
    & "dwMemoryLoad" is one uint32
    & "ullTotalPhys" is one uint64
    & "ullAvailPhys" is one uint64
    & "ullTotalPageFile" is one uint64
    & "ullAvailPageFile" is one uint64
    & "ullTotalVirtual" is one uint64
    & "ullAvailVirtual" is one uint64
    & "ullAvailExtendedVirtual" is one uint64
    & done)

-- LSA_OBJECT_ATTRIBUTES
abbrev pub c_lsa_object_attributes : Declared
c_lsa_object_attributes = struct (
    "Length" is one uint32
    & "RootDirectory" is one uintptr
    & "ObjectName" is one uintptr
    & "Attributes" is one uint32
    & "SecurityDescriptor" is one uintptr
    & "SecurityQualityOfService" is one uintptr
    & done)

-- LSA_UNICODE_STRING
abbrev pub c_lsa_unicode_string : Declared
c_lsa_unicode_string = struct ("Length" is one uint16 & "MaximumLength" is one uint16 & done)

-- LUID
abbrev pub c_luid : Declared
c_luid = struct ("LowPart" is one uint32 & "HighPart" is one uint32 & done)

-- LUID_AND_ATTRIBUTES
abbrev pub c_luid_and_attributes : Declared
c_luid_and_attributes = struct ("Luid" is c_luid & "Attributes" is one uint32 & done)
