-- ===== src/Layout/Structures/System.antt =====
-- The structures of processes, threads, the system, the LSA and tokens that win32/ declares.
use damon.Layout.{Declared, one, struct, done, ◌is◌, ◌&◌, uint16, uint32, uint64, uintptr}

-- _PROCESS_MEMORY_COUNTERS_EX
abbrev pub process_memory_counters_ex : Declared
process_memory_counters_ex = struct (
    "cb" is one uint32
    & "PageFaultCount" is one uint32
    & "PeakWorkingSetSize" is one uintptr
    & "WorkingSetSize" is one uintptr
    & "QuotaPeakPagedPoolUsage" is one uintptr
    & "QuotaPagedPoolUsage" is one uintptr
    & "QuotaPeakNonPagedPoolUsage" is one uintptr
    & "QuotaNonPagedPoolUsage" is one uintptr
    & "PagefileUsage" is one uintptr
    & "PeakPagefileUsage" is one uintptr
    & "PrivateUsage" is one uintptr
    & done)

-- _THREADENTRY32
abbrev pub threadentry32 : Declared
threadentry32 = struct (
    "dwSize" is one uint32
    & "cntUsage" is one uint32
    & "th32ThreadID" is one uint32
    & "th32OwnerProcessID" is one uint32
    & "tpBasePri" is one uint32
    & "tpDeltaPri" is one uint32
    & "dwFlags" is one uint32
    & done)

-- _SYSTEM_INFO
abbrev pub system_info : Declared
system_info = struct (
    "dwOemId" is one uint32
    & "dwPageSize" is one uint32
    & "lpMinimumApplicationAddress" is one uintptr
    & "lpMaximumApplicationAddress" is one uintptr
    & "dwActiveProcessorMask" is one uintptr
    & "dwNumberOfProcessors" is one uint32
    & "dwProcessorType" is one uint32
    & "dwAllocationGranularity" is one uint32
    & "wProcessorLevel" is one uint16
    & "wProcessorRevision" is one uint16
    & done)

-- _MEMORYSTATUSEX
abbrev pub memorystatusex : Declared
memorystatusex = struct (
    "dwLength" is one uint32
    & "dwMemoryLoad" is one uint32
    & "ullTotalPhys" is one uint64
    & "ullAvailPhys" is one uint64
    & "ullTotalPageFile" is one uint64
    & "ullAvailPageFile" is one uint64
    & "ullTotalVirtual" is one uint64
    & "ullAvailVirtual" is one uint64
    & "ullAvailExtendedVirtual" is one uint64
    & done)

-- _LSA_OBJECT_ATTRIBUTES
abbrev pub lsa_object_attributes : Declared
lsa_object_attributes = struct (
    "Length" is one uint32
    & "RootDirectory" is one uintptr
    & "ObjectName" is one uintptr
    & "Attributes" is one uint32
    & "SecurityDescriptor" is one uintptr
    & "SecurityQualityOfService" is one uintptr
    & done)

-- _LSA_UNICODE_STRING
abbrev pub lsa_unicode_string : Declared
lsa_unicode_string =
    struct ("Length" is one uint16 & "MaximumLength" is one uint16 & "Buffer" is one uintptr & done)

-- _LUID
abbrev pub luid : Declared
luid = struct ("LowPart" is one uint32 & "HighPart" is one uint32 & done)

-- _LUID_AND_ATTRIBUTES
abbrev pub luid_and_attributes : Declared
luid_and_attributes = struct ("LUID" is luid & "Attributes" is one uint32 & done)
