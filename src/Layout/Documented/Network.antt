-- ===== src/Layout/Documented/Network.antt =====
-- The C declarations that Windows documents for the tables of win32/ip_helper_win32.go, as its comments
-- give them.
use damon.Layout.Structures.{tcpip_owning_module_size}
use damon.Layout.{
  Declared, one, many, single, struct, done, ◌is◌, ◌&◌, uint8, uint32, uint64, uintptr,
}

-- MIB_TCPROW_OWNER_PID
abbrev pub c_mib_tcprow_owner_pid : Declared
c_mib_tcprow_owner_pid = struct (
    "dwState" is one uint32
    & "dwLocalAddr" is one uint32
    & "dwLocalPort" is one uint32
    & "dwRemoteAddr" is one uint32
    & "dwRemotePort" is one uint32
    & "dwOwningPid" is one uint32
    & done)

-- MIB_TCPTABLE_OWNER_PID
abbrev pub c_mib_tcptable_owner_pid : Declared
c_mib_tcptable_owner_pid =
    struct ("dwNumEntries" is one uint32 & "table" is single c_mib_tcprow_owner_pid & done)

-- MIB_TCP6ROW_OWNER_PID
abbrev pub c_mib_tcp6row_owner_pid : Declared
c_mib_tcp6row_owner_pid = struct (
    "ucLocalAddr" is many 16 uint8
    & "dwLocalScopeId" is one uint32
    & "dwLocalPort" is one uint32
    & "ucRemoteAddr" is many 16 uint8
    & "dwRemoteScopeId" is one uint32
    & "dwRemotePort" is one uint32
    & "dwState" is one uint32
    & "dwOwningPid" is one uint32
    & done)

-- MIB_TCP6TABLE_OWNER_PID
abbrev pub c_mib_tcp6table_owner_pid : Declared
c_mib_tcp6table_owner_pid =
    struct ("dwNumEntries" is one uint32 & "table" is single c_mib_tcp6row_owner_pid & done)

-- MIB_TCPROW_OWNER_MODULE
abbrev pub c_mib_tcprow_owner_module : Declared
c_mib_tcprow_owner_module = struct (
    "dwState" is one uint32
    & "dwLocalAddr" is one uint32
    & "dwLocalPort" is one uint32
    & "dwRemoteAddr" is one uint32
    & "dwRemotePort" is one uint32
    & "dwOwningPid" is one uint32
    & "liCreateTimestamp" is one uint64
    & "OwningModuleInfo" is many tcpip_owning_module_size uint64
    & done)

-- MIB_TCPTABLE_OWNER_MODULE
abbrev pub c_mib_tcptable_owner_module : Declared
c_mib_tcptable_owner_module =
    struct ("dwNumEntries" is one uint32 & "table" is single c_mib_tcprow_owner_module & done)

-- MIB_TCP6ROW_OWNER_MODULE
abbrev pub c_mib_tcp6row_owner_module : Declared
c_mib_tcp6row_owner_module = struct (
    "ucLocalAddr" is many 16 uint8
    & "dwLocalScopeId" is one uint32
    & "dwLocalPort" is one uint32
    & "ucRemoteAddr" is many 16 uint8
    & "dwRemoteScopeId" is one uint32
    & "dwRemotePort" is one uint32
    & "dwState" is one uint32
    & "dwOwningPid" is one uint32
    & "liCreateTimestamp" is one uint64
    & "OwningModuleInfo" is many tcpip_owning_module_size uint64
    & done)

-- MIB_TCP6TABLE_OWNER_MODULE
abbrev pub c_mib_tcp6table_owner_module : Declared
c_mib_tcp6table_owner_module =
    struct ("dwNumEntries" is one uint32 & "table" is single c_mib_tcp6row_owner_module & done)

-- TCPIP_OWNER_MODULE_BASIC_INFO
abbrev pub c_owner_module_basic_info : Declared
c_owner_module_basic_info =
    struct ("pModuleName" is one uintptr & "pModulePath" is one uintptr & done)
