-- ===== src/Layout/Structures/Network.antt =====
-- The rows and tables of TCP connections that win32/ip_helper_win32.go declares.
use damon.Prelude.{ℕ}
use damon.Layout.{
  Declared, one, many, single, struct, done, ◌is◌, ◌&◌, uint8, uint32, uint64, uintptr,
}

abbrev pub tcpip_owning_module_size : ℕ
tcpip_owning_module_size = 16

-- _MIB_TCPROW_OWNER_PID
abbrev pub mib_tcprow_owner_pid : Declared
mib_tcprow_owner_pid = struct (
    "dwState" is one uint32
    & "dwLocalAddr" is many 4 uint8
    & "dwLocalPort" is one uint32
    & "dwRemoteAddr" is many 4 uint8
    & "dwRemotePort" is one uint32
    & "dwOwningPid" is one uint32
    & done)

-- _MIB_TCPTABLE_OWNER_PID
abbrev pub mib_tcptable_owner_pid : Declared
mib_tcptable_owner_pid =
    struct ("dwNumEntries" is one uint32 & "table" is single mib_tcprow_owner_pid & done)

-- _MIB_TCP6ROW_OWNER_PID
abbrev pub mib_tcp6row_owner_pid : Declared
mib_tcp6row_owner_pid = struct (
    "ucLocalAddr" is many 16 uint8
    & "dwLocalScopeId" is one uint32
    & "dwLocalPort" is one uint32
    & "ucRemoteAddr" is many 16 uint8
    & "dwRemoteScopeId" is one uint32
    & "dwRemotePort" is one uint32
    & "dwState" is one uint32
    & "dwOwningPid" is one uint32
    & done)

-- _MIB_TCP6TABLE_OWNER_PID
abbrev pub mib_tcp6table_owner_pid : Declared
mib_tcp6table_owner_pid =
    struct ("dwNumEntries" is one uint32 & "table" is single mib_tcp6row_owner_pid & done)

-- _MIB_TCPROW_OWNER_MODULE
abbrev pub mib_tcprow_owner_module : Declared
mib_tcprow_owner_module = struct (
    "dwState" is one uint32
    & "dwLocalAddr" is many 4 uint8
    & "dwLocalPort" is one uint32
    & "dwRemoteAddr" is many 4 uint8
    & "dwRemotePort" is one uint32
    & "dwOwningPid" is one uint32
    & "liCreateTimestamp" is one uint64
    & "OwningModuleInfo" is many tcpip_owning_module_size uint64
    & done)

-- _MIB_TCPTABLE_OWNER_MODULE
abbrev pub mib_tcptable_owner_module : Declared
mib_tcptable_owner_module =
    struct ("dwNumEntries" is one uint32 & "table" is single mib_tcprow_owner_module & done)

-- _MIB_TCP6ROW_OWNER_MODULE
abbrev pub mib_tcp6row_owner_module : Declared
mib_tcp6row_owner_module = struct (
    "ucLocalAddr" is many 16 uint8
    & "dwLocalScopeId" is one uint32
    & "dwLocalPort" is one uint32
    & "ucRemoteAddr" is many 16 uint8
    & "dwRemoteScopeId" is one uint32
    & "dwRemotePort" is one uint32
    & "dwState" is one uint32
    & "dwOwningPid" is one uint32
    & "liCreateTimestamp" is one uint64
    & "OwningModuleInfo" is many tcpip_owning_module_size uint64
    & done)

-- _MIB_TCP6TABLE_OWNER_MODULE
abbrev pub mib_tcp6table_owner_module : Declared
mib_tcp6table_owner_module =
    struct ("dwNumEntries" is one uint32 & "table" is single mib_tcp6row_owner_module & done)

-- _TCPIP_OWNER_MODULE_BASIC_INFO
abbrev pub owner_module_basic_info : Declared
owner_module_basic_info =
    struct ("pModuleName" is one uintptr & "pModulePath" is one uintptr & done)
