-- ===== src/Network.antt =====
-- win32/ip_helper.go and win32/ip_helper_win32.go: the table of TCP connections with their owners.
pub mod Laws
pub mod Owners
use damon.Prelude.{
  ℕ, ◌+◌, ◌*◌, ◌/◌, ◌%◌, String, Bool, Option, none, some, List, [], ◌∷◌, ◌++◌, ltb, ◌==◌,
  if◌then◌else◌, Result, ok, err, map, take,
}
use damon.Process.{Outcome, done, panic}

-- `tcpStateToString[s]`; a state that is not in the map has no name.
unfoldable pub tcp_state_string : ℕ → String
tcp_state_string s =
    if s == 1
    then "CLOSED"
    else if s == 2
    then "LISTEN"
    else if s == 3
    then "SYN_SENT"
    else if s == 4
    then "SYN_RECVD"
    else if s == 5
    then "ESTABLISHED"
    else if s == 6
    then "FIN_WAIT_1"
    else if s == 7
    then "FIN_WAIT_2"
    else if s == 8
    then "CLOSE_WAIT"
    else if s == 9
    then "CLOSING"
    else if s == 10
    then "LAST_ACK"
    else if s == 11
    then "TIME_WAIT"
    else if s == 12
    then "DELETE_TCB"
    else ""

pub data TableInclude : Type 0 where
  all connection listener : TableInclude

-- The classes `_TCP_TABLE_OWNER_PID_*` and `_TCP_TABLE_OWNER_MODULE_*`.
unfoldable pub pid_table_class : TableInclude → ℕ
pid_table_class listener = 3
pid_table_class connection = 4
pid_table_class all = 5

unfoldable pub module_table_class : TableInclude → ℕ
module_table_class listener = 6
module_table_class connection = 7
module_table_class all = 8

-- `dwToPort`: the low two bytes, read the other way round.
unfoldable pub dw_to_port : ℕ → ℕ
dw_to_port dw = if ltb 0 dw then dw % 256 * 256 + dw / 256 % 256 else 0

-- How one call of `GetExtendedTcpTable` is answered.
pub data TableAnswer (B : Type 0) : Type 0 where
  table : B → TableAnswer B
  insufficient_buffer : ℕ → TableAnswer B  -- the size that is wanted
  call_failed : ℕ → TableAnswer B

-- The loop of `getExtendedTcpTable` over the answers: a wanted size of 0 makes an empty buffer, whose
-- first byte is then indexed. `none` while no answer has ended the loop.
unfoldable pub get_extended_tcp_table :
    {B : Type 0} → List (TableAnswer B) → Option (Outcome (Result ℕ B))
get_extended_tcp_table [] = none
get_extended_tcp_table (table b ∷ rest) = some (done (ok b))
get_extended_tcp_table (call_failed e ∷ rest) = some (done (err e))
get_extended_tcp_table (insufficient_buffer n ∷ rest) =
    let again = get_extended_tcp_table rest in if n == 0 then some panic else again

-- A row of the kernel's tables. The rows of IPv4 have no scopes.
pub record Row : Type 0 where
  pub state : ℕ
  pub local_addr : List ℕ
  pub local_scope : ℕ
  pub local_port : ℕ
  pub remote_addr : List ℕ
  pub remote_scope : ℕ
  pub remote_port : ℕ
  pub owning_pid : ℕ

pub record TcpConnection : Type 0 where
  pub remote_address : List ℕ
  pub remote_port_number : ℕ
  pub remote_scope_id : ℕ
  pub local_address : List ℕ
  pub local_port_number : ℕ
  pub local_scope_id : ℕ
  pub tcp_state : ℕ

pub record OwnerConnection : Type 0 where
  pub tcp : TcpConnection
  pub process : ℕ

pub record OwnerModuleConnection : Type 0 where
  pub owner : OwnerConnection
  pub module_name : String
  pub module_path : String

unfoldable pub ip4_connection : Row → OwnerConnection
unfolding dw_to_port
ip4_connection r = record {
  tcp = record {
    remote_address = r.remote_addr;
    remote_port_number = dw_to_port r.remote_port;
    remote_scope_id = 0;
    local_address = r.local_addr;
    local_port_number = dw_to_port r.local_port;
    local_scope_id = 0;
    tcp_state = r.state;
  };
  process = r.owning_pid;
}

unfoldable pub ip6_connection : Row → OwnerConnection
unfolding dw_to_port
ip6_connection r = record {
  tcp = record {
    remote_address = r.remote_addr;
    remote_port_number = dw_to_port r.remote_port;
    remote_scope_id = r.remote_scope;
    local_address = r.local_addr;
    local_port_number = dw_to_port r.local_port;
    local_scope_id = r.local_scope;
    tcp_state = r.state;
  };
  process = r.owning_pid;
}

-- A buffer: the number of entries that it declares and the rows that follow.
pub record Buffer : Type 0 where
  pub num_entries : ℕ
  pub rows : List Row

-- The loop over the rows.
rows_of : {C : Type 0} → (Row → C) → Buffer → List C
rows_of f b = map f (take b.num_entries b.rows)

read_table :
    {C : Type 0}
    → (Row → C)
    → Option (Outcome (Result ℕ Buffer))
    → Option (Outcome (Result ℕ (List C)))
unfolding rows_of
read_table f none = none
read_table f (some panic) = some panic
read_table f (some (done (err e))) = some (done (err e))
read_table f (some (done (ok b))) = some (done (ok (rows_of f b)))

-- `query` gives the answers to the calls for a table class.
module _ (query : ℕ → List (TableAnswer Buffer)) where
  unfoldable pub get_tcp_table_ip4_owner_pid :
      TableInclude → Option (Outcome (Result ℕ (List OwnerConnection)))
  unfolding read_table ip4_connection get_extended_tcp_table
  get_tcp_table_ip4_owner_pid inc =
      read_table ip4_connection (get_extended_tcp_table (query (pid_table_class inc)))

  unfoldable pub get_tcp_table_ip6_owner_pid :
      TableInclude → Option (Outcome (Result ℕ (List OwnerConnection)))
  unfolding read_table ip6_connection get_extended_tcp_table
  get_tcp_table_ip6_owner_pid inc =
      read_table ip6_connection (get_extended_tcp_table (query (pid_table_class inc)))

  -- The owner's name and path, or nothing where the lookup failed and was logged.
  with_module :
      (Row → OwnerConnection) → (Row → Option (String × String)) → Row → OwnerModuleConnection
  with_module f owner_of r = elim (owner_of r) [
    | none ↦ record { owner = f r; module_name = ""; module_path = "" }
    | some (name, path) ↦ record { owner = f r; module_name = name; module_path = path }
  ]

  unfoldable pub get_tcp_table_ip4_owner_module :
      (Row → Option (String × String))
      → TableInclude
      → Option (Outcome (Result ℕ (List OwnerModuleConnection)))
  unfolding read_table ip4_connection get_extended_tcp_table with_module
  get_tcp_table_ip4_owner_module owner_of inc =
      read_table (with_module ip4_connection owner_of)
        (get_extended_tcp_table (query (module_table_class inc)))

  unfoldable pub get_tcp_table_ip6_owner_module :
      (Row → Option (String × String))
      → TableInclude
      → Option (Outcome (Result ℕ (List OwnerModuleConnection)))
  unfolding read_table ip6_connection get_extended_tcp_table with_module
  get_tcp_table_ip6_owner_module owner_of inc =
      read_table (with_module ip6_connection owner_of)
        (get_extended_tcp_table (query (module_table_class inc)))
