-- ===== src/Network/Laws.antt =====
-- Ports and tables (win32/ip_helper.go, win32/ip_helper_win32.go).
use damon.Prelude.{
  ℕ, ◌+◌, ◌*◌, ◌/◌, ◌%◌, ◌^◌, ◌<◌, ◌≡◌, ◌≢◌, refl, some, List, [], ◌∷◌, arith, ok, All, map, take,
}
use damon.Process.{done}
use damon.Network.{
  dw_to_port, TableAnswer, table, insufficient_buffer, get_extended_tcp_table, Buffer,
  pid_table_class, ip4_connection, ip6_connection, TableInclude, get_tcp_table_ip4_owner_pid,
  get_tcp_table_ip6_owner_pid,
}

-- The bytes of a port in network order, as the kernel stores them in the low half of a word.
abbrev pub network_order : ℕ → ℕ
network_order port = port % 256 * 256 + port / 256

-- Every port is read back from its network order, whatever stands in the high half of the word, and
-- what is read always fits a port.
pub dw_to_port-network_order :
    (port high : ℕ)
    → port < 2 ^ 16
    → (dw_to_port (network_order port + high * 2 ^ 16) ≡ port) × (dw_to_port high < 2 ^ 16)
unfolding dw_to_port
dw_to_port-network_order port high h = ground arith

abbrev pub asks_for_more : List ℕ → List (TableAnswer Buffer) → List (TableAnswer Buffer)
asks_for_more [] rest = rest
asks_for_more (n ∷ ns) rest = insufficient_buffer n ∷ asks_for_more ns rest

get_extended_tcp_table-more :
    (sizes : List ℕ) (rest : List (TableAnswer Buffer))
    → All (λ n. n ≢ 0) sizes
    → get_extended_tcp_table (asks_for_more sizes rest) ≡ get_extended_tcp_table rest
unfolding get_extended_tcp_table
get_extended_tcp_table-more [] rest h = refl
get_extended_tcp_table-more (n ∷ sizes) rest h =
    ground (arith, get_extended_tcp_table-more sizes rest h.1)

-- However often the kernel asks for a larger buffer, of a size above 0, the next table that it gives is
-- the one that is read: all its declared rows, in order, with their owners.
pub get_tcp_table-retry :
    (query : ℕ → List (TableAnswer Buffer)) (inc : TableInclude) (sizes : List ℕ) (b : Buffer)
    (rest : List (TableAnswer Buffer))
    → All (λ n. n ≢ 0) sizes
    → query (pid_table_class inc) ≡ asks_for_more sizes (table b ∷ rest)
    → (get_tcp_table_ip4_owner_pid query inc
        ≡ some (done (ok (map ip4_connection (take b.num_entries b.rows)))))
      × (get_tcp_table_ip6_owner_pid query inc
          ≡ some (done (ok (map ip6_connection (take b.num_entries b.rows)))))
unfolding get_tcp_table_ip4_owner_pid get_tcp_table_ip6_owner_pid
get_tcp_table-retry query inc sizes b rest h q =
    rw q (rw (get_extended_tcp_table-more sizes (table b ∷ rest) h) (refl, refl))
