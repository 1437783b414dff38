-- ===== src/Tests/Tables.antt =====
-- Runs of the registry, the restricted tokens and the TCP tables (win32).
use damon.Prelude.{
  ℕ, ◌≡◌, refl, String, ◌<>◌, true, false, Option, none, some, List, [], ◌∷◌, Result, ok, arith,
}
use damon.Process.{done}
use damon.Registry.{RegistryError, Permissions, value, read_dword, reg_dword, reg_dword_big_endian}
use damon.Registry.Laws.{bytes, reversed_bytes, retried, read_dword_value-bytes}
use damon.Handles.{opened, used, closed}
use damon.Resources.Processor.{get_processor_mhz, get_processor_mhz-other_type}
use damon.Token.{
  Account, find_group, collect_groups, restriction_request, container_restrictions, InfoAnswer,
  insufficient_buffer, get_token_information,
}
use damon.Token.Laws.{get_token_information-none}
use damon.Network.{Row, Buffer, TableAnswer, table}
use damon.Network.Laws.{asks_for_more}

abbrev no_wrap : Option RegistryError → Option RegistryError
no_wrap e = e

read_dword_value-bytes_example :
    (read_dword no_wrap (retried 2 (value (bytes 305419896) 4 reg_dword ∷ []))
      ≡ some (done (305419896, none)))
    × (read_dword no_wrap (retried 2 (value (reversed_bytes 305419896) 4 reg_dword_big_endian ∷ []))
        ≡ some (done (305419896, none)))
read_dword_value-bytes_example = read_dword_value-bytes no_wrap 305419896 2 [] [] (omega arith)

abbrev upper : String → String
upper s = s

abbrev opens_11 : ℕ → String → ℕ → Result ℕ ℕ
opens_11 root sub mask = ok 11

-- The type 1 is a string.
get_processor_mhz-other_type_example :
    get_processor_mhz upper opens_11 no_wrap (value (72 ∷ 0 ∷ []) 2 1 ∷ [])
    ≡ (opened 11 ∷ used 11 ∷ closed 11 ∷ [], some (done (ok 0)))
get_processor_mhz-other_type_example =
    get_processor_mhz-other_type upper opens_11 no_wrap 11 2 1 (72 ∷ 0 ∷ []) [] refl refl refl
      (omega arith) (omega arith)

abbrev read_only : Permissions
read_only = record { read = true; write = false }

abbrev luid_of : String → Result ℕ ℕ
luid_of s = ok 5

abbrev qualified : String → String → String
qualified d a = d <> ("\\" <> a)

abbrev groups : List (ℕ × Option Account)
groups =
    (3, some (record { account_name = "Administrators"; domain = "BUILTIN"; is_group = true }))
    ∷ (4, none)
    ∷ []

asked :
    restriction_request upper qualified luid_of (ok groups) container_restrictions
    ≡ ok (record {
      flags = 0x5;
      sids_to_disable = [];
      privileges_to_delete = [];
      sids_to_restrict = [];
    })
unfolding restriction_request container_restrictions
asked = refl

-- The group is called Administrators.
not_found :
    find_group (collect_groups upper qualified luid_of groups []) "BUILTIN\\Administrator" ≡ none
unfolding find_group collect_groups
not_found = refl

abbrev too_small : ℕ → InfoAnswer
too_small n = insufficient_buffer

get_token_information-none_example : get_token_information 1000 too_small ≡ none
get_token_information-none_example = get_token_information-none too_small 1000 refl

abbrev row : Row
row = record {
  state = 2;
  local_addr = 127 ∷ 0 ∷ 0 ∷ 1 ∷ [];
  local_scope = 0;
  local_port = 36895;
  remote_addr = 0 ∷ 0 ∷ 0 ∷ 0 ∷ [];
  remote_scope = 0;
  remote_port = 0;
  owning_pid = 4242;
}

abbrev one_row : Buffer
one_row = record { num_entries = 1; rows = row ∷ [] }

abbrev grows : ℕ → List (TableAnswer Buffer)
grows n = asks_for_more (24 ∷ 48 ∷ []) (table one_row ∷ [])
