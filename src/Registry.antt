-- ===== src/Registry.antt =====
-- win32/registry.go and win32/registry_win32.go: opening registry keys and reading their values.
pub mod Laws
pub mod Query
use damon.Prelude.{
  ℕ, ◌+◌, ◌*◌, String, ◌<>◌, ◌=s◌, Bool, true, false, Option, none, some, List, [], ◌∷◌, bit_or,
  ◌==◌, if◌then◌else◌, Result, ok, err, length, take, leb,
}
use damon.Process.{Outcome, done, panic}

pub data RegistryError : Type 0 where
  bad_root_name : String → RegistryError
  open_failed read_failed : ℕ → RegistryError
  wrapped : String → RegistryError → RegistryError

pub record RegistryKey : Type 0 where
  pub str : String
  pub h_key : ℕ

pub record Permissions : Type 0 where
  pub read : Bool
  pub write : Bool

-- `_KEY_READ` and `_KEY_WRITE`, with `_READ_CONTROL` = 0x20000
abbrev pub key_read : ℕ
key_read = 0x20019

abbrev pub key_write : ℕ
key_write = 0x20006

-- The root keys: handle, long name and short name.
pub record RootKey : Type 0 where
  pub handle : ℕ
  pub long_name : String
  pub short_name : String

abbrev pub root_keys : List RootKey
root_keys =
    (record { handle = 0x80000000; long_name = "HKEY_CLASSES_ROOT"; short_name = "HKCR" })
    ∷ (record { handle = 0x80000001; long_name = "HKEY_CURRENT_USER"; short_name = "HKCU" })
    ∷ (record { handle = 0x80000002; long_name = "HKEY_LOCAL_MACHINE"; short_name = "HKLM" })
    ∷ (record { handle = 0x80000003; long_name = "HKEY_USERS"; short_name = "HKU" })
    ∷ (record { handle = 0x80000004; long_name = "HKEY_PERFORMANCE_DATA"; short_name = "HKPD" })
    ∷ (record { handle = 0x80000005; long_name = "HKEY_CURRENT_CONFIG"; short_name = "HKCC" })
    ∷ (record { handle = 0x80000006; long_name = "HKEY_DYN_DATA"; short_name = "HKDD" })
    ∷ []

-- `rootKeyHandles[name]`, over the long and the short names.
unfoldable pub root_key_handle : List RootKey → String → Option ℕ
root_key_handle [] s = none
root_key_handle (k ∷ ks) s =
    if s =s k.long_name
    then some k.handle
    else if s =s k.short_name
    then some k.handle
    else root_key_handle ks s

-- `rootKeyNames[handle]`; a missing key gives the empty string.
unfoldable pub root_key_name : List RootKey → ℕ → String
root_key_name [] h = ""
root_key_name (k ∷ ks) h = if h == k.handle then k.long_name else root_key_name ks h

unfoldable pub access_mask : Permissions → ℕ
access_mask p =
    let r : ℕ = if p.read then bit_or 0 key_read else 0 in if p.write then bit_or r key_write else r

-- `to_upper` is `strings.ToUpper`, and `reg_open` the call `RegOpenKeyExW`.
module _ (to_upper : String → String) (reg_open : ℕ → String → ℕ → Result ℕ ℕ) where
  opened_key : ℕ → String → Result ℕ ℕ → Result RegistryError RegistryKey
  opened_key root sub (err e) = err (open_failed e)
  opened_key root sub (ok h) =
      ok (record { str = root_key_name root_keys root <> ("\\" <> sub); h_key = h })

  open_under : Option ℕ → String → String → Permissions → Result RegistryError RegistryKey
  unfolding opened_key access_mask
  open_under none root sub p = err (bad_root_name root)
  open_under (some h) root sub p = opened_key h sub (reg_open h sub (access_mask p))

  unfoldable pub open_registry_key :
      String → String → Permissions → Result RegistryError RegistryKey
  unfolding open_under
  open_registry_key root sub p = open_under (root_key_handle root_keys (to_upper root)) root sub p

-- How one call of `RegQueryValueExW` is answered: the buffer was too small, the call failed, or it gave
-- the buffer, the size and the type of the value.
pub data QueryAnswer : Type 0 where
  more_data : QueryAnswer
  query_failed : ℕ → QueryAnswer
  value : List ℕ → ℕ → ℕ → QueryAnswer

-- The loop of `readRegValue` over the answers; `none` while no answer has ended it. To slice behind the end
-- of the buffer is a panic.
unfoldable pub read_reg_value : List QueryAnswer → Option (Outcome (Result ℕ (List ℕ × ℕ)))
read_reg_value [] = none
read_reg_value (more_data ∷ rest) = read_reg_value rest
read_reg_value (query_failed e ∷ rest) = some (done (err e))
read_reg_value (value buffer size kind ∷ rest) =
    if leb size (length buffer) then some (done (ok (take size buffer, kind))) else some panic

abbrev pub reg_dword : ℕ
reg_dword = 4

abbrev pub reg_dword_big_endian : ℕ
reg_dword_big_endian = 5

-- `binary.LittleEndian.Uint32` and `binary.BigEndian.Uint32`; fewer than four bytes are a panic.
unfoldable pub little_endian : List ℕ → Outcome ℕ
little_endian (a ∷ b ∷ c ∷ d ∷ _) = done (a + 0x100 * b + 0x10000 * c + 0x1000000 * d)
little_endian _ = panic

unfoldable pub big_endian : List ℕ → Outcome ℕ
big_endian (a ∷ b ∷ c ∷ d ∷ _) = done (d + 0x100 * c + 0x10000 * b + 0x1000000 * a)
big_endian _ = panic

with_nil_error : Outcome ℕ → Outcome (ℕ × Option RegistryError)
with_nil_error panic = panic
with_nil_error (done n) = done (n, none)

-- `ReadDWORDValue`, of what `ReadValue` gives: the value beside the error, as in Go. `wrap` is
-- `errors.Wrapf` with the message "value is not a DWORD"; it is given the error of `ReadValue`, which
-- is nil there.
unfoldable pub read_dword_value :
    (Option RegistryError → Option RegistryError)
    → Result ℕ (List ℕ × ℕ)
    → Outcome (ℕ × Option RegistryError)
unfolding with_nil_error little_endian big_endian
read_dword_value wrap (err e) = done (0, some (read_failed e))
read_dword_value wrap (ok (kv, kt)) =
    if kt == reg_dword
    then with_nil_error (little_endian kv)
    else if kt == reg_dword_big_endian
    then with_nil_error (big_endian kv)
    else done (0, wrap none)

-- `ReadDWORDValue` over the answers to `readRegValue`; `none` while no answer has ended its loop.
unfoldable pub read_dword :
    (Option RegistryError → Option RegistryError)
    → List QueryAnswer
    → Option (Outcome (ℕ × Option RegistryError))
unfolding read_dword_value
read_dword wrap answers = elim (read_reg_value answers) [
  | none ↦ none
  | some panic ↦ some panic
  | some (done r) ↦ some (read_dword_value wrap r)
]
