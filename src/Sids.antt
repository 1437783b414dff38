-- ===== src/Sids.antt =====
-- win32/sid.go: security identifiers. A SID lives in memory of the system; what the code does with it goes
-- through the calls of package syscall.
pub mod Laws
use damon.Prelude.{String, ℕ, Option, none, some, Result, ok, err, List, [], ◌∷◌}
use damon.Process.{Outcome, done, panic}
use damon.Text.Wide.{wchars}

-- The constants of type `StringSID`: groups, and then integrity levels.
pub data KnownSid : Type 0 where
  administrators : KnownSid
  users : KnownSid
  guests : KnownSid
  power_users : KnownSid
  account_operators : KnownSid
  server_operators : KnownSid
  print_operators : KnownSid
  backup_operators : KnownSid
  replicators : KnownSid
  ntlm_authentication : KnownSid
  schannel_authentication : KnownSid
  digest_authentication : KnownSid
  all_services : KnownSid
  nt_virtual_machines : KnownSid
  untrusted_mandatory_level : KnownSid
  low_mandatory_level : KnownSid
  medium_mandatory_level : KnownSid
  medium_plus_mandatory_level : KnownSid
  high_mandatory_level : KnownSid
  system_mandatory_level : KnownSid
  protected_process_mandatory_level : KnownSid
  secure_process_mandatory_level : KnownSid

unfoldable pub string_sid : KnownSid → String
string_sid administrators = "S-1-5-32-544"
string_sid users = "S-1-5-32-545"
string_sid guests = "S-1-5-32-546"
string_sid power_users = "S-1-5-32-547"
string_sid account_operators = "S-1-5-32-548"
string_sid server_operators = "S-1-5-32-549"
string_sid print_operators = "S-1-5-32-550"
string_sid backup_operators = "S-1-5-32-551"
string_sid replicators = "S-1-5-32-552"
string_sid ntlm_authentication = "S-1-5-64-10"
string_sid schannel_authentication = "S-1-5-64-14"
string_sid digest_authentication = "S-1-5-64-21"
string_sid all_services = "S-1-5-80-0"
string_sid nt_virtual_machines = "S-1-5-83-0"
string_sid untrusted_mandatory_level = "S-1-16-0"
string_sid low_mandatory_level = "S-1-16-4096"
string_sid medium_mandatory_level = "S-1-16-8192"
string_sid medium_plus_mandatory_level = "S-1-16-8448"
string_sid high_mandatory_level = "S-1-16-12288"
string_sid system_mandatory_level = "S-1-16-16384"
string_sid protected_process_mandatory_level = "S-1-16-20480"
string_sid secure_process_mandatory_level = "S-1-16-28672"

-- A pointer to a `SID` that is passed to the system is one to a `syscall.SID`, of type `S` here; an error is
-- a number.
module _ {ℓ} {S : Type ℓ} where
  -- `(*SID).Copy`, over `(*syscall.SID).Copy`.
  unfoldable pub copy : (S → Result ℕ S) → S → Result ℕ S
  copy copy_sid s = elim (copy_sid s) [ err e ↦ err e | ok n ↦ ok n ]

  -- `(*SID).StringErr`, over `(*syscall.SID).String`.
  unfoldable pub string_err : (S → Result ℕ (List ℕ)) → S → Result ℕ (List ℕ)
  string_err sid_string s = sid_string s

  -- `(*SID).String`
  unfoldable pub string : (S → Result ℕ (List ℕ)) → S → List ℕ
  unfolding string_err
  string sid_string s = elim (string_err sid_string s) [ err e ↦ [] | ok t ↦ t ]

  -- `StringSID.ConvertToSID`: `encode` is `syscall.UTF16FromString`, and `convert` is
  -- `ConvertStringSidToSid`, which gets a pointer that may be nil and may set the SID; what it sets and
  -- its error are both returned.
  unfoldable pub convert_to_sid :
      (List ℕ → Option (List ℕ))
      → (Option (List ℕ) → Option S × Option ℕ)
      → List ℕ
      → Outcome (Option S × Option ℕ)
  unfolding wchars
  convert_to_sid encode convert s = elim (wchars encode s) [
    | panic ↦ panic
    | done p ↦ done (convert p)
  ]

  -- `LookupAccountSID`, over `syscall.LookupSID`, which gives the domain and the kind of the account too.
  unfoldable pub lookup_account_sid {κ} :
      {D : Type κ} → (List ℕ → List ℕ → Result ℕ (S × D)) → List ℕ → List ℕ → Result ℕ S
  lookup_account_sid lookup_sid system name = elim (lookup_sid system name) [
    | err e ↦ err e
    | ok r ↦ ok (r.0)
  ]
