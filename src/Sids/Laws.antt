-- ===== src/Sids/Laws.antt =====
-- What the identifiers of win32/sid.go promise.
use damon.Prelude.{
  ℕ, String, ◌=s◌, ◌≡◌, refl, ap, sym, ◌∙◌, Option, none, some, Result, ok, List, [], ◌∷◌,
  if◌then◌else◌, arith,
}
use damon.Process.{done, panic}
use damon.Sids.{
  KnownSid, string_sid, copy, string, string_err, convert_to_sid, administrators, users, guests,
  power_users, account_operators, server_operators, print_operators, backup_operators, replicators,
  ntlm_authentication, schannel_authentication, digest_authentication, all_services,
  nt_virtual_machines, untrusted_mandatory_level, low_mandatory_level, medium_mandatory_level,
  medium_plus_mandatory_level, high_mandatory_level, system_mandatory_level,
  protected_process_mandatory_level, secure_process_mandatory_level,
}

-- The constants again, by their texts.
abbrev all : List KnownSid
all =
    administrators ∷ users ∷ guests ∷ power_users ∷ account_operators ∷ server_operators
    ∷ print_operators ∷ backup_operators ∷ replicators ∷ ntlm_authentication
    ∷ schannel_authentication ∷ digest_authentication ∷ all_services ∷ nt_virtual_machines
    ∷ untrusted_mandatory_level ∷ low_mandatory_level ∷ medium_mandatory_level
    ∷ medium_plus_mandatory_level ∷ high_mandatory_level ∷ system_mandatory_level
    ∷ protected_process_mandatory_level ∷ secure_process_mandatory_level ∷ []

find : String → List KnownSid → Option KnownSid
unfolding string_sid
find t [] = none
find t (k ∷ ks) = if t =s string_sid k then some k else find t ks

find-string_sid : (k : KnownSid) → find (string_sid k) all ≡ some k
unfolding find string_sid
find-string_sid administrators = refl
find-string_sid users = refl
find-string_sid guests = refl
find-string_sid power_users = refl
find-string_sid account_operators = refl
find-string_sid server_operators = refl
find-string_sid print_operators = refl
find-string_sid backup_operators = refl
find-string_sid replicators = refl
find-string_sid ntlm_authentication = refl
find-string_sid schannel_authentication = refl
find-string_sid digest_authentication = refl
find-string_sid all_services = refl
find-string_sid nt_virtual_machines = refl
find-string_sid untrusted_mandatory_level = refl
find-string_sid low_mandatory_level = refl
find-string_sid medium_mandatory_level = refl
find-string_sid medium_plus_mandatory_level = refl
find-string_sid high_mandatory_level = refl
find-string_sid system_mandatory_level = refl
find-string_sid protected_process_mandatory_level = refl
find-string_sid secure_process_mandatory_level = refl

found : KnownSid → Option KnownSid → KnownSid
found a none = a
found a (some k) = k

-- No two of the constants have the same text.
pub string_sid-injective : (a b : KnownSid) → string_sid a ≡ string_sid b → a ≡ b
unfolding found
string_sid-injective a b h =
    ap (found a) (sym (find-string_sid a) ∙ ap (λ (t : String). find t all) h ∙ find-string_sid b)

-- A SID is looked at through its text: where the system can copy it and copies keep the text, the copy
-- has the text of the SID, which is empty where the system gives none.
pub string-copy :
    {S : Type 0} (copy_sid : S → Result ℕ S) (sid_string : S → Result ℕ (List ℕ))
    → ((s n : S) → copy_sid s ≡ ok n → sid_string n ≡ sid_string s)
    → (s n : S) → copy copy_sid s ≡ ok n
    → string sid_string n ≡ string sid_string s
unfolding copy string string_err
string-copy copy_sid sid_string kept s n h = ground (arith, kept s n)

-- The conversion of a text panics where it is not empty and the encoding refuses it; on the empty text the system gets a nil pointer.
pub convert_to_sid-panic :
    {S : Type 0} (encode : List ℕ → Option (List ℕ))
    (convert : Option (List ℕ) → Option S × Option ℕ) (c : ℕ) (t : List ℕ)
    → encode (c ∷ t) ≡ none
    → (convert_to_sid encode convert (c ∷ t) ≡ panic)
      × (convert_to_sid encode convert [] ≡ done (convert none))
unfolding convert_to_sid
convert_to_sid-panic encode convert c t h = ground arith
