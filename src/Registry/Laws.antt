-- ===== src/Registry/Laws.antt =====
-- Names, rights and values of the registry (win32/registry.go, win32/registry_win32.go).
use mathlib.Core.List.{Memᴰ}
use damon.Prelude.{
  ◌⊎◌, inl, inr, ℕ, zero, suc, ◌+◌, ◌*◌, ◌/◌, ◌%◌, ◌^◌, ◌<◌, ◌≡◌, ◌≢◌, refl, sym, ap, ◌∙◌, subst,
  String, ◌<>◌, Option, none, some, List, [], ◌∷◌, ◌++◌, arith, length, leb, true, Result, ok, err,
  All,
}
use damon.Prelude.Words.{has_flag}
use damon.Process.{Outcome, done}
use damon.Registry.{
  RegistryError, Permissions, RootKey, root_keys, root_key_handle, root_key_name, access_mask,
  open_registry_key, opened_key, QueryAnswer, more_data, value, read_reg_value, reg_dword,
  reg_dword_big_endian, read_dword_value, read_dword, open_failed,
}

-- The bytes of a 32-bit value, the lowest first.
abbrev pub bytes : ℕ → List ℕ
bytes n = n % 256 ∷ n / 0x100 % 256 ∷ n / 0x10000 % 256 ∷ n / 0x1000000 % 256 ∷ []

abbrev pub reversed_bytes : ℕ → List ℕ
reversed_bytes n = n / 0x1000000 % 256 ∷ n / 0x10000 % 256 ∷ n / 0x100 % 256 ∷ n % 256 ∷ []

-- `ReadDWORDValue` after `retries` answers that asked for a larger buffer.
abbrev pub retried : ℕ → List QueryAnswer → List QueryAnswer
retried zero answers = answers
retried (suc n) answers = more_data ∷ retried n answers

read_reg_value-retried :
    (retries : ℕ) (answers : List QueryAnswer)
    → read_reg_value (retried retries answers) ≡ read_reg_value answers
unfolding read_reg_value
read_reg_value-retried zero answers = refl
read_reg_value-retried (suc n) answers = read_reg_value-retried n answers

read_dword-retried :
    (wrap : Option RegistryError → Option RegistryError) (retries : ℕ) (answers : List QueryAnswer)
    (r : Option (Outcome (ℕ × Option RegistryError)))
    → read_dword wrap answers ≡ r
    → read_dword wrap (retried retries answers) ≡ r
unfolding read_dword
read_dword-retried wrap retries answers r h =
    rw (read_reg_value-retried retries answers, read_dword) h

-- The first four bytes of a buffer that has them.
read_reg_value-four :
    (a b c d kind : ℕ) (slack : List ℕ) (answers : List QueryAnswer)
    → read_reg_value (value (a ∷ b ∷ c ∷ d ∷ slack) 4 kind ∷ answers)
      ≡ some (done (ok (a ∷ b ∷ c ∷ d ∷ [], kind)))
unfolding read_reg_value
read_reg_value-four a b c d kind slack answers =
    let four : leb 4 (suc (suc (suc (suc (length slack))))) ≡ true = ground arith in rw four refl

read_dword-four :
    (wrap : Option RegistryError → Option RegistryError) (a b c d kind retries : ℕ) (slack : List ℕ)
    (answers : List QueryAnswer)
    → read_dword wrap (retried retries (value (a ∷ b ∷ c ∷ d ∷ slack) 4 kind ∷ answers))
      ≡ some (read_dword_value wrap (ok (a ∷ b ∷ c ∷ d ∷ [], kind)))
unfolding read_dword
read_dword-four wrap a b c d kind retries slack answers =
    read_dword-retried wrap retries _ _
      (rw (read_reg_value-four a b c d kind slack answers, read_dword) refl)

-- A number below 2 ^ 32 is made up of its bytes.
pub digits_sum :
    (n : ℕ)
    → n < 2 ^ 32
    → n % 256
        + 0x100 * (n / 0x100 % 256)
        + 0x10000 * (n / 0x10000 % 256)
        + 0x1000000 * (n / 0x1000000 % 256)
      ≡ n
digits_sum n h = omega arith

-- A 32-bit value that is stored under either of the two types is read back, with a nil error, however
-- often the buffer had to be enlarged first and whatever follows the value in the buffer.
pub read_dword_value-bytes :
    (wrap : Option RegistryError → Option RegistryError) (n retries : ℕ) (slack : List ℕ)
    (answers : List QueryAnswer)
    → n < 2 ^ 32
    → (read_dword wrap (retried retries (value (bytes n ++ slack) 4 reg_dword ∷ answers))
        ≡ some (done (n, none)))
      × (read_dword wrap
            (retried retries (value (reversed_bytes n ++ slack) 4 reg_dword_big_endian ∷ answers))
          ≡ some (done (n, none)))
unfolding read_dword_value
read_dword_value-bytes wrap n retries slack answers h = (
  read_dword-four wrap _ _ _ _ _ retries slack answers
      ∙ ap (λ (t : ℕ). some (done (t, none))) (digits_sum n h),
  read_dword-four wrap _ _ _ _ _ retries slack answers
      ∙ ap (λ (t : ℕ). some (done (t, none))) (digits_sum n h),
)

-- A value of any other type is read as 0 with a nil error, if `errors.Wrapf` of nil is nil, as its
-- documentation says.
pub read_dword_value-other_type :
    (wrap : Option RegistryError → Option RegistryError) (kv : List ℕ) (kt : ℕ)
    → wrap none ≡ none
    → kt ≢ reg_dword
    → kt ≢ reg_dword_big_endian
    → read_dword_value wrap (ok (kv, kt)) ≡ done (0, none)
unfolding read_dword_value
read_dword_value-other_type wrap kv kt h a b = ground arith

-- A read asks for the right to query values, and a write for the right to set them, exactly as the
-- permissions say.
pub access_mask-flags :
    (p : Permissions)
    → (has_flag (access_mask p) 0x0001 ≡ p.read)
      × (has_flag (access_mask p) 0x0008 ≡ p.read)
      × (has_flag (access_mask p) 0x0002 ≡ p.write)
      × (has_flag (access_mask p) 0x0004 ≡ p.write)
unfolding access_mask
access_mask-flags p = ground arith

abbrev FoundUnder : RootKey → Type 0
FoundUnder k =
    (root_key_handle root_keys k.long_name ≡ some k.handle)
    × (root_key_handle root_keys k.short_name ≡ some k.handle)
    × (root_key_name root_keys k.handle ≡ k.long_name)

root_keys-All : All FoundUnder root_keys
unfolding root_key_handle root_key_name
root_keys-All = (
  (refl, refl, refl),
  (
    (refl, refl, refl),
    (
      (refl, refl, refl),
      ((refl, refl, refl), ((refl, refl, refl), ((refl, refl, refl), ((refl, refl, refl), tt)))),
    ),
  ),
)

All-mem : {A : Type 0} (P : A → Type 0) (xs : List A) (a : A) → All P xs → Memᴰ a xs → P a
All-mem P [] a h m = elim m [ ]
All-mem P (x ∷ xs) a h (Memᴰ.head e) = subst P (sym e) h.0
All-mem P (x ∷ xs) a h (Memᴰ.tail m) = All-mem P xs a h.1 m

opened_key-name :
    (to_upper : String → String) (reg_open : ℕ → String → ℕ → Result ℕ ℕ) (h : ℕ)
    (sub long : String) (r : Result ℕ ℕ)
    → root_key_name root_keys h ≡ long
    → opened_key to_upper reg_open h sub r ≡ elim r [
      | err e ↦ err (open_failed e)
      | ok g ↦ ok (record { str = long <> ("\\" <> sub); h_key = g })
    ]
unfolding opened_key
opened_key-name to_upper reg_open h sub long (err e) n = refl
opened_key-name to_upper reg_open h sub long (ok g) n = rw n refl

-- Each root key is opened alike under its long and its short name: the same handle goes to the kernel,
-- and the key is shown by its long name.
pub open_registry_key-names :
    (to_upper : String → String) (reg_open : ℕ → String → ℕ → Result ℕ ℕ) (root sub : String)
    (p : Permissions) (k : RootKey)
    → Memᴰ k root_keys
    → (to_upper root ≡ k.long_name) ⊎ (to_upper root ≡ k.short_name)
    → open_registry_key to_upper reg_open root sub p
      ≡ elim (reg_open k.handle sub (access_mask p)) [
        | err e ↦ err (open_failed e)
        | ok h ↦ ok (record { str = k.long_name <> ("\\" <> sub); h_key = h })
      ]
unfolding open_registry_key
open_registry_key-names to_upper reg_open root sub p k m (inl e) =
    let f = All-mem FoundUnder root_keys k root_keys-All m in
    rw (e, f.0) (opened_key-name to_upper reg_open k.handle sub k.long_name _ f.2)
open_registry_key-names to_upper reg_open root sub p k m (inr e) =
    let f = All-mem FoundUnder root_keys k root_keys-All m in
    rw (e, f.1) (opened_key-name to_upper reg_open k.handle sub k.long_name _ f.2)
