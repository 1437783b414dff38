-- ===== src/Resources/Processor.antt =====
-- `getProcessorMHz` of win32/resources.go, over the registry (win32/registry.go), and what it makes of the
-- system's resources.
use damon.Prelude.{
  ℕ, ◌^◌, ◌<◌, ◌≡◌, ◌≢◌, arith, take, length, leb, if◌then◌else◌, Bool-cases, inl, inr, refl, ap,
  String, ◌<>◌, true, false, Option, none, some, List, [], ◌∷◌, ◌++◌, Result, ok, err,
}
use damon.Process.{Outcome, done, panic}
use damon.Handles.{HandleEvent, opened, closed, used}
use damon.Registry.{
  RegistryError, RegistryKey, wrapped, open_registry_key, root_key_handle, root_key_name,
  access_mask, key_read, QueryAnswer, value, reg_dword, reg_dword_big_endian, read_reg_value,
  read_dword,
}
use damon.Registry.Laws.{bytes, retried, read_dword_value-bytes, read_dword_value-other_type}

abbrev pub processor_key : String
processor_key = "HARDWARE\\DESCRIPTION\\System\\CentralProcessor\\0"

abbrev could_not_open : String
could_not_open = "getProcessorMHz: could not open HKLM:" <> processor_key

-- The text is the same for a value that cannot be read as for a key that cannot be opened.
of_value : Outcome (ℕ × Option RegistryError) → Outcome (Result RegistryError ℕ)
of_value panic = panic
of_value (done (n, some e)) = done (err (wrapped could_not_open e))
of_value (done (n, none)) = done (ok n)

of_values : Option (Outcome (ℕ × Option RegistryError)) → Option (Outcome (Result RegistryError ℕ))
of_values none = none
of_values (some r) = some (of_value r)

-- Over the calls `RegOpenKeyExW` and `RegQueryValueExW`, for the value "~MHz"; the close of the key is
-- deferred, and comes after a panic too. There is no result while no answer has ended the loop.
module _ (to_upper : String → String) (reg_open : ℕ → String → ℕ → Result ℕ ℕ)
    (wrap : Option RegistryError → Option RegistryError) where
  with_key :
      Result RegistryError RegistryKey
      → List QueryAnswer
      → List HandleEvent × Option (Outcome (Result RegistryError ℕ))
  unfolding of_values of_value
  with_key (err e) answers = ([], some (done (err (wrapped could_not_open e))))
  with_key (ok key) answers = (
    opened key.h_key ∷ used key.h_key ∷ closed key.h_key ∷ [],
    of_values (read_dword wrap answers),
  )

  unfoldable pub get_processor_mhz :
      List QueryAnswer → List HandleEvent × Option (Outcome (Result RegistryError ℕ))
  unfolding with_key
  get_processor_mhz answers =
      with_key
        (open_registry_key to_upper reg_open "HKLM" processor_key
          (record { read = true; write = false }))
        answers

  opens :
      (h : ℕ)
      → to_upper "HKLM" ≡ "HKLM"
      → reg_open 0x80000002 processor_key key_read ≡ ok h
      → open_registry_key to_upper reg_open "HKLM" processor_key
          (record { read = true; write = false })
        ≡ ok (record { str = "HKEY_LOCAL_MACHINE\\" <> processor_key; h_key = h })
  unfolding open_registry_key root_key_handle root_key_name access_mask
  opens h u o = rw u (rw o refl)

  -- Where the processor's key can be opened for reading, and holds a number of MHz below 2 ^ 32, that is
  -- what is found, however often the buffer had to be enlarged, and the key is closed.
  pub get_processor_mhz-bytes :
      (h n retries : ℕ) (slack : List ℕ) (answers : List QueryAnswer)
      → to_upper "HKLM" ≡ "HKLM"
      → reg_open 0x80000002 processor_key key_read ≡ ok h
      → n < 2 ^ 32
      → get_processor_mhz (retried retries (value (bytes n ++ slack) 4 reg_dword ∷ answers))
        ≡ (opened h ∷ used h ∷ closed h ∷ [], some (done (ok n)))
  unfolding get_processor_mhz with_key of_values of_value
  get_processor_mhz-bytes h n retries slack answers u o b = rw (opens h u o) (
      ap
        (λ (r : Option (Outcome (ℕ × Option RegistryError))).
          (opened h ∷ used h ∷ closed h ∷ [], of_values r))
        (read_dword_value-bytes wrap n retries slack answers b).0)

  -- Where the processor's key can be opened for reading, and the first answer is a value of a type that is
  -- neither of the two of 32-bit numbers, the processor is taken to have 0 MHz, and no error says so, if
  -- `errors.Wrapf` of nil is nil; where the size is over that of the buffer, the call panics instead. The key
  -- is closed either way.
  pub get_processor_mhz-other_type :
      (h size kind : ℕ) (buffer : List ℕ) (answers : List QueryAnswer)
      → to_upper "HKLM" ≡ "HKLM"
      → reg_open 0x80000002 processor_key key_read ≡ ok h
      → wrap none ≡ none
      → kind ≢ reg_dword
      → kind ≢ reg_dword_big_endian
      → get_processor_mhz (value buffer size kind ∷ answers) ≡ (
        opened h ∷ used h ∷ closed h ∷ [],
        some (if leb size (length buffer) then done (ok 0) else panic),
      )
  unfolding get_processor_mhz with_key of_values of_value read_dword read_reg_value
  get_processor_mhz-other_type h size kind buffer answers u o w a b = rw (opens h u o) (
      ap (λ (r : Option (Outcome (Result RegistryError ℕ))). (opened h ∷ used h ∷ closed h ∷ [], r))
        (elim (Bool-cases (leb size (length buffer))) [
          | inl e ↦
              ground (arith, e, read_dword_value-other_type wrap (take size buffer) kind w a b)
          | inr e ↦ ground (arith, e)
        ]))
