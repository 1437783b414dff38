-- ===== src/Lsa.antt =====
-- The rights of an account (win32/lsa.go, win32/lsa_win32.go): counted strings to the Local Security
-- Authority and back.
pub mod Accounts
use damon.Prelude.{
  ℕ, suc, ◌==◌, ◌*◌, ◌/◌, ◌%◌, ◌^◌, ◌<◌, ◌≡◌, ◌↔◌, ◌⊎◌, refl, Bool, true, Option, none, some, List,
  [], ◌∷◌, ◌++◌, arith, Result, ok, err, All, length, map, if◌then◌else◌,
}
use damon.Process.{Outcome, done, panic}
use damon.Text.Wide.{utf16_ptr_to_string_n, utf16_ptr_to_string_n-extra}

-- _LSA_UNICODE_STRING: its two 16-bit lengths in bytes, and the units behind its pointer.
pub record LsaString : Type 0 where
  pub byte_length : ℕ
  pub maximum_length : ℕ
  pub buffer : List ℕ

-- A call of `LsaEnumerateAccountRights`: the strings that it gives, or a status, by its Windows error.
abbrev pub file_not_found : ℕ
file_not_found = 2

-- `encode` is `syscall.UTF16FromString`, whose units end in a NUL; its error is dropped, and the first of
-- its units is then indexed. `decode` is `utf16.Decode` with the conversion to a string.
module _ (encode : List ℕ → Option (List ℕ)) (decode : List ℕ → List ℕ) where
  of_units : Option (List ℕ) → Outcome LsaString
  of_units none = panic
  of_units (some []) = panic
  of_units (some (u ∷ us)) = done (record {
    byte_length = (length us * 2) % 2 ^ 16;
    maximum_length = (suc (length us) * 2) % 2 ^ 16;
    buffer = u ∷ us;
  })

  unfoldable pub to_lsa_unicode_string : List ℕ → Outcome LsaString
  unfolding of_units
  to_lsa_unicode_string s = of_units (encode s)

  unfoldable pub to_lsa_strings : List (List ℕ) → Outcome (List LsaString)
  unfolding to_lsa_unicode_string
  to_lsa_strings [] = done []
  to_lsa_strings (s ∷ ss) =
      let rest = to_lsa_strings ss in
      elim (to_lsa_unicode_string s) [
        | panic ↦ panic
        | done l ↦ (elim rest [ panic ↦ panic | done ls ↦ done (l ∷ ls) ])
      ]

  -- The pointer to the first of the strings: an index into an empty slice panics. `call` is the kernel's
  -- answer, an error or nothing.
  with_first : (List LsaString → Option ℕ) → Outcome (List LsaString) → Outcome (Option ℕ)
  with_first call panic = panic
  with_first call (done []) = panic
  with_first call (done (l ∷ ls)) = done (call (l ∷ ls))

  unfoldable pub lsa_add_account_rights :
      (List LsaString → Option ℕ) → List (List ℕ) → Outcome (Option ℕ)
  unfolding with_first to_lsa_strings
  lsa_add_account_rights call rights = with_first call (to_lsa_strings rights)

  unfoldable pub lsa_remove_account_rights :
      (Bool → List LsaString → Option ℕ) → Bool → List (List ℕ) → Outcome (Option ℕ)
  unfolding with_first to_lsa_strings
  lsa_remove_account_rights call remove_all rights =
      with_first (call remove_all) (if remove_all then done [] else to_lsa_strings rights)

  -- `lsaEnumerateAccountRights`; `none` is a read beyond the memory of a string.
  read_rights : List LsaString → Option (List (List ℕ))
  read_rights [] = some []
  read_rights (l ∷ ls) =
      let rest = read_rights ls in
      elim (utf16_ptr_to_string_n decode (some l.buffer) (l.byte_length / 2)) [
        | none ↦ none
        | some s ↦ (elim rest [ none ↦ none | some ss ↦ some (s ∷ ss) ])
      ]

  unfoldable pub lsa_enumerate_account_rights :
      Result ℕ (List LsaString) → Result ℕ (Option (List (List ℕ)))
  unfolding read_rights
  lsa_enumerate_account_rights (err e) = if e == file_not_found then ok (some []) else err e
  lsa_enumerate_account_rights (ok ls) = ok (read_rights ls)

  -- The units of a text: what `encode` gives of it, less the NUL.
  abbrev pub IsEncoded : List ℕ × List ℕ → Type 0
  IsEncoded (s, us) = (encode s ≡ some (us ++ (0 ∷ []))) × (length us * 2 < 2 ^ 16)

  length-terminated : (us : List ℕ) → length (us ++ (0 ∷ [])) ≡ suc (length us)
  length-terminated [] = refl
  length-terminated (u ∷ us) = omega (arith, length-terminated us)

  -- The counted string of a text: its units with the NUL behind them, which is not counted.
  abbrev pub counted : List ℕ → LsaString
  counted us = record {
    byte_length = length us * 2;
    maximum_length = (suc (length us) * 2) % 2 ^ 16;
    buffer = us ++ (0 ∷ []);
  }

  of_units-append :
      (us : List ℕ) → length us * 2 < 2 ^ 16 → of_units (some (us ++ (0 ∷ []))) ≡ done (counted us)
  unfolding of_units
  of_units-append [] h = refl
  of_units-append (u ∷ us) h =
      let whole : (suc (length us) * 2) % 2 ^ 16 ≡ suc (length us) * 2 = omega arith in
      rw (length-terminated us) (rw whole refl)

  to_lsa_strings-counted :
      (rights : List (List ℕ × List ℕ))
      → All IsEncoded rights
      → to_lsa_strings (map (λ (r : List ℕ × List ℕ). r.0) rights)
        ≡ done (map (λ (r : List ℕ × List ℕ). counted r.1) rights)
  unfolding to_lsa_strings
  to_lsa_strings-counted [] h = refl
  to_lsa_strings-counted ((s, us) ∷ rights) h =
      ground (arith, h.0.0, of_units-append us h.0.1, to_lsa_strings-counted rights h.1)

  read_rights-counted :
      (rights : List (List ℕ × List ℕ))
      → read_rights (map (λ (r : List ℕ × List ℕ). counted r.1) rights)
        ≡ some (map (λ (r : List ℕ × List ℕ). decode (r.1 ++ (0 ∷ []))) rights)
  unfolding read_rights
  read_rights-counted [] = refl
  read_rights-counted ((s, us) ∷ rights) =
      let half : (length us * 2) / 2 ≡ length us = omega arith in
      rw (read_rights, half)
        (rw (utf16_ptr_to_string_n-extra decode us 0 [], read_rights-counted rights) refl)

  -- The rights that are handed to the kernel, if it gives them back as they are, are read back complete
  -- and in order, but each with the NUL that ends it as a part of it. A right's name must fit the 16-bit
  -- length.
  pub enumerate-to_lsa_strings :
      (rights : List (List ℕ × List ℕ)) (ls : List LsaString)
      → All IsEncoded rights
      → to_lsa_strings (map (λ (r : List ℕ × List ℕ). r.0) rights) ≡ done ls
      → lsa_enumerate_account_rights (ok ls)
        ≡ ok (some (map (λ (r : List ℕ × List ℕ). decode (r.1 ++ (0 ∷ []))) rights))
  unfolding lsa_enumerate_account_rights
  enumerate-to_lsa_strings rights ls h e =
      ground (arith, to_lsa_strings-counted rights h, read_rights-counted rights)

  -- To remove all rights of an account is never possible: the call panics before the kernel is asked,
  -- and so does every call that names no right. With names that can be encoded, and not all rights to be
  -- removed, the kernel is asked.
  pub lsa_remove_account_rights-panic :
      (call : Bool → List LsaString → Option ℕ) (remove_all : Bool)
      (rights : List (List ℕ × List ℕ))
      → All IsEncoded rights
      → (lsa_remove_account_rights call remove_all (map (λ (r : List ℕ × List ℕ). r.0) rights)
          ≡ panic)
        ↔ ((remove_all ≡ true) ⊎ (rights ≡ []))
  unfolding lsa_remove_account_rights
  lsa_remove_account_rights-panic call remove_all [] h = ground arith
  lsa_remove_account_rights-panic call remove_all (r ∷ rights) h =
      ground (arith, to_lsa_strings-counted (r ∷ rights) h)
