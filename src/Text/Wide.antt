-- ===== src/Text/Wide.antt =====
-- UTF-16 strings (win32/string_utils.go). `decode` is `utf16.Decode` with the conversion to a string.
use mathlib.Core.List.{append_assoc, append-nil}
use damon.Prelude.{
  ℕ, suc, ◌+◌, ◌≡◌, ◌≢◌, Option, none, some, List, [], ◌∷◌, ◌++◌, arith, ◌==◌, ltb, if◌then◌else◌,
  All, length,
}
use damon.Process.{Outcome, done, panic}

-- `Text.WChars`: `encode` is `syscall.UTF16FromString`, whose error is dropped and whose nil result is
-- then indexed.
first_unit : Option (List ℕ) → Outcome (Option (List ℕ))
first_unit none = panic
first_unit (some units) = done (some units)

unfoldable pub wchars : (List ℕ → Option (List ℕ)) → List ℕ → Outcome (Option (List ℕ))
unfolding first_unit
wchars encode [] = done none
wchars encode (c ∷ s) = first_unit (encode (c ∷ s))

module _ (decode : List ℕ → List ℕ) where
  read_units : List ℕ → List ℕ → Option (List ℕ)
  read_units us [] = none
  read_units us (u ∷ mem) =
      let rest = read_units (us ++ (u ∷ [])) mem in if u == 0 then some (decode us) else rest

  unfoldable pub utf16_ptr_to_string : Option (List ℕ) → Option (List ℕ)
  unfolding read_units
  utf16_ptr_to_string none = some []
  utf16_ptr_to_string (some mem) = read_units [] mem

  -- The loop of `UTF16PtrToStringN`: the unit is appended before the counter is tested.
  read_n : ℕ → ℕ → List ℕ → List ℕ → Option (List ℕ)
  read_n n i us [] = none
  read_n n i us (u ∷ mem) =
      let rest = read_n n (suc i) (us ++ (u ∷ [])) mem in
      if ltb n (suc i) then some (decode (us ++ (u ∷ []))) else rest

  unfoldable pub utf16_ptr_to_string_n : Option (List ℕ) → ℕ → Option (List ℕ)
  unfolding read_n
  utf16_ptr_to_string_n none n = some []
  utf16_ptr_to_string_n (some mem) n = read_n n 0 [] mem

  read_units-append :
      (s us rest : List ℕ)
      → All (λ u. u ≢ 0) s
      → read_units us (s ++ (0 ∷ rest)) ≡ some (decode (us ++ s))
  unfolding read_units
  read_units-append [] us rest h = rw append-nil
  read_units-append (u ∷ s) us rest h =
      ground (arith, read_units-append s (us ++ (u ∷ [])) rest h.1, append_assoc us (u ∷ []) s)

  -- A NUL-terminated string is read up to its terminator, whatever follows it.
  pub utf16_ptr_to_string_lem :
      (s rest : List ℕ)
      → All (λ u. u ≢ 0) s
      → utf16_ptr_to_string (some (s ++ (0 ∷ rest))) ≡ some (decode s)
  unfolding utf16_ptr_to_string
  utf16_ptr_to_string_lem s rest h = read_units-append s [] rest h

  read_n-append :
      (s us : List ℕ) (u : ℕ) (rest : List ℕ) (n i : ℕ)
      → i + length s ≡ n
      → read_n n i us (s ++ (u ∷ rest)) ≡ some (decode (us ++ (s ++ (u ∷ []))))
  unfolding read_n
  read_n-append [] us u rest n i h = ground arith
  read_n-append (v ∷ s) us u rest n i h = ground (
    arith,
    read_n-append s (us ++ (v ∷ [])) u rest n (suc i),
    append_assoc us (v ∷ []) (s ++ (u ∷ [])),
  )

  -- Of a string of `n` units the counted reader gives `n + 1`: the unit that follows the string in
  -- memory is taken for a part of it.
  pub utf16_ptr_to_string_n-extra :
      (s : List ℕ) (u : ℕ) (rest : List ℕ)
      → utf16_ptr_to_string_n (some (s ++ (u ∷ rest))) (length s) ≡ some (decode (s ++ (u ∷ [])))
  unfolding utf16_ptr_to_string_n
  utf16_ptr_to_string_n-extra s u rest = read_n-append s [] u rest (length s) 0 (omega arith)
