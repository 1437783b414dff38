-- ===== src/Text/Narrow.antt =====
-- NUL-terminated byte strings (win32/string_utils.go). Memory is what can be read from a pointer on;
-- a read beyond it is a fault, `none`.
use mathlib.Core.List.{append_assoc, append-nil}
use damon.Prelude.{
  ℕ, ◌≡◌, ◌≢◌, refl, Option, none, some, List, [], ◌∷◌, ◌++◌, arith, ◌==◌, if◌then◌else◌, All,
}

-- `StringToCharPtr`: the memory that the pointer leads to.
unfoldable pub string_to_char_ptr : List ℕ → List ℕ
string_to_char_ptr [] = 0 ∷ []
string_to_char_ptr (c ∷ s) = (c ∷ s) ++ (0 ∷ [])

-- `Text.Chars`; the empty text is nil.
unfoldable pub chars : List ℕ → Option (List ℕ)
unfolding string_to_char_ptr
chars [] = none
chars (c ∷ s) = some (string_to_char_ptr (c ∷ s))

-- The loop of `CharPtrToString`.
read_chars : List ℕ → List ℕ → Option (List ℕ)
read_chars acc [] = none
read_chars acc (c ∷ mem) =
    let rest = read_chars (acc ++ (c ∷ [])) mem in if c == 0 then some acc else rest

unfoldable pub char_ptr_to_string : Option (List ℕ) → Option (List ℕ)
unfolding read_chars
char_ptr_to_string none = some []
char_ptr_to_string (some mem) = read_chars [] mem

read_chars-append :
    (s acc rest : List ℕ) → All (λ c. c ≢ 0) s → read_chars acc (s ++ (0 ∷ rest)) ≡ some (acc ++ s)
unfolding read_chars
read_chars-append [] acc rest h = rw append-nil
read_chars-append (c ∷ s) acc rest h =
    ground (arith, read_chars-append s (acc ++ (c ∷ [])) rest h.1, append_assoc acc (c ∷ []) s)

string_to_char_ptr-append : (s : List ℕ) → string_to_char_ptr s ≡ s ++ (0 ∷ [])
unfolding string_to_char_ptr
string_to_char_ptr-append [] = refl
string_to_char_ptr-append (c ∷ s) = refl

-- A text with no NUL in it comes back as it went out, whatever follows it in memory.
pub char_ptr_to_string-chars :
    (s rest : List ℕ)
    → All (λ c. c ≢ 0) s
    → char_ptr_to_string (some (string_to_char_ptr s ++ rest)) ≡ some s
unfolding char_ptr_to_string
char_ptr_to_string-chars s rest h =
    rw (string_to_char_ptr-append s, append_assoc s (0 ∷ []) rest) (read_chars-append s [] rest h)

-- Of a text with a NUL in it only what stands before the first one comes back.
pub char_ptr_to_string-truncates :
    (s t : List ℕ)
    → All (λ c. c ≢ 0) s
    → char_ptr_to_string (some (string_to_char_ptr (s ++ (0 ∷ t)))) ≡ some s
unfolding char_ptr_to_string
char_ptr_to_string-truncates s t h =
    rw (string_to_char_ptr-append (s ++ (0 ∷ t)), append_assoc s (0 ∷ t) (0 ∷ []))
      (read_chars-append s [] (t ++ (0 ∷ [])) h)
