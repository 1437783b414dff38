-- ===== src/Token/Kind.antt =====
-- `TokenType` and `Close` of a token (win32/tokens.go).
use damon.Prelude.{ℕ, suc, ◌^◌, ◌<◌, ◌≡◌, refl, ap, ◌∙◌, Option, none, some, List, Result, ok, err}
use damon.Process.{Outcome, done, panic}
use damon.Registry.{little_endian}
use damon.Registry.Laws.{bytes, digits_sum}
use damon.Token.{InfoAnswer, info, get_token_information}

abbrev pub token_type_primary : ℕ
token_type_primary = 1

abbrev pub token_type_impersonation : ℕ
token_type_impersonation = 2

-- The four bytes behind the pointer that `getTokenInformation` gives; its error by its number.
type_of : Option (Result ℕ (List ℕ)) → Option (Outcome (Result ℕ ℕ))
type_of none = none
type_of (some (err e)) = some (done (err e))
type_of (some (ok b)) = elim (little_endian b) [ panic ↦ some panic | done n ↦ some (done (ok n)) ]

-- With the fuel of `get_token_information`.
unfoldable pub token_type : ℕ → (ℕ → InfoAnswer) → Option (Outcome (Result ℕ ℕ))
unfolding type_of get_token_information little_endian
token_type fuel call = type_of (get_token_information fuel call)

first_call :
    (fuel : ℕ) (b : List ℕ) (call : ℕ → InfoAnswer)
    → call 4 ≡ info b
    → get_token_information (suc fuel) call ≡ some (ok b)
unfolding get_token_information
first_call fuel b call h = rw (h, get_token_information) refl

-- The kind of a token fits the buffer of four bytes: the first call gives it, as the system stored it.
pub token_type-bytes :
    (fuel n : ℕ) (call : ℕ → InfoAnswer)
    → n < 2 ^ 32
    → call 4 ≡ info (bytes n)
    → token_type (suc fuel) call ≡ some (done (ok n))
unfolding token_type type_of little_endian
token_type-bytes fuel n call b h =
    ap type_of (first_call fuel (bytes n) call h)
    ∙ ap (λ (t : ℕ). some (done (ok t))) (digits_sum n b)
