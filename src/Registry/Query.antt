-- ===== src/Registry/Query.antt =====
-- `readRegValue` of win32/registry_win32.go with its buffer and the two error codes of each call.
use damon.Prelude.{
  ℕ, ◌≡◌, ◌≢◌, ◌≤◌, leb, Bool-cases, inl, inr, ==_iff, Option, none, some, List, [], ◌∷◌, arith,
  ◌==◌, if◌then◌else◌, Result, ok, err, map, take, length,
}
use damon.Process.{Outcome, done, panic}
use damon.Registry.{QueryAnswer, more_data, query_failed, value, read_reg_value}

-- A call of `RegQueryValueExW`: what it returns, the thread's error number, the bytes of its buffer, the
-- size that it reports and the value's type.
pub record RegCall : Type 0 where
  pub status : ℕ
  pub last_error : ℕ
  pub bytes : List ℕ
  pub size : ℕ
  pub value_type : ℕ

abbrev pub error_more_data : ℕ
error_more_data = 234

-- The loop, with a buffer of so many bytes: an empty one has no first byte, and a slice behind its end
-- panics.
query_loop : ℕ → List RegCall → Option (Outcome (Result ℕ (List ℕ × ℕ)))
query_loop cb [] = if cb == 0 then some panic else none
query_loop cb (c ∷ rest) =
    let again = query_loop c.size rest in
    if cb == 0
    then some panic
    else if c.last_error == error_more_data
    then again
    else if c.status == 0
    then (if leb c.size cb
        then some (done (ok (take c.size c.bytes, c.value_type)))
        else some panic)
    else some (done (err c.last_error))

unfoldable pub query_reg_value : List RegCall → Option (Outcome (Result ℕ (List ℕ × ℕ)))
unfolding query_loop
query_reg_value calls = query_loop 4 calls

-- A call without its buffer.
abbrev pub answer_of : RegCall → QueryAnswer
answer_of c =
    if c.last_error == error_more_data
    then more_data
    else if c.status == 0
    then value c.bytes c.size c.value_type
    else query_failed c.last_error

-- The kernel never asks for an empty buffer, and reports no more bytes than the buffer has room for.
abbrev pub IsFitting : ℕ → List RegCall → Type 0
IsFitting cb [] = Unit
IsFitting cb (c ∷ rest) =
    (c.last_error ≡ error_more_data → (c.size ≢ 0) × IsFitting c.size rest)
    × (c.last_error ≢ error_more_data → c.status ≡ 0 → (c.size ≤ cb) × (length c.bytes ≡ cb))

query_loop-read :
    (calls : List RegCall) (cb : ℕ)
    → cb ≢ 0
    → IsFitting cb calls
    → query_loop cb calls ≡ read_reg_value (map answer_of calls)
unfolding query_loop read_reg_value
query_loop-read [] cb h f = ground arith
query_loop-read (c ∷ rest) cb h (m, s) = elim (Bool-cases (c.last_error == error_more_data)) [
  | inl e ↦
      let (n, f) = m (ground (arith, ==_iff c.last_error error_more_data)) in
      ground (arith, e, query_loop-read rest c.size n f)
  | inr e ↦ let fits = s (ground (arith, e)) in ground (arith, e, fits)
]

-- With a kernel that never asks for an empty buffer and fills no more than it is given, the loop does not
-- panic and gives what the loop without the buffer gives.
pub query_reg_value-refines :
    (calls : List RegCall)
    → IsFitting 4 calls
    → query_reg_value calls ≡ read_reg_value (map answer_of calls)
unfolding query_reg_value
query_reg_value-refines calls f = query_loop-read calls 4 (omega arith) f
