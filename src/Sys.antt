-- ===== src/Sys.antt =====
-- win32/base_types_win32.go: how the procedures of the system's libraries are called, and how their
-- return values become errors.
pub mod Laws
pub mod Wrappers
use damon.Prelude.{ℕ, ◌%◌, ◌^◌, Bool, true, false, ◌==◌, if◌then◌else◌, Result, ok, err}

-- The Go error of a failed call: the thread's error number, which may be 0 as a value of `syscall.Errno`,
-- or `syscall.EINVAL`, which is none of the system's numbers.
pub data SysError : Type 0 where
  errno : ℕ → SysError
  einval : SysError

-- What a procedure gives that gives no value.
abbrev pub Nothing : Type 0
Nothing = Unit

-- What `Call` gives: the return value, a word of 64 bits; the thread's error number; and what the
-- procedure wrote through the pointers that it was given.
pub record Call {ℓ} (A : Type ℓ) : Type ℓ where
  pub ret : ℕ
  pub last_error : ℕ
  pub out : A

unfoldable pub to_bool : Bool → ℕ
to_bool true = 1
to_bool false = 0

-- `BOOL(r)` keeps the low 32 bits.
unfoldable pub boolean : ℕ → Bool
boolean r = r % 2 ^ 32 == 1

-- `err` is always a `syscall.Errno` here, as `Call` gives no other.
unfoldable pub errno_to_error : ℕ → SysError
errno_to_error n = if n == 0 then einval else errno n

module _ {ℓ} {A : Type ℓ} where
  unfoldable pub test_return_code_non_zero : Call A → Result SysError A
  unfolding errno_to_error
  test_return_code_non_zero c = if c.ret == 0 then err (errno_to_error c.last_error) else ok c.out

  unfoldable pub test_return_code_true : Call A → Result SysError A
  unfolding boolean errno_to_error
  test_return_code_true c = if boolean c.ret then ok c.out else err (errno_to_error c.last_error)

  -- Where the code tests the value itself, and passes the thread's error on as it is.
  unfoldable pub raw_non_zero : Call A → Result SysError A
  raw_non_zero c = if c.ret == 0 then err (errno c.last_error) else ok c.out
