-- ===== src/Host.antt =====
-- What the program takes from Go's standard library and the operating system to read its
-- configuration: `os.Getenv`, `strconv.ParseInt`, `strings`, `filepath.Join` and `os.Getwd`.
use damon.Prelude.{String, ◌=s◌, Bool, Option, not}
use damon.Prelude.Int.{ℤ}

pub record Host : Type 0 where
  pub getenv : String → String  -- `os.Getenv`: "" if the variable is unset
  pub parse_int : String → Option ℤ  -- `strconv.ParseInt(s, 10, 64)`
  pub to_lower : String → String
  pub to_upper : String → String
  pub trim_space : String → String
  pub join : String → String → String  -- `filepath.Join`
  pub getwd : Option String  -- `os.Getwd`

-- `s != ""`
abbrev pub is_set : String → Bool
is_set s = not (s =s "")
