-- ===== src/Log/Writer.antt =====
-- The type `Logger` of log/log.go: which calls it makes of zerolog, which formats and writes the lines.
use damon.Prelude.{ℕ, String, Option, none, some, List, [], ◌∷◌, ◌++◌}
use damon.Version.{Info}
use damon.Config.Fields.{Fields}

-- What the program puts into fields; a time is a number, and `elapsed` is `End.Sub(Start)`.
pub data Value : Type 0 where
  text : String → Value
  words : List String → Value
  info_of : Info → Value
  time : ℕ → Value
  elapsed : ℕ → ℕ → Value
  status : ℕ → Value

-- A map that is given to `Fields`: the one of the variables of Nomad, or one that is written out.
pub data FieldMap : Type 0 where
  of_environment : Fields → FieldMap
  written : List (String × Value) → FieldMap

-- An error by its text, with the frames of its stack trace if it has one.
pub record GoError : Type 0 where
  pub message : String
  pub frames : Option (List String)

-- A logger by the chain of the maps that were added to it, first to last.
pub record Logger : Type 0 where
  pub chain : List FieldMap

-- The calls `Info().Msg` and `Error().Err(err).Msg` of zerolog, through which chain.
pub data Line : Type 0 where
  info_line : List FieldMap → String → Line
  error_line : List FieldMap → GoError → String → Line

-- `NewLogger` on success; the time stamp of each line is zerolog's.
unfoldable pub fresh : Logger
fresh = record { chain = [] }

unfoldable pub with_fields : Logger → FieldMap → Logger
with_fields l m = record { chain = l.chain ++ (m ∷ []) }

unfoldable pub logln : Logger → String → List Line
logln l msg = info_line l.chain msg ∷ []

-- `Logf`, of the text that `Msgf` makes of its format.
unfoldable pub logf : Logger → String → List Line
logf l msg = info_line l.chain msg ∷ []

unfoldable pub with_stack : Logger → Option (List String) → Logger
unfolding with_fields
with_stack l none = l
with_stack l (some frames) = with_fields l (written (("stacktrace", words frames) ∷ []))

unfoldable pub error : Logger → Option GoError → String → List Line
unfolding with_stack
error l none msg = []
error l (some e) msg = error_line (with_stack l e.frames).chain e msg ∷ []
