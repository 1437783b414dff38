-- ===== src/Logger.antt =====
-- The logger of the win32 package (win32/logger.go): one global value that holds the logger which is set,
-- and the functions that log through it.
pub mod Laws
use damon.Prelude.{
  ℕ, String, Bool, true, false, Option, none, some, List, [], ◌∷◌, ◌++◌, if◌then◌else◌, ◌==◌,
}
use damon.Process.{Outcome, done, panic}

-- A value of the interface `Logger`: nil, one of the two of the package, or one of its users, of a
-- type of theirs.
pub data Logger : Type 0 where
  nil_logger noop_logger : Logger
  log_wrapper : Logger → Logger
  user_logger : ℕ → ℕ → Logger  -- its type and its identity

-- What a logger is asked to write; the arguments are given by their texts.
pub data Entry : Type 0 where
  formatted : String → List String → Entry
  line : List String → Entry
  failure : String → String → Entry

abbrev pub Written : Type 0
Written = List (ℕ × Entry)

-- A method of a logger: a wrapper hands the entry on, and a call on nil panics.
unfoldable pub log_to : Logger → Entry → Outcome Written
log_to nil_logger e = panic
log_to noop_logger e = done []
log_to (log_wrapper l) e = log_to l e
log_to (user_logger kind identity) e = done ((identity, e) ∷ [])

-- `globalLogger`, and what the loggers of the package's users wrote.
pub record State : Type 0 where
  pub global_logger : Option Logger
  pub written : Written

-- Whether two values are of the same dynamic type.
abbrev same_type : Logger → Logger → Bool
same_type noop_logger noop_logger = true
same_type (log_wrapper a) (log_wrapper b) = true
same_type (user_logger a i) (user_logger b j) = a == b
same_type _ _ = false

-- `atomic.Value.Store`, which panics on nil and on a value of another type than the one that it holds.
store_over : Option Logger → Logger → Outcome (Option Logger)
store_over old nil_logger = panic
store_over none l = done (some l)
store_over (some old) l = if same_type old l then done (some l) else panic

with_stored : State → Outcome (Option Logger) → Outcome State
with_stored s panic = panic
with_stored s (done g) = done (record s { global_logger = g })

unfoldable pub store : Logger → State → Outcome State
unfolding store_over with_stored
store l s = with_stored s (store_over s.global_logger l)

unfoldable pub set_logger : Logger → State → Outcome State
unfolding store
set_logger l s = store (log_wrapper l) s

-- `init`, and the state in front of it.
abbrev pub blank : State
blank = record { global_logger = none; written = [] }

unfoldable pub init : State → Outcome State
unfolding set_logger
init s = set_logger (log_wrapper noop_logger) s

with_entry : State → Outcome Written → Outcome State
with_entry s panic = panic
with_entry s (done ws) = done (record s { written = s.written ++ ws })

log_through : Option Logger → Entry → State → Outcome State
unfolding with_entry log_to
log_through none e s = panic
log_through (some l) e s = with_entry s (log_to l e)

-- `logger()`, and a method of what it gives.
unfoldable pub log_entry : Entry → State → Outcome State
unfolding log_through
log_entry e s = log_through s.global_logger e s

unfoldable pub logf : String → List String → State → Outcome State
unfolding log_entry
logf format v s = log_entry (formatted format v) s

unfoldable pub logln : List String → State → Outcome State
unfolding log_entry
logln v s = log_entry (line v) s

-- An error by its text; nil is not logged.
unfoldable pub log_error : Option String → String → State → Outcome State
unfolding log_entry
log_error none msg s = done s
log_error (some e) msg s = log_entry (failure e msg) s

-- A use of the package's logger.
pub data Use : Type 0 where
  setting : Logger → Use
  logging_f : String → List String → Use
  logging_ln : List String → Use
  logging_error : Option String → String → Use

unfoldable pub use_logger : Use → State → Outcome State
unfolding set_logger logf logln log_error
use_logger (setting l) s = set_logger l s
use_logger (logging_f format v) s = logf format v s
use_logger (logging_ln v) s = logln v s
use_logger (logging_error e msg) s = log_error e msg s

unfoldable pub run : List Use → Outcome State → Outcome State
unfolding use_logger
run us panic = panic
run [] (done s) = done s
run (u ∷ us) (done s) = run us (use_logger u s)
