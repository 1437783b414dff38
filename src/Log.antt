-- ===== src/Log.antt =====
-- log/log.go, and `LogConfigFromEnvironment` of config.go: where the log goes and how it is rotated.
pub mod Writer
use damon.Prelude.{
  ◌≡◌, ◌↔◌, String, ◌<>◌, false, Option, none, some, List, [], ◌∷◌, ◌++◌, arith, if◌then◌else◌,
}
use damon.Prelude.Int.{ℤ, pos}
use damon.Host.{Host, is_set}

pub record LogConfig : Type 0 where
  pub max_log_files : ℤ
  pub max_size_mb : ℤ
  pub log_dir : String
  pub log_name : String
  pub nomad_alloc_dir : String
  pub nomad_task_name : String
  pub nomad_log_suffix : String

-- What lumberjack is given.
pub record Rotation : Type 0 where
  pub filename : String
  pub max_size : ℤ
  pub max_backups : ℤ

unfoldable pub name : LogConfig → String
name c =
    if is_set c.log_name
    then c.log_name
    else if is_set c.nomad_task_name
    then (if is_set c.nomad_log_suffix
        then c.nomad_task_name <> c.nomad_log_suffix
        else c.nomad_task_name <> ".damon.log")
    else "damon.log"

-- `Logger.Error` drops a nil error; an error gives one entry, with its stack trace if it has one.
pub record Entry : Type 0 where
  pub message : String
  pub stacktrace : List String

unfoldable pub log_error : Option (Option (List String)) → String → List Entry → List Entry
log_error none msg out = out
log_error (some none) msg out = out ++ (record { message = msg; stacktrace = [] }) ∷ []
log_error (some (some frames)) msg out = out ++ (record { message = msg; stacktrace = frames }) ∷ []

module _ (P : Host) where
  open P use {getenv, parse_int, join, getwd}

  unfoldable pub dir : LogConfig → Option String
  dir c =
      if is_set c.log_dir
      then some c.log_dir
      else if is_set c.nomad_alloc_dir
      then some (join c.nomad_alloc_dir "logs")
      else getwd

  unfoldable pub path : LogConfig → Option String
  unfolding dir name
  path c = elim (dir c) [ none ↦ none | some d ↦ some (join d (name c)) ]

  unfoldable pub new_logger : LogConfig → Option Rotation
  unfolding path
  new_logger c = elim (path c) [
    | none ↦ none
    | some p ↦
        some (record { filename = p; max_size = c.max_size_mb; max_backups = c.max_log_files })
  ]

  -- `if sz := os.Getenv(e); sz != "" { if i, err := ParseInt(sz); err == nil { … } }`
  int_or : ℤ → String → ℤ
  int_or def e =
      if is_set (getenv e) then (elim (parse_int (getenv e)) [ none ↦ def | some i ↦ i ]) else def

  unfoldable pub log_config_from_environment : LogConfig
  unfolding int_or
  log_config_from_environment = record {
    max_log_files = int_or (pos 5) "DAMON_LOG_MAX_FILES";
    max_size_mb = int_or (pos 10) "DAMON_LOG_MAX_SIZE";
    log_dir = getenv "DAMON_LOG_DIR";
    log_name = getenv "DAMON_LOG_NAME";
    nomad_alloc_dir = getenv "NOMAD_ALLOC_DIR";
    nomad_task_name = getenv "NOMAD_TASK_NAME";
    nomad_log_suffix = getenv "DAMON_NOMAD_LOG_SUFFIX";
  }

  -- The supervisor has no log, and so does not start, exactly when neither DAMON_LOG_DIR nor
  -- NOMAD_ALLOC_DIR is set and the working directory is unknown.
  pub new_logger-none : (new_logger log_config_from_environment ≡ none) ↔ (
      (is_set (getenv "DAMON_LOG_DIR") ≡ false)
      × (is_set (getenv "NOMAD_ALLOC_DIR") ≡ false)
      × (getwd ≡ none))
  unfolding new_logger log_config_from_environment
  new_logger-none = ground arith

  -- A log size or count that is no integer is the same as one that is not set: the defaults of 10 MB
  -- and 5 files hold.
  pub log_config-defaults :
      parse_int (getenv "DAMON_LOG_MAX_SIZE") ≡ none
      → parse_int (getenv "DAMON_LOG_MAX_FILES") ≡ none
      → (log_config_from_environment.max_size_mb ≡ pos 10)
        × (log_config_from_environment.max_log_files ≡ pos 5)
  unfolding log_config_from_environment
  log_config-defaults h k = ground arith
