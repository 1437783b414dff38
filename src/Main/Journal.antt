-- ===== src/Main/Journal.antt =====
-- What `main` of main.go itself writes to the log, from its first line to its last, and the server of the
-- metrics. The container, the package win32 and the goroutines write to the same log.
pub mod Laws
pub mod Served
use damon.Prelude.{ℕ, String, ◌<>◌, Option, none, some, List, [], ◌∷◌, ◌++◌, if◌then◌else◌}
use damon.Host.{Host, is_set}
use damon.Config
use damon.Config.{listen_address, metrics_endpoint, load_container_config_from_environment}
use damon.Config.Fields.{Fields, nomad_log_fields}
use damon.Version.{get_info, string}
use damon.Log.{Rotation, new_logger, log_config_from_environment}
use damon.Log.Writer.{
  Value, text, words, info_of, time, elapsed, status, of_environment, written, GoError, Logger,
  Line, fresh, with_fields, logln, logf, error,
}
use damon.Process.{Outcome, done, panic, WaitError}
use damon.Process.Wait.{WaitResult}
use damon.Container.Start.{StartError, Run}
use damon.Main.{WaitEnd, container_wait}

-- Each kind of error as zerolog sees it.
pub record Described : Type 0 where
  pub of_config : damon.Config.Error → GoError
  pub of_start : StartError → GoError
  pub of_wait : WaitError → GoError

abbrev pub described {ℓ} : {E : Type ℓ} → (E → GoError) → Option E → Option GoError
described f none = none
described f (some e) = some (f e)

module _ (D : Described) (git_commit : String) (cmdline : List String) where
  open D use {of_config, of_start, of_wait}

  unfoldable pub identity : List (String × Value)
  identity =
      ("version", info_of (get_info git_commit))
      ∷ ("revision", text git_commit)
      ∷ ("cmdline", words cmdline)
      ∷ []

  unfoldable pub exit_fields : WaitEnd → List (String × Value)
  unfolding identity
  exit_fields r =
      identity
      ++ (("start", time r.run_start)
          ∷ ("end", time r.run_end)
          ∷ ("run_time", elapsed r.run_start r.run_end)
          ∷ ("exit_status", status r.exit_code)
          ∷ [])

  -- The logger of the container.
  unfoldable pub container_logger : Logger → Logger
  container_logger l = with_fields l (
      written (
        ("version", text (string (get_info git_commit)))
        ∷ ("revision", text git_commit)
        ∷ ("cmdline", words cmdline)
        ∷ []))

  after_wait : Logger → Outcome WaitEnd → List Line
  unfolding identity exit_fields error logln
  after_wait l panic = []
  after_wait l (done r) =
      error (with_fields l (written identity)) (described of_wait r.run_error)
        "process exited with an error"
      ++ logln (with_fields l (written (exit_fields r))) "damon exiting"

  unfoldable pub after_start : Logger → Run → Option WaitResult → List Line
  unfolding after_wait error container_wait
  after_start l (calls, some e) waited = error l (some (of_start e)) "damon startup error"
  after_start l (calls, none) waited = after_wait l (container_wait waited)

  -- The lines of `main` itself, over the errors of the configuration, what `Start` gives, and what
  -- `Process.Wait` gives if it is reached.
  unfoldable pub lines : Fields → Option damon.Config.Error → Run → Option WaitResult → List Line
  unfolding identity after_start error logln fresh with_fields
  lines fields config_error run waited =
      let l = with_fields fresh (of_environment fields) in
      logln (with_fields l (written identity)) "damon starting"
      ++ error l (described of_config config_error)
          "unable to load container configuration from environment variables"
      ++ after_start l run waited

-- With no argument, and without a log, there is no line. `order` is the order in which the range over the
-- variables of Nomad takes them, in this first call of `NomadLogFields`.
module _ (D : Described) (P : Host) (git_commit program : String)
    (order : List (String × String)) where
  with_log : Option Rotation → List String → Run → Option WaitResult → List Line
  unfolding lines
  with_log none args run waited = []
  with_log (some r) args run waited =
      lines D git_commit (program ∷ args) (nomad_log_fields P order none).1
        (load_container_config_from_environment P).1 run waited

  unfoldable pub main_lines : List String → Run → Option WaitResult → List Line
  unfolding with_log
  main_lines [] run waited = []
  main_lines (command ∷ args) run waited =
      with_log (new_logger P (log_config_from_environment P)) (command ∷ args) run waited

-- The server of the metrics: where it listens, the pattern under which the handler stands, and what the
-- goroutine logs before it listens.
pub record Serving : Type 0 where
  pub addr : String
  pub endpoint : String
  pub announced : List Line

unfoldable pub serving : Host → Logger → Option Serving
unfolding logf
serving P l =
    if is_set (listen_address P)
    then some (record {
      addr = listen_address P;
      endpoint = metrics_endpoint P;
      announced =
          logf l ("metrics on http://" <> (listen_address P <> ("/" <> metrics_endpoint P)));
    })
    else none

-- `ListenAndServe` returns with an error always, which the goroutine logs.
unfoldable pub served : Logger → GoError → List Line
unfolding error
served l e = error l (some e) "error closing http server"
