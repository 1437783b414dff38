-- ===== src/Tests/Journals.antt =====
-- Runs of the lines that `main` itself logs.
use damon.Prelude.{String, ◌≡◌, refl, none, some, [], ◌∷◌, ◌++◌}
use damon.Prelude.Int.{pos}
use damon.Host.{Host}
use damon.Config.{load_container_config_from_environment}
use damon.Config.Fields.{nomad_env_to_fields}
use damon.Log.{Rotation, new_logger, log_config_from_environment}
use damon.Log.Writer.{GoError}
use damon.Process.{other_error}
use damon.Process.Wait.{WaitResult}
use damon.Main.Journal.{Described, described, main_lines}
use damon.Main.Journal.Laws.{errors, given, faults, errors-main_lines}
use damon.Tests.Data.{host}

abbrev failing : Host
failing = host "500" "lots"

abbrev text_of : String → GoError
text_of t = record { message = t; frames = none }

abbrev plainly : Described
plainly = record {
  of_config = λ e. text_of "configuration";
  of_start = λ e. text_of "start";
  of_wait = λ e. text_of "child";
}

abbrev ended : WaitResult
ended = record { error = some other_error; exit_status = 254; result_start = 90; result_end = 150 }

abbrev rotation : Rotation
rotation = record { filename = "/task/damon.log"; max_size = pos 10; max_backups = pos 5 }

rotates : new_logger failing (log_config_from_environment failing) ≡ some rotation
unfolding new_logger log_config_from_environment
rotates = refl

errors-main_lines_example :
    errors (
      main_lines plainly failing "" "damon" nomad_env_to_fields
        ("app" ∷ [])
        ([], none)
        (some ended))
    ≡ given (described plainly.of_config (load_container_config_from_environment failing).1)
      ++ faults plainly ([], none) (some ended)
errors-main_lines_example =
    errors-main_lines plainly failing "" "damon" nomad_env_to_fields "app" [] ([], none)
      (some ended) rotation rotates
