-- ===== src/Tests/Settings.antt =====
-- Runs of config.go and log/log.go.
use damon.Prelude.{◌≡◌, refl, none, ok, err}
use damon.Prelude.Int.{pos}
use damon.Host.{Host}
use damon.Config.{
  bad_integer, env_to_bool, env_to_int, cpu_variables, memory_variables,
  load_container_config_from_environment,
}
use damon.Config.Laws.{IsUsable, load-IsUsable}
use damon.Tests.Data.{host}

abbrev good : Host
good = host "500" "256"

abbrev low : Host
low = host "50" "256"

abbrev no_memory : Host
no_memory = host "500" "lots"

good_loads : (load_container_config_from_environment good).1 ≡ none
unfolding load_container_config_from_environment env_to_int env_to_bool
good_loads = refl

cpu_of_good : env_to_int good (pos 0) cpu_variables ≡ ok (pos 500)
unfolding env_to_int
cpu_of_good = refl

cpu_of_low : env_to_int low (pos 0) cpu_variables ≡ ok (pos 50)
unfolding env_to_int
cpu_of_low = refl

memory_of_low : env_to_int low (pos 0) memory_variables ≡ ok (pos 256)
unfolding env_to_int
memory_of_low = refl

cpu_of_no_memory : env_to_int no_memory (pos 0) cpu_variables ≡ ok (pos 500)
unfolding env_to_int
cpu_of_no_memory = refl

memory_of_no_memory :
    env_to_int no_memory (pos 0) memory_variables ≡ err (bad_integer "NOMAD_MEMORY_LIMIT" "lots")
unfolding env_to_int
memory_of_no_memory = refl

load-IsUsable_example : IsUsable (load_container_config_from_environment good).0
load-IsUsable_example = load-IsUsable good good_loads
