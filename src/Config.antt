-- ===== src/Config.antt =====
-- config.go: the container's settings, read from the environment, and the smaller readers beside it.
pub mod Laws
pub mod Fields
use damon.Prelude.{
  ℕ, String, ◌=s◌, Bool, true, false, ◌&&◌, ◌||◌, Option, none, some, List, [], ◌∷◌, if◌then◌else◌,
  Result, ok, err,
}
use damon.Prelude.Int.{ℤ, pos, ltb_ℤ}
use damon.Host.{Host, is_set}

-- container.Config
pub record Config : Type 0 where
  pub enforce_cpu : Bool
  pub enforce_memory : Bool
  pub restricted_token : Bool
  pub memory_mb_limit : ℤ
  pub cpu_mhz_limit : ℤ
  pub cpu_hard_cap : Bool

abbrev pub minimum_cpu_mhz : ℕ
minimum_cpu_mhz = 100

pub data Error : Type 0 where
  bad_integer : String → String → Error  -- the variable and its value
  cpu_too_low : ℤ → Error

-- `var cfg container.Config`
abbrev pub zero_config : Config
zero_config = record {
  enforce_cpu = false;
  enforce_memory = false;
  restricted_token = false;
  memory_mb_limit = pos 0;
  cpu_mhz_limit = pos 0;
  cpu_hard_cap = false;
}

-- The `switch` of `envToBool`.
unfoldable pub bool_word : String → Bool → Bool
bool_word w def =
    if w =s "y" || w =s "yes" || w =s "true" || w =s "1"
    then true
    else if w =s "n" || w =s "no" || w =s "false" || w =s "0"
    then false
    else def

abbrev pub cpu_variables : List String
cpu_variables = "DAMON_CPU_LIMIT" ∷ "NOMAD_CPU_LIMIT" ∷ []

abbrev pub memory_variables : List String
memory_variables = "DAMON_MEMORY_LIMIT" ∷ "NOMAD_MEMORY_LIMIT" ∷ []

module _ (P : Host) where
  open P use {getenv, parse_int, to_lower, trim_space}

  unfoldable pub env_to_bool : String → Bool → Bool
  env_to_bool env def =
      if is_set (getenv env) then bool_word (to_lower (trim_space (getenv env))) def else def

  parsed_or_error : String → Option ℤ → Result Error ℤ
  parsed_or_error e none = err (bad_integer e (getenv e))
  parsed_or_error e (some i) = ok i

  unfoldable pub env_to_int : ℤ → List String → Result Error ℤ
  unfolding parsed_or_error
  env_to_int def [] = ok def
  env_to_int def (e ∷ envs) =
      if is_set (getenv e) then parsed_or_error e (parse_int (getenv e)) else env_to_int def envs

  unfoldable pub listen_address : String
  listen_address =
      if is_set (getenv "DAMON_ADDR")
      then getenv "DAMON_ADDR"
      else if is_set (getenv "NOMAD_ADDR_damon")
      then getenv "NOMAD_ADDR_damon"
      else ""

  unfoldable pub metrics_endpoint : String
  metrics_endpoint =
      if is_set (getenv "DAMON_METRICS_ENDPOINT")
      then getenv "DAMON_METRICS_ENDPOINT"
      else "/metrics"

  -- `if cpu > 0`
  unfoldable pub with_cpu : ℤ → Config → Config
  with_cpu cpu cfg =
      if ltb_ℤ (pos 0) cpu
      then (record cfg {
        enforce_cpu = env_to_bool "DAMON_ENFORCE_CPU_LIMIT" true;
        cpu_mhz_limit = cpu;
      })
      else cfg

  -- `if mem > 0`
  unfoldable pub with_memory : ℤ → Config → Config
  with_memory mem cfg =
      if ltb_ℤ (pos 0) mem
      then (record cfg {
        enforce_memory = env_to_bool "DAMON_ENFORCE_MEMORY_LIMIT" true;
        memory_mb_limit = mem;
      })
      else cfg

  unfoldable pub check_cpu_limit : Config → Config × Option Error
  check_cpu_limit cfg =
      if cfg.enforce_cpu && ltb_ℤ cfg.cpu_mhz_limit (pos minimum_cpu_mhz)
      then (cfg, some (cpu_too_low cfg.cpu_mhz_limit))
      else (cfg, none)

  after_memory : Config → Result Error ℤ → Config × Option Error
  unfolding with_memory check_cpu_limit
  after_memory cfg (err e) = (cfg, some e)
  after_memory cfg (ok mem) = check_cpu_limit (record (with_memory mem cfg) {
    restricted_token = env_to_bool "DAMON_RESTRICTED_TOKEN" false;
  })

  after_cpu : Result Error ℤ → Config × Option Error
  unfolding with_cpu after_memory
  after_cpu (err e) = (zero_config, some e)
  after_cpu (ok cpu) = after_memory (with_cpu cpu zero_config) (env_to_int (pos 0) memory_variables)

  -- The configuration is returned beside the error, as in Go, where `main` goes on to use it.
  unfoldable pub load_container_config_from_environment : Config × Option Error
  unfolding after_cpu
  load_container_config_from_environment = after_cpu (env_to_int (pos 0) cpu_variables)
