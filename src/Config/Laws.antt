-- ===== src/Config/Laws.antt =====
-- What the loaded configuration promises (config.go).
use damon.Prelude.{
  ◌≡◌, ◌↔◌, String, true, false, none, some, List, [], ◌∷◌, ◌++◌, arith, ok, err, All,
  if◌then◌else◌,
}
use damon.Prelude.Int.{ℤ, pos, ltb_ℤ, ◌≤ℤ◌, ◌<ℤ◌}
use damon.Host.{Host, is_set}
use damon.Config.{
  Config, Error, bad_integer, cpu_too_low, minimum_cpu_mhz, env_to_bool, env_to_int,
  load_container_config_from_environment, cpu_variables, memory_variables,
}

-- What the container relies on: an enforced limit is usable.
pub record IsUsable (c : Config) : Type 0 where
  pub cpu_at_least : c.enforce_cpu ≡ true → pos minimum_cpu_mhz ≤ℤ c.cpu_mhz_limit
  pub memory_positive : c.enforce_memory ≡ true → pos 0 <ℤ c.memory_mb_limit

module _ (P : Host) where
  open P use {getenv, parse_int}

  -- The first variable of the list that is set decides: its value if it is an integer, and an error
  -- that names it otherwise, whatever the variables after it hold. With none set the default is given.
  pub env_to_int-first :
      (def : ℤ) (before : List String) (e : String) (after : List String)
      → All (λ v. is_set (getenv v) ≡ false) before
      → is_set (getenv e) ≡ true
      → env_to_int P def (before ++ e ∷ after)
        ≡ elim (parse_int (getenv e)) [ none ↦ err (bad_integer e (getenv e)) | some i ↦ ok i ]
  unfolding env_to_int
  env_to_int-first def [] e after unset set = rw set (ground arith)
  env_to_int-first def (v ∷ before) e after unset set =
      rw unset.0 (env_to_int-first def before e after unset.1 set)

  -- A configuration that is loaded with no error is usable: an enforced CPU limit is at least
  -- 100 MHz, and an enforced memory limit is positive.
  pub load-IsUsable :
      (load_container_config_from_environment P).1 ≡ none
      → IsUsable (load_container_config_from_environment P).0
  unfolding load_container_config_from_environment
  load-IsUsable h =
      ground (arith, env_to_int P (pos 0) cpu_variables, env_to_int P (pos 0) memory_variables)

  -- Where both limits are read, the load fails for a CPU limit that is too low exactly when that limit
  -- is to be enforced and lies between 1 and 99 MHz.
  pub load_fails_iff :
      (cpu mem : ℤ)
      → env_to_int P (pos 0) cpu_variables ≡ ok cpu
      → env_to_int P (pos 0) memory_variables ≡ ok mem
      → ((load_container_config_from_environment P).1 ≡ some (cpu_too_low cpu)) ↔ (
          (env_to_bool P "DAMON_ENFORCE_CPU_LIMIT" true ≡ true)
          × (pos 0 <ℤ cpu)
          × (cpu <ℤ pos minimum_cpu_mhz))
  unfolding load_container_config_from_environment
  load_fails_iff cpu mem hc hm = ground arith

  -- A memory limit that is no integer fails the load, and the configuration returned beside the
  -- error enforces no memory limit and asks for no restricted token, whatever the other variables
  -- say; the CPU limit that was read before stays in force.
  pub load_memory_error :
      (cpu : ℤ) (e : Error)
      → env_to_int P (pos 0) cpu_variables ≡ ok cpu
      → env_to_int P (pos 0) memory_variables ≡ err e
      → let (cfg, error) = load_container_config_from_environment P in
        (error ≡ some e)
        × (cfg.enforce_memory ≡ false)
        × (cfg.restricted_token ≡ false)
        × (cfg.cpu_mhz_limit ≡ (if ltb_ℤ (pos 0) cpu then cpu else pos 0))
        × (cfg.enforce_cpu
            ≡ (if ltb_ℤ (pos 0) cpu then env_to_bool P "DAMON_ENFORCE_CPU_LIMIT" true else false))
  unfolding load_container_config_from_environment
  load_memory_error cpu e hc hm = ground arith
