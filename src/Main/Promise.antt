-- ===== src/Main/Promise.antt =====
-- From the environment to the limits that the kernel has in force when the child runs: main.go, config.go
-- and container/container.go together.
use damon.Prelude.{
  ℕ, ◌*◌, ◌^◌, ◌<◌, ◌≡◌, String, true, Option, none, some, List, ◌∷◌, ok, arith, if◌then◌else◌,
}
use damon.Prelude.Int.{pos}
use damon.Host.{Host}
use damon.Config.{
  Config, env_to_int, env_to_bool, cpu_variables, memory_variables,
  load_container_config_from_environment,
}
use damon.Process.Wait.{WaitResult}
use damon.Job.CpuRate.{Float, mhz_to_cpu_rate}
use damon.Job.Kernel.{Handle}
use damon.Container.Start.{Answers}
use damon.Container.Start.InForce.{Limits, no_limits, at_resume}
use damon.Container.Start.Promise.{start-promise}
use damon.Main.{main}

module _ (P : Host) (mb mhz : ℕ) where
  abbrev loaded : Config
  loaded = (load_container_config_from_environment P).0

  loaded-fields :
      env_to_int P (pos 0) cpu_variables ≡ ok (pos mhz)
      → env_to_int P (pos 0) memory_variables ≡ ok (pos mb)
      → 0 < mhz
      → 0 < mb
      → (loaded.cpu_mhz_limit ≡ pos mhz)
        × (loaded.memory_mb_limit ≡ pos mb)
        × (loaded.enforce_cpu ≡ env_to_bool P "DAMON_ENFORCE_CPU_LIMIT" true)
        × (loaded.enforce_memory ≡ env_to_bool P "DAMON_ENFORCE_MEMORY_LIMIT" true)
  unfolding load_container_config_from_environment
  loaded-fields hc hm z0 m0 = ground arith

  -- What the variables ask for.
  abbrev pub asked : (L : Float) → L.F → Limits
  asked L total =
      let cpu = env_to_bool P "DAMON_ENFORCE_CPU_LIMIT" true in
      record {
        kill_on_close = true;
        memory =
            if env_to_bool P "DAMON_ENFORCE_MEMORY_LIMIT" true then some (mb * 1048576) else none;
        cpu = if cpu then some (mhz_to_cpu_rate L total mhz) else none;
        hard_cap = cpu;
        cpu_notified = cpu;
      }

  -- From the environment to the kernel: with a CPU limit above 0 and under 2 ^ 64 MHz and a memory limit
  -- above 0 and under 2 ^ 44 MB in the variables, if the child is let run at all, then under exactly the
  -- limits that the variables ask for, whatever the system answers, and it dies with the supervisor.
  pub main-promise :
      (L : Float) (total : L.F) (job : Handle) (git_commit host_error : String) (command : String)
      (args : List String) (a : Answers) (waited : Option WaitResult) (l : Limits)
      → env_to_int P (pos 0) cpu_variables ≡ ok (pos mhz)
      → env_to_int P (pos 0) memory_variables ≡ ok (pos mb)
      → 0 < mhz
      → mhz < 2 ^ 64
      → 0 < mb
      → mb < 2 ^ 44
      → at_resume no_limits
          (main P L total job git_commit host_error (command ∷ args) a waited).calls
        ≡ some l
      → l ≡ asked L total
  unfolding main
  main-promise L total job git_commit host_error command args a waited l hc hm z0 z1 m0 m1 h =
      let (c, m, ec, em) = loaded-fields hc hm z0 m0 in
      let p = start-promise L total job true loaded a mb mhz m m0 m1 c z0 z1 in ground (arith, p)
