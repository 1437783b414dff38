-- ===== src/Container/Start/Limits.antt =====
-- The limits that `Start` puts on a job (container/container.go).
use damon.Prelude.{
  ℕ, ◌*◌, ◌^◌, ◌≤◌, ◌<◌, ◌≡◌, ◌∙◌, ◌%◌, inl, inr, Bool-cases, refl, Bool, true, false, arith, ltb,
  if◌then◌else◌,
}
use damon.Prelude.Int.{pos}
use damon.Prelude.Words.{has_flag}
use damon.Config.{Config}
use damon.Job.Flags.{limit_job_memory, limit_kill_on_job_close, cpu_rate_hard_cap, cpu_rate_enable}
use damon.Job.Limits.{extended_info}
use damon.Job.Limits.Laws.{extended_info-flags}
use damon.Job.CpuRate.{Float, cpu_rate_payload, mhz_to_cpu_rate, max_cpu_rate, size_of_info}
use damon.Job.CpuRate.Laws.{mhz_bounds, flags_of}
use damon.Job.Kernel.{Handle, cpu_rate}
use damon.Container.Start.{Answers, extended_limits, cpu_rate_limits, mb_to_bytes}

module _ (L : Float) (total : L.F) (job : Handle) (has_stats : Bool) (cfg : Config)
    (a : Answers) where
  extended_limits-fields : (extended_limits L total job has_stats cfg a).kill_on_job_close ≡ true
  unfolding extended_limits
  extended_limits-fields = refl

  enforced_memory :
      (mb : ℕ)
      → cfg.enforce_memory ≡ true
      → cfg.memory_mb_limit ≡ pos mb
      → mb < 2 ^ 44
      → (extended_limits L total job has_stats cfg a).job_memory_limit ≡ mb * mb_to_bytes
  unfolding extended_limits
  enforced_memory mb e m h = rw e (rw m (omega arith))

  no_memory :
      cfg.enforce_memory ≡ false
      → (extended_limits L total job has_stats cfg a).job_memory_limit ≡ 0
  unfolding extended_limits
  no_memory e = rw e

  memory_given :
      (mb : ℕ)
      → cfg.memory_mb_limit ≡ pos mb
      → 0 < mb
      → mb < 2 ^ 44
      → ltb 0 (extended_limits L total job has_stats cfg a).job_memory_limit ≡ cfg.enforce_memory
  memory_given mb m positive small = elim (Bool-cases cfg.enforce_memory) [
    | inl e ↦ rw (enforced_memory mb e m small) (rw e (ground arith))
    | inr e ↦ rw (no_memory e) (rw e refl)
  ]

  job_memory_value :
      (mb : ℕ)
      → cfg.memory_mb_limit ≡ pos mb
      → mb < 2 ^ 44
      → (extended_limits L total job has_stats cfg a).job_memory_limit
        ≡ (if cfg.enforce_memory then mb * 1048576 else 0)
  job_memory_value mb m small = elim (Bool-cases cfg.enforce_memory) [
    | inl e ↦ rw (enforced_memory mb e m small) (rw e refl)
    | inr e ↦ rw (no_memory e) (rw e refl)
  ]

  -- The job dies with the supervisor. Its memory limit is the configured one in bytes if it is enforced
  -- (and under 2 ^ 44 MB, so that the product does not wrap), and there is none otherwise.
  pub start-memory :
      (mb : ℕ)
      → cfg.memory_mb_limit ≡ pos mb
      → 0 < mb
      → mb < 2 ^ 44
      → let e = extended_info (extended_limits L total job has_stats cfg a) in
        (has_flag e.basic_info.limit_flags limit_kill_on_job_close ≡ true)
        × (has_flag e.basic_info.limit_flags limit_job_memory ≡ cfg.enforce_memory)
        × (e.job_memory ≡ (if cfg.enforce_memory then mb * 1048576 else 0))
  start-memory mb m positive small =
      let l = extended_limits L total job has_stats cfg a in
      let f = extended_info-flags l in
      (
        f.2 ∙ extended_limits-fields,
        f.0 ∙ memory_given mb m positive small,
        f.1 ∙ job_memory_value mb m small,
      )

  -- A CPU limit above 0 and below 2 ^ 64 becomes a rate from 1 to 10000 that is a hard cap, whatever the
  -- configuration's `CPUHardCap` says.
  pub start-cpu_rate :
      (mhz : ℕ)
      → cfg.cpu_mhz_limit ≡ pos mhz
      → 0 < mhz
      → mhz < 2 ^ 64
      → let p = cpu_rate_payload (cpu_rate_limits L total job has_stats cfg a) in
        let rate = mhz_to_cpu_rate L total mhz in
        (p ≡ cpu_rate size_of_info (record { control_flags = flags_of p; rate = rate }))
        × (has_flag (flags_of p) cpu_rate_enable ≡ true)
        × (has_flag (flags_of p) cpu_rate_hard_cap ≡ true)
        × (1 ≤ rate)
        × (rate ≤ max_cpu_rate)
  unfolding cpu_rate_limits cpu_rate_payload
  start-cpu_rate mhz m positive small =
      let b = mhz_bounds L total mhz positive in
      let whole : mhz % 2 ^ 64 ≡ mhz = omega arith in rw (m, whole) (ground arith)
