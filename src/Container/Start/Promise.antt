-- ===== src/Container/Start/Promise.antt =====
-- What a container promises its child, against the calls that `Start` makes (container/container.go).
use damon.Prelude.{
  ℕ, ◌*◌, ◌^◌, ◌<◌, ◌≡◌, inl, inr, refl, ap, ◌∙◌, Bool, true, false, none, some, arith,
  if◌then◌else◌, Option-cases,
}
use damon.Prelude.Int.{pos}
use damon.Prelude.Words.{has_flag}
use damon.Config.{Config}
use damon.Job.Flags.{limit_rate_control}
use damon.Job.Limits.{extended_info}
use damon.Job.Notify.{notification_info}
use damon.Job.CpuRate.{Float, mhz_to_cpu_rate, cpu_rate_payload}
use damon.Job.Kernel.{extended, notification, Handle}
use damon.Container.Start.{Answers, start, extended_limits, notification_limits, cpu_rate_limits}
use damon.Container.Start.Laws.{start-resume, start-calls, successful_calls}
use damon.Container.Start.Limits.{start-memory, start-cpu_rate}
use damon.Container.Start.InForce.{
  Limits, no_limits, apply, at_resume, is_none, promise, at_resume-none, at_resume-calls, memory_of,
}

module _ (L : Float) (total : L.F) (job : Handle) (has_stats : Bool) (cfg : Config)
    (a : Answers) where
  notified :
      has_flag
        (notification_info (notification_limits L total job has_stats cfg a)).limit_flags
        limit_rate_control
      ≡ true
  unfolding notification_info notification_limits
  notified = refl

  -- What each structure adds.
  limits_of_extended :
      (mb : ℕ)
      → cfg.memory_mb_limit ≡ pos mb
      → 0 < mb
      → mb < 2 ^ 44
      → (l : Limits)
      → apply (extended (extended_info (extended_limits L total job has_stats cfg a))) l
        ≡ record l {
          kill_on_close = true;
          memory = if cfg.enforce_memory then some (mb * 1048576) else none;
        }
  limits_of_extended mb m m0 m1 l =
      let (k, f, v) = start-memory L total job has_stats cfg a mb m m0 m1 in
      rw (k, f, v) (rw (memory_of cfg.enforce_memory (mb * 1048576)) refl)

  limits_of_cpu_rate :
      (mhz : ℕ)
      → cfg.cpu_mhz_limit ≡ pos mhz
      → 0 < mhz
      → mhz < 2 ^ 64
      → (l : Limits)
      → apply (cpu_rate_payload (cpu_rate_limits L total job has_stats cfg a)) l
        ≡ record l { cpu = some (mhz_to_cpu_rate L total mhz); hard_cap = true }
  limits_of_cpu_rate mhz z z0 z1 l =
      let (p, e, h, _, _) = start-cpu_rate L total job has_stats cfg a mhz z z0 z1 in
      rw p (rw (e, h) refl)

  limits_of_notification :
      (l : Limits)
      → apply (notification (notification_info (notification_limits L total job has_stats cfg a))) l
        ≡ record l { cpu_notified = true }
  limits_of_notification l = rw notified refl

  abbrev with_memory : ℕ → Limits
  with_memory mb = record no_limits {
    kill_on_close = true;
    memory = if cfg.enforce_memory then some (mb * 1048576) else none;
  }

  by_enforcing :
      (b : Bool) (l : Limits) (rate : ℕ)
      → (if b
          then record l { cpu_notified = true; cpu = some rate; hard_cap = true }
          else record l { cpu = none; hard_cap = false; cpu_notified = false })
        ≡ record l { cpu = if b then some rate else none; hard_cap = b; cpu_notified = b }
  by_enforcing true l rate = refl
  by_enforcing false l rate = refl

  abbrev cpu_applied : Limits → Limits
  cpu_applied l =
      apply (cpu_rate_payload (cpu_rate_limits L total job has_stats cfg a)) (
        apply (notification (notification_info (notification_limits L total job has_stats cfg a)))
          l)

  cpu_in_force :
      (mhz : ℕ)
      → cfg.cpu_mhz_limit ≡ pos mhz
      → 0 < mhz
      → mhz < 2 ^ 64
      → (l : Limits)
      → cpu_applied l ≡ record l {
        cpu = some (mhz_to_cpu_rate L total mhz);
        hard_cap = true;
        cpu_notified = true;
      }
  cpu_in_force mhz z z0 z1 l =
      ap (λ (k : Limits). apply (cpu_rate_payload (cpu_rate_limits L total job has_stats cfg a)) k)
        (limits_of_notification l)
      ∙ limits_of_cpu_rate mhz z z0 z1 (record l { cpu_notified = true })

  resumed :
      (mb mhz : ℕ)
      → cfg.memory_mb_limit ≡ pos mb
      → 0 < mb
      → mb < 2 ^ 44
      → cfg.cpu_mhz_limit ≡ pos mhz
      → 0 < mhz
      → mhz < 2 ^ 64
      → (opened given : ℕ)
      → at_resume no_limits (successful_calls L total job has_stats cfg a opened given)
        ≡ some (promise L total cfg mb mhz)
  resumed mb mhz m m0 m1 z z0 z1 opened given =
      let e = limits_of_extended mb m m0 m1 no_limits in
      at_resume-calls cfg.restricted_token cfg.enforce_cpu has_stats opened given _ _ _ no_limits
      ∙ ap
          (λ (l : Limits). some (
            if cfg.enforce_cpu
            then cpu_applied l
            else apply (extended (extended_info (extended_limits L total job has_stats cfg a)))
                no_limits))
          e
      ∙ ap (λ (l : Limits). some (if cfg.enforce_cpu then cpu_applied (with_memory mb) else l)) e
      ∙ ap (λ (l : Limits). some (if cfg.enforce_cpu then l else with_memory mb))
          (cpu_in_force mhz z z0 z1 (with_memory mb))
      ∙ ap (λ (l : Limits). some l)
          (by_enforcing cfg.enforce_cpu (with_memory mb) (mhz_to_cpu_rate L total mhz))

  -- With a memory limit above 0 and under 2 ^ 44 MB and a CPU limit above 0 and under 2 ^ 64 MHz, the
  -- child is let run exactly when `Start` succeeds, and at that moment the job's limits in force are the
  -- promised ones: it dies with the supervisor, and the memory and CPU limits are there exactly if they
  -- are to be enforced.
  pub start-promise :
      (mb mhz : ℕ)
      → cfg.memory_mb_limit ≡ pos mb
      → 0 < mb
      → mb < 2 ^ 44
      → cfg.cpu_mhz_limit ≡ pos mhz
      → 0 < mhz
      → mhz < 2 ^ 64
      → at_resume no_limits (start L total job has_stats cfg a).0 ≡ (
          if is_none (start L total job has_stats cfg a).1
          then some (promise L total cfg mb mhz)
          else none)
  start-promise mb mhz m m0 m1 z z0 z1 = elim (Option-cases (start L total job has_stats cfg a).1) [
    | inl e ↦
        let (o, g, _, _, c) = start-calls L total job has_stats cfg a e in
        rw (c, e) (resumed mb mhz m m0 m1 z z0 z1 o g)
    | inr (x, e) ↦ rw e (
        at_resume-none (start L total job has_stats cfg a).0 no_limits
          (ground (arith, start-resume L total job has_stats cfg a)))
  ]
