-- ===== src/Container/Start/InForce.antt =====
-- The limits that a job has in force, from the structures that it was given, and what a configuration
-- promises (container/container.go, win32/job_object_info.go).
use damon.Prelude.{
  ℕ, ◌*◌, ◌≡◌, refl, Bool, true, false, Option, none, some, List, [], ◌∷◌, ◌++◌, arith,
  if◌then◌else◌,
}
use damon.Prelude.Words.{has_flag}
use damon.Config.{Config}
use damon.Job.Flags.{
  limit_kill_on_job_close, limit_job_memory, limit_rate_control, cpu_rate_enable, cpu_rate_hard_cap,
}
use damon.Job.CpuRate.{Float, mhz_to_cpu_rate}
use damon.Job.Kernel.{Payload, extended, notification, cpu_rate}
use damon.Container.Start.{
  Call, set_limit, resume, create_job, open_token, restrict_token, close_token, start_suspended,
  assign, poll_stats, poll_notifications,
}
use damon.Container.Start.Laws.{any_call, is_resume}

-- The limits of a job, as its structures ask for them.
pub record Limits : Type 0 where
  pub kill_on_close : Bool
  pub memory : Option ℕ  -- bytes, of the whole job
  pub cpu : Option ℕ  -- a rate of the machine in ten thousandths
  pub hard_cap : Bool
  pub cpu_notified : Bool

abbrev pub no_limits : Limits
no_limits = record {
  kill_on_close = false;
  memory = none;
  cpu = none;
  hard_cap = false;
  cpu_notified = false;
}

-- A structure replaces what the last one of its class asked for.
abbrev pub apply : Payload → Limits → Limits
apply (extended e) l = record l {
  kill_on_close = has_flag e.basic_info.limit_flags limit_kill_on_job_close;
  memory = if has_flag e.basic_info.limit_flags limit_job_memory then some e.job_memory else none;
}
apply (cpu_rate size i) l = record l {
  cpu = if has_flag i.control_flags cpu_rate_enable then some i.rate else none;
  hard_cap = has_flag i.control_flags cpu_rate_hard_cap;
}
apply (notification n) l = record l { cpu_notified = has_flag n.limit_flags limit_rate_control }
apply _ l = l

-- The limits in force at the moment when the child is let run, if it is.
abbrev pub at_resume : Limits → List Call → Option Limits
at_resume l [] = none
at_resume l (set_limit p ∷ cs) = at_resume (apply p l) cs
at_resume l (resume ∷ cs) = some l
at_resume l (_ ∷ cs) = at_resume l cs

abbrev pub is_none {ℓ} : {A : Type ℓ} → Option A → Bool
is_none none = true
is_none (some a) = false

-- What the configuration promises.
abbrev pub promise : (L : Float) → L.F → Config → ℕ → ℕ → Limits
promise L total cfg mb mhz = record {
  kill_on_close = true;
  memory = if cfg.enforce_memory then some (mb * 1048576) else none;
  cpu = if cfg.enforce_cpu then some (mhz_to_cpu_rate L total mhz) else none;
  hard_cap = cfg.enforce_cpu;
  cpu_notified = cfg.enforce_cpu;
}

pub at_resume-none :
    (cs : List Call) (l : Limits) → any_call is_resume cs ≡ false → at_resume l cs ≡ none
at_resume-none [] l h = refl
at_resume-none (set_limit p ∷ cs) l h = at_resume-none cs (apply p l) h
at_resume-none (c ∷ cs) l h = ground (arith, at_resume-none cs l)

pub at_resume-calls :
    (restricted enforced polled : Bool) (opened given : ℕ) (x y z : Payload) (l : Limits)
    → at_resume l (
        create_job
          ∷ open_token opened
          ∷ (if restricted then restrict_token given ∷ close_token opened ∷ [] else [])
        ++ (start_suspended given
            ∷ assign
            ∷ set_limit x
            ∷ ((if enforced then set_limit y ∷ set_limit z ∷ [] else [])
                ++ (resume
                    ∷ ((if polled
                          then poll_stats ∷ poll_notifications ∷ []
                          else poll_notifications ∷ [])
                        ++ (close_token given ∷ []))))))
      ≡ some (if enforced then apply z (apply y (apply x l)) else apply x l)
at_resume-calls true true b o g x y z l = refl
at_resume-calls true false b o g x y z l = refl
at_resume-calls false true b o g x y z l = refl
at_resume-calls false false b o g x y z l = refl

pub memory_of :
    (b : Bool) (n : ℕ)
    → (if b then some (if b then n else 0) else none) ≡ (if b then some n else none)
memory_of true n = refl
memory_of false n = refl
