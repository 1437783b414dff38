-- ===== src/Container/Start/Laws.antt =====
-- What every run of `Start` keeps (container/container.go).
use damon.Prelude.{
  ℕ, ◌+◌, ◌≡◌, ◌≢◌, ◌↔◌, ◌⊎◌, refl, Bool, true, false, ◌||◌, none, some, List, [], ◌∷◌, ◌++◌, arith,
  ◌==◌, if◌then◌else◌, Result, ok, err,
}
use damon.Config.{Config}
use damon.Config.Laws.{IsUsable}
use damon.Job.Limits.{extended_info}
use damon.Job.Notify.{notification_info}
use damon.Job.CpuRate.{Float, cpu_rate_payload}
use damon.Job.Kernel.{extended, notification, Handle}
use damon.Container.Start.{
  Call, create_job, open_token, restrict_token, close_token, start_suspended, assign, set_limit,
  kill, resume, poll_stats, poll_notifications, Answers, cpu_limit_too_low, start, extended_limits,
  notification_limits, cpu_rate_limits,
}

abbrev pub any_call : (Call → Bool) → List Call → Bool
any_call p [] = false
any_call p (c ∷ cs) = p c || any_call p cs

abbrev pub is_resume : Call → Bool
is_resume resume = true
is_resume _ = false

abbrev pub is_kill : Call → Bool
is_kill kill = true
is_kill _ = false

abbrev pub is_start : Call → Bool
is_start (start_suspended t) = true
is_start _ = false

abbrev one_if : Bool → ℕ
one_if true = 1
one_if false = 0

-- How often a token is opened, and closed.
abbrev pub opens : ℕ → List Call → ℕ
opens x [] = 0
opens x (open_token t ∷ cs) = one_if (t == x) + opens x cs
opens x (restrict_token t ∷ cs) = one_if (t == x) + opens x cs
opens x (_ ∷ cs) = opens x cs

abbrev pub closes : ℕ → List Call → ℕ
closes x [] = 0
closes x (close_token t ∷ cs) = one_if (t == x) + closes x cs
closes x (_ ∷ cs) = closes x cs

module _ (L : Float) (total : L.F) (job : Handle) (has_stats : Bool) (cfg : Config)
    (a : Answers) where
  -- Every token that is opened, the restricted one too, is closed as often as it was opened, on every
  -- path through `Start`.
  pub start-closes_tokens :
      (x : ℕ)
      → opens x (start L total job has_stats cfg a).0
        ≡ closes x (start L total job has_stats cfg a).0
  unfolding start
  start-closes_tokens x = ground arith

  -- The child is resumed exactly when `Start` succeeds.
  pub start-resume :
      (any_call is_resume (start L total job has_stats cfg a).0 ≡ true)
      ↔ ((start L total job has_stats cfg a).1 ≡ none)
  unfolding start
  start-resume = ground arith

  -- A child that was started is killed on every failure but one: when the CPU limit that is to be
  -- enforced lies under the minimum, the suspended child is left behind.
  pub start-kill :
      any_call is_start (start L total job has_stats cfg a).0 ≡ true
      → (any_call is_kill (start L total job has_stats cfg a).0 ≡ false) ↔ (
          ((start L total job has_stats cfg a).1 ≡ none)
          ⊎ ((start L total job has_stats cfg a).1 ≡ some cpu_limit_too_low))
  unfolding start
  start-kill h = ground arith

  -- With a usable configuration, a child that was started is killed on every failure.
  pub start-kill_of_IsUsable :
      IsUsable cfg
      → any_call is_start (start L total job has_stats cfg a).0 ≡ true
      → (start L total job has_stats cfg a).1 ≢ none
      → any_call is_kill (start L total job has_stats cfg a).0 ≡ true
  unfolding start
  start-kill_of_IsUsable u h f = ground (arith, u.cpu_at_least)

  start-token : (start L total job has_stats cfg a).1 ≡ none → (o : ℕ) × (a.current_token ≡ ok o)
  unfolding start
  start-token h = token_of a.current_token refl
    where
      token_of : (r : Result ℕ ℕ) → a.current_token ≡ r → (o : ℕ) × (a.current_token ≡ ok o)
      token_of (ok o) e = (o, e)
      token_of (err x) e = absurd (ground arith)

  -- The calls of a successful start, from the token that is opened and the one that the child gets.
  abbrev pub successful_calls : ℕ → ℕ → List Call
  successful_calls opened given =
      create_job
        ∷ open_token opened
        ∷ (if cfg.restricted_token then restrict_token given ∷ close_token opened ∷ [] else [])
      ++ (start_suspended given
          ∷ assign
          ∷ set_limit (extended (extended_info (extended_limits L total job has_stats cfg a)))
          ∷ ((if cfg.enforce_cpu
                then set_limit (
                    notification
                      (notification_info (notification_limits L total job has_stats cfg a)))
                  ∷ set_limit (cpu_rate_payload (cpu_rate_limits L total job has_stats cfg a))
                  ∷ []
                else [])
              ++ (resume
                  ∷ ((if has_stats
                        then poll_stats ∷ poll_notifications ∷ []
                        else poll_notifications ∷ [])
                      ++ (close_token given ∷ [])))))

  start-calls_of :
      (opened : ℕ) (r : Result ℕ ℕ)
      → a.current_token ≡ ok opened
      → a.restricted opened ≡ r
      → (start L total job has_stats cfg a).1 ≡ none
      → (given : ℕ) × ((if cfg.restricted_token then r else ok opened) ≡ ok given)
        × ((start L total job has_stats cfg a).0 ≡ successful_calls opened given)
  unfolding start
  start-calls_of opened (ok g) ho hr h =
      (if cfg.restricted_token then g else opened, ground arith, ground arith)
  start-calls_of opened (err e) ho hr h = (opened, ground arith, ground arith)

  -- A start that succeeds makes exactly these calls in this order: the child is started suspended, with
  -- the restricted token exactly if the configuration asks for one, is put into the job, has the
  -- job's limits in force (the CPU limits exactly if they are to be enforced), and only then is resumed.
  pub start-calls :
      (start L total job has_stats cfg a).1 ≡ none
      → (opened : ℕ) × (given : ℕ) × (a.current_token ≡ ok opened)
        × ((if cfg.restricted_token then a.restricted opened else ok opened) ≡ ok given)
        × ((start L total job has_stats cfg a).0 ≡ successful_calls opened given)
  start-calls h =
      let (o, e) = start-token h in
      let (g, r, c) = start-calls_of o (a.restricted o) e refl h in (o, g, e, r, c)
