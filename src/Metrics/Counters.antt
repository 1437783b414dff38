-- ===== src/Metrics/Counters.antt =====
-- The violation counters of metrics/metrics.go.
pub mod Laws
pub mod Refinement
pub mod Served
use damon.Prelude.{ℕ, suc, List, [], ◌∷◌}
use damon.Container.Notifications.{Violation, ViolationType, cpu, memory, io}

pub record Counters : Type 0 where
  pub cpu_notification : ℕ
  pub memory_notification : ℕ
  pub io_notification : ℕ

inc : ViolationType → Counters → Counters
inc io c = record c { io_notification = suc c.io_notification }
inc cpu c = record c { cpu_notification = suc c.cpu_notification }
inc memory c = record c { memory_notification = suc c.memory_notification }

unfoldable pub on_violation : Counters → Violation → Counters
unfolding inc
on_violation c v = inc v.kind c

-- The callback of `main`, over all that the container hands it.
unfoldable pub on_violations : Counters → List Violation → Counters
unfolding on_violation
on_violations c [] = c
on_violations c (v ∷ vs) = on_violations (on_violation c v) vs
