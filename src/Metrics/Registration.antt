-- ===== src/Metrics/Registration.antt =====
-- `Init` of metrics/metrics.go: the gauges and counters that are made, in order, and their registration.
-- `MustRegister` panics at a name that the registry has or that the library refuses; the help texts are left
-- out.
pub mod Laws
use mathlib.Core.List.{map}
use text.Mathlib.TextLemmas.{append_cancel_left}
use damon.Prelude.{
  ◌≡◌, refl, ap, ◌∙◌, String, ◌<>◌, ◌=s◌, eq_iff, Bool, true, ◌&&◌, not, List, [], ◌∷◌, ◌++◌, arith,
  if◌then◌else◌,
}
use damon.Host.{is_set}
use damon.Process.{Outcome, done, panic}

pub data Kind : Type 0 where
  gauge counter : Kind

pub record Opts : Type 0 where
  pub kind : Kind
  pub subsystem : String
  pub name : String

abbrev gauge_of : String → String → Opts
gauge_of s n = record { kind = gauge; subsystem = s; name = n }

abbrev notifications_of : String → Opts
notifications_of s = record { kind = counter; subsystem = s; name = "notifications_total" }

unfoldable pub cpu_opts : List Opts
cpu_opts =
    gauge_of "cpu" "kernel_seconds"
    ∷ gauge_of "cpu" "user_seconds"
    ∷ gauge_of "cpu" "kernel_percent"
    ∷ gauge_of "cpu" "user_percent"
    ∷ gauge_of "cpu" "kernel_hz"
    ∷ gauge_of "cpu" "user_hz"
    ∷ gauge_of "cpu" "limit_hz"
    ∷ gauge_of "cpu" "limit_percent"
    ∷ notifications_of "cpu"
    ∷ []

unfoldable pub memory_opts : List Opts
memory_opts =
    gauge_of "memory" "working_set_bytes"
    ∷ gauge_of "memory" "commit_charge_bytes"
    ∷ gauge_of "memory" "page_fault_total"
    ∷ gauge_of "memory" "limit_bytes"
    ∷ notifications_of "memory"
    ∷ []

unfoldable pub io_opts : List Opts
io_opts =
    gauge_of "io" "read_operations_total"
    ∷ gauge_of "io" "write_operations_total"
    ∷ gauge_of "io" "other_operations_total"
    ∷ gauge_of "io" "operations_total"
    ∷ gauge_of "io" "read_bytes"
    ∷ gauge_of "io" "write_bytes"
    ∷ gauge_of "io" "other_bytes"
    ∷ gauge_of "io" "total_bytes"
    ∷ notifications_of "io"
    ∷ []

unfoldable pub all_opts : List Opts
unfolding cpu_opts memory_opts io_opts
all_opts = cpu_opts ++ (memory_opts ++ io_opts)

abbrev pub fresh : String → List String → Bool
fresh s [] = true
fresh s (t ∷ ts) = not (s =s t) && fresh s ts

-- `build` is `prometheus.BuildFQName`; a registry is the names that it has. `valid` is the library's test of
-- a metric's name, and `labels_valid` whether it takes the names of the labels, which are the same for all.
module _ (build : String → String → String → String) (valid : String → Bool) (labels_valid : Bool)
    (namespace : String) where
  abbrev pub full_name : Opts → String
  full_name o = build namespace o.subsystem o.name

  -- `MustRegister` of a new metric: it panics at what `Register` refuses.
  unfoldable pub must_register : Opts → List String → Outcome (List String)
  must_register o registry =
      if labels_valid && (valid (full_name o) && fresh (full_name o) registry)
      then done (full_name o ∷ registry)
      else panic

  then_register :
      (List String → Outcome (List String)) → Outcome (List String) → Outcome (List String)
  then_register rest panic = panic
  then_register rest (done registry) = rest registry

  unfoldable pub register_all : List Opts → List String → Outcome (List String)
  unfolding must_register then_register
  register_all [] registry = done registry
  register_all (o ∷ os) registry = then_register (register_all os) (must_register o registry)

  unfoldable pub init : Outcome (List String)
  unfolding register_all all_opts
  init = register_all all_opts []
