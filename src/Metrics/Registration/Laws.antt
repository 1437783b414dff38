-- ===== src/Metrics/Registration/Laws.antt =====
-- When `Init` of metrics/metrics.go panics, and what is registered where it does not.
use mathlib.Core.List.{map}
use text.Mathlib.TextLemmas.{append_cancel_left}
use damon.Prelude.{
  ◌≡◌, refl, ap, false, ◌∙◌, String, ◌<>◌, eq_iff, Bool, true, ◌&&◌, List, [], ◌∷◌, arith,
  if◌then◌else◌,
}
use damon.Host.{is_set}
use damon.Process.{done, panic}
use damon.Metrics.Registration.{
  Opts, all_opts, fresh, full_name, must_register, then_register, register_all, init,
}

-- The name of a metric behind the namespace, and in front of it what the namespace adds.
abbrev pub key : Opts → String
key o = o.subsystem <> ("_" <> o.name)

abbrev pub prefix : String → String
prefix namespace = if is_set namespace then namespace <> "_" else ""

abbrev pub prefixed : String → Opts → String
prefixed namespace o = prefix namespace <> key o

abbrev named : Opts → Bool
named o = is_set o.subsystem && is_set o.name

abbrev distinct : List Opts → List Opts → Bool
distinct known [] = true
distinct known (o ∷ os) = named o && (fresh (key o) (map key known) && distinct (o ∷ known) os)

distinct_names : distinct [] all_opts ≡ true
unfolding all_opts
distinct_names = refl

abbrev pub reverse_onto : List Opts → List Opts → List Opts
reverse_onto known [] = known
reverse_onto known (o ∷ os) = reverse_onto (o ∷ known) os

-- Every metric is one that the library takes.
abbrev pub all_valid : (String → Bool) → Bool → String → List Opts → Bool
all_valid valid labels_valid namespace [] = true
all_valid valid labels_valid namespace (o ∷ os) =
    (labels_valid && valid (prefixed namespace o)) && all_valid valid labels_valid namespace os

fresh-prefixed :
    (namespace : String) (o : Opts) (known : List Opts)
    → fresh (key o) (map key known) ≡ true
    → fresh (prefixed namespace o) (map (prefixed namespace) known) ≡ true
fresh-prefixed namespace o [] h = refl
fresh-prefixed namespace o (k ∷ known) h = ground (
  arith,
  eq_iff (key o) (key k),
  eq_iff (prefixed namespace o) (prefixed namespace k),
  append_cancel_left (prefix namespace) (key o) (key k),
  fresh-prefixed namespace o known,
)

-- What the documentation of `BuildFQName` says of a subsystem and a name that are not empty.
abbrev pub Joins : (String → String → String → String) → String → Type 0
Joins build namespace =
    (s n : String)
    → is_set s ≡ true
    → is_set n ≡ true
    → build namespace s n ≡ prefix namespace <> (s <> ("_" <> n))

module _ (build : String → String → String → String) (valid : String → Bool) (labels_valid : Bool)
    (namespace : String) (joins : Joins build namespace) where
  must_register-fresh :
      (o : Opts) (known : List Opts)
      → named o ≡ true
      → fresh (key o) (map key known) ≡ true
      → must_register build valid labels_valid namespace o (map (prefixed namespace) known) ≡ (
          if labels_valid && valid (prefixed namespace o)
          then done (map (prefixed namespace) (o ∷ known))
          else panic)
  unfolding must_register
  must_register-fresh o known n f =
      let registry = map (prefixed namespace) known in
      let q : full_name build valid labels_valid namespace o ≡ prefixed namespace o =
        joins o.subsystem o.name (ground arith) (ground arith) in
      ap
        (λ (t : String).
          if labels_valid && (valid t && fresh t registry) then done (t ∷ registry) else panic)
        q
      ∙ ground (arith, fresh-prefixed namespace o known f)

  then_register-if :
      (os : List Opts) (c d : Bool) (registry all : List String)
      → register_all build valid labels_valid namespace os registry
        ≡ (if d then done all else panic)
      → then_register build valid labels_valid namespace
          (register_all build valid labels_valid namespace os)
          (if c then done registry else panic)
        ≡ (if c && d then done all else panic)
  unfolding then_register
  then_register-if os true d registry all h = h
  then_register-if os false d registry all h = refl

  register_all-distinct :
      (known os : List Opts)
      → distinct known os ≡ true
      → register_all build valid labels_valid namespace os (map (prefixed namespace) known) ≡ (
          if all_valid valid labels_valid namespace os
          then done (map (prefixed namespace) (reverse_onto known os))
          else panic)
  unfolding register_all
  register_all-distinct known [] h = refl
  register_all-distinct known (o ∷ os) h =
      ap
        (then_register build valid labels_valid namespace
          (register_all build valid labels_valid namespace os))
        (must_register-fresh o known (ground arith) (ground arith))
      ∙ then_register-if os (labels_valid && valid (prefixed namespace o))
          (all_valid valid labels_valid namespace os) (map (prefixed namespace) (o ∷ known))
          (map (prefixed namespace) (reverse_onto (o ∷ known) os))
          (register_all-distinct (o ∷ known) os (ground arith))

  -- If `BuildFQName` joins what is not empty by underscores, `Init` panics in no namespace for a name that
  -- is there already: all its metrics get registered, the last one in front, where the library takes the
  -- names of all of them and of their labels, and otherwise it panics.
  pub init-valid : init build valid labels_valid namespace ≡ (
      if all_valid valid labels_valid namespace all_opts
      then done (map (prefixed namespace) (reverse_onto [] all_opts))
      else panic)
  unfolding init
  init-valid = register_all-distinct [] all_opts distinct_names
