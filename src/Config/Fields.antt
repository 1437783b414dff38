-- ===== src/Config/Fields.antt =====
-- `NomadLogFields` of config.go: the fields that every log entry of the supervisor carries.
use mathlib.Core.List.{Memᴰ, Permᴰ}
use mathlib.Core.List.Memᴰ
use mathlib.Core.List.Permᴰ
use damon.Prelude.{
  ◌≡◌, ◌↔◌, ◌⊎◌, inl, inr, refl, sym, ap, ◌∙◌, String, ◌=s◌, eq_iff, true, false, Option, none,
  some, List, [], ◌∷◌, All, arith, Bool-cases, if◌then◌else◌,
}
use damon.Host.{Host, is_set}

-- `nomadEnvToFields`, a variable and the field for it.
abbrev pub nomad_env_to_fields : List (String × String)
nomad_env_to_fields =
    ("NOMAD_DC", "nomad_dc")
    ∷ ("NOMAD_REGION", "nomad_region")
    ∷ ("NOMAD_JOB_NAME", "nomad_job_name")
    ∷ ("NOMAD_GROUP_NAME", "nomad_group_name")
    ∷ ("NOMAD_TASK_NAME", "nomad_task_name")
    ∷ ("NOMAD_ALLOC_ID", "nomad_alloc_id")
    ∷ ("NOMAD_ALLOC_INDEX", "nomad_alloc_index")
    ∷ []

-- A map of fields, by what it gives for a key.
abbrev pub Fields : Type 0
Fields = String → Option String

abbrev no_fields : Fields
no_fields = λ k. none

abbrev put : String → String → Fields → Fields
put k v m = λ j. if j =s k then some v else m j

-- `nomadFieldsOnce` with `nomadFields`: none until the first call.
abbrev pub Once : Type 0
Once = Option Fields

module _ (P : Host) where
  open P use {getenv}

  abbrev entered : String → String → Fields → Fields
  entered env field m = if is_set (getenv env) then put field (getenv env) m else m

  -- The loop over the map, in the order in which its pairs come.
  unfoldable pub fill : List (String × String) → Fields → Fields
  fill [] m = m
  fill ((env, field) ∷ pairs) m = fill pairs (entered env field m)

  -- A call of `NomadLogFields`, with the order that the range over the map takes in it.
  unfoldable pub nomad_log_fields : List (String × String) → Once → Once × Fields
  unfolding fill
  nomad_log_fields order none = (some (fill order no_fields), fill order no_fields)
  nomad_log_fields order (some fields) = (some fields, fields)

  abbrev Given : List (String × String) → String → String → Type 0
  Given pairs j v = (e : String) × Memᴰ (e, j) pairs × (is_set (getenv e) ≡ true) × (v ≡ getenv e)

  entered-Given :
      (e f : String) (m : Fields) (j v : String)
      → entered e f m j ≡ some v
      → ((is_set (getenv e) ≡ true) × (j ≡ f) × (v ≡ getenv e)) ⊎ (m j ≡ some v)
  entered-Given e f m j v h = elim (Bool-cases (is_set (getenv e))) [
    | inr s ↦ inr (ground arith)
    | inl s ↦ (elim (Bool-cases (j =s f)) [
      | inl k ↦ inl (s, (eq_iff j f).0 k, ground arith)
      | inr n ↦ inr (ground arith)
    ])
  ]

  fill-Given :
      (pairs : List (String × String)) (m : Fields) (j v : String)
      → fill pairs m j ≡ some v
      → Given pairs j v ⊎ (m j ≡ some v)
  unfolding fill
  fill-Given [] m j v h = inr h
  fill-Given ((e, f) ∷ pairs) m j v h = elim (fill-Given pairs (entered e f m) j v h) [
    | inl (x, d, s, q) ↦ inl (x, Memᴰ.tail d, s, q)
    | inr q ↦ (elim (entered-Given e f m j v q) [
      | inl (s, k, w) ↦ inl (e, Memᴰ.head (λ i. (e, k i)), s, w)
      | inr w ↦ inr w
    ])
  ]

  entered-set :
      (e x f j : String) (m : Fields)
      → is_set (getenv e) ≡ true
      → (j ≡ f → x ≡ e)
      → (◌≡◌ {A = String × String} (e, j) (x, f)) ⊎ (m j ≡ some (getenv e))
      → entered x f m j ≡ some (getenv e)
  entered-set e x f j m s u h = elim (Bool-cases (j =s f)) [
    | inl k ↦ (let q = u ((eq_iff j f).0 k) in rw q (ground arith))
    | inr n ↦ (elim h [
      | inl q ↦ absurd (ground (arith, (eq_iff j f).1 (ap (λ (p : String × String). p.1) q)))
      | inr q ↦ ground arith
    ])
  ]

  fill-set :
      (pairs : List (String × String)) (m : Fields) (j e : String)
      → ((x : String) → Memᴰ (x, j) pairs → x ≡ e)
      → is_set (getenv e) ≡ true
      → Memᴰ (e, j) pairs ⊎ (m j ≡ some (getenv e))
      → fill pairs m j ≡ some (getenv e)
  unfolding fill
  fill-set [] m j e u s (inl d) = absurd (Memᴰ.not-nil d)
  fill-set [] m j e u s (inr q) = q
  fill-set ((x, f) ∷ pairs) m j e u s (inl (Memᴰ.tail d)) =
      fill-set pairs (entered x f m) j e (λ y c. u y (Memᴰ.tail c)) s (inl d)
  fill-set ((x, f) ∷ pairs) m j e u s (inl (Memᴰ.head q)) =
      fill-set pairs (entered x f m) j e (λ y c. u y (Memᴰ.tail c)) s
        (inr (entered-set e x f j m s (λ k. u x (Memᴰ.head (λ i. (x, k i)))) (inl q)))
  fill-set ((x, f) ∷ pairs) m j e u s (inr q) =
      fill-set pairs (entered x f m) j e (λ y c. u y (Memᴰ.tail c)) s
        (inr (entered-set e x f j m s (λ k. u x (Memᴰ.head (λ i. (x, k i)))) (inr q)))

-- A pair of one order is a pair of every other.
Mem-Perm : {A : Type 0} {a : A} {xs ys : List A} → Permᴰ xs ys → Memᴰ a xs → Memᴰ a ys
Mem-Perm Permᴰ.nil d = d
Mem-Perm (Permᴰ.cons e p) (Memᴰ.head q) = Memᴰ.head (q ∙ e)
Mem-Perm (Permᴰ.cons e p) (Memᴰ.tail d) = Memᴰ.tail (Mem-Perm p d)
Mem-Perm (Permᴰ.swap e q) (Memᴰ.head r) = Memᴰ.tail (Memᴰ.head (r ∙ e))
Mem-Perm (Permᴰ.swap e q) (Memᴰ.tail (Memᴰ.head r)) = Memᴰ.head (r ∙ q)
Mem-Perm (Permᴰ.swap e q) (Memᴰ.tail (Memᴰ.tail d)) = Memᴰ.tail (Memᴰ.tail d)
Mem-Perm (Permᴰ.trans p q) d = Mem-Perm q (Mem-Perm p d)

-- No field stands for two variables.
abbrev Differs : String → List (String × String) → Type 0
Differs f pairs = All (λ (p : String × String). (f =s p.1) ≡ false) pairs

abbrev Distinct : List (String × String) → Type 0
Distinct [] = Unit
Distinct ((e, f) ∷ pairs) = Differs f pairs × Distinct pairs

Differs-Mem :
    (f x : String) (pairs : List (String × String)) → Differs f pairs → Memᴰ (x, f) pairs → ⊥
Differs-Mem f x [] h d = Memᴰ.not-nil d
Differs-Mem f x (p ∷ pairs) (n, h) (Memᴰ.head q) =
    ground (arith, (eq_iff f p.1).1 (ap (λ (r : String × String). r.1) q))
Differs-Mem f x (p ∷ pairs) (n, h) (Memᴰ.tail d) = Differs-Mem f x pairs h d

one_variable :
    (pairs : List (String × String)) (e x f : String)
    → Distinct pairs
    → Memᴰ (x, f) pairs
    → Memᴰ (e, f) pairs
    → x ≡ e
one_variable [] e x f h c d = absurd (Memᴰ.not-nil c)
one_variable ((y, g) ∷ pairs) e x f h (Memᴰ.head q) (Memᴰ.head r) =
    ap (λ (p : String × String). p.0) (q ∙ sym r)
one_variable ((y, g) ∷ pairs) e x f (n, h) (Memᴰ.head q) (Memᴰ.tail d) =
    absurd (
      Differs-Mem g e pairs n (Memᴰ.cast (λ i. (e, sym (ap (λ (p : String × String). p.1) q) i)) d))
one_variable ((y, g) ∷ pairs) e x f (n, h) (Memᴰ.tail d) (Memᴰ.head q) =
    absurd (
      Differs-Mem g x pairs n (Memᴰ.cast (λ i. (x, sym (ap (λ (p : String × String). p.1) q) i)) d))
one_variable ((y, g) ∷ pairs) e x f (n, h) (Memᴰ.tail c) (Memᴰ.tail d) =
    one_variable pairs e x f h c d

nomad-Distinct : Distinct nomad_env_to_fields
nomad-Distinct = (
  (refl, (refl, (refl, (refl, (refl, (refl, tt)))))),
  (
    (refl, (refl, (refl, (refl, (refl, tt))))),
    (
      (refl, (refl, (refl, (refl, tt)))),
      ((refl, (refl, (refl, tt))), ((refl, (refl, tt)), ((refl, tt), (tt, tt)))),
    ),
  ),
)

-- Whatever the order in which the range takes the pairs, the first call gives a field exactly the
-- value of its variable if that is set and not empty, and no other field at all; later calls, whatever
-- their order and environment, give what the first gave.
pub nomad_log_fields-order :
    (P Q : Host) (order later : List (String × String)) (j v : String)
    → Permᴰ order nomad_env_to_fields
    → let first = nomad_log_fields P order none in
      ((first.1 j ≡ some v) ↔ (
        (e : String) × Memᴰ (e, j) nomad_env_to_fields
        × (is_set (P.getenv e) ≡ true)
        × (v ≡ P.getenv e)))
      × ((nomad_log_fields Q later first.0).1 ≡ first.1)
unfolding nomad_log_fields
nomad_log_fields-order P Q order later j v p = (
  (
    λ h. elim (fill-Given P order no_fields j v h) [
      | inl (e, d, s, q) ↦ (e, Mem-Perm p d, s, q)
      | inr q ↦ absurd (ground arith)
    ],
    λ (e, d, s, q).
        fill-set P order no_fields j e
          (λ x c. one_variable nomad_env_to_fields e x j nomad-Distinct (Mem-Perm p c) d) s
          (inl (Mem-Perm (Permᴰ.symm p) d))
        ∙ ap some (sym q),
  ),
  refl,
)
