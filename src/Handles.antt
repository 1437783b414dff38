-- ===== src/Handles.antt =====
-- The handles that an operation opens, uses and closes, and Go's `defer` of a close.
use damon.Prelude.{
  ℕ, ◌≡◌, inl, inr, Option-cases, refl, ◌∙◌, Bool, true, false, Option, none, some, List, [], ◌∷◌,
  ◌++◌, arith, ◌==◌, if◌then◌else◌, Result, ok, err,
}

-- What happens to handles, in order. A handle is used by a call that is given it.
pub data HandleEvent : Type 0 where
  opened closed used : ℕ → HandleEvent

-- An operation: what happens to handles, and what it returns.
abbrev pub Traced {ℓ κ} : Type ℓ → Type κ → Type (ℓ ⊔ κ)
Traced E A = List HandleEvent × Result E A

-- The open handles without one of them; `none` if it is not open.
unfoldable pub remove : ℕ → List ℕ → Option (List ℕ)
remove h [] = none
remove h (x ∷ xs) =
    let rest = remove h xs in
    if x == h then some xs else (elim rest [ none ↦ none | some ys ↦ some (x ∷ ys) ])

unfoldable pub is_open : ℕ → List ℕ → Bool
is_open h [] = false
is_open h (x ∷ xs) = if x == h then true else is_open h xs

-- The handles that are open after the events; `none` if a handle is closed or used that is not open.
unfoldable pub scan : List ℕ → List HandleEvent → Option (List ℕ)
unfolding remove is_open
scan live [] = some live
scan live (opened h ∷ es) = scan (h ∷ live) es
scan live (closed h ∷ es) = elim (remove h live) [ none ↦ none | some rest ↦ scan rest es ]
scan live (used h ∷ es) = if is_open h live then scan live es else none

-- `h, err := open(); if err != nil { return err }; defer close(h); body`
unfoldable pub with_handle {ℓ κ} :
    {E : Type ℓ} {A : Type κ} → Result E ℕ → (ℕ → Traced E A) → Traced E A
with_handle (err e) body = ([], err e)
with_handle (ok h) body = (opened h ∷ ((body h).0 ++ (closed h ∷ [])), (body h).1)

-- The handles that the caller holds after an operation that returns one.
abbrev pub held {ℓ} : {E : Type ℓ} → List ℕ → Result E ℕ → List ℕ
held live (ok h) = h ∷ live
held live (err e) = live

pub scan-append :
    (xs ys : List HandleEvent) (live : List ℕ) (left : List ℕ)
    → scan live xs ≡ some left
    → scan live (xs ++ ys) ≡ scan left ys
unfolding scan
scan-append [] ys live left h = ground arith
scan-append (opened x ∷ xs) ys live left h = scan-append xs ys (x ∷ live) left h
scan-append (closed x ∷ xs) ys live left h = elim (Option-cases (remove x live)) [
  | inl e ↦ absurd (ground arith)
  | inr (rest, e) ↦ ground (arith, e, scan-append xs ys rest left)
]
scan-append (used x ∷ xs) ys live left h = ground (arith, scan-append xs ys live left)

-- A body that leaves the open handles as they are, its own among them, is one whose handle is closed
-- again at its end.
pub scan-with_handle {ℓ κ} :
    {E : Type ℓ} {A : Type κ} (r : Result E ℕ) (body : ℕ → Traced E A) (live : List ℕ)
    → ((h : ℕ) → scan (h ∷ live) (body h).0 ≡ some (h ∷ live))
    → scan live (with_handle r body).0 ≡ some live
unfolding scan with_handle
scan-with_handle (err e) body live f = refl
scan-with_handle (ok h) body live f =
    scan-append (body h).0 (closed h ∷ []) (h ∷ live) (h ∷ live) (f h) ∙ ground arith

remove-held {ℓ} :
    {E : Type ℓ} (h : ℕ) (live : List ℕ) (r : Result E ℕ)
    → remove h (held (h ∷ live) r) ≡ some (held live r)
unfolding remove
remove-held h live (ok t) = ground arith
remove-held h live (err e) = ground arith

-- A body that returns a handle besides: its own is closed, and the one that it returns stays open.
pub scan-with_handle-held {ℓ} :
    {E : Type ℓ} (r : Result E ℕ) (body : ℕ → Traced E ℕ) (live : List ℕ)
    → ((h : ℕ) → scan (h ∷ live) (body h).0 ≡ some (held (h ∷ live) (body h).1))
    → scan live (with_handle r body).0 ≡ some (held live (with_handle r body).1)
unfolding scan with_handle
scan-with_handle-held (err e) body live f = refl
scan-with_handle-held (ok h) body live f =
    scan-append (body h).0 (closed h ∷ []) (h ∷ live) _ (f h)
    ∙ rw (scan, remove-held h live (body h).1) refl
