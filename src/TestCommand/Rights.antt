-- ===== src/TestCommand/Rights.antt =====
-- `addTestUserRights` of testcmd/user.go.
use damon.Prelude.{
  ℕ, suc, length, ◌*◌, ◌%◌, ◌^◌, ◌+◌, ◌≡◌, ◌↔◌, refl, ap, All, ==_iff, Bool-cases, inl, inr, Bool,
  true, false, ◌||◌, Option, some, List, [], ◌∷◌, arith, ◌==◌, ◌&&◌, if◌then◌else◌, Result, ok, err,
}
use damon.Process.{Outcome, done, panic}
use damon.Lsa.{LsaString, to_lsa_strings, lsa_add_account_rights}

-- A text by its units.
abbrev pub eq_text : List ℕ → List ℕ → Bool
eq_text [] [] = true
eq_text [] (b ∷ bs) = false
eq_text (a ∷ s) [] = false
eq_text (a ∷ s) (b ∷ bs) = a == b && eq_text s bs

abbrev pub has : List ℕ → List (List ℕ) → Bool
has r [] = false
has r (s ∷ ss) = eq_text r s || has r ss

-- `addPrivs`, with the keys of `privMap`.
unfoldable pub missing : List (List ℕ) → List (List ℕ) → List (List ℕ)
missing present [] = []
missing present (r ∷ rights) =
    let known = missing present rights in
    let added = missing (r ∷ present) rights in if has r present then known else r ∷ added

-- The answers of `LookupAccountSID` and `EnumerateAccountRights`, and `AddAccountRights`; an error by
-- its number.
unfoldable pub add_test_user_rights :
    Result ℕ ℕ
    → (ℕ → Result ℕ (List (List ℕ)))
    → (ℕ → List (List ℕ) → Outcome (Option ℕ))
    → List (List ℕ)
    → Outcome (Option ℕ)
unfolding missing
add_test_user_rights lookup enumerate add rights = elim lookup [
  | err e ↦ done (some e)
  | ok sid ↦ (elim (enumerate sid) [
    | err e ↦ done (some e)
    | ok present ↦ add sid (missing present rights)
  ])
]

eq_text_sound : (a b : List ℕ) → eq_text a b ≡ true → a ≡ b
eq_text_sound [] [] h = refl
eq_text_sound [] (y ∷ b) h = absurd (ground arith)
eq_text_sound (x ∷ a) [] h = absurd (ground arith)
eq_text_sound (x ∷ a) (y ∷ b) h =
    let e : x ≡ y = ground (arith, ==_iff x y) in
    let d : a ≡ b = eq_text_sound a b (ground arith) in λ i. e i ∷ d i

has-eq :
    (r x : List ℕ) (present : List (List ℕ)) → eq_text r x ≡ true → has r present ≡ has x present
has-eq r x present h = ap (λ (t : List ℕ). has t present) (eq_text_sound r x h)

-- How often a right is asked for.
abbrev pub times : List ℕ → List (List ℕ) → ℕ
times r [] = 0
times r (s ∷ ss) = (if eq_text r s then 1 else 0) + times r ss

-- Each right that is wanted and not there is asked for exactly once, and no other.
pub missing-times :
    (present rights : List (List ℕ)) (r : List ℕ)
    → times r (missing present rights)
      ≡ (if has r present then 0 else if has r rights then 1 else 0)
unfolding missing
missing-times present [] r = ground arith
missing-times present (x ∷ rights) r = elim (Bool-cases (eq_text r x)) [
  | inl e ↦ (elim (Bool-cases (has x present)) [
    | inl h ↦ ground (arith, missing-times present rights r, has-eq r x present e)
    | inr h ↦ ground (arith, missing-times (x ∷ present) rights r, has-eq r x present e)
  ])
  | inr n ↦ (elim (Bool-cases (has x present)) [
    | inl h ↦ ground (arith, missing-times present rights r)
    | inr h ↦ ground (arith, missing-times (x ∷ present) rights r)
  ])
]

missing-All :
    (P : List ℕ → Type 0) (present rights : List (List ℕ))
    → All P rights
    → All P (missing present rights)
unfolding missing
missing-All P present [] h = tt
missing-All P present (r ∷ rights) (p, h) = elim (Bool-cases (has r present)) [
  | inl e ↦ rw (missing, e) (missing-All P present rights h)
  | inr e ↦ rw (missing, e) (p, missing-All P (r ∷ present) rights h)
]

missing-nil :
    (present rights : List (List ℕ))
    → (missing present rights ≡ []) ↔ All (λ r. has r present ≡ true) rights
unfolding missing
missing-nil present [] = (λ h. tt, λ h. refl)
missing-nil present (r ∷ rights) = ground (arith, missing-nil present rights)

-- The policy is asked for nothing by an empty list, which panics.
module _ (encode : List ℕ → Option (List ℕ)) (decode : List ℕ → List ℕ) where
  abbrev pub IsEncodable : List ℕ → Type 0
  IsEncodable s = (u : ℕ) × (us : List ℕ) × (encode s ≡ some (u ∷ us))

  lsa_strings-done :
      (rights : List (List ℕ))
      → All IsEncodable rights
      → (ls : List LsaString) × (to_lsa_strings encode decode rights ≡ done ls)
  unfolding to_lsa_strings
  lsa_strings-done [] h = ([], refl)
  lsa_strings-done (r ∷ rights) ((u, us, e), h) =
      let (ls, d) = lsa_strings-done rights h in
      (
        record {
          byte_length = (length us * 2) % 2 ^ 16;
          maximum_length = (suc (length us) * 2) % 2 ^ 16;
          buffer = u ∷ us;
        }
            ∷ ls,
        ground (arith, e, d),
      )

  add-panic :
      (call : List LsaString → Option ℕ) (rights : List (List ℕ))
      → All IsEncodable rights
      → (lsa_add_account_rights encode decode call rights ≡ panic) ↔ (rights ≡ [])
  unfolding lsa_add_account_rights
  add-panic call [] h = (λ e. refl, λ e. refl)
  add-panic call (r ∷ rights) ((u, us, e), h) =
      let (ls, d) = lsa_strings-done rights h in ground (arith, e, d)

  -- For an account that is found and whose rights are read, with rights that can be encoded, the command
  -- panics exactly when the account has every right that it is to be given already.
  pub add_test_user_rights-panic :
      (sid : ℕ) (present rights : List (List ℕ)) (call : List LsaString → Option ℕ)
      → All IsEncodable rights
      → (add_test_user_rights
            (ok sid)
            (λ s. ok present)
            (λ s rs. lsa_add_account_rights encode decode call rs)
            rights
          ≡ panic)
        ↔ All (λ r. has r present ≡ true) rights
  unfolding add_test_user_rights
  add_test_user_rights-panic sid present rights call h =
      let p = add-panic call (missing present rights) (missing-All IsEncodable present rights h) in
      let n = missing-nil present rights in (λ e. n.0 (p.0 e), λ a. p.1 (n.1 a))
