-- ===== src/Lsa/Accounts.antt =====
-- win32/lsa.go: the rights of an account, between the opening of the policy and its close.
use damon.Prelude.{
  ℕ, ◌≡◌, Bool, true, false, Option, none, some, List, [], ◌∷◌, ◌++◌, arith, Result, ok, err,
}
use damon.Process.{Outcome, done, panic}
use damon.Sys.{SysError, Nothing}
use damon.Handles.{HandleEvent, opened, closed, used, scan}
use damon.Lsa.{
  LsaString, lsa_add_account_rights, lsa_remove_account_rights, lsa_enumerate_account_rights,
}

pub data AccountError : Type 0 where
  open_policy_failed : SysError → AccountError
  rights_call_failed : ℕ → AccountError

-- What an operation does with handles, and how it ends.
abbrev pub Account : Type 0 → Type 0
Account A = List HandleEvent × Outcome (Result AccountError A)

-- The policy is used by the kernel's call, which a panic comes in front of.
asking : {A : Type 0} → ℕ → Outcome A → List HandleEvent
asking h panic = []
asking h (done a) = used h ∷ []

-- `lsaOpenPolicy`, and `defer lsaClose(*phPolicy)`, which runs on a panic too.
with_policy : {A : Type 0} → Result SysError ℕ → Outcome (Result AccountError A) → Account A
unfolding asking
with_policy (err e) body = ([], done (err (open_policy_failed e)))
with_policy (ok h) body = (opened h ∷ (asking h body ++ (closed h ∷ [])), body)

of_error : Outcome (Option ℕ) → Outcome (Result AccountError Nothing)
of_error panic = panic
of_error (done none) = done (ok tt)
of_error (done (some e)) = done (err (rights_call_failed e))

of_rights :
    Result ℕ (Option (List (List ℕ))) → Outcome (Result AccountError (Option (List (List ℕ))))
of_rights (err e) = done (err (rights_call_failed e))
of_rights (ok rights) = done (ok rights)

-- `policy` is what `lsaOpenPolicy` gives.
module _ (encode : List ℕ → Option (List ℕ)) (decode : List ℕ → List ℕ)
    (policy : Result SysError ℕ) where
  unfoldable pub add_account_rights : (List LsaString → Option ℕ) → List (List ℕ) → Account Nothing
  unfolding with_policy of_error lsa_add_account_rights
  add_account_rights call rights =
      with_policy policy (of_error (lsa_add_account_rights encode decode call rights))

  unfoldable pub remove_account_rights :
      (Bool → List LsaString → Option ℕ) → List (List ℕ) → Account Nothing
  unfolding with_policy of_error lsa_remove_account_rights
  remove_account_rights call rights =
      with_policy policy (of_error (lsa_remove_account_rights encode decode call false rights))

  unfoldable pub remove_all_account_rights : (Bool → List LsaString → Option ℕ) → Account Nothing
  unfolding with_policy of_error lsa_remove_account_rights
  remove_all_account_rights call =
      with_policy policy (of_error (lsa_remove_account_rights encode decode call true []))

  unfoldable pub enumerate_account_rights :
      Result ℕ (List LsaString) → Account (Option (List (List ℕ)))
  unfolding with_policy of_rights lsa_enumerate_account_rights
  enumerate_account_rights answer =
      with_policy policy (of_rights (lsa_enumerate_account_rights encode decode answer))

  with_policy-closes :
      {A : Type 0} (body : Outcome (Result AccountError A)) (live : List ℕ)
      → scan live (with_policy policy body).0 ≡ some live
  unfolding with_policy scan
  with_policy-closes body live = ground arith

  -- However the policy opens and the kernel answers, and with a panic too, each of the four operations
  -- closes the policy that it opens and leaves every other handle as it was.
  pub accounts-close :
      (add : List LsaString → Option ℕ) (remove : Bool → List LsaString → Option ℕ)
      (rights : List (List ℕ)) (answer : Result ℕ (List LsaString)) (live : List ℕ)
      → (scan live (add_account_rights add rights).0 ≡ some live)
        × (scan live (remove_account_rights remove rights).0 ≡ some live)
        × (scan live (remove_all_account_rights remove).0 ≡ some live)
        × (scan live (enumerate_account_rights answer).0 ≡ some live)
  unfolding add_account_rights remove_account_rights remove_all_account_rights
      enumerate_account_rights
  accounts-close add remove rights answer live = (
    with_policy-closes _ live,
    with_policy-closes _ live,
    with_policy-closes _ live,
    with_policy-closes _ live,
  )
