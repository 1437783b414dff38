-- ===== src/Tests/Accounts.antt =====
-- Runs of win32/lsa.go, testcmd/user.go and the log fields of config.go.
use mathlib.Core.List.{Memᴰ, Permᴰ}
use damon.Prelude.{
  ℕ, ◌≡◌, ◌↔◌, refl, String, Bool, true, none, some, Option, List, [], ◌∷◌, ◌++◌, ok,
}
use damon.Process.{panic}
use damon.Host.{Host, is_set}
use damon.Handles.{scan}
use damon.Lsa.{LsaString, lsa_add_account_rights}
use damon.Lsa.Accounts.{
  add_account_rights, remove_account_rights, remove_all_account_rights, enumerate_account_rights,
  accounts-close,
}
use damon.TestCommand.Rights.{add_test_user_rights}
use damon.Config.Fields.{nomad_env_to_fields, nomad_log_fields, nomad_log_fields-order}
use damon.Tests.Data.{host}

abbrev encoded : List ℕ → Option (List ℕ)
encoded s = some (s ++ (0 ∷ []))

abbrev decoded : List ℕ → List ℕ
decoded us = us

abbrev adds : List LsaString → Option ℕ
adds ls = none

abbrev removes : Bool → List LsaString → Option ℕ
removes all ls = some 5

abbrev rights : List (List ℕ)
rights = (83 ∷ []) ∷ (84 ∷ []) ∷ []

accounts-close_example :
    (scan (9 ∷ []) (add_account_rights encoded decoded (ok 6) adds rights).0 ≡ some (9 ∷ []))
    × (scan (9 ∷ []) (remove_account_rights encoded decoded (ok 6) removes rights).0
        ≡ some (9 ∷ []))
    × (scan (9 ∷ []) (remove_all_account_rights encoded decoded (ok 6) removes).0 ≡ some (9 ∷ []))
    × (scan (9 ∷ []) (enumerate_account_rights encoded decoded (ok 6) (ok [])).0 ≡ some (9 ∷ []))
accounts-close_example = accounts-close encoded decoded (ok 6) adds removes rights (ok []) (9 ∷ [])

-- The host knows the task's limits and nothing else.
abbrev bare : Host
bare = host "500" "256"

-- The range takes the first two pairs the other way round.
abbrev order : List (String × String)
order =
    ("NOMAD_REGION", "nomad_region")
    ∷ ("NOMAD_DC", "nomad_dc")
    ∷ ("NOMAD_JOB_NAME", "nomad_job_name")
    ∷ ("NOMAD_GROUP_NAME", "nomad_group_name")
    ∷ ("NOMAD_TASK_NAME", "nomad_task_name")
    ∷ ("NOMAD_ALLOC_ID", "nomad_alloc_id")
    ∷ ("NOMAD_ALLOC_INDEX", "nomad_alloc_index")
    ∷ []

abbrev in_dublin : Host
in_dublin = record bare { getenv = λ s. "dublin" }

nomad_log_fields-order_example :
    let first = nomad_log_fields in_dublin order none in
    ((first.1 "nomad_dc" ≡ some "dublin") ↔ (
      (e : String) × Memᴰ (e, "nomad_dc") nomad_env_to_fields
      × (is_set (in_dublin.getenv e) ≡ true)
      × ("dublin" ≡ in_dublin.getenv e)))
    × ((nomad_log_fields bare [] first.0).1 ≡ first.1)
nomad_log_fields-order_example =
    nomad_log_fields-order in_dublin bare order [] "nomad_dc" "dublin" (Permᴰ.swap refl refl)

-- The account has the only right that it is to be given.
panics_on_none :
    add_test_user_rights
      (ok 1)
      (λ s. ok rights)
      (λ s rs. lsa_add_account_rights encoded decoded adds rs)
      ((84 ∷ []) ∷ [])
    ≡ panic
unfolding add_test_user_rights lsa_add_account_rights
panics_on_none = refl
