-- ===== src/TestCommand.antt =====
-- The command that the tests of the container start (testcmd/main.go): how it ends.
pub mod Rights
pub mod Loads
use damon.Process.{Outcome, done, panic}
use damon.Prelude.{
  ℕ, ◌≡◌, ◌≢◌, ◌↔◌, refl, String, ◌=s◌, Bool, true, false, ◌||◌, Option, none, some, List, [], ◌∷◌,
  arith, if◌then◌else◌,
}

pub data Ending : Type 0 where
  exits : ℕ → Ending
  hangs crashes : Ending

-- `dieOnError`
end_of : Outcome (Option ℕ) → Ending
end_of panic = crashes
end_of (done none) = exits 0
end_of (done (some e)) = exits 1

-- What the command meets: `time.ParseDuration`, whether the select takes a signal or the timer, what
-- `addTestUserRights` gives, and whether a network call of `eatNetIO` fails, where a nil listener or
-- connection is closed.
pub record Surroundings : Type 0 where
  pub parse_duration : String → Option ℕ
  pub signalled : Bool
  pub add_rights : String → Outcome (Option ℕ)
  pub network_fails : Bool

module _ (s : Surroundings) where
  -- `getArgDuration(2, def)`, over the arguments behind the command; `none` exits with 1.
  unfoldable pub get_arg_duration : List String → ℕ → Option ℕ
  get_arg_duration [] def = some def
  get_arg_duration (arg ∷ args) def = s.parse_duration arg

  after_duration : Option ℕ → Ending → Ending
  after_duration none e = exits 1
  after_duration (some d) e = e

  -- The select, and the wait for `doneCh`, which may never be closed.
  wait_done : List String → Bool → ℕ → Ending
  unfolding after_duration get_arg_duration
  wait_done args closes rc =
      after_duration (get_arg_duration args 10)
        (if closes then exits (if s.signalled then 1 else rc) else hangs)

  batch_login : List String → Ending
  unfolding end_of
  batch_login [] = exits 0
  batch_login (user ∷ args) = end_of (s.add_rights user)

  -- Each of the four workers closes `doneCh` when it returns.
  unfoldable pub real_main : String → List String → Ending
  unfolding wait_done batch_login after_duration get_arg_duration
  real_main cmd args =
      if cmd =s "err"
      then wait_done args true 1
      else if cmd =s "wait"
      then wait_done args true 0
      else if cmd =s "wait_nosig"
      then after_duration (get_arg_duration args 10) (exits 0)
      else if cmd =s "batch_login"
      then batch_login args
      else if cmd =s "cpu" || cmd =s "mem" || cmd =s "diskio"
      then wait_done args true 0
      else if cmd =s "netio"
      then (if s.network_fails then crashes else wait_done args true 0)
      else wait_done args false 0

  unfoldable pub main : List String → Ending
  unfolding real_main
  main [] = exits 0
  main (cmd ∷ args) = real_main cmd args

  abbrev pub is_command : String → Bool
  is_command cmd =
      cmd =s "err"
      || cmd =s "wait"
      || cmd =s "wait_nosig"
      || cmd =s "batch_login"
      || cmd =s "cpu"
      || cmd =s "mem"
      || cmd =s "diskio"
      || cmd =s "netio"

  -- The command hangs exactly when it is none of eight words, as `env` is none of them, and its duration
  -- can be read; with one of the eight it always ends.
  pub real_main-hangs :
      (cmd : String) (args : List String)
      → (real_main cmd args ≡ hangs)
        ↔ ((is_command cmd ≡ false) × (get_arg_duration args 10 ≢ none))
  unfolding real_main
  real_main-hangs cmd args = ground arith
