-- ===== src/Token/RunAs.antt =====
-- `(*Token).RunAs` of win32/tokens.go: whose rights the thread has while a function runs.
use damon.Prelude.{
  ℕ, ◌+◌, ◌≡◌, ◌≢◌, refl, Option, none, some, List, [], ◌∷◌, ◌++◌, arith, Result, ok, err, ◌==◌,
  if◌then◌else◌,
}
use mathlib.Core.List.{append_assoc}
use damon.Sys.{SysError, Nothing, Call, errno_to_error}
use damon.Sys.Wrappers.{impersonate_logged_on_user, revert_to_self}

-- The token that the thread impersonates, or none where it has the rights of its process; what was done,
-- each with the token in force; and the errors that were logged.
pub record Thread : Type 0 where
  pub identity : Option ℕ
  pub done_as : List (ℕ × Option ℕ)
  pub logged : ℕ

-- One piece of work, by a number.
unfoldable pub work : ℕ → Thread → Thread
work n t = record t { done_as = t.done_as ++ ((n, t.identity) ∷ []) }

reverted : Result SysError Nothing → Thread → Thread
reverted (ok _) t = record t { identity = none }
reverted (err e) t = record t { logged = t.logged + 1 }

run_impersonated :
    ℕ
    → Result SysError Nothing
    → Result SysError Nothing
    → (Thread → Thread)
    → Thread
    → Thread × Option SysError
unfolding reverted
run_impersonated token (err e) revert fn t = (t, some e)
run_impersonated token (ok _) revert fn t =
    (reverted revert (fn (record t { identity = some token })), none)

-- The two calls are answered by `start` and `finish`.
unfoldable pub run_as :
    ℕ → Call Nothing → Call Nothing → (Thread → Thread) → Thread → Thread × Option SysError
unfolding run_impersonated impersonate_logged_on_user revert_to_self
run_as token start finish fn t =
    run_impersonated token (impersonate_logged_on_user start) (revert_to_self finish) fn t

-- Where both calls succeed, the function's work is done under the token and the thread has the rights of
-- its process afterwards, whatever rights the function ends with. Where the first call fails, the
-- function is not run and the thread is as before; where the second fails, the thread keeps the rights
-- that the function ended with, and one error is logged.
pub run_as_lem :
    (token : ℕ) (start finish : Call Nothing) (fn : Thread → Thread) (t : Thread)
    → run_as token start finish fn t ≡ (
        if start.ret == 0
        then (t, some (errno_to_error start.last_error))
        else (let u = fn (record t { identity = some token }) in
            (
              if finish.ret == 0
                  then record u { logged = u.logged + 1 }
                  else record u { identity = none },
              none,
            )))
unfolding run_as
run_as_lem token start finish fn t = ground arith

run_as-ok :
    (token : ℕ) (start finish : Call Nothing) (fn : Thread → Thread) (t : Thread)
    → start.ret ≢ 0
    → finish.ret ≢ 0
    → run_as token start finish fn t
      ≡ (record (fn (record t { identity = some token })) { identity = none }, none)
unfolding run_as
run_as-ok token start finish fn t h k = ground arith

-- A use within a use: the work that the outer function does after the inner call is done with the rights
-- of the process, and not under the outer token, where all four calls succeed.
pub run_as-nested :
    (outer inner : ℕ) (a b c d : Call Nothing) (x y z : ℕ) (t : Thread)
    → a.ret ≢ 0
    → b.ret ≢ 0
    → c.ret ≢ 0
    → d.ret ≢ 0
    → (run_as outer a b (λ s. work z (run_as inner c d (work y) (work x s)).0) t).0.done_as
      ≡ t.done_as ++ ((x, some outer) ∷ (y, some inner) ∷ (z, none) ∷ [])
unfolding work
run_as-nested outer inner a b c d x y z t ha hb hc hd =
    rw (run_as-ok outer a b _ t ha hb)
      (rw (run_as-ok inner c d _ _ hc hd) (rw (append_assoc, append_assoc) refl))
