-- ===== src/Job/Object.antt =====
-- `CreateJobObject` and `Close` of win32/job_object.go, by the handles that they open and close.
use damon.Prelude.{
  ℕ, ◌+◌, ◌≡◌, ◌≢◌, Bool, true, false, Option, none, some, List, [], ◌∷◌, ◌++◌, arith, ◌==◌,
  if◌then◌else◌, Result, ok, err,
}

pub record JobObject : Type 0 where
  pub h_job : ℕ
  pub h_completion : ℕ

-- What happens to handles, in order.
pub data HandleEvent : Type 0 where
  opened closed : ℕ → HandleEvent

-- How the three calls are answered: what `CreateJobObjectW` returns, and the thread's error number after
-- it; a handle or an error; and an error or nothing.
pub record Creation : Type 0 where
  pub job_return : ℕ
  pub job_error : ℕ
  pub port_answer : Result ℕ ℕ
  pub associated : Option ℕ

associate : ℕ → ℕ → Option ℕ → List HandleEvent × Result ℕ JobObject
associate job port (some e) = (opened port ∷ closed job ∷ closed port ∷ [], err e)
associate job port none = (opened port ∷ [], ok (record { h_job = job; h_completion = port }))

make_port : ℕ → Result ℕ ℕ → Option ℕ → List HandleEvent × Result ℕ JobObject
unfolding associate
make_port job (err e) a = (closed job ∷ [], err e)
make_port job (ok port) a = associate job port a

-- A return value that is not 0 is a handle, also where `createJobObject` drops it for an error number.
opened_job : ℕ → List HandleEvent
opened_job job = if job == 0 then [] else opened job ∷ []

unfoldable pub create_job_object : Creation → List HandleEvent × Result ℕ JobObject
unfolding make_port opened_job
create_job_object c =
    if c.job_error == 0
    then (let p = make_port c.job_return c.port_answer c.associated in
        (opened_job c.job_return ++ p.0, p.1))
    else (opened_job c.job_return, err c.job_error)

-- The deferred close of the port comes after that of the job.
unfoldable pub close : JobObject → List HandleEvent
close j =
    if j.h_completion == 0 then closed j.h_job ∷ [] else closed j.h_job ∷ closed j.h_completion ∷ []

abbrev count_if : Bool → ℕ
count_if true = 1
count_if false = 0

abbrev pub opens : ℕ → List HandleEvent → ℕ
opens h [] = 0
opens h (opened x ∷ es) = count_if (x == h) + opens h es
opens h (closed x ∷ es) = opens h es

abbrev pub closes : ℕ → List HandleEvent → ℕ
closes h [] = 0
closes h (opened x ∷ es) = closes h es
closes h (closed x ∷ es) = count_if (x == h) + closes h es

-- What a user of a job object does with it.
abbrev pub life : List HandleEvent × Result ℕ JobObject → List HandleEvent
life (es, ok j) = es ++ close j
life (es, err e) = es

-- The handle of a job that `CreateJobObjectW` returns beside an error number, as for a name that exists.
abbrev pub lost : ℕ → Creation → ℕ
lost h c = if c.job_error == 0 then 0 else (if c.job_return == h then 1 else 0)

-- However the calls of `CreateJobObject` are answered, every handle is closed as often as it was opened, at
-- once if the creation fails, and by `Close` if it succeeds: but for the handle of a job that the system
-- gives with an error number that is not 0, which is opened and never closed.
pub create_job_object-close :
    (c : Creation) (h : ℕ)
    → h ≢ 0
    → opens h (life (create_job_object c)) ≡ closes h (life (create_job_object c)) + lost h c
unfolding create_job_object close
create_job_object-close c h p = ground arith
