-- ===== src/Process/Threads.antt =====
-- win32/thread_win32.go: the search for the main thread of a suspended process.
use damon.Prelude.{
  ℕ, refl, ap, ◌∙◌, Option, none, some, Bool-cases, inl, inr, ◌≡◌, ◌≢◌, List, [], ◌∷◌, ◌++◌, arith,
  ◌==◌, if◌then◌else◌, Result, ok, err, All,
}

-- _THREADENTRY32: the fields that the code reads.
pub record ThreadEntry : Type 0 where
  pub thread_id : ℕ
  pub owner : ℕ

pub data ThreadError : Type 0 where
  snapshot_failed open_failed : ℕ → ThreadError
  no_thread_found : ThreadError

abbrev pub zero_entry : ThreadEntry
zero_entry = record { thread_id = 0; owner = 0 }

-- The first entry of a process, and the last entry of a snapshot.
abbrev pub first_owned : ℕ → List ThreadEntry → Option ThreadEntry
first_owned pid [] = none
first_owned pid (e ∷ es) = if e.owner == pid then some e else first_owned pid es

abbrev pub last_of : ThreadEntry → List ThreadEntry → ThreadEntry
last_of te [] = te
last_of te (e ∷ es) = last_of e es

-- What opening a thread by its id gives; 0 is the id of none.
abbrev pub opening : (ℕ → Result ℕ ℕ) → ℕ → Result ThreadError ℕ
opening open_thread id =
    if id == 0
    then err no_thread_found
    else (elim (open_thread id) [ err e ↦ err (open_failed e) | ok thread ↦ ok thread ])

-- `entries` are those that `Thread32First` and `Thread32Next` give, one a call, before a call fails;
-- `leave` is what the failing call leaves in the buffer.
module _ (leave : ThreadEntry → ThreadEntry) where
  unfoldable pub find_thread : ℕ → ThreadEntry → List ThreadEntry → ThreadEntry
  find_thread pid te [] = leave te
  find_thread pid te (e ∷ es) = if e.owner == pid then e else find_thread pid e es

  open_found : (ℕ → Result ℕ ℕ) → ThreadEntry → Result ThreadError ℕ
  open_found open_thread te =
      if te.thread_id == 0
      then err no_thread_found
      else (elim (open_thread te.thread_id) [ err e ↦ err (open_failed e) | ok thread ↦ ok thread ])

  -- `openProcessMainThreadForResume`; the snapshot fails or gives its entries.
  unfoldable pub open_process_main_thread_for_resume :
      Result ℕ (List ThreadEntry) → (ℕ → Result ℕ ℕ) → ℕ → Result ThreadError ℕ
  unfolding find_thread open_found
  open_process_main_thread_for_resume (err e) open_thread pid = err (snapshot_failed e)
  open_process_main_thread_for_resume (ok entries) open_thread pid =
      open_found open_thread (find_thread pid zero_entry entries)

  find_thread-first :
      (pid : ℕ) (te : ThreadEntry) (before : List ThreadEntry) (e : ThreadEntry)
      (after : List ThreadEntry)
      → All (λ t. t.owner ≢ pid) before
      → e.owner ≡ pid
      → find_thread pid te (before ++ e ∷ after) ≡ e
  unfolding find_thread
  find_thread-first pid te [] e after others own = ground arith
  find_thread-first pid te (t ∷ before) e after others own =
      ground (arith, find_thread-first pid t before e after others.1 own)

  -- Where the snapshot holds a thread of the process, the first one is opened.
  pub open_process_main_thread-first :
      (open_thread : ℕ → Result ℕ ℕ) (pid thread : ℕ) (before : List ThreadEntry) (e : ThreadEntry)
      (after : List ThreadEntry)
      → All (λ t. t.owner ≢ pid) before
      → e.owner ≡ pid
      → e.thread_id ≢ 0
      → open_thread e.thread_id ≡ ok thread
      → open_process_main_thread_for_resume (ok (before ++ e ∷ after)) open_thread pid ≡ ok thread
  unfolding open_process_main_thread_for_resume
  open_process_main_thread-first open_thread pid thread before e after others own h opened =
      rw (find_thread-first pid zero_entry before e after others own) (ground arith)

  find_thread-owned :
      (pid : ℕ) (te : ThreadEntry) (entries : List ThreadEntry)
      → find_thread pid te entries
        ≡ elim (first_owned pid entries) [ none ↦ leave (last_of te entries) | some e ↦ e ]
  unfolding find_thread
  find_thread-owned pid te [] = refl
  find_thread-owned pid te (e ∷ es) = elim (Bool-cases (e.owner == pid)) [
    | inl h ↦ ground (arith, h)
    | inr h ↦ ground (arith, h, find_thread-owned pid e es)
  ]

  -- Of any snapshot, the thread that is opened is that of the first entry whose owner is the process. Where
  -- the snapshot has no such entry, it is the one whose id stands in the buffer after the failing call, which
  -- found the last entry there, whoever owns it. In both cases the answer of `OpenThread` for the id is the
  -- result, unless the id is 0, which is the error that no thread was found.
  pub open_process_main_thread-owned :
      (open_thread : ℕ → Result ℕ ℕ) (pid : ℕ) (entries : List ThreadEntry)
      → open_process_main_thread_for_resume (ok entries) open_thread pid
        ≡ elim (first_owned pid entries) [
          | some e ↦ opening open_thread e.thread_id
          | none ↦ opening open_thread (leave (last_of zero_entry entries)).thread_id
        ]
  unfolding open_process_main_thread_for_resume open_found
  open_process_main_thread-owned open_thread pid entries =
      ap (λ (t : ThreadEntry). open_found open_thread t) (find_thread-owned pid zero_entry entries)
      ∙ of (first_owned pid entries)
    where
      of :
          (o : Option ThreadEntry)
          → open_found open_thread
              (elim o [ none ↦ leave (last_of zero_entry entries) | some e ↦ e ])
            ≡ elim o [
              | some e ↦ opening open_thread e.thread_id
              | none ↦ opening open_thread (leave (last_of zero_entry entries)).thread_id
            ]
      of none = refl
      of (some e) = refl
