-- ===== src/Logger/Laws.antt =====
-- The global logger against what it is for: an entry goes to the logger that was set last
-- (win32/logger.go).
use mathlib.Core.List.{append_assoc, append-nil}
use damon.Prelude.{ℕ, ◌≡◌, refl, ap, ◌∙◌, Option, none, some, List, [], ◌∷◌, ◌++◌, All}
use damon.Process.{Outcome, done, panic}
use damon.Logger.{
  Logger, nil_logger, noop_logger, log_wrapper, user_logger, Entry, formatted, line, failure,
  Written, log_to, State, blank, init, Use, setting, logging_f, logging_ln, logging_error,
  use_logger, run,
}

-- The user of the package that a logger stands for, if it is one.
abbrev pub recipient : Logger → Option ℕ
recipient nil_logger = none
recipient noop_logger = none
recipient (log_wrapper l) = recipient l
recipient (user_logger kind identity) = some identity

abbrev pub HasTarget : Logger → Type 0
HasTarget nil_logger = ⊥
HasTarget noop_logger = Unit
HasTarget (log_wrapper l) = HasTarget l
HasTarget (user_logger kind identity) = Unit

abbrev pub IsAllowed : Use → Type 0
IsAllowed (setting l) = HasTarget l
IsAllowed _ = Unit

-- What a use asks to be written.
abbrev entry_of : Use → Option Entry
entry_of (setting l) = none
entry_of (logging_f format v) = some (formatted format v)
entry_of (logging_ln v) = some (line v)
entry_of (logging_error none msg) = none
entry_of (logging_error (some e) msg) = some (failure e msg)

abbrev chosen : Option ℕ → Use → Option ℕ
chosen current (setting l) = recipient l
chosen current _ = current

abbrev sent : Option Entry → Option ℕ → Written
sent none to = []
sent (some e) none = []
sent (some e) (some i) = (i, e) ∷ []

-- The uses one after the other, with the logger that was set last.
abbrev pub log_book : Option ℕ → List Use → Written
log_book current [] = []
log_book current (u ∷ us) = sent (entry_of u) current ++ log_book (chosen current u) us

abbrev pub written_of : Outcome State → Option Written
written_of panic = none
written_of (done s) = some s.written

abbrev holding : Logger → Written → State
holding l ws = record { global_logger = some (log_wrapper l); written = ws }

log_to-sent :
    (l : Logger) (e : Entry) → HasTarget l → log_to l e ≡ done (sent (some e) (recipient l))
unfolding log_to
log_to-sent nil_logger e h = absurd h
log_to-sent noop_logger e h = refl
log_to-sent (log_wrapper l) e h = log_to-sent l e h
log_to-sent (user_logger k i) e h = refl

abbrev next : Logger → Use → Logger
next l (setting k) = k
next l _ = l

use_logger-sent :
    (u : Use) (l : Logger) (ws : Written)
    → HasTarget l
    → use_logger u (holding l ws)
      ≡ done (holding (next l u) (ws ++ sent (entry_of u) (recipient l)))
unfolding use_logger
use_logger-sent (setting k) l ws h = rw append-nil refl
use_logger-sent (logging_f format v) l ws h = rw (log_to-sent l (formatted format v) h) refl
use_logger-sent (logging_ln v) l ws h = rw (log_to-sent l (line v) h) refl
use_logger-sent (logging_error none msg) l ws h = rw append-nil refl
use_logger-sent (logging_error (some e) msg) l ws h = rw (log_to-sent l (failure e msg) h) refl

next-HasTarget : (u : Use) (l : Logger) → HasTarget l → IsAllowed u → HasTarget (next l u)
next-HasTarget (setting k) l h a = a
next-HasTarget (logging_f format v) l h a = h
next-HasTarget (logging_ln v) l h a = h
next-HasTarget (logging_error e msg) l h a = h

recipient-next : (u : Use) (l : Logger) → recipient (next l u) ≡ chosen (recipient l) u
recipient-next (setting k) l = refl
recipient-next (logging_f format v) l = refl
recipient-next (logging_ln v) l = refl
recipient-next (logging_error e msg) l = refl

run-holding :
    (us : List Use) (l : Logger) (ws : Written)
    → HasTarget l
    → All IsAllowed us
    → written_of (run us (done (holding l ws))) ≡ some (ws ++ log_book (recipient l) us)
unfolding run
run-holding [] l ws h a = rw append-nil refl
run-holding (u ∷ us) l ws h (a, rest) =
    ap (λ (o : Outcome State). written_of (run us o)) (use_logger-sent u l ws h)
    ∙ run-holding us (next l u) _ (next-HasTarget u l h a) rest
    ∙ rw (recipient-next u l, append_assoc) refl

-- After `init`, however often loggers that are not nil are set and whatever their types are, no use
-- panics, and what is written is the log book: each entry, in order, to the logger that was set last,
-- nothing before the first is set, and no nil error.
pub run-log_book :
    (us : List Use) → All IsAllowed us → written_of (run us (init blank)) ≡ some (log_book none us)
unfolding init
run-log_book us a = run-holding us (log_wrapper noop_logger) [] tt a
