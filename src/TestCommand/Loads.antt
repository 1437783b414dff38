-- ===== src/TestCommand/Loads.antt =====
-- The loads that the test command makes (testcmd/memory.go, testcmd/cpu.go, testcmd/diskio.go,
-- testcmd/netio.go and testcmd/log.go), as loops over what each turn meets until `exitCh` is closed. Times
-- are in nanoseconds.
pub mod Laws
use damon.Process.{Outcome, done, panic}
use damon.Prelude.{
  ℕ, zero, suc, ◌+◌, ◌*◌, ◌^◌, String, Bool, true, false, Option, none, some, List, [], ◌∷◌, ◌++◌,
  ltb, if◌then◌else◌,
}

abbrev pub second : ℕ
second = 10 ^ 9

-- `t1.Sub(t0) > (1 * time.Second)`
unfoldable pub over_a_second : ℕ → ℕ → Bool
over_a_second t0 t1 = ltb (t0 + second) t1

-- The bytes that `eatMemory` holds after some turns of 100 ms.
unfoldable pub eat_memory : ℕ → ℕ → ℕ
eat_memory held zero = held
eat_memory held (suc turns) = eat_memory (held + 512 * 1024) turns

-- A goroutine of `eatCPU`: the time since which it counts, and the dots that it has printed.
pub record Ticker : Type 0 where
  pub since : ℕ
  pub dots : ℕ

unfoldable pub tick : ℕ → Ticker → Ticker
tick t1 s = if over_a_second s.since t1 then (record { since = t1; dots = s.dots + 1 }) else s

unfoldable pub eat_cpu : Ticker → List ℕ → Ticker
unfolding tick over_a_second
eat_cpu s [] = s
eat_cpu s (t1 ∷ times) = eat_cpu (tick t1 s) times

-- An error of an operation on a file or a connection.
pub data IoError : Type 0 where
  eof : IoError
  other : ℕ → IoError

unfoldable pub log_errorf : Option IoError → String → List String
log_errorf none msg = []
log_errorf (some eof) msg = []
log_errorf (some (other e)) msg = msg ∷ []

-- How many bytes an operation moved, and its error.
abbrev pub Moved : Type 0
Moved = ℕ × Option IoError

-- What a turn of the disk load meets.
pub record DiskTurn : Type 0 where
  pub now : ℕ
  pub write : Moved
  pub first_seek : Option IoError
  pub read : Moved
  pub second_seek : Option IoError

-- The bytes counted since `since`; the rates that were logged, as the bytes read and written in them;
-- and the errors that were logged.
pub record Meter : Type 0 where
  pub since : ℕ
  pub r : ℕ
  pub w : ℕ
  pub reports : List (ℕ × ℕ)
  pub errors : List String

unfoldable pub meter : ℕ → Meter
meter now = record { since = now; r = 0; w = 0; reports = []; errors = [] }

unfoldable pub report : ℕ → Meter → Meter
unfolding over_a_second
report t1 m =
    if over_a_second m.since t1
    then (record {
      since = t1;
      r = 0;
      w = 0;
      reports = m.reports ++ ((m.r, m.w) ∷ []);
      errors = m.errors;
    })
    else m

unfoldable pub disk_turn : Meter → DiskTurn → Meter
unfolding report log_errorf
disk_turn m t =
    let k = report t.now m in
    record k {
      r = k.r + t.read.0;
      w = k.w + t.write.0;
      errors =
          k.errors
          ++ log_errorf t.write.1 "write failed"
          ++ log_errorf t.first_seek "seek failed"
          ++ log_errorf t.read.1 "read failed"
          ++ log_errorf t.second_seek "seek failed";
    }

unfoldable pub disk_turns : Meter → List DiskTurn → Meter
unfolding disk_turn
disk_turns m [] = m
disk_turns m (t ∷ ts) = disk_turns (disk_turn m t) ts

-- What the disk load does with its temporary file besides reading and writing.
pub data FileCall : Type 0 where
  create close remove : FileCall

-- `eatDiskIO`, with the errors of creating, closing and removing the file: its calls, its meter if it came
-- to the loop, and the errors that it logged outside of it. It closes `doneCh` in every case.
unfoldable pub eat_disk_io :
    Option IoError
    → ℕ
    → List DiskTurn
    → Option IoError
    → Option IoError
    → List FileCall × (Option Meter × List String)
unfolding log_errorf disk_turns meter
eat_disk_io (some e) now turns closed removed =
    (create ∷ [], (none, log_errorf (some e) "create temp file failed"))
eat_disk_io none now turns closed removed = (
  create ∷ close ∷ remove ∷ [],
  (
    some (disk_turns (meter now) turns),
    log_errorf closed "closed failed" ++ log_errorf removed "remove file failed '%s'",
  ),
)

-- A turn of the reader of the network load, and one of its writer.
unfoldable pub reader_turn : Meter → ℕ × Moved → Meter
unfolding report log_errorf
reader_turn m (now, (n, e)) =
    let k = report now m in
    record k { r = k.r + n; errors = k.errors ++ log_errorf e "read failed" }

-- `random` is the error of filling the block.
unfoldable pub writer_turn : Meter → ℕ × (Option IoError × Moved) → Meter
unfolding report log_errorf
writer_turn m (now, (random, (n, e))) =
    let k = report now m in
    record k {
      w = k.w + n;
      errors = k.errors ++ log_errorf random "read failed" ++ log_errorf e "write failed";
    }

writer_turns : Meter → List (ℕ × (Option IoError × Moved)) → Meter
unfolding writer_turn
writer_turns m [] = m
writer_turns m (t ∷ ts) = writer_turns (writer_turn m t) ts

-- `eatNetIO` without its reader, over the errors of listening and of dialling: the deferred close of what
-- was not opened is a panic.
unfoldable pub eat_net_io :
    Option IoError → Option IoError → ℕ → List (ℕ × (Option IoError × Moved)) → Outcome Meter
unfolding writer_turns meter
eat_net_io (some e) dialled now turns = panic
eat_net_io none (some e) now turns = panic
eat_net_io none none now turns = done (writer_turns (meter now) turns)
