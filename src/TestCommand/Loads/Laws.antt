-- ===== src/TestCommand/Loads/Laws.antt =====
-- What the loads of the test command keep.
use damon.Prelude.{ℕ, zero, suc, ◌+◌, ◌*◌, ◌≤◌, ◌≡◌, List, [], ◌∷◌, ◌++◌, arith}
use damon.TestCommand.Loads.{
  second, over_a_second, eat_memory, Ticker, eat_cpu, tick, DiskTurn, Meter, report, disk_turn,
  disk_turns,
}

-- The memory load holds half a mebibyte for each turn.
pub eat_memory-turns : (held turns : ℕ) → eat_memory held turns ≡ held + turns * 524288
unfolding eat_memory
eat_memory-turns held zero = omega arith
eat_memory-turns held (suc turns) = omega (arith, eat_memory-turns (held + 512 * 1024) turns)

tick-dots :
    (t1 : ℕ) (s : Ticker)
    → let e = tick t1 s in e.dots * second + s.since ≤ e.since + s.dots * second
unfolding tick over_a_second
tick-dots t1 s = ground arith

-- A goroutine of the CPU load prints no more than one dot a second.
pub eat_cpu-dots :
    (s : Ticker) (times : List ℕ)
    → let e = eat_cpu s times in e.dots * second + s.since ≤ e.since + s.dots * second
unfolding eat_cpu
eat_cpu-dots s [] = omega arith
eat_cpu-dots s (t1 ∷ times) = omega (arith, tick-dots t1 s, eat_cpu-dots (tick t1 s) times)

-- The bytes written that the reports tell, all together.
abbrev pub told : List (ℕ × ℕ) → ℕ
told [] = 0
told ((r, w) ∷ reports) = w + told reports

abbrev pub written : List DiskTurn → ℕ
written [] = 0
written (t ∷ ts) = t.write.0 + written ts

told-append : (a b : List (ℕ × ℕ)) → told (a ++ b) ≡ told a + told b
told-append [] b = omega arith
told-append ((r, w) ∷ a) b = omega (arith, told-append a b)

report-told :
    (t1 : ℕ) (m : Meter) → let e = report t1 m in told e.reports + e.w ≡ told m.reports + m.w
unfolding report over_a_second
report-told t1 m = ground (arith, told-append m.reports ((m.r, m.w) ∷ []))

disk_turn-told :
    (m : Meter) (t : DiskTurn)
    → let e = disk_turn m t in told e.reports + e.w ≡ told m.reports + m.w + t.write.0
unfolding disk_turn
disk_turn-told m t = ground (arith, report-told t.now m)

-- No byte that the disk load wrote is lost from its reports, or told twice: what was told and what is still
-- to be told is what was written.
pub disk_turns-told :
    (m : Meter) (ts : List DiskTurn)
    → let e = disk_turns m ts in told e.reports + e.w ≡ told m.reports + m.w + written ts
unfolding disk_turns
disk_turns-told m [] = omega arith
disk_turns-told m (t ∷ ts) = omega (arith, disk_turn-told m t, disk_turns-told (disk_turn m t) ts)
