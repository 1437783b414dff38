-- ===== src/Process/Wait/Laws.antt =====
-- What every interleaving of `Wait` keeps (win32/process.go).
use damon.Prelude.{
  ℕ, ◌+◌, ◌≤◌, ◌<◌, ◌≡◌, ◌≢◌, ◌⊎◌, inl, inr, refl, Bool, true, false, Option-cases, Option, none,
  some, arith,
}
use damon.Process.{ProcessState, WaitError, get_exit_code}
use damon.Process.Wait.{
  Waiter, State, WaitResult, Step, Reach, here, next, initial, selecting, signalling, grace, over,
  waiting, recorded, closed, tick, request, child_exits, ender_told, ender_done, break_sent,
  break_fails, grace_done, grace_over, wait_returns, wait_fails, close_done, returns,
}

waiter-cases : (w : Waiter) → (w ≡ waiting) ⊎ ((w ≡ recorded) ⊎ (w ≡ closed))
waiter-cases waiting = inl refl
waiter-cases recorded = inr (inl refl)
waiter-cases closed = inr (inr refl)

module _ (has_exit : Bool) (start_time timeout : ℕ) where
  -- The invariant of the shared state.
  pub record Inv (s : State) : Type 0 where
    pub break_once : s.breaks ≤ 1
    pub kill_once : s.kills ≤ 1
    pub quiet : s.requested ≡ false → (s.breaks ≡ 0) × (s.kills ≡ 0)
    pub asked : s.requested ≡ true → has_exit ≡ true
    pub fresh : s.ender ≢ over → s.kills ≡ 0
    pub unsent : (s.ender ≡ selecting) ⊎ (s.ender ≡ signalling) → s.breaks ≡ 0
    pub told : (s.ender ≡ signalling) ⊎ (s.ender ≡ grace) → s.requested ≡ true
    pub in_grace : s.ender ≡ grace → s.breaks ≡ 1
    pub reason :
        0 < s.kills → (s.break_failed ≡ true) ⊎ ((s.breaks ≡ 1) × (s.grace_since + timeout ≤ s.now))
    pub end_recorded : s.waiter ≢ waiting → s.ended ≡ true
    pub not_recorded : s.waiter ≡ waiting → (s.ended ≡ false) × (s.process_state ≡ none)
    pub state_kept : (ps : ProcessState) → s.process_state ≡ some ps → s.exited ≡ some (ps, s.werr)
    pub returned_late : s.returned ≢ none → s.waiter ≡ closed
    pub returned_result :
        (r : WaitResult)
        → s.returned ≡ some r
        → (r.result_start ≡ start_time) × (r.result_end ≡ s.end_time)
    pub returned_status :
        (r : WaitResult)
        → s.returned ≡ some r
        → (r.error ≡ s.werr) × (r.exit_status ≡ get_exit_code s.process_state s.werr)

  pub initial-Inv : (now : ℕ) → Inv (initial now)
  initial-Inv now = ground arith

  pub Step-Inv : {s t : State} → Step has_exit start_time timeout s t → Inv s → Inv t
  Step-Inv (tick s d) h = ground arith
  Step-Inv (request s a) h = ground arith
  Step-Inv (child_exits s e a) h = ground arith
  Step-Inv (ender_told s a b) h = ground arith
  Step-Inv (ender_done s a b) h = ground arith
  Step-Inv (break_sent s a) h = ground arith
  Step-Inv (break_fails s a) h = ground arith
  Step-Inv (grace_done s a b) h = ground arith
  Step-Inv (grace_over s a b) h = ground arith
  Step-Inv (wait_returns s ps e a b) h = ground arith
  Step-Inv (wait_fails s e a) h = ground arith
  Step-Inv (close_done s a) h = ground arith
  Step-Inv (returns s a b) h = ground arith

  pub Reach-Inv : {s t : State} → Reach has_exit start_time timeout s t → Inv s → Inv t
  Reach-Inv here h = h
  Reach-Inv (next r st) h = Step-Inv st (Reach-Inv r h)

  -- In every interleaving of a call of `Wait`, at most one Ctrl-Break event and at most one kill are
  -- sent, and none unless the call was given a channel and that has been signalled. A kill comes only
  -- after the event could not be sent, or after it was sent and the whole timeout has passed.
  pub wait_ends_child_on_request :
      {now : ℕ} {s : State}
      → Reach has_exit start_time timeout (initial now) s
      → (s.breaks ≤ 1)
        × (s.kills ≤ 1)
        × ((s.breaks + s.kills ≡ 0) ⊎ ((s.requested ≡ true) × (has_exit ≡ true)))
        × ((s.kills ≡ 0)
            ⊎ ((s.break_failed ≡ true) ⊎ ((s.breaks ≡ 1) × (s.grace_since + timeout ≤ s.now))))
  wait_ends_child_on_request {now} r = ground (arith, Reach-Inv r (initial-Inv now))

  -- Where `Wait` has returned, the end is recorded, and what it returned is the recorded start and end,
  -- the error of `Cmd.Wait` and the exit code computed from that; if `Cmd.Wait` gave a state of the
  -- process, the child has ended with that state and that error.
  pub wait_result :
      {now : ℕ} {s : State} (r : WaitResult)
      → Reach has_exit start_time timeout (initial now) s
      → s.returned ≡ some r
      → (s.ended ≡ true)
        × (r.result_start ≡ start_time)
        × (r.result_end ≡ s.end_time)
        × (r.error ≡ s.werr)
        × (r.exit_status ≡ get_exit_code s.process_state s.werr)
        × ((s.process_state ≡ none)
            ⊎ ((ps : ProcessState) × (s.process_state ≡ some ps) × (s.exited ≡ some (ps, s.werr))))
  wait_result {now} {s} r reach h =
      let i = Reach-Inv reach (initial-Inv now) in
      let c = i.end_recorded (ground (arith, i.returned_late)) in
      let v = i.returned_status r h in
      let d = i.returned_result r h in
      (c, d.0, d.1, v.0, v.1, last i (Option-cases s.process_state))
    where
      last :
          Inv s
          → (s.process_state ≡ none) ⊎ ((ps : ProcessState) × (s.process_state ≡ some ps))
          → (s.process_state ≡ none)
            ⊎ ((ps : ProcessState) × (s.process_state ≡ some ps) × (s.exited ≡ some (ps, s.werr)))
      last i (inl n) = inl n
      last i (inr (ps, p)) = inr (ps, p, i.state_kept ps p)

  finish_closed :
      (s : State)
      → s.waiter ≡ closed
      → s.returned ≡ none
      → (t : State) × Step has_exit start_time timeout s t × (t.returned ≢ none)
  finish_closed s c r = (_, returns s c r, λ h. cc)

  -- `Wait` is not stuck once the child is gone: from every state in which the child has exited and
  -- `Wait` has not returned, there are steps that lead to its return.
  pub wait_returns_possible :
      (s : State) (ps : ProcessState) (e : Option WaitError)
      → s.exited ≡ some (ps, e)
      → s.returned ≡ none
      → (t : State) × Reach has_exit start_time timeout s t × (t.returned ≢ none)
  wait_returns_possible s ps e x r = elim (waiter-cases s.waiter) [
    | inl w ↦
        let s₁ = record s {
          process_state = some ps;
          waiter = recorded;
          ended = true;
          end_time = s.now;
          werr = e;
        } in
        let s₂ = record s₁ { waiter = closed } in
        let (t, st, d) = finish_closed s₂ refl r in
        (t, next (next (next here (wait_returns s ps e w x)) (close_done s₁ refl)) st, d)
    | inr (inl w) ↦
        let s₂ = record s { waiter = closed } in
        let (t, st, d) = finish_closed s₂ refl r in (t, next (next here (close_done s w)) st, d)
    | inr (inr w) ↦ let (t, st, d) = finish_closed s w r in (t, next here st, d)
  ]
