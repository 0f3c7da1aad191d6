-- ===== src/SignalRestart/System/Passes.antt =====
-- functional/futex_requeue_pi_signal_restart.c: how its two threads end, on any schedule.
use futextest.Common.{ℕ, ◌≤◌, ◌≡◌, ◌⊎◌, Bool, false, none, some, arith, refl, sym, ◌∙◌, ap, subst}
use futextest.Common.Int.{ℤ}
use futextest.Logging.{ret_pass, ret_fail}
use futextest.Pi.{PiKernel, IsPi, Pi}
use futextest.SignalRestart.System.{
  exited, WaiterPc, waits, reads, releases, returned, State, Step, Reach,
}
use futextest.SignalRestart.System.Stages.{IsStage, at_main}
use futextest.SignalRestart.System.Runs.{Reach-Inv}
use futextest.SignalRestart.System.Ends.{IsAfter, Steps, Steps-left, goes_on, left_bounded}

module _ (prompt : Bool) where
  exited_stage :
      (ret w : ℤ) (asleep f1 f2 pending : Bool) (q : WaiterPc)
      → ret ≡ w
      → IsStage prompt (exited ret) q asleep f1 f2 pending w
      → (q ≡ returned ret)
        × (f1 ≡ false)
        × (f2 ≡ false)
        × ((ret ≡ ret_pass) ⊎ ((ret ≡ ret_fail) × (prompt ≡ false)))
  exited_stage ret w asleep f1 f2 pending waits e (_, _, h) = absurd h
  exited_stage ret w asleep f1 f2 pending (reads r) e h = absurd h.5
  exited_stage ret w asleep f1 f2 pending releases e h = absurd h
  exited_stage ret w asleep f1 f2 pending (returned r) e (same, code, _, off1, off2, _) =
      let x = e ∙ same in
      (
        ap returned (sym x),
        off1,
        off2,
        subst (λ y. (y ≡ ret_pass) ⊎ ((y ≡ ret_fail) × (prompt ≡ false))) (sym x) code,
      )

module _ (k : PiKernel) (law : IsPi k) (prompt : Bool) where
  -- On any schedule, on a kernel whose PI calls do what futex(2) says, which restarts the wait of a waiter
  -- that gets a signal on f1 and fails it with EWOULDBLOCK after its requeue: when `main` has come to its
  -- exit, the waiter has returned the same result, f2 is free and the waiter is on neither queue. The
  -- result is RET_PASS, or it is RET_FAIL and signals of the loop may come after the requeue that follows.
  pub signal_restart_exits :
      {s : State} {ret : ℤ}
      → Reach k prompt s
      → s.main ≡ exited ret
      → (s.waiter ≡ returned ret)
        × (s.pi.owner ≡ none)
        × (s.pi.on_f1 1 ≡ false)
        × (s.pi.on_f2 1 ≡ false)
        × ((ret ≡ ret_pass) ⊎ ((ret ≡ ret_fail) × (prompt ≡ false)))
  signal_restart_exits {s} {ret} r e =
      let i = at_main prompt e (Reach-Inv k law prompt r) in
      let (w, off1, off2, code) =
        exited_stage prompt ret s.waiter_ret s.asleep i.f1 i.f2 s.pending s.waiter i.result
          i.stage in
      (w, i.owner, i.queues.first ∙ off1, i.queues.second ∙ off2, code)

  -- Once a requeue has reported a task, `main` comes to its exit on any schedule: on a kernel whose PI
  -- calls do what futex(2) says, where an unlock by the owner succeeds if nobody waits for f2, the two
  -- threads go on for at most 13 steps, signals included, and while `main` has not come to its exit there
  -- is a next step.
  pub signal_restart_ends :
      {s t : State} {n : ℕ}
      → ((p : Pi) → p.owner ≡ some 0 → ((j : ℕ) → p.on_f2 j ≡ false) → (q : Pi) × k.Unlocks p q)
      → Reach k prompt s
      → IsAfter s.main
      → Steps k prompt s n t
      → (n ≤ 13) × (((ret : ℤ) × (t.main ≡ exited ret)) ⊎ ((u : State) × Step k prompt t u))
  signal_restart_ends {s} {t} unlock r a st =
      let (reached, after, le) = Steps-left k prompt law r a st in
      (
        omega (arith, le, left_bounded s),
        goes_on k prompt law unlock t (Reach-Inv k law prompt reached) t.main refl after,
      )
