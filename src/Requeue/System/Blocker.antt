-- ===== src/Requeue/System/Blocker.antt =====
-- functional/futex_requeue_pi.c: what one step makes of the third-party owner of f2.
use futextest.Common.{ℕ, ◌≡◌, Bool, refl, arith, subst, ◌⊎◌, inl, inr}
use futextest.Common.Int.{pos}
use futextest.Pi.{
  PiKernel, Shared, Move, Thread, running, waiting, reads_blocked, blocks, reads_woken,
  adds_blocked, times_out, adds_woken, takes, queues, ok, unlocks, gets, requeues, refuses, fails,
  wakes, rests, returns, stirs, wakes_one, Access, lock, unlock, wait_complete, halt,
}
use futextest.Requeue.System.{
  Pc, blocker_locks, blocker_waits, blocker_unlocks, blocker_exited, access, resume, threads,
}
use futextest.Requeue.System.Rules.{Own, unlock_holds}

-- A blocker whose calls have all returned 0.
abbrev pub IsBlocker : Thread Pc → Type 0
IsBlocker (running blocker_locks) = Unit {0}
IsBlocker (running blocker_waits) = Unit {0}
IsBlocker (running (blocker_unlocks ret)) = ret ≡ pos 0
IsBlocker (running (blocker_exited ret)) = ret ≡ pos 0
IsBlocker (waiting blocker_locks) = Unit {0}
IsBlocker (waiting blocker_waits) = Unit {0}
IsBlocker _ = ⊥

module _ (n : ℕ) (broadcast lock_f2 timed : Bool) where
  goes_on :
      (c : Pc)
      → IsBlocker (running c)
      → IsBlocker (running (resume n broadcast lock_f2 timed c (ok (pos 0))))
  unfolding resume
  goes_on blocker_locks h = tt
  goes_on blocker_waits h = refl
  goes_on (blocker_unlocks ret) h = ground (arith, h)
  goes_on (blocker_exited ret) h = h
  goes_on _ h = absurd h

  wakes_to :
      (c : Pc)
      → IsBlocker (waiting c)
      → IsBlocker (running (resume n broadcast lock_f2 timed c (ok (pos 0))))
  unfolding resume
  wakes_to blocker_locks h = tt
  wakes_to blocker_waits h = refl
  wakes_to _ h = absurd h

  -- The calls that it makes.
  abbrev IsCalled : Access → Type 0
  IsCalled lock = Unit {0}
  IsCalled wait_complete = Unit {0}
  IsCalled unlock = Unit {0}
  IsCalled halt = Unit {0}
  IsCalled _ = ⊥

  IsCalled-running :
      (c : Pc) → IsBlocker (running c) → IsCalled (access n broadcast lock_f2 timed c)
  IsCalled-running blocker_locks h = tt
  IsCalled-running blocker_waits h = tt
  IsCalled-running (blocker_unlocks ret) h = tt
  IsCalled-running (blocker_exited ret) h = tt
  IsCalled-running _ h = absurd h

  IsCalled-asleep : (c : Pc) → IsBlocker (waiting c) → IsCalled (access n broadcast lock_f2 timed c)
  IsCalled-asleep blocker_locks h = tt
  IsCalled-asleep blocker_waits h = tt
  IsCalled-asleep _ h = absurd h

  never :
      {P : Type 0} (c : Pc) {a : Access}
      → access n broadcast lock_f2 timed c ≡ a
      → (IsCalled a → ⊥)
      → IsBlocker (running c)
      → P
  never c e out h = absurd (out (subst IsCalled e (IsCalled-running c h)))

  sleeps :
      (c : Pc)
      → (access n broadcast lock_f2 timed c ≡ lock)
        ⊎ (access n broadcast lock_f2 timed c ≡ wait_complete)
      → IsBlocker (running c)
      → IsBlocker (waiting c)
  sleeps blocker_locks e h = tt
  sleeps blocker_waits e h = tt
  sleeps (blocker_unlocks ret) e h = ground arith
  sleeps (blocker_exited ret) e h = ground arith
  sleeps _ e h = absurd h

  pub Move-IsBlocker :
      {k : PiKernel} {i : ℕ} {s h : Shared} {t u : Thread Pc}
      → Move k (threads n broadcast lock_f2 timed) i s t h u
      → Own n broadcast lock_f2 timed s.pi i t
      → IsBlocker t
      → IsBlocker u × (h.woken ≡ s.woken)
  Move-IsBlocker (takes {c} e free) own w = (goes_on c w, refl)
  Move-IsBlocker (queues {c} e busy) own w = (sleeps c (inl e) w, refl)
  Move-IsBlocker (gets {c} ne mine) own w = (wakes_to c w, refl)
  Move-IsBlocker (unlocks {c} e mine un) own w = (goes_on c w, refl)
  Move-IsBlocker (refuses {c} e out) own w =
      absurd (out (own.holder (unlock_holds n broadcast lock_f2 timed c (ok (pos 0)) e).0))
  Move-IsBlocker (rests {c} e) own w = (sleeps c (inr e) w, refl)
  Move-IsBlocker (returns {c} e off) own w = (wakes_to c w, refl)
  Move-IsBlocker (stirs e) own w = (w, refl)
  Move-IsBlocker (times_out {c} e tm out) own w = absurd (subst IsCalled e (IsCalled-asleep c w))
  Move-IsBlocker (reads_blocked {c} e) own w = never c e (λ x. x) w
  Move-IsBlocker (reads_woken {c} e) own w = never c e (λ x. x) w
  Move-IsBlocker (adds_blocked {c} e) own w = never c e (λ x. x) w
  Move-IsBlocker (adds_woken {c} e) own w = never c e (λ x. x) w
  Move-IsBlocker (blocks {c} e) own w = never c e (λ x. x) w
  Move-IsBlocker (requeues {c} e re) own w = never c e (λ x. x) w
  Move-IsBlocker (fails {c} e err) own w = never c e (λ x. x) w
  Move-IsBlocker (wakes {c} e nobody) own w = never c e (λ x. x) w
  Move-IsBlocker (wakes_one {c} j e on) own w = never c e (λ x. x) w
