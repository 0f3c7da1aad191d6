-- ===== src/Requeue/System/Wakers.antt =====
-- functional/futex_requeue_pi.c: what one step makes of the waker.
use futextest.Common.{
  ℕ, ◌+◌, ◌≤◌, ◌≡◌, ◌≢◌, inl, inr, Bool, false, refl, sym, arith, ◌∙◌, subst, true, ap, ◌⊎◌,
}
use futextest.Common.Int.{pos, ◌+ℤ◌, ltb_ℤ}
use futextest.Pi.{
  PiKernel, IsPi, Shared, Move, Thread, running, waiting, reads_blocked, blocks, reads_woken,
  adds_blocked, times_out, adds_woken, takes, queues, ok, unlocks, gets, requeues, refuses, fails,
  wakes, rests, returns, stirs, wakes_one, wait_complete, failed, Requeued, inc_woken, wait_requeue,
  lock, requeue, load_woken, Access,
}
use futextest.Requeue.System.{
  Pc, locks, spins, checks, signals, lets_go, broadcast_locks, broadcasts, rechecks,
  broadcast_completes, broadcast_unlocks, completes, ended, blocker_waits, access, resume, threads,
  Reply, Loop,
}
use futextest.Requeue.System.Codes.{IsWaker, IsWaker-resume, IsWaker-requeue}
use futextest.Futex.Atomic.{atomic_inc}

module _ (n : ℕ) (broadcast safe lock_f2 timed : Bool) where
  pub IsWaker-more :
      (g g' : ℕ) (t : Thread Pc)
      → g ≤ g'
      → IsWaker broadcast safe n g t
      → IsWaker broadcast safe n g' t
  unfolding ◌+ℤ◌
  IsWaker-more g g' (running spins) le h = tt
  IsWaker-more g g' (running (checks v)) le h = ground (arith, le, h)
  IsWaker-more g g' (running (locks v)) le h = ground (arith, le, h)
  IsWaker-more g g' (waiting (locks v)) le h = ground (arith, le, h)
  IsWaker-more g g' (running (signals v)) le h = ground (arith, le, h)
  IsWaker-more g g' (running (lets_go v)) le h = ground (arith, le, h)
  IsWaker-more g g' (running (completes v)) le h = ground (arith, le, h)
  IsWaker-more g g' (running (ended r)) le h = ground (arith, le, h)
  IsWaker-more g g' (running broadcast_locks) le h = h
  IsWaker-more g g' (waiting broadcast_locks) le h = h
  IsWaker-more g g' (running (broadcasts v)) le h = ground (arith, le, h)
  IsWaker-more g g' (running (rechecks v)) le h = ground (arith, le, h)
  IsWaker-more g g' (running (broadcast_completes v)) le h = ground (arith, le, h)
  IsWaker-more g g' (running (broadcast_unlocks v)) le h = ground (arith, le, h)
  IsWaker-more g g' (running _) le h = absurd h
  IsWaker-more g g' (waiting _) le h = absurd h

  waker_never :
      (g : ℕ) (c : Pc)
      → IsWaker broadcast safe n g (running c)
      → (access n broadcast lock_f2 timed c ≢ inc_woken)
        × (access n broadcast lock_f2 timed c ≢ wait_requeue)
  waker_never g spins h = ((cc), cc)
  waker_never g (checks v) h = ((cc), cc)
  waker_never g (locks v) h = ((cc), cc)
  waker_never g (signals v) h = ((cc), cc)
  waker_never g (lets_go v) h = ((cc), cc)
  waker_never g (completes v) h = ((cc), cc)
  waker_never g (ended r) h = ((cc), cc)
  waker_never g broadcast_locks h = ((cc), cc)
  waker_never g (broadcasts v) h = ((cc), cc)
  waker_never g (rechecks v) h = ((cc), cc)
  waker_never g (broadcast_completes v) h = ((cc), cc)
  waker_never g (broadcast_unlocks v) h = ((cc), cc)
  waker_never g _ h = absurd h

  waker_rests :
      {P : Type 0} (g : ℕ) (c : Pc)
      → access n broadcast lock_f2 timed c ≡ wait_complete
      → IsWaker broadcast safe n g (running c) ⊎ IsWaker broadcast safe n g (waiting c)
      → P
  waker_rests g blocker_waits e w = absurd (elim w [ inl h ↦ h | inr h ↦ h ])
  waker_rests g _ e w = cc

  IsWaker-queues :
      (g : ℕ) (c : Pc)
      → IsWaker broadcast safe n g (running c)
      → access n broadcast lock_f2 timed c ≡ lock
      → IsWaker broadcast safe n g (waiting c)
  IsWaker-queues g (locks v) h e = h
  IsWaker-queues g spins h e = cc
  IsWaker-queues g (checks v) h e = cc
  IsWaker-queues g (signals v) h e = cc
  IsWaker-queues g (lets_go v) h e = cc
  IsWaker-queues g (completes v) h e = cc
  IsWaker-queues g (ended r) h e = cc
  IsWaker-queues g broadcast_locks h e = h
  IsWaker-queues g (broadcasts v) h e = cc
  IsWaker-queues g (rechecks v) h e = cc
  IsWaker-queues g (broadcast_completes v) h e = cc
  IsWaker-queues g (broadcast_unlocks v) h e = cc
  IsWaker-queues g _ h e = absurd h

  IsWaker-gets :
      (g : ℕ) (c : Pc)
      → IsWaker broadcast safe n g (waiting c)
      → IsWaker broadcast safe n g (running (resume n broadcast lock_f2 timed c (ok (pos 0))))
        × (access n broadcast lock_f2 timed c ≢ wait_requeue)
  unfolding resume
  IsWaker-gets g (locks v) h = (h, cc)
  IsWaker-gets g broadcast_locks h = ((h, (omega arith, omega arith, omega arith)), cc)
  IsWaker-gets g _ h = absurd h

  -- What the step needs: the number of waiters that have left f1 before it and after it.
  pub record Numbers (g g' : ℕ) (s h : Shared) : Type 0 where
    pub le : g ≤ g'
    pub past : ltb_ℤ s.woken.val (pos n) ≡ false → n ≤ g
    pub moved : {count : ℕ} → Requeued s.pi h.pi count → g + count ≤ g'

  goes :
      {g g' : ℕ} {s h : Shared}
      → Numbers g g' s h
      → (c : Pc) (r : Reply) {a : Access} → access n broadcast lock_f2 timed c ≡ a
      → ((nr : ℕ) → a ≢ requeue nr)
      → (a ≡ load_woken → r.res ≡ s.woken.val)
      → ((v : Loop) → running c ≡ running (rechecks v) → safe ≡ true → s.woken.val ≡ pos 0)
      → IsWaker broadcast safe n g (running c)
      → IsWaker broadcast safe n g' (running (resume n broadcast lock_f2 timed c r))
  goes {g} {g'} {s} m c r e ne reads calm w =
      IsWaker-more g g' (running (resume n broadcast lock_f2 timed c r)) m.le (
        IsWaker-resume n broadcast safe lock_f2 timed g c r w (λ nr f. ne nr (sym e ∙ f))
          (λ f big. m.past (subst (λ x. ltb_ℤ x (pos n) ≡ false) (reads (sym e ∙ f)) big))
          (λ v at sure.
            reads (sym e ∙ ap (access n broadcast lock_f2 timed) at) ∙ calm v (ap running at) sure))

  pub Move-IsWaker :
      {k : PiKernel} {i : ℕ} {g g' : ℕ} {s h : Shared} {t u : Thread Pc}
      → IsPi k
      → Numbers g g' s h
      → Move k (threads n broadcast lock_f2 timed) i s t h u
      → ((v : Loop) → t ≡ running (rechecks v) → safe ≡ true → s.woken.val ≡ pos 0)
      → IsWaker broadcast safe n g t
      → IsWaker broadcast safe n g' u × (h.woken ≡ s.woken)
  Move-IsWaker {g} {g'} {s} law num (reads_blocked {c} e) calm w =
      (goes num c (ok s.blocked.val) e (λ nr. cc) (λ f. cc) calm w, refl)
  Move-IsWaker {g} {g'} {s} law num (reads_woken {c} e) calm w =
      (goes num c (ok s.woken.val) e (λ nr. cc) (λ f. refl) calm w, refl)
  Move-IsWaker {g} {g'} {s} law num (adds_blocked {c} e) calm w =
      (goes num c (ok (atomic_inc s.blocked).1) e (λ nr. cc) (λ f. cc) calm w, refl)
  Move-IsWaker {g} {g'} {s} law num (adds_woken {c} e) calm w = absurd ((waker_never g c w).0 e)
  Move-IsWaker {g} {g'} {s} law num (blocks {c} e) calm w = absurd ((waker_never g c w).1 e)
  Move-IsWaker {g} {g'} {s} law num (times_out {c} e tm out_) calm w =
      absurd ((IsWaker-gets g c w).1 e)
  Move-IsWaker {g} {g'} {s} law num (takes {c} e free) calm w =
      (goes num c (ok (pos 0)) e (λ nr. cc) (λ f. cc) calm w, refl)
  Move-IsWaker {g} {g'} {s} law num (queues {c} e busy) calm w =
      (IsWaker-more g g' (waiting c) num.le (IsWaker-queues g c w e), refl)
  Move-IsWaker {g} {g'} {s} law num (gets {c} ne mine) calm w = (
    IsWaker-more g g' (running (resume n broadcast lock_f2 timed c (ok (pos 0)))) num.le
        (IsWaker-gets g c w).0,
    refl,
  )
  Move-IsWaker {g} {g'} {s} law num (unlocks {c} e mine un) calm w =
      (goes num c (ok (pos 0)) e (λ nr. cc) (λ f. cc) calm w, refl)
  Move-IsWaker {g} {g'} {s} law num (refuses {c} e other) calm w =
      (goes num c (failed (pos 1)) e (λ nr. cc) (λ f. cc) calm w, refl)
  Move-IsWaker {g} {g'} {s} law num (requeues {c} {count = m} e re) calm w = (
    IsWaker-requeue n broadcast safe lock_f2 timed g' g c (ok (pos m)) w e
        (inr (m, ground arith, num.moved (law.requeued re))),
    refl,
  )
  Move-IsWaker {g} {g'} {s} law num (fails {c} {e = x} e err) calm w = (
    IsWaker-requeue n broadcast safe lock_f2 timed g' g c (failed x) w e
        (inl (ground (arith, err))),
    refl,
  )
  Move-IsWaker {g} law num (rests {c} e) calm w = waker_rests g c e (inl w)
  Move-IsWaker {g} law num (returns {c} e off) calm w = waker_rests g c e (inr w)
  Move-IsWaker {g} law num (stirs {c} e) calm w = waker_rests g c e (inr w)
  Move-IsWaker {g} {g'} {s} law num (wakes {c} e nobody) calm w =
      (goes num c (ok (pos 0)) e (λ nr. cc) (λ f. cc) calm w, refl)
  Move-IsWaker {g} {g'} {s} law num (wakes_one {c} j e on) calm w =
      (goes num c (ok (pos 1)) e (λ nr. cc) (λ f. cc) calm w, refl)
