-- ===== src/Requeue/System/Moves.antt =====
-- functional/futex_requeue_pi.c: what one step makes of a waiter, and of the numbers of waiters.
use futextest.Common.{ℕ, ◌≤◌, ◌≡◌, ◌≢◌, ◌⊎◌, inl, inr, Bool, true, refl, sym, arith, ◌∙◌}
use futextest.Common.Int.{pos}
use futextest.Pi.{
  PiKernel, Shared, Move, Thread, running, waiting, reads_blocked, blocks, reads_woken,
  adds_blocked, times_out, adds_woken, takes, queues, ok, unlocks, gets, requeues, refuses, fails,
  wakes, rests, returns, stirs, wakes_one, wait_complete, failed, wait_requeue, lock, inc_woken,
  Access,
}
use futextest.Requeue.System.{
  Pc, counts_in, waits, counts_out, relocks, access, resume, threads, Reply, etimedout, releases,
  exited, blocker_waits,
}
use futextest.Requeue.System.Codes.{gone, out, IsWaiter, IsWaiter-resume}
use futextest.Futex.Atomic.{atomic_inc}

module _ (n : ℕ) (broadcast lock_f2 timed : Bool) where
  waiting_waiter :
      (c : Pc)
      → IsWaiter timed (running c)
      → (access n broadcast lock_f2 timed c ≡ wait_requeue)
        ⊎ (access n broadcast lock_f2 timed c ≡ lock)
      → IsWaiter timed (waiting c)
  waiting_waiter waits h e = tt
  waiting_waiter (relocks ret) h e = h
  waiting_waiter counts_in h e = ground arith
  waiting_waiter (counts_out ret) h e = ground arith
  waiting_waiter (releases ret) h e = ground arith
  waiting_waiter (exited ret) h e = ground arith
  waiting_waiter _ h e = absurd h

  -- No waiter comes to wake_complete.
  waiter_never :
      {P : Type 0} (c : Pc)
      → access n broadcast lock_f2 timed c ≡ wait_complete
      → IsWaiter timed (running c) ⊎ IsWaiter timed (waiting c)
      → P
  waiter_never blocker_waits e w = absurd (elim w [ inl h ↦ h | inr h ↦ h ])
  waiter_never _ e w = cc

  got_waiter :
      (c : Pc)
      → IsWaiter timed (waiting c)
      → IsWaiter timed (running (resume n broadcast lock_f2 timed c (ok (pos 0))))
  unfolding resume
  got_waiter waits h = ground arith
  got_waiter (relocks ret) h = h
  got_waiter _ h = absurd h

  late_waiter :
      (c : Pc)
      → timed ≡ true
      → access n broadcast lock_f2 timed c ≡ wait_requeue
      → IsWaiter timed (running (resume n broadcast lock_f2 timed c (failed etimedout)))
  unfolding resume
  late_waiter waits tm e = ground arith
  late_waiter _ tm e = cc

  -- The two numbers never fall.
  gone_resume :
      (c : Pc) (r : Reply) (a b : Bool)
      → IsWaiter timed (running c)
      → gone (running c) a ≤ gone (running (resume n broadcast lock_f2 timed c r)) b
  unfolding resume
  gone_resume counts_in r a b h = ground arith
  gone_resume waits r a b h = ground arith
  gone_resume (counts_out q) r a b h = ground arith
  gone_resume (relocks ret) r a b h = ground arith
  gone_resume (releases ret) r a b h = ground arith
  gone_resume (exited ret) r a b h = ground arith
  gone_resume _ r a b h = absurd h

  gone_woken :
      (c : Pc) (r : Reply) (a b : Bool)
      → IsWaiter timed (waiting c)
      → gone (waiting c) a ≤ gone (running (resume n broadcast lock_f2 timed c r)) b
  unfolding resume
  gone_woken waits r a b h = ground arith
  gone_woken (relocks ret) r a b h = ground arith
  gone_woken _ r a b h = absurd h

  gone_asleep :
      (c : Pc) (a b : Bool) → IsWaiter timed (waiting c) → gone (running c) a ≤ gone (waiting c) b
  gone_asleep waits a b h = ground arith
  gone_asleep (relocks ret) a b h = ground arith
  gone_asleep _ a b h = absurd h

  out_resume :
      (c : Pc) (r : Reply)
      → IsWaiter timed (running c)
      → access n broadcast lock_f2 timed c ≢ inc_woken
      → out (running (resume n broadcast lock_f2 timed c r)) ≡ out (running c)
  unfolding resume
  out_resume counts_in r h ne = ground arith
  out_resume waits r h ne = ground arith
  out_resume (counts_out q) r h ne = absurd (ne (λ i. inc_woken))
  out_resume (relocks ret) r h ne = ground arith
  out_resume (releases ret) r h ne = ground arith
  out_resume (exited ret) r h ne = ground arith
  out_resume _ r h ne = absurd h

  out_woken :
      (c : Pc) (r : Reply)
      → IsWaiter timed (waiting c)
      → out (running (resume n broadcast lock_f2 timed c r)) ≡ out (waiting c)
  unfolding resume
  out_woken waits r h = ground arith
  out_woken (relocks ret) r h = ground arith
  out_woken _ r h = absurd h

  out_asleep : (c : Pc) → IsWaiter timed (waiting c) → out (waiting c) ≡ out (running c)
  out_asleep waits h = ground arith
  out_asleep (relocks ret) h = ground arith
  out_asleep _ h = absurd h

  counts_out_lem :
      (c : Pc) (r : Reply)
      → access n broadcast lock_f2 timed c ≡ inc_woken
      → (out (running c) ≡ 0) × (out (running (resume n broadcast lock_f2 timed c r)) ≡ 1)
  unfolding resume
  counts_out_lem (counts_out q) r e = ground arith
  counts_out_lem _ r e = cc

  -- A step of a waiter: it stays one, and waiters_woken counts it as it passes the increment.
  pub record Went (s h : Shared) (t u : Thread Pc) : Type 0 where
    pub waiter : IsWaiter timed u
    pub leaves : (a b : Bool) → gone t a ≤ gone u b
    pub counted :
        ((out u ≡ out t) × (h.woken ≡ s.woken))
        ⊎ ((out t ≡ 0) × (out u ≡ 1) × (h.woken ≡ (atomic_inc s.woken).0))

  runs :
      {s h : Shared} (c : Pc) (r : Reply) {a : Access}
      → access n broadcast lock_f2 timed c ≡ a
      → a ≢ inc_woken
      → a ≢ wait_requeue
      → h.woken ≡ s.woken
      → IsWaiter timed (running c)
      → Went s h (running c) (running (resume n broadcast lock_f2 timed c r))
  runs c r e ne nw same h = record {
    waiter = IsWaiter-resume n broadcast lock_f2 timed c r h (λ f. absurd (nw (sym e ∙ f)));
    leaves = λ a b. gone_resume c r a b h;
    counted = inl (out_resume c r h (λ f. ne (sym e ∙ f)), same);
  }

  sleeps :
      {s h : Shared} (c : Pc)
      → (access n broadcast lock_f2 timed c ≡ wait_requeue)
        ⊎ (access n broadcast lock_f2 timed c ≡ lock)
      → h.woken ≡ s.woken
      → IsWaiter timed (running c)
      → Went s h (running c) (waiting c)
  sleeps c e same h =
      let w = waiting_waiter c h e in
      record {
        waiter = w;
        leaves = λ a b. gone_asleep c a b w;
        counted = inl (out_asleep c w, same);
      }

  wakes_up :
      {s h : Shared} (c : Pc) (r : Reply)
      → h.woken ≡ s.woken
      → IsWaiter timed (waiting c)
      → IsWaiter timed (running (resume n broadcast lock_f2 timed c r))
      → Went s h (waiting c) (running (resume n broadcast lock_f2 timed c r))
  wakes_up c r same h w = record {
    waiter = w;
    leaves = λ a b. gone_woken c r a b h;
    counted = inl (out_woken c r h, same);
  }

  pub Move-Went :
      {k : PiKernel} {i : ℕ} {s h : Shared} {t u : Thread Pc}
      → Move k (threads n broadcast lock_f2 timed) i s t h u
      → IsWaiter timed t
      → Went s h t u
  Move-Went {s} (reads_blocked {c} e) w = runs c (ok s.blocked.val) e (cc) (cc) refl w
  Move-Went {s} (reads_woken {c} e) w = runs c (ok s.woken.val) e (cc) (cc) refl w
  Move-Went {s} (adds_blocked {c} e) w = runs c (ok (atomic_inc s.blocked).1) e (cc) (cc) refl w
  Move-Went {s} (adds_woken {c} e) w =
      let r = ok (atomic_inc s.woken).1 in
      record {
        waiter = IsWaiter-resume n broadcast lock_f2 timed c r w (λ f. cc);
        leaves = λ a b. gone_resume c r a b w;
        counted = let (x, y) = counts_out_lem c r e in inr (x, y, refl);
      }
  Move-Went (blocks {c} e) w = sleeps c (inl e) refl w
  Move-Went (times_out {c} e tm out_) w = wakes_up c (failed etimedout) refl w (late_waiter c tm e)
  Move-Went (takes {c} e free) w = runs c (ok (pos 0)) e (cc) (cc) refl w
  Move-Went (queues {c} e busy) w = sleeps c (inr e) refl w
  Move-Went (gets {c} ne mine) w = wakes_up c (ok (pos 0)) refl w (got_waiter c w)
  Move-Went (unlocks {c} e mine un) w = runs c (ok (pos 0)) e (cc) (cc) refl w
  Move-Went (refuses {c} e other) w = runs c (failed (pos 1)) e (cc) (cc) refl w
  Move-Went (requeues {c} {count = m} e re) w = runs c (ok (pos m)) e (cc) (cc) refl w
  Move-Went (fails {c} {e = x} e err) w = runs c (failed x) e (cc) (cc) refl w
  Move-Went (rests {c} e) w = waiter_never c e (inl w)
  Move-Went (returns {c} e off) w = waiter_never c e (inr w)
  Move-Went (stirs {c} e) w = waiter_never c e (inr w)
  Move-Went (wakes {c} e nobody) w = runs c (ok (pos 0)) e (cc) (cc) refl w
  Move-Went (wakes_one {c} j e on) w = runs c (ok (pos 1)) e (cc) (cc) refl w
