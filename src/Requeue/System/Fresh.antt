-- ===== src/Requeue/System/Fresh.antt =====
-- functional/futex_requeue_pi.c: with the option -l and no timeout no waiter gets f2 before
-- `broadcast_wakerfn` unlocks it.
use futextest.Common.{
  ℕ, suc, ◌<◌, ◌≡◌, ◌≢◌, Bool, true, false, none, some, refl, sym, arith, ◌∙◌, subst, update, ◌⊎◌,
  inl, inr, dec_lt, ◌==◌, if◌then◌else◌, ltb,
}
use mathlib.Core.Option.{some-injective}
use futextest.Functional.{Reply}
use futextest.Pi.{
  PiKernel, IsPi, Pi, Shared, Move, Thread, running, waiting, System, Reach, start, later, pick,
  reads_blocked, reads_woken, adds_blocked, adds_woken, blocks, times_out, takes, queues, gets,
  unlocks, refuses, requeues, fails, wakes, rests, returns, stirs, wakes_one, wait_complete, ok,
  Access, wait_requeue, inc_blocked,
}
use futextest.Requeue.System.{
  Pc, counts_in, waits, spins, broadcast_locks, broadcasts, rechecks, access, resume, threads, init,
  blocker_locks,
}
use futextest.Requeue.System.Rules.{Own}
use futextest.Requeue.System.Owner.{away, here, updated}
use futextest.Requeue.System.Safety.{Reach-Own}
use futextest.Requeue.System.Early.{
  IsEarly, IsFresh, IsBefore, Early, Move-IsEarly, Move-IsBefore, Move_never, IsBefore-IsEarly,
}
use futextest.Futex.Atomic.{atomic_inc}

module _ (n : ℕ) (broadcast lock_f2 timed : Bool) where
  fresh_resume :
      (c : Pc) (r : Reply) {a : Access}
      → access n broadcast lock_f2 timed c ≡ a
      → a ≢ wait_requeue
      → IsFresh (running c)
      → IsFresh (running (resume n broadcast lock_f2 timed c r))
  unfolding resume
  fresh_resume counts_in r e ne h = tt
  fresh_resume waits r e ne h = absurd (ne (sym e))
  fresh_resume _ r e ne h = absurd h

  fresh_waits :
      (c : Pc)
      → access n broadcast lock_f2 timed c ≡ wait_requeue
      → IsFresh (running c)
      → IsFresh (waiting c)
  fresh_waits counts_in e h = cc
  fresh_waits waits e h = tt
  fresh_waits _ e h = absurd h

  fresh_access :
      (c : Pc)
      → IsFresh (running c)
      → (access n broadcast lock_f2 timed c ≡ inc_blocked)
        ⊎ (access n broadcast lock_f2 timed c ≡ wait_requeue)
  fresh_access counts_in h = inl (λ i. inc_blocked)
  fresh_access waits h = inr (λ i. wait_requeue)
  fresh_access _ h = absurd h

  fresh_not :
      {P : Type 0} (c : Pc) {a : Access}
      → access n broadcast lock_f2 timed c ≡ a
      → a ≢ inc_blocked
      → a ≢ wait_requeue
      → IsFresh (running c)
      → P
  fresh_not c e ni nw h = elim (fresh_access c h) [
    | inl f ↦ absurd (ni (sym e ∙ f))
    | inr f ↦ absurd (nw (sym e ∙ f))
  ]

  fresh_rest :
      {P : Type 0} (c : Pc)
      → access n broadcast lock_f2 timed c ≡ wait_complete
      → IsFresh (waiting c)
      → P
  fresh_rest waits e h = cc
  fresh_rest _ e h = absurd h

  -- A step of a waiter that has not got f2.
  Move-IsFresh :
      {k : PiKernel} {i : ℕ} {s h : Shared} {t u : Thread Pc}
      → timed ≡ false
      → Move k (threads n broadcast lock_f2 timed) i s t h u
      → s.pi.owner ≢ some i
      → IsFresh t
      → IsFresh u × (h.pi.owner ≡ s.pi.owner)
  Move-IsFresh {s} pt (adds_blocked {c} e) no_owner f =
      (fresh_resume c (ok (atomic_inc s.blocked).1) e (cc) f, refl)
  Move-IsFresh pt (blocks {c} e) no_owner f = (fresh_waits c e f, refl)
  Move-IsFresh pt (times_out {c} e tm out_) no_owner f = absurd (both (sym pt ∙ tm))
    where
      both : false ≢ true
      both = cc
  Move-IsFresh pt (gets {c} ne mine) no_owner f = absurd (no_owner mine)
  Move-IsFresh pt (reads_blocked {c} e) no_owner f = fresh_not c e (cc) (cc) f
  Move-IsFresh pt (reads_woken {c} e) no_owner f = fresh_not c e (cc) (cc) f
  Move-IsFresh pt (adds_woken {c} e) no_owner f = fresh_not c e (cc) (cc) f
  Move-IsFresh pt (takes {c} e free) no_owner f = fresh_not c e (cc) (cc) f
  Move-IsFresh pt (queues {c} e busy) no_owner f = fresh_not c e (cc) (cc) f
  Move-IsFresh pt (unlocks {c} e mine un) no_owner f = fresh_not c e (cc) (cc) f
  Move-IsFresh pt (refuses {c} e other) no_owner f = fresh_not c e (cc) (cc) f
  Move-IsFresh pt (requeues {c} e re) no_owner f = fresh_not c e (cc) (cc) f
  Move-IsFresh pt (fails {c} e err) no_owner f = fresh_not c e (cc) (cc) f
  Move-IsFresh pt (rests {c} e) no_owner f = fresh_not c e (cc) (cc) f
  Move-IsFresh pt (returns {c} e off) no_owner f = fresh_rest c e f
  Move-IsFresh pt (stirs {c} e) no_owner f = fresh_rest c e f
  Move-IsFresh pt (wakes {c} e nobody) no_owner f = fresh_not c e (cc) (cc) f
  Move-IsFresh pt (wakes_one {c} j e on) no_owner f = fresh_not c e (cc) (cc) f

module _ (k : PiKernel) (law : IsPi k) (n : ℕ) (broadcast lock_f2 timed : Bool)
    (locks_f2 : lock_f2 ≡ true) (patient : timed ≡ false) where
  -- While the waker has not unlocked f2, no waiter holds it.
  IsEarly-owner :
      {p : Pi} {t : Thread Pc}
      → Own n broadcast lock_f2 timed p n t
      → (IsBefore t → p.owner ≡ none)
      → IsEarly t
      → (i : ℕ) → i ≢ n
      → p.owner ≢ some i
  IsEarly-owner {t = running spins} own free h i ne e = ground (arith, free tt, e)
  IsEarly-owner {t = running broadcast_locks} own free h i ne e = ground (arith, free tt, e)
  IsEarly-owner {t = running (broadcasts v)} own free h i ne e =
      ne (some-injective i n (sym e ∙ own.holder locks_f2))
  IsEarly-owner {t = running (rechecks v)} own free h i ne e =
      ne (some-injective i n (sym e ∙ own.holder locks_f2))
  IsEarly-owner {t = running _} own free h i ne e = h
  IsEarly-owner {t = waiting _} own free h i ne e = h

  waiter_step :
      {s : System Pc} (i : ℕ) {h : Shared} {u : Thread Pc}
      → i < n
      → Move k (threads n broadcast lock_f2 timed) i s.shared (s.thread i) h u
      → Own n broadcast lock_f2 timed s.pi n (s.thread n)
      → Early n s
      → Early n (record { shared = h; thread = update s.thread i u })
  waiter_step {s} i {h} {u} lt m own early =
      let at_n : update s.thread i u n ≡ s.thread n = away s.thread i n u (ground arith) in
      let moved : IsEarly (s.thread n) → IsFresh u × (h.pi.owner ≡ s.pi.owner) = λ e.
        Move-IsFresh n broadcast lock_f2 timed patient m
          (IsEarly-owner own early.free e i (ground arith)) (early.fresh e i lt) in
      record {
        fresh = λ e.
            let e' = subst IsEarly at_n e in
            updated (λ j t. j < n → IsFresh t) s.thread i u (λ _. (moved e').0)
              (λ j ne. early.fresh e' j);
        free = λ b.
            let b' = subst IsBefore at_n b in
            (moved
              (IsBefore-IsEarly k law n broadcast lock_f2 timed locks_f2 patient (s.thread n) b')).1
            ∙ early.free b';
        never = λ e. early.never (sym at_n ∙ e);
      }

  waker_step :
      {s : System Pc} {h : Shared} {u : Thread Pc}
      → Move k (threads n broadcast lock_f2 timed) n s.shared (s.thread n) h u
      → Own n broadcast lock_f2 timed s.pi n (s.thread n)
      → Early n s
      → Early n (record { shared = h; thread = update s.thread n u })
  waker_step {s} {h} {u} m own early =
      let at_n : update s.thread n u n ≡ u = here s.thread n u in
      record {
        fresh = λ e j lt. subst IsFresh (sym (away s.thread n j u (ground arith))) (
            early.fresh
              (Move-IsEarly k law n broadcast lock_f2 timed locks_f2 patient m own early.never
                (subst IsEarly at_n e))
              j lt);
        free = λ b.
            Move-IsBefore k law n broadcast lock_f2 timed locks_f2 patient m own early.free
              (subst IsBefore at_n b);
        never = λ e.
            Move_never k law n broadcast lock_f2 timed locks_f2 patient m early.free (sym at_n ∙ e);
      }

  Init-Early : Early n (init n)
  Init-Early = record {
    fresh = λ e j lt. fresh_start (ltb j n) (j == n) (ground arith);
    free = λ b. refl;
    never = cc;
  }
    where
      fresh_start :
          (b c : Bool)
          → b ≡ true
          → IsFresh (running (if b then counts_in else if c then spins else blocker_locks))
      fresh_start b c e = ground (arith, e)

  pub Reach-Early :
      {s : System Pc} → Reach k (threads n broadcast lock_f2 timed) (suc n) (init n) s → Early n s
  Reach-Early start = Init-Early
  Reach-Early (later {t = s} r (pick i {h} {t = u} lt m)) = elim (dec_lt i n) [
    | yes below ↦
        waiter_step i below m (Reach-Own k law n broadcast lock_f2 timed r n) (Reach-Early r)
    | no last ↦
        let e : n ≡ i = omega arith in
        subst
          (λ x.
            Move k (threads n broadcast lock_f2 timed) x s.shared (s.thread x) h u
            → Early n (record { shared = h; thread = update s.thread x u }))
          e
          (λ own_step.
            waker_step own_step (Reach-Own k law n broadcast lock_f2 timed r n) (Reach-Early r))
          m
  ]
