-- ===== src/Requeue/System/Early.antt =====
-- functional/futex_requeue_pi.c: `broadcast_wakerfn` with the option -l and no timeout, up to its unlock of f2.
use futextest.Common.{
  ℕ, ◌<◌, ◌≡◌, ◌≢◌, Bool, true, false, none, refl, sym, arith, ◌∙◌, subst, ap, Option,
}
use futextest.Common.Int.{pos}
use futextest.Functional.{Reply, etimedout}
use futextest.Pi.{
  PiKernel, IsPi, Shared, Move, Thread, running, waiting, System, reads_blocked, reads_woken,
  adds_blocked, adds_woken, blocks, times_out, takes, queues, gets, unlocks, refuses, requeues,
  fails, wakes, rests, returns, stirs, wakes_one, wait_complete, ok, lock, Access, failed,
  wait_requeue, load_blocked,
}
use futextest.Requeue.System.{
  Pc, counts_in, waits, spins, signals, lets_go, broadcast_locks, broadcasts, rechecks, access,
  resume, threads, after_requeue, next_round, after_broadcast, Loop, code_of,
}
use futextest.Requeue.System.Rules.{Own, IsPlaced}
use futextest.Futex.Atomic.{atomic_inc}

-- A waker that has not come to its unlock of f2, and a waiter that has not got f2.
abbrev pub IsEarly : Thread Pc → Type 0
IsEarly (running spins) = Unit {0}
IsEarly (running broadcast_locks) = Unit {0}
IsEarly (running (broadcasts _)) = Unit {0}
IsEarly (running (rechecks _)) = Unit {0}
IsEarly _ = ⊥

abbrev pub IsFresh : Thread Pc → Type 0
IsFresh (running counts_in) = Unit {0}
IsFresh (running waits) = Unit {0}
IsFresh (waiting waits) = Unit {0}
IsFresh _ = ⊥

-- It has not locked f2.
abbrev pub IsBefore : Thread Pc → Type 0
IsBefore (running spins) = Unit {0}
IsBefore (running broadcast_locks) = Unit {0}
IsBefore _ = ⊥

abbrev pc_of : Thread Pc → Pc
pc_of (running c) = c
pc_of (waiting c) = c

pub record Early (n : ℕ) (s : System Pc) : Type 0 where
  pub fresh : IsEarly (s.thread n) → (j : ℕ) → j < n → IsFresh (s.thread j)
  pub free : IsBefore (s.thread n) → s.pi.owner ≡ none
  pub never : s.thread n ≢ waiting broadcast_locks

module _ (k : PiKernel) (law : IsPi k) (n : ℕ) (broadcast lock_f2 timed : Bool)
    (locks_f2 : lock_f2 ≡ true) (patient : timed ≡ false) where
  after_requeue_late :
      (v : Loop) → IsEarly (running (after_requeue n broadcast lock_f2 timed v)) → ⊥
  unfolding after_requeue next_round
  after_requeue_late v h = ground (arith, h)

  not_spins :
      {o : Option ℕ} (c : Pc) {a : Access}
      → access n broadcast lock_f2 timed c ≡ a
      → load_blocked ≢ a
      → c ≡ spins
      → o ≡ none
  not_spins c e ne same = absurd (ne (sym (ap (access n broadcast lock_f2 timed) same) ∙ e))

  IsEarly-back :
      (c : Pc) (r : Reply)
      → IsEarly (running (resume n broadcast lock_f2 timed c r))
      → IsEarly (running c)
  unfolding resume
  IsEarly-back spins r h = tt
  IsEarly-back broadcast_locks r h = tt
  IsEarly-back (broadcasts v) r h = tt
  IsEarly-back (rechecks v) r h = tt
  IsEarly-back (lets_go v) r h = absurd (after_requeue_late v h)
  IsEarly-back (signals v) r h =
      ground (arith, h, after_requeue_late (record v { ret = code_of r }))
  IsEarly-back c r h = ground (arith, h)

  pub IsBefore-IsEarly : (t : Thread Pc) → IsBefore t → IsEarly t
  IsBefore-IsEarly t h = ground (arith, h)

  IsBefore-back :
      (c : Pc) (r : Reply) → IsBefore (running (resume n broadcast lock_f2 timed c r)) → c ≡ spins
  unfolding resume after_broadcast
  IsBefore-back spins r h = refl
  IsBefore-back broadcast_locks r h = ground (arith, h)
  IsBefore-back (broadcasts v) r h = ground (arith, h)
  IsBefore-back (rechecks v) r h = ground (arith, h)
  IsBefore-back c r h =
      absurd
        (IsEarly-back c r (IsBefore-IsEarly (running (resume n broadcast lock_f2 timed c r)) h))

  IsEarly-access :
      (c : Pc) → IsEarly (running c) → access n broadcast lock_f2 timed c ≢ wait_requeue
  IsEarly-access spins h = cc
  IsEarly-access broadcast_locks h = cc
  IsEarly-access (broadcasts v) h = cc
  IsEarly-access (rechecks v) h = cc
  IsEarly-access _ h = absurd h

  IsEarly-rest : (c : Pc) → IsEarly (running c) → access n broadcast lock_f2 timed c ≢ wait_complete
  IsEarly-rest spins h = cc
  IsEarly-rest broadcast_locks h = cc
  IsEarly-rest (broadcasts v) h = cc
  IsEarly-rest (rechecks v) h = cc
  IsEarly-rest _ h = absurd h

  IsEarly-placed :
      (c : Pc)
      → IsEarly (running c)
      → IsPlaced n broadcast lock_f2 timed (waiting c)
      → c ≡ broadcast_locks
  IsEarly-placed spins h p = absurd p
  IsEarly-placed broadcast_locks h p = refl
  IsEarly-placed (broadcasts v) h p = absurd p
  IsEarly-placed (rechecks v) h p = absurd p
  IsEarly-placed _ h p = absurd h

  -- A step of the waker to an early place is from an early place.
  pub Move-IsEarly :
      {i : ℕ} {s h : Shared} {t u : Thread Pc}
      → Move k (threads n broadcast lock_f2 timed) i s t h u
      → Own n broadcast lock_f2 timed s.pi i t
      → t ≢ waiting broadcast_locks
      → IsEarly u
      → IsEarly t
  Move-IsEarly {s} (reads_blocked {c} e) own ne early = IsEarly-back c (ok s.blocked.val) early
  Move-IsEarly {s} (reads_woken {c} e) own ne early = IsEarly-back c (ok s.woken.val) early
  Move-IsEarly {s} (adds_blocked {c} e) own ne early =
      IsEarly-back c (ok (atomic_inc s.blocked).1) early
  Move-IsEarly {s} (adds_woken {c} e) own ne early =
      IsEarly-back c (ok (atomic_inc s.woken).1) early
  Move-IsEarly (blocks {c} e) own ne early = absurd early
  Move-IsEarly (times_out {c} e tm out_) own ne early =
      absurd (IsEarly-access c (IsEarly-back c (failed etimedout) early) e)
  Move-IsEarly (takes {c} e free) own ne early = IsEarly-back c (ok (pos 0)) early
  Move-IsEarly (queues {c} e busy) own ne early = absurd early
  Move-IsEarly (gets {c} off mine) own ne early =
      absurd (ne (ap waiting (IsEarly-placed c (IsEarly-back c (ok (pos 0)) early) own.placed)))
  Move-IsEarly (unlocks {c} e mine un) own ne early = IsEarly-back c (ok (pos 0)) early
  Move-IsEarly (refuses {c} e other) own ne early = IsEarly-back c (failed (pos 1)) early
  Move-IsEarly (requeues {c} {count = m} e re) own ne early = IsEarly-back c (ok (pos m)) early
  Move-IsEarly (fails {c} {e = x} e err) own ne early = IsEarly-back c (failed x) early
  Move-IsEarly (rests {c} e) own ne early = absurd early
  Move-IsEarly (returns {c} e off) own ne early =
      absurd (IsEarly-rest c (IsEarly-back c (ok (pos 0)) early) e)
  Move-IsEarly (stirs {c} e) own ne early = absurd early
  Move-IsEarly (wakes {c} e nobody) own ne early = IsEarly-back c (ok (pos 0)) early
  Move-IsEarly (wakes_one {c} j e on) own ne early = IsEarly-back c (ok (pos 1)) early

  -- Before it has locked f2 the waker only reads.
  pub Move-IsBefore :
      {i : ℕ} {s h : Shared} {t u : Thread Pc}
      → Move k (threads n broadcast lock_f2 timed) i s t h u
      → Own n broadcast lock_f2 timed s.pi i t
      → (IsBefore t → s.pi.owner ≡ none)
      → IsBefore u
      → h.pi.owner ≡ none
  Move-IsBefore {s} (reads_blocked {c} e) own free h =
      free (subst (λ x. IsBefore (running x)) (sym (IsBefore-back c (ok s.blocked.val) h)) tt)
  Move-IsBefore {s} (reads_woken {c} e) own free h =
      not_spins c e (cc) (IsBefore-back c (ok s.woken.val) h)
  Move-IsBefore {s} (adds_blocked {c} e) own free h =
      not_spins c e (cc) (IsBefore-back c (ok (atomic_inc s.blocked).1) h)
  Move-IsBefore {s} (adds_woken {c} e) own free h =
      not_spins c e (cc) (IsBefore-back c (ok (atomic_inc s.woken).1) h)
  Move-IsBefore (blocks {c} e) own free h = absurd h
  Move-IsBefore (times_out {c} e tm out_) own free h =
      not_spins c e (cc) (IsBefore-back c (failed etimedout) h)
  Move-IsBefore (takes {c} e none_there) own free h =
      not_spins c e (cc) (IsBefore-back c (ok (pos 0)) h)
  Move-IsBefore (queues {c} e busy) own free h = absurd h
  Move-IsBefore (gets {c} off mine) own free h = absurd (
      subst (λ x. IsPlaced n broadcast lock_f2 timed (waiting x)) (IsBefore-back c (ok (pos 0)) h)
        own.placed)
  Move-IsBefore (unlocks {c} e mine un) own free h =
      not_spins c e (cc) (IsBefore-back c (ok (pos 0)) h)
  Move-IsBefore (refuses {c} e other) own free h =
      not_spins c e (cc) (IsBefore-back c (failed (pos 1)) h)
  Move-IsBefore (requeues {c} {count = m} e re) own free h =
      not_spins c e (cc) (IsBefore-back c (ok (pos m)) h)
  Move-IsBefore (fails {c} {e = x} e err) own free h =
      not_spins c e (cc) (IsBefore-back c (failed x) h)
  Move-IsBefore (rests {c} e) own free h = absurd h
  Move-IsBefore (returns {c} e off) own free h = not_spins c e (cc) (IsBefore-back c (ok (pos 0)) h)
  Move-IsBefore (stirs {c} e) own free h = absurd h
  Move-IsBefore (wakes {c} e nobody) own free h =
      not_spins c e (cc) (IsBefore-back c (ok (pos 0)) h)
  Move-IsBefore (wakes_one {c} j e on) own free h =
      not_spins c e (cc) (IsBefore-back c (ok (pos 1)) h)

  lock_not_wait : lock ≢ wait_requeue
  lock_not_wait = cc

  lock_not_rest : lock ≢ wait_complete
  lock_not_rest = cc

  pub Move_never :
      {i : ℕ} {s h : Shared} {t u : Thread Pc}
      → Move k (threads n broadcast lock_f2 timed) i s t h u
      → (IsBefore t → s.pi.owner ≡ none)
      → u ≢ waiting broadcast_locks
  Move_never (blocks {c} e) free same =
      absurd (lock_not_wait (sym (ap (λ t. access n broadcast lock_f2 timed (pc_of t)) same) ∙ e))
  Move_never (queues {c} e busy) free same =
      busy (free (subst (λ t. IsBefore (running (pc_of t))) (sym same) tt))
  Move_never (rests {c} e) free same =
      absurd (lock_not_rest (sym (ap (λ t. access n broadcast lock_f2 timed (pc_of t)) same) ∙ e))
  Move_never (stirs {c} e) free same =
      absurd (lock_not_rest (sym (ap (λ t. access n broadcast lock_f2 timed (pc_of t)) same) ∙ e))
  Move_never _ free same = cc
