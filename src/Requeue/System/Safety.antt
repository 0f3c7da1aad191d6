-- ===== src/Requeue/System/Safety.antt =====
-- functional/futex_requeue_pi.c: who holds f2 in every state that its threads reach.
use futextest.Common.{
  ℕ, ◌≡◌, ◌≢◌, Bool, sym, subst, ltb, if◌then◌else◌, ◌==◌, refl, some, true, false, arith, ◌∙◌, ◌≤◌,
}
use mathlib.Core.Option.{some-injective}
use futextest.Common.Int.{pos}
use futextest.Pi.{
  PiKernel, IsPi, Pi, Shared, Move, Thread, running, reads_blocked, blocks, reads_woken,
  adds_blocked, times_out, adds_woken, takes, queues, ok, unlocks, gets, requeues, refuses, fails,
  wakes, rests, returns, stirs, wakes_one, Access, failed, System, Step, Reach, start, later, pick,
  unlock,
}
use futextest.Requeue.System.{
  Pc, access, resume, threads, Reply, etimedout, init, counts_in, spins, blocker_locks,
  thread_count,
}
use futextest.Requeue.System.Rules.{
  Own, takes_holds, unlock_holds, IsPlain, plain_holds, times_out_holds, holds, holds_at, IsPlaced,
}
use futextest.Requeue.System.Owner.{
  blocks_other, dropped_other, takes_other, queues_other, unlocks_other, requeues_other, updated,
  away,
}
use futextest.Requeue.System.Steps.{
  blocks_own, takes_own, queues_own, gets_own, rests_own, returns_own, unlocks_own, requeues_own,
  drops_own, runs_on,
}
use futextest.Futex.Atomic.{atomic_inc}

module _ (k : PiKernel) (law : IsPi k) (n : ℕ) (broadcast lock_f2 timed : Bool) where
  plain :
      {p : Pi} {i : ℕ} (c : Pc) (r : Reply) {a : Access}
      → access n broadcast lock_f2 timed c ≡ a
      → IsPlain a
      → Own n broadcast lock_f2 timed p i (running c)
      → Own n broadcast lock_f2 timed p i (running (resume n broadcast lock_f2 timed c r))
  plain {p} {i} c r e h own =
      runs_on n broadcast lock_f2 timed p i c own (resume n broadcast lock_f2 timed c r)
        (plain_holds n broadcast lock_f2 timed c r (subst IsPlain (sym e) h))

  Move-Own :
      {i : ℕ} {s h : Shared} {t u : Thread Pc}
      → Move k (threads n broadcast lock_f2 timed) i s t h u
      → Own n broadcast lock_f2 timed s.pi i t
      → Own n broadcast lock_f2 timed h.pi i u
  Move-Own {i} {s} (reads_blocked {c} e) own = plain c (ok s.blocked.val) e tt own
  Move-Own {i} {s} (reads_woken {c} e) own = plain c (ok s.woken.val) e tt own
  Move-Own {i} {s} (adds_blocked {c} e) own = plain c (ok (atomic_inc s.blocked).1) e tt own
  Move-Own {i} {s} (adds_woken {c} e) own = plain c (ok (atomic_inc s.woken).1) e tt own
  Move-Own {i} {s} (blocks {c} e) own = blocks_own n broadcast lock_f2 timed s.pi i c own e
  Move-Own {i} {s} (times_out {c} e tm out) own =
      drops_own n broadcast lock_f2 timed s.pi i c own
        (resume n broadcast lock_f2 timed c (failed etimedout))
        (times_out_holds n broadcast lock_f2 timed c e) out
  Move-Own {i} {s} (takes {c} e free) own =
      let (h, _, placed, _) = takes_holds n broadcast lock_f2 timed c own.placed e in
      takes_own n broadcast lock_f2 timed s.pi i c own
        (resume n broadcast lock_f2 timed c (ok (pos 0))) (h, placed) free
  Move-Own {i} {s} (queues {c} e busy) own =
      let (_, h, _, placed) = takes_holds n broadcast lock_f2 timed c own.placed e in
      queues_own n broadcast lock_f2 timed s.pi i c own h placed busy
  Move-Own {i} {s} (gets {c} ne mine) own = gets_own n broadcast lock_f2 timed s.pi i c own ne mine
  Move-Own {i} {s} (unlocks {c} {q} e mine un) own =
      let (_, h, placed) = unlock_holds n broadcast lock_f2 timed c (ok (pos 0)) e in
      unlocks_own n broadcast lock_f2 timed s.pi i c own q
        (resume n broadcast lock_f2 timed c (ok (pos 0))) (h, placed) mine (law.unlocked un)
  Move-Own {i} {s} (refuses {c} e out) own =
      absurd (out (own.holder (unlock_holds n broadcast lock_f2 timed c (ok (pos 0)) e).0))
  Move-Own {i} {s} (requeues {c} {nr} {q} {count} e re) own =
      requeues_own n broadcast lock_f2 timed s.pi i c own q
        (resume n broadcast lock_f2 timed c (ok (pos count)))
        (plain_holds n broadcast lock_f2 timed c (ok (pos count)) (subst IsPlain (sym e) tt))
        (law.requeued re)
  Move-Own {i} {s} (fails {c} {nr} {e} eq err) own = plain c (failed e) eq tt own
  Move-Own {i} {s} (rests {c} e) own = rests_own n broadcast lock_f2 timed s.pi i c own e
  Move-Own {i} {s} (returns {c} e off) own =
      returns_own n broadcast lock_f2 timed s.pi i c own (ok (pos 0)) e
  Move-Own (stirs e) own = own
  Move-Own {i} {s} (wakes {c} e nobody) own = plain c (ok (pos 0)) e tt own
  Move-Own {i} {s} (wakes_one {c} j e on) own = plain c (ok (pos 1)) e tt own

  Move-Own_other :
      {i : ℕ} {s h : Shared} {t u : Thread Pc}
      → Move k (threads n broadcast lock_f2 timed) i s t h u
      → (j : ℕ) → j ≢ i
      → (w : Thread Pc) → Own n broadcast lock_f2 timed s.pi j w
      → Own n broadcast lock_f2 timed h.pi j w
  Move-Own_other {i} {s} (blocks _) j ne w own =
      blocks_other n broadcast lock_f2 timed s.pi s.pi i j ne w own
  Move-Own_other {i} {s} (times_out _ _ _) j ne w own =
      dropped_other n broadcast lock_f2 timed s.pi s.pi i j ne w own
  Move-Own_other {i} {s} (takes _ free) j ne w own =
      takes_other n broadcast lock_f2 timed s.pi s.pi i j ne w own free
  Move-Own_other {i} {s} (queues _ _) j ne w own =
      queues_other n broadcast lock_f2 timed s.pi s.pi i j ne w own
  Move-Own_other {i} {s} (unlocks {q} _ mine un) j ne w own =
      unlocks_other n broadcast lock_f2 timed s.pi q i j ne w own mine (law.unlocked un)
  Move-Own_other {i} {s} (requeues {q} _ re) j ne w own =
      requeues_other n broadcast lock_f2 timed s.pi q i j ne w own (law.requeued re)
  Move-Own_other _ j ne w own = own

  abbrev IsOwned : System Pc → Type 0
  IsOwned s = (j : ℕ) → Own n broadcast lock_f2 timed s.pi j (s.thread j)

  Step-Own :
      {count : ℕ} {s t : System Pc}
      → Step k (threads n broadcast lock_f2 timed) count s t
      → IsOwned s
      → IsOwned t
  Step-Own {s} (pick i {h} {t = u} lt m) own =
      updated (Own n broadcast lock_f2 timed h.pi) s.thread i u (Move-Own m (own i))
        (λ j ne. Move-Own_other m j ne (s.thread j) (own j))

  Init-Own : IsOwned (init n)
  Init-Own j =
      elim (ltb j n)
        as (λ b.
          Own n broadcast lock_f2 timed (init n).pi j
            (running (if b then counts_in else if j == n then spins else blocker_locks))) [
              | true ↦ new counts_in refl tt
              | false ↦
                  elim (j == n)
                    as (λ b.
                      Own n broadcast lock_f2 timed (init n).pi j
                        (running (if b then spins else blocker_locks))) [
                          | true ↦ new spins refl tt
                          | false ↦ new blocker_locks refl tt
                        ]
            ]
    where
      new :
          (c : Pc)
          → holds_at n broadcast lock_f2 timed c ≡ false
          → IsPlaced n broadcast lock_f2 timed (running c)
          → Own n broadcast lock_f2 timed (init n).pi j (running c)
      new c free placed = record {
        owns = ground (arith);
        holder = ground (arith);
        one = ground (arith);
        two = ground (arith);
        asleep = ground (arith);
        placed = placed;
      }

  pub Reach-Own :
      {count : ℕ} {s : System Pc}
      → Reach k (threads n broadcast lock_f2 timed) count (init n) s
      → (j : ℕ) → Own n broadcast lock_f2 timed s.pi j (s.thread j)
  Reach-Own start j = Init-Own j
  Reach-Own (later r st) j = Step-Own st (Reach-Own r) j

  -- A thread that takes no part is where it was at first.
  pub idle :
      {count : ℕ} {s : System Pc}
      → Reach k (threads n broadcast lock_f2 timed) count (init n) s
      → (j : ℕ) → count ≤ j
      → s.thread j ≡ (init n).thread j
  idle start j le = refl
  idle (later {t = s} r (pick i {t = u} lt m)) j le =
      away s.thread i j u (ground arith) ∙ idle r j le

  -- On a kernel whose PI calls do what futex(2) says, whichever waiter it picks, with each waker, with and
  -- without the third-party owner: when a thread of the test comes to FUTEX_UNLOCK_PI of f2, it holds f2, and
  -- no other thread comes to it.
  pub requeue_unlocks_own :
      (third_party : Bool) {s : System Pc} {i : ℕ} {c : Pc}
      → Reach k (threads n broadcast lock_f2 timed) (thread_count third_party n) (init n) s
      → s.thread i ≡ running c
      → access n broadcast lock_f2 timed c ≡ unlock
      → (s.pi.owner ≡ some i)
        × ((j : ℕ) (d : Pc)
            → s.thread j ≡ running d
            → access n broadcast lock_f2 timed d ≡ unlock
            → i ≡ j)
  requeue_unlocks_own _ {s} {i} {c} r at e =
      (mine i c at e, λ j d there f. some-injective i j (sym (mine i c at e) ∙ mine j d there f))
    where
      mine :
          (j : ℕ) (d : Pc)
          → s.thread j ≡ running d
          → access n broadcast lock_f2 timed d ≡ unlock
          → s.pi.owner ≡ some j
      mine j d there f = (Reach-Own r j).holder (
          subst (λ t. holds n broadcast lock_f2 timed t ≡ true) (sym there)
            (unlock_holds n broadcast lock_f2 timed d (ok (pos 0)) f).0)
