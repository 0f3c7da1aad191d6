-- ===== src/Requeue/System/Paces.antt =====
-- functional/futex_requeue_pi.c: how many steps its threads take.
use futextest.Common.{
  zero, true, false, ℕ, ◌<◌, ◌≡◌, ◌≢◌, ◌⊎◌, inl, inr, Bool, refl, arith, ap, sym, ◌∙◌, total,
  update, ◌≤◌, suc, ◌*◌, ◌+◌, total_change, subst,
}
use futextest.Common.Int.{pos}
use futextest.Functional.{Reply, etimedout}
use futextest.Futex.Atomic.{atomic_inc}
use futextest.Pi.{
  PiKernel, Shared, Move, Thread, running, waiting, Access, reads_blocked, blocks, reads_woken,
  adds_blocked, times_out, adds_woken, takes, queues, ok, unlocks, gets, requeues, refuses, fails,
  wakes, rests, returns, stirs, wakes_one, failed, halt, System, Reach, IsPi, start, later, pick,
}
use futextest.Requeue.System.{
  Pc, spins, waits, relocks, locks, broadcast_locks, blocker_locks, blocker_waits, access, resume,
  threads, init, thread_count, counts_in,
}
use futextest.Requeue.System.Rules.{rests_holds, Own, IsPlaced}
use futextest.Requeue.System.Measure.{thread_left, resume_left}
use futextest.Requeue.System.Safety.{Reach-Own}
use futextest.Requeue.System.Owner.{away, here}

-- A waker that waits for the waiters, and a third-party owner that waits for the waker.
abbrev pub IsIdle : Thread Pc → Type 0
IsIdle (running spins) = Unit {0}
IsIdle (waiting blocker_waits) = Unit {0}
IsIdle _ = ⊥

module _ (n : ℕ) (broadcast lock_f2 timed : Bool) where
  IsPlaced-on :
      (c : Pc)
      → IsPlaced n broadcast lock_f2 timed (waiting c)
      → (access n broadcast lock_f2 timed c ≢ halt) × (c ≢ spins)
  IsPlaced-on waits h = ((cc), cc)
  IsPlaced-on (relocks ret) h = ((cc), cc)
  IsPlaced-on (locks v) h = ((cc), cc)
  IsPlaced-on broadcast_locks h = ((cc), cc)
  IsPlaced-on blocker_locks h = ((cc), cc)
  IsPlaced-on blocker_waits h = ((cc), cc)
  IsPlaced-on _ h = absurd h

  runs :
      (c : Pc) (r : Reply) {a : Access}
      → access n broadcast lock_f2 timed c ≡ a
      → a ≢ halt
      → ((running (resume n broadcast lock_f2 timed c r) ≡ running c) × IsIdle (running c))
        ⊎ (thread_left n (running (resume n broadcast lock_f2 timed c r))
            < thread_left n (running c))
  runs c r e ne = elim (resume_left n broadcast lock_f2 timed c r (λ f. ne (sym e ∙ f))) [
    | inl (same, at) ↦ inl (ap running same, subst (λ x. IsIdle (running x)) (sym at) tt)
    | inr less ↦ inr (omega (arith, less))
  ]

  wakes_up :
      (c : Pc) (r : Reply)
      → IsPlaced n broadcast lock_f2 timed (waiting c)
      → thread_left n (running (resume n broadcast lock_f2 timed c r)) < thread_left n (waiting c)
  wakes_up c r h =
      let (on, no_spin) = IsPlaced-on c h in
      elim (resume_left n broadcast lock_f2 timed c r on) [
        | inl (_, e) ↦ absurd (no_spin e)
        | inr less ↦ omega (arith, less)
      ]

  falls_asleep : (c : Pc) → thread_left n (waiting c) < thread_left n (running c)
  falls_asleep c = omega arith

  -- A step of a thread leaves it where it is, or brings it on.
  Move-left :
      {k : PiKernel} {i : ℕ} {s h : Shared} {t u : Thread Pc}
      → Move k (threads n broadcast lock_f2 timed) i s t h u
      → Own n broadcast lock_f2 timed s.pi i t
      → ((u ≡ t) × IsIdle t) ⊎ (thread_left n u < thread_left n t)
  Move-left {s} (reads_blocked {c} e) own = runs c (ok s.blocked.val) e (cc)
  Move-left {s} (reads_woken {c} e) own = runs c (ok s.woken.val) e (cc)
  Move-left {s} (adds_blocked {c} e) own = runs c (ok (atomic_inc s.blocked).1) e (cc)
  Move-left {s} (adds_woken {c} e) own = runs c (ok (atomic_inc s.woken).1) e (cc)
  Move-left (blocks {c} e) own = inr (falls_asleep c)
  Move-left (times_out {c} e tm out_) own = inr (wakes_up c (failed etimedout) own.placed)
  Move-left (takes {c} e free) own = runs c (ok (pos 0)) e (cc)
  Move-left (queues {c} e busy) own = inr (falls_asleep c)
  Move-left (gets {c} ne mine) own = inr (wakes_up c (ok (pos 0)) own.placed)
  Move-left (unlocks {c} e mine un) own = runs c (ok (pos 0)) e (cc)
  Move-left (refuses {c} e other) own = runs c (failed (pos 1)) e (cc)
  Move-left (requeues {c} {count = m} e re) own = runs c (ok (pos m)) e (cc)
  Move-left (fails {c} {e = x} e err) own = runs c (failed x) e (cc)
  Move-left (rests {c} e) own = inr (falls_asleep c)
  Move-left (returns {c} e off) own = inr (wakes_up c (ok (pos 0)) own.placed)
  Move-left (stirs {c} e) own =
      let at = (rests_holds n broadcast lock_f2 timed c (ok (pos 0)) e).0 in
      inl (refl, subst (λ x. IsIdle (waiting x)) (sym at) tt)
  Move-left (wakes {c} e nobody) own = runs c (ok (pos 0)) e (cc)
  Move-left (wakes_one {c} j e on) own = runs c (ok (pos 1)) e (cc)

  abbrev system_left : ℕ → System Pc → ℕ
  system_left count s = total count (λ j. thread_left n (s.thread j))

  step_left :
      (count i : ℕ) (f : ℕ → Thread Pc) (u : Thread Pc)
      → i < count
      → total count (λ j. thread_left n (update f i u j)) + thread_left n (f i)
        ≡ total count (λ j. thread_left n (f j)) + thread_left n u
  step_left count i f u lt =
      let change =
        total_change count (λ j. thread_left n (f j)) (λ j. thread_left n (update f i u j)) i lt
          (λ j ne. ap (thread_left n) (away f i j u ne)) in
      omega (arith, change, ap (thread_left n) (here f i u))

  -- The number of the steps of a run that have brought a thread on. Each other step of the run has left
  -- an idle thread where it was.
  pub data Paced (k : PiKernel) (count : ℕ)
      : (s : System Pc)
        → Reach k (threads n broadcast lock_f2 timed) count (init n) s
        → ℕ
        → Type 0 where
    starts : Paced k count (init n) start 0
    lingers :
        {m : ℕ} {s : System Pc} (r : Reach k (threads n broadcast lock_f2 timed) count (init n) s)
        (i : ℕ) {h : Shared} {u : Thread Pc} (lt : i < count)
        (move : Move k (threads n broadcast lock_f2 timed) i s.shared (s.thread i) h u)
        → Paced k count s r m
        → u ≡ s.thread i
        → IsIdle (s.thread i)
        → Paced k count
            (record { shared = h; thread = update s.thread i u })
            (later r (pick i lt move))
            m
    advances :
        {m : ℕ} {s : System Pc} (r : Reach k (threads n broadcast lock_f2 timed) count (init n) s)
        (i : ℕ) {h : Shared} {u : Thread Pc} (lt : i < count)
        (move : Move k (threads n broadcast lock_f2 timed) i s.shared (s.thread i) h u)
        → Paced k count s r m
        → u ≢ s.thread i
        → Paced k count
            (record { shared = h; thread = update s.thread i u })
            (later r (pick i lt move))
            (suc m)

  Reach-Paced :
      {k : PiKernel} {count : ℕ} {s : System Pc}
      → IsPi k
      → (r : Reach k (threads n broadcast lock_f2 timed) count (init n) s)
      → (m : ℕ) × Paced k count s r m × (m + system_left count s ≤ system_left count (init n))
  Reach-Paced law start = (0, starts, omega arith)
  Reach-Paced {k} {count} law (later {t = s} r (pick i {t = u} lt move)) =
      let (m, c, left) = Reach-Paced law r in
      let change = step_left count i s.thread u lt in
      elim (Move-left move (Reach-Own k law n broadcast lock_f2 timed r i)) [
        | inl (same, idle) ↦ (
          m,
          lingers r i lt move c same idle,
          omega (arith, left, change, ap (thread_left n) same),
        )
        | inr less ↦ (
          suc m,
          advances r i lt move c (λ e. omega (arith, less, ap (thread_left n) e)),
          omega (arith, left, change, less),
        )
      ]

  waiters_left : (m : ℕ) → m ≤ n → total m (λ j. thread_left n ((init n).thread j)) ≤ 11 * m
  unfolding total
  waiters_left zero le = omega arith
  waiters_left (suc m) le =
      let at : (init n).thread m ≡ running counts_in = ground arith in
      omega (arith, waiters_left m (omega arith), ap (thread_left n) at)

  init_left :
      (third_party : Bool) → system_left (thread_count third_party n) (init n) ≤ 19 * n + 8030
  unfolding total
  init_left third_party =
      let waker : (init n).thread n ≡ running spins = ground arith in
      let blocker : (init n).thread (suc n) ≡ running blocker_locks = ground arith in
      let w = ap (thread_left n) waker in
      let b = ap (thread_left n) blocker in
      let most = waiters_left n (omega arith) in
      elim third_party as (λ x. system_left (thread_count x n) (init n) ≤ 19 * n + 8030) [
        | true ↦ omega (arith, w, b, most)
        | false ↦ omega (arith, w, most)
      ]

  -- The test takes a bounded number of steps: on any schedule, with each style and any number `n` of
  -- waiters, on a kernel whose PI calls do what futex(2) says and however its requeues fail, at most
  -- 19 n + 8030 of the steps of a run bring a thread on. Each other step of that run is one of a waker
  -- that goes on waiting for the waiters, or of a third-party owner that goes on waiting for the waker,
  -- and leaves the thread where it was.
  pub requeue_steps :
      (third_party : Bool) {k : PiKernel} {s : System Pc}
      → IsPi k
      → (r : Reach k (threads n broadcast lock_f2 timed) (thread_count third_party n) (init n) s)
      → (m : ℕ) × Paced k (thread_count third_party n) s r m × (m ≤ 19 * n + 8030)
  requeue_steps third_party law r =
      let (m, c, left) = Reach-Paced law r in (m, c, omega (arith, left, init_left third_party))
