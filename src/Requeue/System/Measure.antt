-- ===== src/Requeue/System/Measure.antt =====
-- functional/futex_requeue_pi.c: bounds for the steps that are left to each of its threads.
use futextest.Common.{ℕ, ◌+◌, ◌-◌, ◌*◌, ◌<◌, ◌≡◌, ◌≢◌, ◌⊎◌, inr, Bool, arith}
use futextest.Functional.{Reply}
use futextest.Requeue.{max_wake_iters}
use futextest.Requeue.Waker.{code_of}
use futextest.Pi.{Thread, running, waiting, halt}
use futextest.Requeue.System.{
  Pc, counts_in, waits, counts_out, relocks, releases, exited, spins, checks, locks, signals,
  lets_go, completes, ended, broadcast_locks, broadcasts, rechecks, broadcast_completes,
  broadcast_unlocks, blocker_locks, blocker_waits, blocker_unlocks, blocker_exited, Loop, access,
  resume, after_requeue, next_round, after_broadcast, starts_to_wake,
}

module _ (n : ℕ) where
  -- For the rounds that are left to each waker.
  abbrev signal_left : Loop → ℕ
  signal_left v = 4 * (max_wake_iters + n + 1 - v.i)

  abbrev broadcast_left : Loop → ℕ
  broadcast_left v = 2 * (max_wake_iters - v.i)

  abbrev pub pc_left : Pc → ℕ
  pc_left counts_in = 5
  pc_left waits = 4
  pc_left (counts_out _) = 3
  pc_left (relocks _) = 2
  pc_left (releases _) = 1
  pc_left (exited _) = 0
  pc_left spins = 4 * (max_wake_iters + n + 1) + 7
  pc_left (checks v) = signal_left v + 6
  pc_left (locks v) = signal_left v + 5
  pc_left (signals v) = signal_left v + 4
  pc_left (lets_go v) = signal_left v + 3
  pc_left (completes _) = 2
  pc_left (ended _) = 0
  pc_left broadcast_locks = 2 * max_wake_iters + 4
  pc_left (broadcasts v) = broadcast_left v + 3
  pc_left (rechecks v) = broadcast_left v + 4
  pc_left (broadcast_completes _) = 2
  pc_left (broadcast_unlocks _) = 1
  pc_left blocker_locks = 3
  pc_left blocker_waits = 2
  pc_left (blocker_unlocks _) = 1
  pc_left (blocker_exited _) = 0

  -- To fall asleep is a step as well.
  abbrev pub thread_left : Thread Pc → ℕ
  thread_left (running c) = 2 * pc_left c + 1
  thread_left (waiting c) = 2 * pc_left c

  module _ (broadcast lock_f2 timed : Bool) where
    next_round_left :
        (v : Loop) → pc_left (next_round n broadcast lock_f2 timed v) < signal_left v + 3
    unfolding next_round
    next_round_left v = ground arith

    after_requeue_left :
        (v : Loop) → pc_left (after_requeue n broadcast lock_f2 timed v) < signal_left v + 3
    unfolding after_requeue
    after_requeue_left v = ground (arith, next_round_left v)

    after_broadcast_left :
        (v : Loop) → pc_left (after_broadcast n broadcast lock_f2 timed v) < broadcast_left v + 3
    unfolding after_broadcast
    after_broadcast_left v = ground arith

    starts_left :
        pc_left (starts_to_wake n broadcast lock_f2 timed) < 4 * (max_wake_iters + n + 1) + 7
    starts_left = ground arith

    -- The code between two accesses brings a thread on, but for the loop of a waker that waits for the
    -- waiters.
    pub resume_left :
        (c : Pc) (r : Reply)
        → access n broadcast lock_f2 timed c ≢ halt
        → (resume n broadcast lock_f2 timed c r ≡ c) × (c ≡ spins)
          ⊎ (pc_left (resume n broadcast lock_f2 timed c r) < pc_left c)
    unfolding resume
    resume_left counts_in r ne = inr (omega arith)
    resume_left waits r ne = inr (omega arith)
    resume_left (counts_out q) r ne = inr (ground arith)
    resume_left (relocks ret) r ne = inr (omega arith)
    resume_left (releases ret) r ne = inr (omega arith)
    resume_left spins r ne = ground (arith, starts_left)
    resume_left (checks v) r ne = inr (ground arith)
    resume_left (locks v) r ne = inr (omega arith)
    resume_left (signals v) r ne =
        inr (ground (arith, after_requeue_left (record v { ret = code_of r })))
    resume_left (lets_go v) r ne = inr (after_requeue_left v)
    resume_left (completes v) r ne = inr (omega arith)
    resume_left broadcast_locks r ne = inr (omega arith)
    resume_left (broadcasts v) r ne = inr (after_broadcast_left (record v { ret = r.res }))
    resume_left (rechecks v) r ne = inr (ground arith)
    resume_left (broadcast_completes v) r ne = inr (ground arith)
    resume_left (broadcast_unlocks v) r ne = inr (omega arith)
    resume_left blocker_locks r ne = inr (ground arith)
    resume_left blocker_waits r ne = inr (omega arith)
    resume_left (blocker_unlocks ret) r ne = inr (omega arith)
    resume_left _ r ne = absurd (ne (λ i. halt))
