-- ===== src/Requeue/System/Codes.antt =====
-- functional/futex_requeue_pi.c: the codes and the task count that the threads carry.
use futextest.Common.{
  ℕ, ◌≤◌, ◌≡◌, ◌⊎◌, Bool, true, false, arith, if◌then◌else◌, ◌≢◌, ◌+◌, false, inl, inr, Bool-cases,
}
use futextest.Common.Int.{pos, ◌+ℤ◌, ◌≤ℤ◌, ◌<ℤ◌, ltb_ℤ, ℤ}
use futextest.Logging.{ret_error}
use futextest.Pi.{Thread, running, waiting, wait_requeue, requeue, load_woken}
use futextest.Requeue.System.{
  Pc, Loop, counts_in, waits, counts_out, relocks, releases, exited, spins, checks, locks, signals,
  lets_go, broadcast_locks, broadcasts, rechecks, broadcast_completes, broadcast_unlocks,
  after_broadcast, starts_to_wake, completes, ended, waiter_code, next_round, after_requeue,
  loop_test, resume, Reply, access, code_of, first_round, broadcasts, broadcast_result, rechecks,
  broadcast_completes, int_max, broadcast_unlocks,
}

-- 1 for a waiter that has left f1, or 0.
abbrev pub gone : Thread Pc → Bool → ℕ
gone (running counts_in) _ = 0
gone (running waits) _ = 0
gone (waiting waits) on_f1 = if on_f1 then 0 else 1
gone _ _ = 1

-- 1 for a waiter that has counted itself as woken, or 0.
abbrev pub out : Thread Pc → ℕ
out (running (relocks _)) = 1
out (running (releases _)) = 1
out (running (exited _)) = 1
out (waiting (relocks _)) = 1
out _ = 0

abbrev pub IsWaiter : Bool → Thread Pc → Type 0
IsWaiter timed (running counts_in) = Unit {0}
IsWaiter timed (running waits) = Unit {0}
IsWaiter timed (running (counts_out r)) = waiter_code timed r ≡ pos 0
IsWaiter timed (running (relocks ret)) = ret ≡ pos 0
IsWaiter timed (running (releases ret)) = ret ≡ pos 0
IsWaiter timed (running (exited ret)) = ret ≡ pos 0
IsWaiter timed (waiting waits) = Unit {0}
IsWaiter timed (waiting (relocks ret)) = ret ≡ pos 0
IsWaiter timed _ = ⊥

-- A task count of at most `g`.
abbrev pub IsCounted : ℕ → Loop → Type 0
IsCounted g v = (pos 0 ≤ℤ v.ret) × (pos 0 ≤ℤ v.task_count) × (v.task_count ≤ℤ pos g)

abbrev pub IsCounting : ℕ → Loop → Type 0
IsCounting g v =
    (v.ret <ℤ pos 0)
    ⊎ ((pos 0 ≤ℤ v.ret) × (pos 0 ≤ℤ v.task_count) × (v.task_count +ℤ v.ret ≤ℤ pos g))

abbrev pub IsLast : ℕ → ℕ → Loop → Type 0
IsLast n g v = (v.ret ≡ ret_error) ⊎ ((pos 0 ≤ℤ v.ret) × (pos 0 ≤ℤ v.task_count) × (n ≤ g))

-- The last round of `broadcast_wakerfn`, which may have counted a waiter twice if not `safe`.
abbrev pub IsLastBroadcast : Bool → ℕ → ℕ → Loop → Type 0
IsLastBroadcast safe n g v =
    (v.ret ≡ ret_error) ⊎ ((pos 0 ≤ℤ v.ret) × (pos 0 ≤ℤ v.task_count) × (safe ≡ true → n ≤ g))

abbrev pub IsWaker : (broadcast safe : Bool) → ℕ → ℕ → Thread Pc → Type 0
IsWaker broadcast safe n g (running spins) = Unit {0}
IsWaker broadcast safe n g (running (checks v)) = IsCounted g v
IsWaker broadcast safe n g (running (locks v)) = IsCounted g v
IsWaker broadcast safe n g (waiting (locks v)) = IsCounted g v
IsWaker broadcast safe n g (running (signals v)) = IsCounted g v
IsWaker broadcast safe n g (running (lets_go v)) = IsCounting g v
IsWaker broadcast safe n g (running (completes v)) = IsLast n g v
IsWaker broadcast safe n g (running (ended ret)) =
    (ret ≡ ret_error) ⊎ ((pos 0 ≤ℤ ret) × (safe ≡ true → n ≤ g))
IsWaker broadcast safe n g (running broadcast_locks) = broadcast ≡ true
IsWaker broadcast safe n g (waiting broadcast_locks) = broadcast ≡ true
IsWaker broadcast safe n g (running (broadcasts v)) = (broadcast ≡ true) × IsCounted g v
IsWaker broadcast safe n g (running (rechecks v)) = (broadcast ≡ true) × IsCounted g v
IsWaker broadcast safe n g (running (broadcast_completes v)) = IsLastBroadcast safe n g v
IsWaker broadcast safe n g (running (broadcast_unlocks v)) = IsLastBroadcast safe n g v
IsWaker broadcast safe n g _ = ⊥

module _ (n : ℕ) (broadcast lock_f2 timed : Bool) where
  -- A waiter after each call.
  pub IsWaiter-resume :
      (c : Pc) (r : Reply)
      → IsWaiter timed (running c)
      → (access n broadcast lock_f2 timed c ≡ wait_requeue → waiter_code timed r ≡ pos 0)
      → IsWaiter timed (running (resume n broadcast lock_f2 timed c r))
  unfolding resume
  IsWaiter-resume counts_in r h w = ground arith
  IsWaiter-resume waits r h w = w (λ i. wait_requeue)
  IsWaiter-resume (counts_out q) r h w = ground (arith, h)
  IsWaiter-resume (relocks ret) r h w = h
  IsWaiter-resume (releases ret) r h w = h
  IsWaiter-resume (exited ret) r h w = h
  IsWaiter-resume _ r h w = absurd h

module _ (n : ℕ) (broadcast safe lock_f2 timed : Bool) (g : ℕ) where
  loop_test-IsWaker :
      (v : Loop)
      → IsCounted g v
      → IsWaker broadcast safe n g (running (loop_test n broadcast lock_f2 timed v))
  loop_test-IsWaker v h = ground arith

  next_round-IsWaker :
      (v : Loop)
      → (pos 0 ≤ℤ v.ret) × (pos 0 ≤ℤ v.task_count) × (v.task_count +ℤ v.ret ≤ℤ pos g)
      → IsWaker broadcast safe n g (running (next_round n broadcast lock_f2 timed v))
  unfolding next_round ◌+ℤ◌
  next_round-IsWaker v h = ground arith

  after_requeue-IsWaker :
      (v : Loop)
      → IsCounting g v
      → IsWaker broadcast safe n g (running (after_requeue n broadcast lock_f2 timed v))
  unfolding after_requeue
  after_requeue-IsWaker v h = ground (arith, next_round-IsWaker v)

  starts_to_wake-IsWaker :
      IsWaker broadcast safe n g (running (starts_to_wake n broadcast lock_f2 timed))
  starts_to_wake-IsWaker = ground (arith, loop_test-IsWaker first_round)

  after_broadcast-IsWaker :
      (v : Loop)
      → broadcast ≡ true
      → IsCounting g v
      → IsWaker broadcast safe n g (running (after_broadcast n broadcast lock_f2 timed v))
  unfolding after_broadcast ◌+ℤ◌
  after_broadcast-IsWaker v b h = ground (arith, b, h)

  broadcast_result_lem :
      (v : Loop)
      → IsLastBroadcast safe n g v
      → IsWaker broadcast safe n g (running (ended (broadcast_result n broadcast lock_f2 timed v)))
  broadcast_result_lem v h = ground (arith, h)

  -- The waker after each call but the requeue.
  pub IsWaker-resume :
      (c : Pc) (r : Reply)
      → IsWaker broadcast safe n g (running c)
      → ((nr : ℕ) → access n broadcast lock_f2 timed c ≢ requeue nr)
      → (access n broadcast lock_f2 timed c ≡ load_woken → ltb_ℤ r.res (pos n) ≡ false → n ≤ g)
      → ((v : Loop) → c ≡ rechecks v → safe ≡ true → r.res ≡ pos 0)
      → IsWaker broadcast safe n g (running (resume n broadcast lock_f2 timed c r))
  unfolding resume
  IsWaker-resume spins r h ne past calm =
      elim (ltb_ℤ r.res (pos n))
        as (λ b.
          IsWaker broadcast safe n g
            (running (if b then spins else starts_to_wake n broadcast lock_f2 timed))) [
              | true ↦ tt
              | false ↦ starts_to_wake-IsWaker
            ]
  IsWaker-resume (checks v) r h ne past calm = ground (arith, h, past (λ i. load_woken))
  IsWaker-resume (locks v) r h ne past calm = h
  IsWaker-resume (signals v) r h ne past calm = absurd (ne 0 (λ i. requeue 0))
  IsWaker-resume (lets_go v) r h ne past calm = after_requeue-IsWaker v h
  IsWaker-resume (completes v) r h ne past calm = ground (arith, h)
  IsWaker-resume (ended ret) r h ne past calm = h
  IsWaker-resume broadcast_locks r h ne past calm = (h, (omega arith, omega arith, omega arith))
  IsWaker-resume (broadcasts v) r h ne past calm = absurd (ne int_max (λ i. requeue int_max))
  IsWaker-resume (rechecks v) r h ne past calm = ground (arith, h, calm v (λ i. rechecks v))
  IsWaker-resume (broadcast_completes v) r h ne past calm =
      elim lock_f2
        as (λ b. IsWaker broadcast safe n g (
          running (
            if b
            then broadcast_unlocks v
            else ended (broadcast_result n broadcast lock_f2 timed v)))) [
              | true ↦ h
              | false ↦ broadcast_result_lem v h
            ]
  IsWaker-resume (broadcast_unlocks v) r h ne past calm = broadcast_result_lem v h
  IsWaker-resume _ r h ne past calm = absurd h

module _ (n : ℕ) (broadcast safe lock_f2 timed : Bool) (g' : ℕ) where
  counting :
      (g : ℕ) (v : Loop) (ret : ℤ)
      → IsCounted g v
      → (ret <ℤ pos 0) ⊎ ((count : ℕ) × (ret ≡ pos count) × (g + count ≤ g'))
      → IsCounting g' (record v { ret = ret })
  unfolding ◌+ℤ◌
  counting g v ret h (inl low) = inl low
  counting g v ret h (inr (count, e, le)) = ground (arith, h, e, le)

  res_counted :
      (g : ℕ) (r : Reply)
      → (code_of r <ℤ pos 0) ⊎ ((count : ℕ) × (code_of r ≡ pos count) × (g + count ≤ g'))
      → (r.res <ℤ pos 0) ⊎ ((count : ℕ) × (r.res ≡ pos count) × (g + count ≤ g'))
  res_counted g r (inl low) = inl (ground (arith, low))
  res_counted g r (inr (count, e, le)) = elim (Bool-cases (ltb_ℤ r.res (pos 0))) [
    | inl failed ↦ inl (ground (arith, failed))
    | inr went ↦ inr (count, ground (arith, e, went), le)
  ]

  -- The waker after a requeue.
  pub IsWaker-requeue :
      (g : ℕ) (c : Pc) (r : Reply)
      → IsWaker broadcast safe n g (running c)
      → {nr : ℕ} → access n broadcast lock_f2 timed c ≡ requeue nr
      → (code_of r <ℤ pos 0) ⊎ ((count : ℕ) × (code_of r ≡ pos count) × (g + count ≤ g'))
      → IsWaker broadcast safe n g' (running (resume n broadcast lock_f2 timed c r))
  unfolding resume
  IsWaker-requeue g (signals v) r h e counted =
      let v' : Loop = record v { ret = code_of r } in
      let d : IsCounting g' v' = counting g v (code_of r) h counted in
      elim lock_f2
        as (λ b.
          IsWaker broadcast safe n g'
            (running (if b then lets_go v' else after_requeue n broadcast lock_f2 timed v'))) [
              | true ↦ d
              | false ↦ after_requeue-IsWaker n broadcast safe lock_f2 timed g' v' d
            ]
  IsWaker-requeue g (broadcasts v) r h e counted =
      let (b, c) = h in
      let v' : Loop = record v { ret = r.res } in
      after_broadcast-IsWaker n broadcast safe lock_f2 timed g' v' b
        (counting g v r.res c (res_counted g r counted))
  IsWaker-requeue _ _ r h e counted = cc
