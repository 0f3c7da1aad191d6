-- ===== src/Requeue/System.antt =====
-- functional/futex_requeue_pi.c: the threads, which share the counters and the three futexes. The threads
-- below `n` are the waiters, of which there are THREAD_MAX in the program; thread `n` is the waker, and
-- thread `n + 1` the third-party owner, if there is one.
pub mod Rules
pub mod Owner
pub mod Steps
pub mod Codes
pub mod Moves
pub mod Wakers
pub mod Counts
pub mod Counting
pub mod Early
pub mod Fresh
pub mod Runs
pub mod Blocker
pub mod Halts
pub mod Still
pub mod Rest
pub mod Joins
pub mod Measure
pub mod Paces
mod Tests
mod OwnerTests
pub mod Safety
use futextest.Common.{ℕ, suc, Bool, ◌+◌, ltb, ◌&&◌, if◌then◌else◌, not, ◌==◌, ◌||◌}
use futextest.Common.Int.{ℤ, pos, ◌+ℤ◌, ltb_ℤ, leb_ℤ, eqb_ℤ}
use futextest.Logging.{ret_error}
use futextest.Functional.{Reply, etimedout}
use futextest.Requeue.{max_wake_iters}
use futextest.Requeue.Waker.{code_of, negate}
use futextest.Word.{int_max}
use futextest.Pi.{
  Access, load_blocked, load_woken, inc_blocked, inc_woken, wait_requeue, lock, unlock, requeue,
  wake_complete, halt, Program, System, system, wait_complete,
}

-- `args->ret`, `task_count` and `i` of the waker.
pub record Loop : Type 0 where
  pub ret : ℤ
  pub task_count : ℤ
  pub i : ℕ

-- The next access of a thread.
pub data Pc : Type 0 where
  -- of a waiter
  counts_in : Pc  -- atomic_inc(&waiters_blocked)
  waits : Pc  -- args->ret = futex_wait_requeue_pi(...)
  counts_out : Reply → Pc  -- atomic_inc(&waiters_woken), after that reply
  relocks : ℤ → Pc  -- futex_lock_pi(&f2, ...)
  releases : ℤ → Pc  -- futex_unlock_pi(&f2, ...)
  exited : ℤ → Pc  -- pthread_exit(&args->ret)
  -- of `signal_wakerfn`
  spins : Pc  -- while (waiters_blocked.val < THREAD_MAX)
  checks : Loop → Pc  -- waiters_woken.val < THREAD_MAX
  locks : Loop → Pc  -- futex_lock_pi(&f2, ...)
  signals : Loop → Pc  -- args->ret = futex_cmp_requeue_pi(...)
  lets_go : Loop → Pc  -- futex_unlock_pi(&f2, ...)
  completes : Loop → Pc  -- futex_wake(&wake_complete, ...)
  ended : ℤ → Pc  -- pthread_exit(&args->ret)
  -- of `broadcast_wakerfn`, which starts and ends like the other waker
  broadcast_locks : Pc  -- futex_lock_pi(&f2, ...)
  broadcasts : Loop → Pc  -- args->ret = futex_cmp_requeue_pi(...)
  rechecks : Loop → Pc  -- task_count < THREAD_MAX - waiters_woken.val
  broadcast_completes : Loop → Pc  -- futex_wake(&wake_complete, ...)
  broadcast_unlocks : Loop → Pc  -- futex_unlock_pi(&f2, ...)
  -- of `third_party_blocker`
  blocker_locks : Pc  -- args->ret = futex_lock_pi(&f2, ...)
  blocker_waits : Pc  -- args->ret = futex_wait(&wake_complete, ...)
  blocker_unlocks : ℤ → Pc  -- ret2 = futex_unlock_pi(&f2, ...)
  blocker_exited : ℤ → Pc  -- pthread_exit(&args->ret)

-- A waiter after its wait.
abbrev pub waiter_code : Bool → Reply → ℤ
waiter_code timed r =
    if ltb_ℤ r.res (pos 0)
    then (if timed && eqb_ℤ r.errno etimedout then pos 0 else ret_error)
    else r.res

abbrev pub after_wait : Bool → Reply → Pc
after_wait timed r =
    if ltb_ℤ r.res (pos 0) then relocks (waiter_code timed r) else releases (waiter_code timed r)

-- At the label `out` of the blocker, with its `args->ret` and `ret2`.
abbrev pub blocker_code : ℤ → ℤ → ℤ
blocker_code ret ret2 =
    if not (eqb_ℤ ret (pos 0)) || not (eqb_ℤ ret2 (pos 0)) then ret_error else ret

abbrev pub first_round : Loop
first_round = record { ret = pos 0; task_count = pos 0; i = 0 }

module _ (n : ℕ) (broadcast : Bool) (lock_f2 : Bool) (timed : Bool) where
  -- `task_count < THREAD_MAX && ...`
  abbrev pub loop_test : Loop → Pc
  loop_test v = if ltb_ℤ v.task_count (pos n) then checks v else completes v

  -- After a requeue that did not fail, and the end of the round.
  unfoldable pub next_round : Loop → Pc
  unfolding ◌+ℤ◌
  next_round v =
      let count = v.task_count +ℤ v.ret in
      if ltb (max_wake_iters + n) (suc v.i)
      then completes (record { ret = ret_error; task_count = count; i = suc v.i })
      else loop_test (record { ret = v.ret; task_count = count; i = suc v.i })

  unfoldable pub after_requeue : Loop → Pc
  unfolding next_round
  after_requeue v =
      if ltb_ℤ v.ret (pos 0) then completes (record v { ret = ret_error }) else next_round v

  -- `broadcast_wakerfn` after a requeue
  unfoldable pub after_broadcast : Loop → Pc
  unfolding ◌+ℤ◌
  after_broadcast v =
      let count = v.task_count +ℤ v.ret in
      if ltb_ℤ v.ret (pos 0)
      then broadcast_completes (record v { ret = ret_error })
      else if ltb (suc v.i) max_wake_iters
      then rechecks (record { ret = v.ret; task_count = count; i = suc v.i })
      else broadcast_completes (record v { ret = ret_error; i = suc v.i })

  abbrev pub broadcast_result : Loop → ℤ
  broadcast_result v = if ltb_ℤ (pos 0) v.ret then v.task_count else v.ret

  -- A waker that has seen all waiters blocked
  abbrev pub starts_to_wake : Pc
  starts_to_wake =
      if broadcast
      then (if lock_f2 then broadcast_locks else broadcasts first_round)
      else loop_test first_round

  abbrev pub access : Pc → Access
  access counts_in = inc_blocked
  access waits = wait_requeue
  access (counts_out _) = inc_woken
  access (relocks _) = lock
  access (releases _) = unlock
  access (exited _) = halt
  access spins = load_blocked
  access (checks _) = load_woken
  access (locks _) = lock
  access (signals _) = requeue 0
  access (lets_go _) = unlock
  access (completes _) = wake_complete
  access (ended _) = halt
  access broadcast_locks = lock
  access (broadcasts _) = requeue int_max
  access (rechecks _) = load_woken
  access (broadcast_completes _) = wake_complete
  access (broadcast_unlocks _) = unlock
  access blocker_locks = lock
  access blocker_waits = wait_complete
  access (blocker_unlocks _) = unlock
  access (blocker_exited _) = halt

  -- What the code does with the reply to an access, up to the next access.
  unfoldable pub resume : Pc → Reply → Pc
  unfolding after_requeue after_broadcast ◌+ℤ◌
  resume counts_in _ = waits
  resume waits r = counts_out r
  resume (counts_out r) _ = after_wait timed r
  resume (relocks ret) _ = releases ret
  resume (releases ret) _ = exited ret
  resume (exited ret) _ = exited ret
  resume spins r = if ltb_ℤ r.res (pos n) then spins else starts_to_wake
  resume (checks v) r =
      if ltb_ℤ r.res (pos n) then (if lock_f2 then locks v else signals v) else completes v
  resume (locks v) _ = signals v
  resume (signals v) r =
      let v' : Loop = record v { ret = code_of r } in
      if lock_f2 then lets_go v' else after_requeue v'
  resume (lets_go v) _ = after_requeue v
  resume (completes v) _ = ended (if leb_ℤ (pos 0) v.ret then v.task_count else v.ret)
  resume (ended ret) _ = ended ret
  resume broadcast_locks _ = broadcasts first_round
  resume (broadcasts v) r = after_broadcast (record v { ret = r.res })
  resume (rechecks v) r =
      if ltb_ℤ v.task_count (pos n +ℤ negate r.res) then broadcasts v else broadcast_completes v
  resume (broadcast_completes v) _ =
      if lock_f2 then broadcast_unlocks v else ended (broadcast_result v)
  resume (broadcast_unlocks v) _ = ended (broadcast_result v)
  resume blocker_locks r =
      if eqb_ℤ r.res (pos 0) then blocker_waits else blocker_exited (blocker_code r.res (pos 0))
  resume blocker_waits r = blocker_unlocks r.res
  resume (blocker_unlocks ret) r = blocker_exited (blocker_code ret r.res)
  resume (blocker_exited ret) _ = blocker_exited ret

  abbrev pub threads : Program Pc
  threads = record { access = access; resume = resume; timed = timed }

-- The threads as `unit_test` makes them: the blocker takes part only with the third-party owner.
abbrev pub init : ℕ → System Pc
init n = system (λ i. if ltb i n then counts_in else if i == n then spins else blocker_locks)

abbrev pub thread_count : Bool → ℕ → ℕ
thread_count third_party n = if third_party then suc (suc n) else suc n
