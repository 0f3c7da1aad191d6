-- ===== src/Mutex.antt =====
-- performance/futex_wait.c: the lock over one futex word, as a program of atomic accesses. The word is
-- 0 when the lock is free, 1 when it is held and 2 when it is held and there may be sleepers.
pub mod Counts
pub mod Invariant
pub mod Safety
pub mod Alone
pub mod Owner
pub mod Refines
mod Tests
use futextest.Common.{ℕ, zero, suc, ◌==◌, if◌then◌else◌}
use futextest.Machine.{Access, load, cmpxchg, wait, wake, halt, Program, System, system}

-- The address of `shared.futex`.
abbrev pub futex : ℕ
futex = 0

-- The next access of a thread in `futex_wait_test`, with the rounds of its loop that follow.
pub data Pc : Type 0 where
  lock_load : ℕ → Pc  -- int status = *futex
  lock_free : ℕ → Pc  -- futex_cmpxchg(futex, 0, 1)
  lock_mark : ℕ → Pc  -- futex_cmpxchg(futex, 1, 2)
  lock_wait : ℕ → Pc  -- futex_wait(futex, 2, ...)
  lock_reload : ℕ → Pc  -- status = *futex
  lock_retry : ℕ → Pc  -- futex_cmpxchg(futex, 0, 2)
  unlock_load : ℕ → Pc  -- the lock is held: int status = *futex
  unlock_free : ℕ → Pc  -- futex_cmpxchg(futex, 1, 0)
  unlock_marked : ℕ → Pc  -- futex_cmpxchg(futex, 2, 0)
  unlock_wake : ℕ → Pc  -- futex_wake(futex, 1, ...)
  finished : Pc

-- `while (loops--)`
abbrev pub next_round : ℕ → Pc
next_round zero = finished
next_round (suc loops) = lock_load loops

-- `while (status != 0)`, up to the next access
abbrev pub while_test : ℕ → ℕ → Pc
while_test k status =
    if status == 0 then unlock_load k else if status == 1 then lock_mark k else lock_wait k

abbrev pub access : Pc → Access
access (lock_load _) = load futex
access (lock_free _) = cmpxchg futex 0 1
access (lock_mark _) = cmpxchg futex 1 2
access (lock_wait _) = wait futex 2
access (lock_reload _) = load futex
access (lock_retry _) = cmpxchg futex 0 2
access (unlock_load _) = load futex
access (unlock_free _) = cmpxchg futex 1 0
access (unlock_marked _) = cmpxchg futex 2 0
access (unlock_wake _) = wake futex 1
access finished = halt

-- What the code does with the `status` that an access gives, up to the next access.
abbrev pub resume : Pc → ℕ → Pc
resume (lock_load k) status = if status == 0 then lock_free k else while_test k status
resume (lock_free k) status = while_test k status
resume (lock_mark k) status = if status == 0 then lock_retry k else lock_wait k
resume (lock_wait k) _ = lock_reload k
resume (lock_reload k) status = if status == 0 then lock_retry k else while_test k status
resume (lock_retry k) status = while_test k status
resume (unlock_load k) status =
    if status == 1 then unlock_free k else if status == 2 then unlock_marked k else next_round k
resume (unlock_free k) status = if status == 2 then unlock_marked k else next_round k
resume (unlock_marked k) _ = unlock_wake k
resume (unlock_wake k) _ = next_round k
resume finished _ = finished

abbrev pub futex_wait_test : Program Pc
futex_wait_test = record { access = access; resume = resume }

-- `shared.futex = 0`, and thread `i` calls `futex_wait_test(futex, loops i)`.
abbrev pub init : (ℕ → ℕ) → System Pc
init loops = system (λ _. 0) (λ i. next_round (loops i))
