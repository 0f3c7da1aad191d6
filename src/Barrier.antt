-- ===== src/Barrier.antt =====
-- performance/harness.h: the barrier of the performance tests, as a program of atomic accesses. The
-- threads below `n` are workers, which call `barrier_sync`; thread `n` is the main thread, which calls
-- `barrier_wait` and then `barrier_unblock`.
pub mod Rules
pub mod Safety
pub mod Sleep
pub mod Steps
pub mod Rest
pub mod Quiet
pub mod Abort
mod Tests
use futextest.Common.{ℕ, ◌^◌, ◌&&◌, ltb, ◌==◌, if◌then◌else◌, update}
use futextest.Word.{int_max}
use futextest.Machine.{Access, load, store, dec, wait, wake, halt, Program, System, system, Memory}

-- The addresses of `barrier->threads` and `barrier->unblock`.
abbrev pub threads : ℕ
threads = 0

abbrev pub unblock : ℕ
unblock = 1

-- The next access of a thread.
pub data Pc : Type 0 where
  sync_dec : Pc  -- futex_dec(&barrier->threads)
  sync_test : Pc  -- barrier->threads == 0
  sync_wake : Pc  -- futex_wake(&barrier->threads, 1, ...)
  sync_load : Pc  -- while (barrier->unblock == 0)
  sync_wait : Pc  -- futex_wait(&barrier->unblock, 0, ...)
  sync_return : Pc  -- return barrier->unblock
  synced : ℕ → Pc  -- barrier_sync has returned
  wait_load : Pc  -- threads = barrier->threads
  wait_wait : ℕ → Pc  -- futex_wait(&barrier->threads, threads, ...)
  unblock_store : Pc  -- barrier_wait has returned: barrier->unblock = value
  unblock_wake : Pc  -- futex_wake(&barrier->unblock, INT_MAX, ...)
  opened : Pc  -- barrier_unblock has returned

module _ (value : ℕ) where
  abbrev pub access : Pc → Access
  access sync_dec = dec threads
  access sync_test = load threads
  access sync_wake = wake threads 1
  access sync_load = load unblock
  access sync_wait = wait unblock 0
  access sync_return = load unblock
  access (synced _) = halt
  access wait_load = load threads
  access (wait_wait v) = wait threads v
  access unblock_store = store unblock value
  access unblock_wake = wake unblock int_max
  access opened = halt

  -- `(threads = barrier->threads) > 0`, where `threads` is an int
  abbrev pub wait_test : ℕ → Pc
  wait_test v = if ltb 0 v && ltb v (2 ^ 31) then wait_wait v else unblock_store

  -- What the code does with the word that an access gives, up to the next access.
  abbrev pub resume : Pc → ℕ → Pc
  resume sync_dec _ = sync_test
  resume sync_test v = if v == 0 then sync_wake else sync_load
  resume sync_wake _ = sync_load
  resume sync_load v = if v == 0 then sync_wait else sync_return
  resume sync_wait _ = sync_load
  resume sync_return v = synced v
  resume (synced v) _ = synced v
  resume wait_load v = wait_test v
  resume (wait_wait _) _ = wait_load
  resume unblock_store _ = unblock_wake
  resume unblock_wake _ = opened
  resume opened _ = opened

  abbrev pub barrier : Program Pc
  barrier = record { access = access; resume = resume }

-- `barrier_init(barrier, n)`
abbrev pub barrier_init : ℕ → Memory
barrier_init n = update (λ _. 0) threads n

-- `n` workers start, and the main thread is at `c`.
abbrev pub started : Pc → ℕ → System Pc
started c n = system (barrier_init n) (λ i. if ltb i n then sync_dec else c)

-- The main thread starts with `barrier_wait`.
abbrev pub init : ℕ → System Pc
init = started wait_load
