-- ===== src/Locktest.antt =====
-- performance/harness.h and performance/futex_wait.c: the threads of `locktest`, from their creation to
-- its end, over the words of `struct locktest_shared`. The threads below `n` are the workers, which run
-- `locktest_thread`; thread `n` is the one that calls `locktest`.
pub mod Parts
pub mod Runs
pub mod Phases
pub mod Order
pub mod Quiet
pub mod Abort
mod Tests
use futextest.Common.{ℕ, zero, suc, ◌^◌, ◌&&◌, Bool, true, false, ltb, if◌then◌else◌, update, ◌-◌}
use futextest.Machine.{Access, halt, Memory, Program, System, system}
use futextest.Machine.Project.{shift}
use futextest.Mutex
use futextest.Mutex.{finished, next_round}
use futextest.Barrier
use futextest.Barrier.{sync_dec, synced, wait_load, opened, unblock_store}

-- The offsets of barrier_before, barrier_after and futex.
abbrev pub barrier_before : ℕ
barrier_before = 0

abbrev pub barrier_after : ℕ
barrier_after = 2

abbrev pub lock_word : ℕ
lock_word = 4

-- The next access of a thread. A worker keeps the value that its first `barrier_sync` returned.
pub data Pc : Type 0 where
  before : Barrier.Pc → Pc  -- at barrier_before
  locking : ℕ → Mutex.Pc → Pc  -- in shared->locktest_function
  after : ℕ → Barrier.Pc → Pc  -- a worker at barrier_after
  returned : ℕ → Pc  -- return NULL
  measured : Barrier.Pc → Pc  -- the calling thread at barrier_after
  joining : Pc  -- the calling thread, which has aborted

-- `> 0` of the `int` that the word stands for
abbrev pub is_positive : ℕ → Bool
is_positive v = ltb 0 v && ltb v (2 ^ 31)

-- After the lock's rounds a worker goes to barrier_after.
abbrev pub in_lock : ℕ → Mutex.Pc → Pc
in_lock v finished = after v sync_dec
in_lock v c = locking v c

-- The value that the calling thread opens barrier_before with: 1, or -1 when a thread is missing.
abbrev pub value_of : Bool → ℕ
value_of true = 1
value_of false = 2 ^ 32 - 1

-- Where the calling thread is after its loop: at `barrier_wait`, or at `barrier_unblock(..., -1)`.
abbrev pub main_start : Bool → Barrier.Pc
main_start true = wait_load
main_start false = unblock_store

-- `all`: every `pthread_create` has given a thread.
module _ (all : Bool) (loops : ℕ) where
  -- Past barrier_before: `if (barrier_sync(...) > 0)` of a worker, and `barrier_wait` of the caller.
  abbrev pub from_before : Barrier.Pc → Pc
  from_before (synced v) = if is_positive v then in_lock v (next_round loops) else returned v
  from_before opened = if all then measured wait_load else joining
  from_before c = before c

  abbrev pub access : Pc → Access
  access (before c) = shift barrier_before (Barrier.access (value_of all) c)
  access (locking _ c) = shift lock_word (Mutex.access c)
  access (after _ c) = shift barrier_after (Barrier.access 1 c)
  access (returned _) = halt
  access joining = halt
  access (measured c) = shift barrier_after (Barrier.access 1 c)

  abbrev pub resume : Pc → ℕ → Pc
  resume (before c) v = from_before (Barrier.resume (value_of all) c v)
  resume (locking u c) v = in_lock u (Mutex.resume c v)
  resume (after u c) v = after u (Barrier.resume 1 c v)
  resume (returned u) _ = returned u
  resume joining _ = joining
  resume (measured c) v = measured (Barrier.resume 1 c v)

  abbrev pub locktest : Program Pc
  locktest = record { access = access; resume = resume }

-- `barrier_init` of both barriers, and `shared.futex = 0`
abbrev pub shared_words : ℕ → Memory
shared_words n = update (update (λ _. 0) barrier_before n) barrier_after n

-- The loop over `pthread_create` has ended, for `n` threads.
abbrev pub init : Bool → ℕ → System Pc
init all n = system (shared_words n) (λ i. before (if ltb i n then sync_dec else main_start all))
