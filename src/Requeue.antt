-- ===== src/Requeue.antt =====
-- functional/futex_requeue_pi.c. What the threads and the kernel do between two accesses of a thread
-- is given as streams: the value read, and the reply, at the n-th time. The messages on stderr of
-- this program are left out; `calls` are the futex calls of a thread, the newest first.
pub mod Waker
pub mod Threads
pub mod UnitTest
pub mod Options
pub mod Blocked
pub mod Bounds
pub mod Broadcast
pub mod Reached
pub mod Started
pub mod Results
pub mod Verdict
pub mod Reports
pub mod System
mod Tests
use futextest.Common.{ℕ, ◌+◌, ◌*◌, ◌/◌, ◌%◌, List}
use futextest.Common.Int.{ℤ, pos, negsuc, sub_ℕ}
use futextest.Syscall.{Uapi, Args, futex_lock_pi, futex_unlock_pi, futex_wake, futex_cmp_requeue_pi}
use futextest.Common.{none}

-- MAX_WAKE_ITERS and THREAD_MAX
abbrev pub max_wake_iters : ℕ
max_wake_iters = 1000

abbrev pub thread_max : ℕ
thread_max = 10

-- The addresses of f1, f2 and wake_complete; the words f1 and wake_complete hold 0 throughout.
abbrev pub f1 : ℕ
f1 = 1

abbrev pub f2 : ℕ
f2 = 2

abbrev pub wake_complete : ℕ
wake_complete = 3

module _ (u : Uapi) where
  abbrev pub lock_f2 : Args
  lock_f2 = futex_lock_pi u f2 none (pos 0) u.futex_private_flag

  abbrev pub unlock_f2 : Args
  unlock_f2 = futex_unlock_pi u f2 u.futex_private_flag

  abbrev pub wake_blocker : Args
  wake_blocker = futex_wake u wake_complete (pos 1) u.futex_private_flag

  abbrev pub requeue : ℤ → Args
  requeue nr_requeue = futex_cmp_requeue_pi u f1 0 f2 (pos 1) nr_requeue u.futex_private_flag
