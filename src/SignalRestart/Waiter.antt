-- ===== src/SignalRestart/Waiter.antt =====
-- functional/futex_requeue_pi_signal_restart.c: the waiter.
use futextest.Common.{List, [], ◌∷◌, ◌||◌, not, if◌then◌else◌, none}
use futextest.Common.Int.{ℤ, pos, eqb_ℤ}
use futextest.Logging.{ret_pass, ret_fail}
use futextest.Syscall.{Uapi, Args}
use futextest.Futex.Atomic.{AtomicT}
use futextest.Functional.{Reply, ewouldblock}
use futextest.Requeue.{unlock_f2}
use futextest.Requeue.Threads.{waiter_call}

-- `waiter_ret`, and the futex calls of the waiter, the newest first.
pub record Waiter : Type 0 where
  pub ret : ℤ
  pub calls : List Args

-- With the reply of its wait, and the value of `requeued` after it.
unfoldable pub waiterfn : Uapi → Reply → AtomicT → Waiter
waiterfn u r requeued =
    let calls = waiter_call u none ∷ [] in
    if eqb_ℤ requeued.val (pos 0) || not (eqb_ℤ r.errno ewouldblock)
    then record {
      ret = ret_fail;
      calls = if eqb_ℤ r.res (pos 0) then unlock_f2 u ∷ calls else calls;
    }
    else record { ret = ret_pass; calls = calls }
