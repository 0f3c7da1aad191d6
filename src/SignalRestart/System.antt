-- ===== src/SignalRestart/System.antt =====
-- functional/futex_requeue_pi_signal_restart.c: `main` and `waiterfn` as two threads, from the creation of
-- the waiter to the label `out`. Thread 0 is `main` and thread 1 the waiter. A step is one access of what
-- the two share, or the delivery of SIGUSR1 to the waiter.
pub mod Queues
pub mod Stages
pub mod Moves
pub mod Runs
pub mod Ends
pub mod Passes
mod Tests
use futextest.Common.{ℕ, ◌≡◌, ◌≢◌, Bool, true, false, none, some, update, if◌then◌else◌, ◌||◌, not}
use futextest.Common.Int.{ℤ, pos, negsuc, ltb_ℤ, eqb_ℤ}
use futextest.Logging.{ret_pass, ret_fail, ret_error}
use futextest.Functional.{Reply, ewouldblock}
use futextest.Futex.Atomic.{AtomicT, atomic_initializer, atomic_set}
use futextest.Pi.{Pi, PiKernel, ok, failed}
use futextest.SignalRestart.{out}

-- The next access of `main`, with its `ret`.
pub data MainPc : Type 0 where
  locks : MainPc  -- futex_lock_pi(&f2, ...)
  kills : MainPc  -- pthread_kill(waiter, SIGUSR1) in the loop
  requeues : MainPc  -- res = futex_cmp_requeue_pi(...)
  sets : MainPc  -- atomic_set(&requeued, 1)
  kills_again : ℤ → MainPc  -- pthread_kill(waiter, SIGUSR1) after the loop
  joins : ℤ → MainPc  -- pthread_join(waiter, NULL)
  unlocks : ℤ → MainPc  -- futex_unlock_pi(&f2, ...)
  ends : ℤ → MainPc  -- ret == RET_PASS && waiter_ret
  exited : ℤ → MainPc

-- The next access of the waiter.
pub data WaiterPc : Type 0 where
  waits : WaiterPc  -- res = futex_wait_requeue_pi(...)
  reads : Reply → WaiterPc  -- !requeued.val, after that reply
  releases : WaiterPc  -- futex_unlock_pi(&f2, ...), when it fails
  returned : ℤ → WaiterPc  -- pthread_exit(NULL), with `waiter_ret`

abbrev pub after_requeue : ℤ → MainPc
after_requeue res =
    if ltb_ℤ (pos 0) res then sets else if ltb_ℤ (pos 0) res then kills_again ret_error else kills

abbrev pub is_unexpected : Reply → AtomicT → Bool
is_unexpected r requeued = eqb_ℤ requeued.val (pos 0) || not (eqb_ℤ r.errno ewouldblock)

abbrev pub after_wait : Reply → AtomicT → WaiterPc
after_wait r requeued =
    if is_unexpected r requeued
    then (if eqb_ℤ r.res (pos 0) then releases else returned ret_fail)
    else returned ret_pass

-- `waiter_ret` when the waiter has come there
abbrev pub result_of : WaiterPc → ℤ → ℤ
result_of (returned ret) waiter_ret = ret
result_of _ waiter_ret = waiter_ret

pub record State : Type 0 where
  pub requeued : AtomicT
  pub waiter_ret : ℤ
  pub pi : Pi
  -- Whether SIGUSR1 is pending for the waiter, and whether the waiter sleeps in its wait.
  pub pending : Bool
  pub asleep : Bool
  pub main : MainPc
  pub waiter : WaiterPc

abbrev pub start : State
start = record {
  requeued = atomic_initializer;
  waiter_ret = ret_pass;
  pi = record { owner = none; on_f1 = λ _. false; on_f2 = λ _. false };
  pending = false;
  asleep = false;
  main = locks;
  waiter = waits;
}

-- With `prompt` a signal of the loop is delivered before the requeue that follows: `main` pauses for
-- DELAY_US between the two.
pub data Step (k : PiKernel) (prompt : Bool) (s : State) : State → Type 0 where
  main_takes :
      s.main ≡ locks
      → s.pi.owner ≡ none
      → Step k prompt s (record s { pi = record s.pi { owner = some 0 }; main = kills })
  main_queues :
      s.main ≡ locks
      → s.pi.owner ≢ none
      → Step k prompt s (record s { pi = record s.pi { on_f2 = update s.pi.on_f2 0 true } })
  main_gets : s.main ≡ locks → s.pi.owner ≡ some 0 → Step k prompt s (record s { main = kills })
  main_kills : s.main ≡ kills → Step k prompt s (record s { pending = true; main = requeues })
  main_requeues :
      {q : Pi} {count : ℕ}
      → s.main ≡ requeues
      → (prompt ≡ true → s.pending ≡ false)
      → k.Requeues 0 s.pi q count
      → Step k prompt s (record s { pi = q; main = after_requeue (pos count) })
  -- FUTEX_CMP_REQUEUE_PI may fail at any time.
  main_fails : s.main ≡ requeues → Step k prompt s (record s { main = after_requeue (negsuc 0) })
  main_sets :
      s.main ≡ sets
      → Step k prompt s
          (record s { requeued = (atomic_set s.requeued (pos 1)).0; main = kills_again ret_pass })
  main_kills_again :
      {ret : ℤ}
      → s.main ≡ kills_again ret
      → Step k prompt s (record s { pending = true; main = joins ret })
  main_joins :
      {ret : ℤ} {r : ℤ}
      → s.main ≡ joins ret
      → s.waiter ≡ returned r
      → Step k prompt s (record s { main = unlocks ret })
  main_unlocks :
      {ret : ℤ} {q : Pi}
      → s.main ≡ unlocks ret
      → s.pi.owner ≡ some 0
      → k.Unlocks s.pi q
      → Step k prompt s (record s { pi = q; main = ends ret })
  main_refused :
      {ret : ℤ}
      → s.main ≡ unlocks ret
      → s.pi.owner ≢ some 0
      → Step k prompt s (record s { main = ends ret })
  main_ends :
      {ret : ℤ}
      → s.main ≡ ends ret
      → Step k prompt s (record s { main = exited (out ret s.waiter_ret) })
  waiter_blocks :
      s.waiter ≡ waits
      → s.asleep ≡ false
      → Step k prompt s
          (record s { pi = record s.pi { on_f1 = update s.pi.on_f1 1 true }; asleep = true })
  waiter_gets :
      s.waiter ≡ waits
      → s.asleep ≡ true
      → s.pi.owner ≡ some 1
      → Step k prompt s (record s { asleep = false; waiter = reads (ok (pos 0)) })
  waiter_reads :
      {r : Reply}
      → s.waiter ≡ reads r
      → Step k prompt s (record s {
        waiter_ret = result_of (after_wait r s.requeued) s.waiter_ret;
        waiter = after_wait r s.requeued;
      })
  waiter_unlocks :
      {q : Pi}
      → s.waiter ≡ releases
      → s.pi.owner ≡ some 1
      → k.Unlocks s.pi q
      → Step k prompt s (record s { waiter_ret = ret_fail; pi = q; waiter = returned ret_fail })
  waiter_refused :
      s.waiter ≡ releases
      → s.pi.owner ≢ some 1
      → Step k prompt s (record s { waiter_ret = ret_fail; waiter = returned ret_fail })
  -- SIGUSR1 is delivered: to a waiter on f1, whose wait the kernel restarts; to a waiter that waits for
  -- f2, whose wait fails with EWOULDBLOCK; to a waiter that is not in its wait, or has not blocked.
  restarts :
      s.pending ≡ true
      → s.asleep ≡ true
      → s.pi.on_f1 1 ≡ true
      → Step k prompt s (record s {
        pi = record s.pi { on_f1 = update s.pi.on_f1 1 false };
        pending = false;
        asleep = false;
      })
  interrupts :
      s.pending ≡ true
      → s.asleep ≡ true
      → s.pi.on_f2 1 ≡ true
      → Step k prompt s (record s {
        pi = record s.pi { on_f2 = update s.pi.on_f2 1 false };
        pending = false;
        asleep = false;
        waiter = reads (failed ewouldblock);
      })
  handles : s.pending ≡ true → s.asleep ≡ false → Step k prompt s (record s { pending = false })

pub data Reach (k : PiKernel) (prompt : Bool) : State → Type 0 where
  begins : Reach k prompt start
  later : {s t : State} → Reach k prompt s → Step k prompt s t → Reach k prompt t
