-- ===== src/SignalRestart.antt =====
-- functional/futex_requeue_pi_signal_restart.c: a waiter that takes a signal before and after its
-- requeue. The kernel, the C library and the scheduler are given by what they reply. The messages on
-- stderr of this program are left out; `events` are what `main` does to the waiter and to the futexes,
-- the newest first.
pub mod Waiter
pub mod Threads
pub mod Rounds
pub mod Verdict
pub mod Reports
pub mod System
mod Tests
use futextest.Common.{
  ℕ, zero, suc, ◌&&◌, not, List, [], ◌∷◌, Option, none, some, if◌then◌else◌, Option,
}
use futextest.Common.Int.{ℤ, pos, ltb_ℤ, eqb_ℤ}
use futextest.Logging.{Console, print, title, ret_pass, ret_error, fresh}
use futextest.Getopt.{Opt, Flow, go, exit, getopt_loop, switch_chv}
use futextest.Syscall.{Uapi, Args}
use futextest.Futex.Atomic.{AtomicT, atomic_initializer, atomic_set}
use futextest.Functional.{Reply, Outcome, finish}
use futextest.Requeue.{lock_f2, unlock_f2, requeue}
use futextest.Requeue.Threads.{Pthread}
use futextest.SignalRestart.Threads.{create_rt_thread}
use futextest.SignalRestart.Waiter.{waiterfn}

-- What is around `main`: the result of sigaction, the waiter's creation, the reply of the n-th requeue,
-- and what the waiter gets: the reply of its wait and the value of `requeued` that it reads after it.
pub record World : Type 0 where
  pub sigaction : ℤ
  pub thread : Pthread
  pub requeued_by : ℕ → Reply
  pub woken : Reply
  pub seen : AtomicT

pub data Event : Type 0 where
  call : Args → Event
  kill : Event  -- pthread_kill(waiter, SIGUSR1)
  join : Event  -- pthread_join(waiter, NULL)

-- `ret`, `requeued` and the events of `main`.
pub record Main : Type 0 where
  pub ret : ℤ
  pub requeued : AtomicT
  pub events : List Event

-- At the label `out`.
abbrev pub out : ℤ → ℤ → ℤ
out ret waiter_ret =
    if eqb_ℤ ret ret_pass && not (eqb_ℤ waiter_ret (pos 0)) then waiter_ret else ret

abbrev pub banner : Console → Console
banner c =
    print (title "\tArguments: <none>")
      (print (title "%s: Test signal handling during requeue_pi") c)

abbrev ended : Console → Option (ℤ × List Event) → Option Outcome
ended c none = none
ended c (some (ret, _)) = some (finish ret c)

module _ (u : Uapi) where
  abbrev pub round_events : List Event → List Event
  round_events es = call (requeue u (pos 0)) ∷ kill ∷ es

  -- `while (1)`, with fuel, from round `i` on: `none` means that the fuel ran out.
  unfoldable pub requeue_loop : (ℕ → Reply) → ℕ → ℕ → Main → Option Main
  unfolding atomic_set
  requeue_loop reply zero i m = none
  requeue_loop reply (suc fuel) i m =
      let res = (reply i).res in
      let es = round_events m.events in
      let rest = requeue_loop reply fuel (suc i) (record m { events = es }) in
      if ltb_ℤ (pos 0) res
      then some (record m { requeued = (atomic_set m.requeued (pos 1)).0; events = es })
      else if ltb_ℤ (pos 0) res
      then some (record m { ret = ret_error; events = es })
      else rest

  abbrev pub start : Main
  start = record { ret = ret_pass; requeued = atomic_initializer; events = call (lock_f2 u) ∷ [] }

  -- The signal after the requeue, the join and the unlock.
  abbrev pub after_loop : Main → Main
  after_loop m = record m { events = call (unlock_f2 u) ∷ join ∷ kill ∷ m.events }

  abbrev joined : World → Option Main → Option (ℤ × List Event)
  joined w none = none
  joined w (some m) =
      let m' = after_loop m in some (out m'.ret (waiterfn u w.woken w.seen).ret, m'.events)

  -- From the creation of the waiter to the label `out`: the exit status, and the events.
  unfoldable pub signal_test : World → ℕ → Option (ℤ × List Event)
  unfolding create_rt_thread requeue_loop waiterfn
  signal_test w fuel =
      if not (eqb_ℤ (create_rt_thread w.thread) (pos 0))
      then some (ret_error, [])
      else joined w (requeue_loop w.requeued_by fuel 0 start)

  abbrev pub run_test : World → ℕ → Console → Option Outcome
  run_test w fuel c =
      if not (eqb_ℤ w.sigaction (pos 0))
      then some (record { status = pos 1; console = banner c })
      else ended (banner c) (signal_test w fuel)

  abbrev pub after_options : World → ℕ → Flow Console → Option Outcome
  after_options w fuel (go c) = run_test w fuel c
  after_options w fuel (exit r c) = some (record { status = r; console = c })

  -- With fuel for the `while` loop.
  unfoldable pub main : World → ℕ → List Opt → Option Outcome
  unfolding signal_test getopt_loop switch_chv
  main w fuel os = after_options w fuel (getopt_loop switch_chv os fresh)
