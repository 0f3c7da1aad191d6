-- ===== src/SignalRestart/Tests.antt =====
-- Runs of functional/futex_requeue_pi_signal_restart.c, and its theorems at them.
use futextest.Common.{ℕ, zero, suc, ◌≡◌, refl, arith, [], ◌∷◌, some, none, ◌≤◌, ◌⊎◌, ◌<◌}
use futextest.Common.Int.{ℤ, pos, negsuc, ◌≤ℤ◌}
use futextest.Logging.{ret_pass, ret_fail}
use futextest.Syscall.Decode.{linux}
use futextest.Functional.{Reply, Outcome, ewouldblock}
use futextest.Requeue.{lock_f2, unlock_f2, requeue}
use futextest.SignalRestart.Threads.{create_rt_thread}
use futextest.SignalRestart.{World, call, kill, join, signal_test, main}
use futextest.SignalRestart.Rounds.{IsFirst}
use futextest.SignalRestart.Verdict.{IsRestarted, run_events, signal_test_ends, signal_test_stuck}
use futextest.SignalRestart.Reports.{IsRun, main_reports}
use futextest.Getopt.{usage_lines}
use futextest.Getopt.Laws.{IsUsage}

-- The first requeue comes too early, the second finds the waiter.
abbrev second : ℕ → Reply
second zero = record { res = pos 0; errno = pos 0 }
second (suc _) = record { res = pos 1; errno = pos 0 }

abbrev restarted : World
restarted = record {
  sigaction = pos 0;
  thread = record { inheritsched = pos 0; schedpolicy = pos 0; schedparam = pos 0; create = pos 0 };
  requeued_by = second;
  woken = record { res = negsuc 0; errno = ewouldblock };
  seen = record { val = pos 1 };
}

-- Every requeue fails.
abbrev failing : World
failing = record restarted { requeued_by = λ _. record { res = negsuc 0; errno = ewouldblock } }

passes :
    signal_test linux restarted 2
    ≡ some (
      ret_pass,
      call (unlock_f2 linux)
          ∷ join
          ∷ kill
          ∷ call (requeue linux (pos 0))
          ∷ kill
          ∷ call (requeue linux (pos 0))
          ∷ kill
          ∷ call (lock_f2 linux)
          ∷ [],
    )
unfolding signal_test
passes = refl

second-IsFirst : IsFirst linux second 0 1
second-IsFirst = record { here = omega arith; before = before }
  where
    before : (j : ℕ) → 0 ≤ j → j < 1 → (second j).res ≤ℤ pos 0
    before zero h lt = omega arith
    before (suc j) h lt = absurd (omega arith)

made : create_rt_thread restarted.thread ≡ pos 0
unfolding create_rt_thread
made = refl

signal_test_ends_example :
    (ret : ℤ) × (signal_test linux restarted 5 ≡ some (ret, run_events linux 1))
    × (((ret ≡ ret_pass) × IsRestarted restarted.woken restarted.seen)
        ⊎ ((ret ≡ ret_fail) × ¬ IsRestarted restarted.woken restarted.seen))
signal_test_ends_example = signal_test_ends linux restarted 1 5 made second-IsFirst (omega arith)

signal_test_stuck_example : signal_test linux failing 7 ≡ none
signal_test_stuck_example = signal_test_stuck linux failing 7 made (λ i. omega arith)

main_reports_example :
    (o : Outcome) × (main linux restarted 5 (record { code = b'v'; optarg = b'2' ∷ [] } ∷ [])
      ≡ some o)
    × (IsUsage usage_lines o.status o.console ⊎ IsRun linux restarted 1 5 o)
main_reports_example =
    main_reports linux restarted 1 5 made second-IsFirst (omega arith)
      (record { code = b'v'; optarg = b'2' ∷ [] } ∷ [])
