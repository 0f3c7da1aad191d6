-- ===== src/Requeue/Tests.antt =====
-- Runs of functional/futex_requeue_pi.c.
use futextest.Common.{
  ℕ, ◌/◌, ◌≡◌, refl, some, false, if◌then◌else◌, true, none, ◌==◌, ◌<◌, ◌≤◌, [], ◌∷◌, ◌*◌, ◌+◌,
  arith, ltb, List,
}
use futextest.Common.Int.{pos, negsuc, ℤ}
use futextest.Syscall.Decode.{linux}
use futextest.Requeue.Waker
use futextest.Requeue.UnitTest
use futextest.Requeue.UnitTest.{
  Long, bits32, bits64, modulus, long_max, Style, unit_test, timeout_at, waiter_rets, starts,
  nsec_per_sec, join_waiters, run_waker,
}
use futextest.Requeue.Threads.{Pthread}
use futextest.Functional.{Reply, etimedout}
use futextest.Logging.{ret_pass, ret_error}
use futextest.Requeue.Waker.{Waker, locked}
use futextest.Requeue.Results.{timeout_at_keeps_time}
use futextest.Requeue.Options.{main, switch, defaults}
use futextest.Getopt.{getopt_loop, Opt}
use futextest.Requeue.Verdict.{Judged, unit_test_judges}
use futextest.Requeue.Reports.{Finishes, main_ends}

-- The waiters are blocked at the sixth read of the waker.
abbrev at_sixth : ℕ → ℤ
at_sixth n = if ltb n 5 then pos n else pos 10

-- Each requeue wakes one waiter.
abbrev one_each : Waker.World
one_each = record {
  blocked = at_sixth;
  woken = λ n. pos 0;
  reply = λ n. record { res = pos 1; errno = pos 0 };
  locks = λ n. true;
}

abbrev made : Pthread
made = record { inheritsched = pos 0; schedpolicy = pos 0; schedparam = pos 0; create = pos 0 }

-- Waiter 3 is not woken but times out.
abbrev wait_reply : ℕ → Reply
wait_reply n =
    if n == 3
    then record { res = negsuc 0; errno = etimedout }
    else record { res = pos 0; errno = pos 0 }

abbrev busy : UnitTest.World
busy = record {
  clock = pos 0;
  now = record { tv_sec = pos 7; tv_nsec = pos 999999999 };
  blocker_thread = made;
  long = bits32;
  blocker_ends = true;
  blocker = record { locked = pos 0; waited = pos 0; unlocked = pos 0 };
  waiter_thread = λ n. made;
  waiter = wait_reply;
  waiter_ends = λ n. true;
  waker_thread = made;
  waker = one_each;
}

abbrev with_timeout : Style
with_timeout = record { broadcast = false; lock = true; owner = true; timeout_ns = pos 5 }

abbrev no_timeout : Style
no_timeout = record with_timeout { timeout_ns = pos 0 }

passes : unit_test linux with_timeout busy 20 ≡ some ret_pass
unfolding unit_test
passes = refl

fails : unit_test linux no_timeout busy 20 ≡ some ret_error
unfolding unit_test
fails = refl

out_of_fuel : unit_test linux with_timeout busy 10 ≡ none
unfolding unit_test
out_of_fuel = refl

abbrev left_alone : UnitTest.World
left_alone = record busy { waiter_ends = λ n. ltb n 9 }

joins_for_ever : unit_test linux with_timeout left_alone 20 ≡ none
unfolding unit_test
joins_for_ever = refl

-- -t 2000000000 where `long` has 32 bits: the timeout is before the time.
long_overflow :
    timeout_at bits32 busy.now (pos 2000000000) ≡ record { tv_sec = pos 6; tv_nsec = pos 999999999 }
unfolding timeout_at
long_overflow = refl

unit_test_judges_example :
    Judged linux with_timeout busy 1011 (unit_test linux with_timeout busy 1011)
unit_test_judges_example =
    unit_test_judges linux with_timeout busy 1011 (omega arith) (5, omega arith, omega arith)
      (λ _ i. refl)

abbrev with_lock : List Opt
with_lock = record { code = b'l'; optarg = [] } ∷ []

main_ends_example :
    Finishes linux busy 1011
      (getopt_loop switch with_lock defaults)
      (main linux busy 1011 with_lock)
main_ends_example =
    main_ends linux busy 1011 (omega arith) (5, omega arith, omega arith) (λ i. refl) with_lock

fits_long : 999999999 + 5 ≤ long_max bits32
unfolding modulus
fits_long = omega arith

fits_long_too : 7 + (999999999 + 5) / nsec_per_sec ≤ long_max bits32
unfolding modulus
fits_long_too = omega arith

timeout_at_keeps_time_example :
    (q m : ℕ) × (timeout_at bits32 busy.now (pos 5) ≡ record { tv_sec = pos q; tv_nsec = pos m })
    × (m < nsec_per_sec)
    × (q * nsec_per_sec + m ≡ 7 * nsec_per_sec + 999999999 + 5)
timeout_at_keeps_time_example = timeout_at_keeps_time bits32 7 999999999 5 fits_long fits_long_too
