-- ===== src/Locktest/Tests.antt =====
-- Runs of `locktest` of performance/harness.h, and its theorems at them.
use futextest.Common.{zero, suc, inl, ◌≡◌, refl, arith, [], ◌∷◌, true, false}
use futextest.Kernel.Plain.{plain, plain-IsFutex}
use futextest.Machine.{running, waiting, IsQuiet, Reach, IsStill}
use futextest.Machine.Schedule.{Run, run}
use futextest.Machine.Positions.{position}
use futextest.Machine.Project.{view_system}
use futextest.Mutex
use futextest.Mutex.{futex_wait_test, unlock_load}
use futextest.Barrier
use futextest.Barrier.{barrier, sync_dec, synced, opened, wait_wait, wait_load}
use futextest.Locktest.{
  joining, returned, value_of, barrier_before, locktest, init, before, locking, after, measured,
  lock_word,
}
use futextest.Locktest.Order.{measured_after_rounds, IsOver}
use futextest.Locktest.Abort.{abort-IsOut, abort_joins, IsOut}
use futextest.Locktest.Quiet.{locktest_rests}
use futextest.Locktest.Parts.{before_part, after_part, lock_part}
use futextest.Locktest.Runs.{part_runs, rounds}

-- One worker with one round, and the calling thread, which is thread 1. The worker waits for
-- barrier_before and takes the lock; the calling thread waits for barrier_after.
abbrev entered : Run (locktest true 1) 2 (init true 1)
entered =
    run (locktest true 1) 2 (init true 1)
      (0 ∷ 0 ∷ 0 ∷ 0 ∷ 0 ∷ 1 ∷ 1 ∷ 1 ∷ 0 ∷ 0 ∷ 0 ∷ 0 ∷ 0 ∷ 1 ∷ 1 ∷ [])

entered_state :
    (entered.thread 0 ≡ running (locking 1 (unlock_load 0)))
    × (entered.thread 1 ≡ waiting (measured (wait_wait 1)))
    × (entered.mem lock_word ≡ 1)
unfolding run
entered_state = (refl, refl, refl)

-- Then the worker releases the lock and wakes the calling thread, and both run to the end.
abbrev completed : Run (locktest true 1) 2 (init true 1)
completed = run (locktest true 1) 2 (init true 1) (
    0 ∷ 0 ∷ 0 ∷ 0 ∷ 0 ∷ 1 ∷ 1 ∷ 1 ∷ 0 ∷ 0 ∷ 0 ∷ 0 ∷ 0 ∷ 1 ∷ 1 ∷ 0 ∷ 0 ∷ 0 ∷ 0 ∷ 0 ∷ 1 ∷ 1 ∷ 1 ∷ 1
    ∷ 0 ∷ 0 ∷ 0 ∷ [])

completed_state :
    (completed.thread 0 ≡ running (after 1 (synced 1)))
    × (completed.thread 1 ≡ running (measured opened))
    × (completed.mem lock_word ≡ 0)
unfolding run
completed_state = (refl, refl, refl)

part_runs_example :
    Reach plain (barrier 1) 2 (Barrier.init 1) (view_system (before_part true 1) entered.last)
    × Reach plain (barrier 1) 2 (Barrier.init 1) (view_system (after_part true 1) entered.last)
    × Reach plain futex_wait_test 2
        (Mutex.init (rounds 1 1))
        (view_system (lock_part true 1) entered.last)
part_runs_example = part_runs true 1 entered.reach

measured_after_rounds_example : IsOver (position (completed.thread 0))
unfolding run
measured_after_rounds_example =
    measured_after_rounds (omega arith) 1 completed.reach 0 opened (omega arith) refl tt

completed-IsQuiet : IsQuiet (locktest true 1) 2 completed.last
unfolding run
completed-IsQuiet zero lt = inl (after 1 (synced 1), refl, refl)
completed-IsQuiet (suc zero) lt = inl (measured opened, refl, refl)
completed-IsQuiet (suc (suc i)) lt = absurd (omega arith)

locktest_rests_example :
    (completed.thread 1 ≡ running (measured opened))
    × (completed.thread 0 ≡ running (after 1 (synced 1)))
    × (completed.mem lock_word ≡ 0)
locktest_rests_example =
    locktest_rests plain-IsFutex (omega arith) 1 completed.reach completed-IsQuiet 0 (omega arith)

-- Two threads were wanted and one was made: thread 1 takes no step, and the calling thread is thread 2,
-- which finds thread 0 asleep.
abbrev given_up : Run (locktest false 1) 3 (init false 2)
given_up = run (locktest false 1) 3 (init false 2) (0 ∷ 0 ∷ 0 ∷ 0 ∷ 2 ∷ 2 ∷ 0 ∷ 0 ∷ 0 ∷ [])

given_up_state :
    (given_up.thread 0 ≡ running (returned (value_of false)))
    × (given_up.thread 1 ≡ running (before sync_dec))
    × (given_up.thread 2 ≡ running joining)
    × (given_up.mem barrier_before ≡ 1)
unfolding run
given_up_state = (refl, refl, refl, refl)

abort-IsOut_example : IsOut (position (given_up.thread 0)) × (given_up.mem lock_word ≡ 0)
abort-IsOut_example = abort-IsOut plain-IsFutex (omega arith) 1 given_up.reach 0 (omega arith)

main-IsStill : IsStill (locktest false 1) given_up.last 2
unfolding run
main-IsStill = inl (joining, refl, refl)

worker-IsStill : IsStill (locktest false 1) given_up.last 0
unfolding run
worker-IsStill = inl (returned (value_of false), refl, refl)

abort_joins_example :
    (given_up.thread 2 ≡ running joining)
    × (given_up.thread 0 ≡ running (returned (value_of false)))
abort_joins_example =
    abort_joins plain-IsFutex (omega arith) 1 given_up.reach 0 (omega arith) main-IsStill
      worker-IsStill
