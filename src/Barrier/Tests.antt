-- ===== src/Barrier/Tests.antt =====
-- Runs of the barrier of performance/harness.h, and its theorems at them.
use futextest.Common.{zero, suc, inl, ◌≡◌, refl, arith, [], ◌∷◌}
use futextest.Machine.{running, waiting, IsQuiet}
use futextest.Machine.Schedule.{Run, run}
use futextest.Barrier.{barrier, init, sync_wait, wait_wait, synced, opened}
use futextest.Barrier.Quiet.{rest_passed}
use futextest.Kernel.Plain.{plain-IsFutex}

-- Worker 0 and the main thread, which is thread 2, fall asleep.
abbrev blocked : Run (barrier 1) 3 (init 2)
blocked = run (barrier 1) 3 (init 2) (0 ∷ 0 ∷ 0 ∷ 0 ∷ 2 ∷ 2 ∷ [])

blocked_state :
    (blocked.thread 0 ≡ waiting sync_wait)
    × (blocked.thread 2 ≡ waiting (wait_wait 1))
    × (blocked.mem 0 ≡ 1)
unfolding run
blocked_state = (refl, refl, refl)

-- Then worker 1 arrives and wakes the main thread, which opens the barrier.
abbrev passed : Run (barrier 1) 3 (init 2)
passed =
    run (barrier 1) 3 (init 2)
      (0 ∷ 0 ∷ 0 ∷ 0 ∷ 2 ∷ 2 ∷ 1 ∷ 1 ∷ 1 ∷ 1 ∷ 2 ∷ 2 ∷ 2 ∷ 2 ∷ 1 ∷ 1 ∷ 1 ∷ 0 ∷ 0 ∷ 0 ∷ [])

passed_state :
    (passed.thread 0 ≡ running (synced 1))
    × (passed.thread 1 ≡ running (synced 1))
    × (passed.thread 2 ≡ running opened)
unfolding run
passed_state = (refl, refl, refl)

passed-IsQuiet : IsQuiet (barrier 1) 3 passed.last
unfolding run
passed-IsQuiet zero lt = inl (synced 1, refl, refl)
passed-IsQuiet (suc zero) lt = inl (synced 1, refl, refl)
passed-IsQuiet (suc (suc zero)) lt = inl (opened, refl, refl)
passed-IsQuiet (suc (suc (suc i))) lt = absurd (omega arith)

rest_passed_example : (passed.thread 2 ≡ running opened) × (passed.thread 0 ≡ running (synced 1))
rest_passed_example =
    rest_passed plain-IsFutex (omega arith) passed.reach passed-IsQuiet 0 (omega arith)
      (λ e. absurd (omega arith))
