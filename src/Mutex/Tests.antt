-- ===== src/Mutex/Tests.antt =====
-- Runs of performance/futex_wait.c's lock, and its theorems at them.
use futextest.Common.{
  inl, zero, suc, ◌≤◌, ℕ, ◌≡◌, refl, true, [], ◌∷◌, ◌↔◌, ◌<◌, arith, some, ◌⊎◌, none,
}
use futextest.Machine.{running, waiting, perform, IsQuiet, Memory, solo}
use futextest.Machine.Schedule.{Run, run}
use futextest.Mutex.{
  futex_wait_test, init, unlock_load, lock_wait, finished, access, next_round, resume, futex,
}
use futextest.Mutex.Safety.{
  mutual_exclusion, InSection, quiet_finished, word_tells, release_effective, sleeper_covered,
}
use futextest.Mutex.Owner.{LockStep, owner}
use futextest.Mutex.Refines.{lock_refines}
use futextest.Machine.{Step, pick, act}
use futextest.Kernel.Plain.{plain}
use futextest.Mutex.Alone.{alone_finishes}
use futextest.Kernel.Plain.{plain-IsFutex}
use futextest.Mutex.Counts.{helps}

-- One round each for two threads.
abbrev once : ℕ → ℕ
once _ = 1

-- Thread 0 takes the lock, and thread 1 marks it and falls asleep.
abbrev contended : Run futex_wait_test 2 (init once)
contended = run futex_wait_test 2 (init once) (0 ∷ 0 ∷ 1 ∷ 1 ∷ 1 ∷ [])

contended_state :
    (contended.mem 0 ≡ 2)
    × (contended.thread 0 ≡ running (unlock_load 0))
    × (contended.thread 1 ≡ waiting (lock_wait 0))
    × (contended.queue 0 1 ≡ true)
unfolding run
contended_state = (refl, refl, refl, refl)

-- Then thread 0 releases and wakes it, and thread 1 runs to the end.
abbrev completed : Run futex_wait_test 2 (init once)
completed =
    run futex_wait_test 2 (init once) (0 ∷ 0 ∷ 1 ∷ 1 ∷ 1 ∷ 0 ∷ 0 ∷ 0 ∷ 1 ∷ 1 ∷ 1 ∷ 1 ∷ 1 ∷ 1 ∷ [])

completed_state :
    (completed.mem 0 ≡ 0)
    × (completed.thread 0 ≡ running finished)
    × (completed.thread 1 ≡ running finished)
unfolding run
completed_state = (refl, refl, refl)

mutual_exclusion_example : ◌≡◌ {A = ℕ} 0 0
unfolding run
mutual_exclusion_example =
    mutual_exclusion plain-IsFutex once contended.reach 0 0 (omega arith) (omega arith) tt tt

word_tells_example :
    (contended.mem 0 ≤ 2)
    × ((contended.mem 0 ≡ 0) ↔ ((i : ℕ) → i < 2 → ¬ InSection (contended.thread i)))
word_tells_example = word_tells plain-IsFutex once contended.reach

release_effective_example :
    let (m, status) = perform (access (unlock_load 0)) contended.mem in
    InSection (running (resume (unlock_load 0) status)) ⊎ (m futex ≡ 0)
unfolding run
release_effective_example =
    release_effective plain-IsFutex once contended.reach 0 (unlock_load 0) (omega arith) refl tt

sleeper_covered_example :
    (j : ℕ) × (j < 2)
    × (InSection (contended.thread j) ⊎ (helps (contended.thread j) (contended.queue 0 j) ≡ 1))
unfolding run
sleeper_covered_example = sleeper_covered plain-IsFutex once contended.reach 1 refl

completed-IsQuiet : IsQuiet futex_wait_test 2 completed.last
unfolding run
completed-IsQuiet zero lt = inl (finished, refl, refl)
completed-IsQuiet (suc zero) lt = inl (finished, refl, refl)
completed-IsQuiet (suc (suc i)) lt = absurd (omega arith)

quiet_finished_example :
    ((i : ℕ) → i < 2 → completed.thread i ≡ running finished) × (completed.mem 0 ≡ 0)
quiet_finished_example = quiet_finished plain-IsFutex once completed.reach completed-IsQuiet

alone_finishes_example :
    (m' : Memory) × (solo futex_wait_test 20 (next_round 3) (λ _. 0) ≡ some (finished, m'))
    × (m' 0 ≡ 0)
alone_finishes_example = alone_finishes 3 20 (λ _. 0) refl (omega arith)

-- Thread 0 takes the free lock.
abbrev entering : Run futex_wait_test 2 (init once)
entering = run futex_wait_test 2 (init once) (0 ∷ [])

abbrev entered : Run futex_wait_test 2 (init once)
entered = run futex_wait_test 2 (init once) (0 ∷ 0 ∷ [])

taking : Step plain futex_wait_test 2 entering.last entered.last
unfolding run perform
taking = pick 0 (omega arith) (act tt)

lock_refines_example :
    LockStep 2 none (some 0) × ((i : ℕ) → i < 2 → ((none ≡ some i) ↔ InSection (entering.thread i)))
unfolding run owner
lock_refines_example = lock_refines plain-IsFutex once entering.reach taking
