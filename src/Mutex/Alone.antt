-- ===== src/Mutex/Alone.antt =====
-- The uncontended path of the lock of performance/futex_wait.c.
use futextest.Common.{ℕ, zero, suc, ◌*◌, ◌<◌, ◌≡◌, some, refl, arith, update}
use futextest.Machine.{Memory, solo}
use futextest.Mutex.{futex, lock_load, finished, next_round, futex_wait_test}

round_alone :
    (fuel k : ℕ) (m : Memory)
    → m futex ≡ 0
    → solo futex_wait_test (suc (suc (suc (suc fuel)))) (lock_load k) m
      ≡ solo futex_wait_test fuel (next_round k) (update (update m futex 1) futex 0)
unfolding solo
round_alone fuel k m e = ground arith

-- A thread that finds the lock free and meets no other thread runs all its rounds without a call of
-- the kernel, in at most 4 accesses for each, and leaves the lock free.
pub alone_finishes :
    (k fuel : ℕ) (m : Memory)
    → m futex ≡ 0
    → 4 * k < fuel
    → (m' : Memory) × (solo futex_wait_test fuel (next_round k) m ≡ some (finished, m'))
      × (m' futex ≡ 0)
unfolding solo
alone_finishes zero (suc fuel) m e h = (m, refl, e)
alone_finishes (suc k) (suc (suc (suc (suc fuel)))) m e h =
    let (m', run, free) =
      alone_finishes k fuel (update (update m futex 1) futex 0) (ground arith) (omega arith) in
    (m', rw (round_alone fuel k m e) run, free)
alone_finishes _ _ m e h = absurd (omega arith)
