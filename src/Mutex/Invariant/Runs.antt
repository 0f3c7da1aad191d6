-- ===== src/Mutex/Invariant/Runs.antt =====
-- Every step of the threads and of the kernel, and so every run, keeps the lock's invariant.
use futextest.Common.{refl, ℕ, ap, arith}
use futextest.Kernel.{Kernel, IsFutex}
use futextest.Machine.{System, Step, pick, disturb, Reach, start, later}
use futextest.Mutex.{futex, futex_wait_test, init, Pc}
use futextest.Mutex.Invariant.Defs.{Inv-init}
use futextest.Mutex.Invariant.Changes.{shrink-Inv}
use futextest.Mutex.Invariant.Steps.{LockInv, Move-Inv}

-- A step of any thread, and a wakeup by the kernel alone, keeps the invariant.
Step-Inv :
    {k : Kernel}
    → IsFutex k
    → {n : ℕ} {s u : System Pc} → Step k futex_wait_test n s u
    → LockInv n s.shared s.thread
    → LockInv n u.shared u.thread
Step-Inv doc {s = s} (pick i lt mv) inv = Move-Inv s.shared inv i lt doc mv refl
Step-Inv doc {s = s} (disturb a {after} d) inv =
    shrink-Inv inv
      (λ i e. ground (arith, doc.disturbs_asleep d i, ap (λ x. s.queue x i) {x = a} {y = futex}))

pub Reach-Inv :
    {k : Kernel}
    → IsFutex k
    → {n : ℕ} (loops : ℕ → ℕ) {s : System Pc} → Reach k futex_wait_test n (init loops) s
    → LockInv n s.shared s.thread
Reach-Inv doc {n} loops start = Inv-init n loops
Reach-Inv doc loops (later r st) = Step-Inv doc st (Reach-Inv doc loops r)
