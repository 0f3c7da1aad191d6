-- ===== src/Mutex/Counts.antt =====
-- What the position of a thread in performance/futex_wait.c says about the lock.
use futextest.Common.{ℕ, ◌+◌, ◌≤◌, ◌≡◌, ◌⊎◌, Bool, true, false, min, arith}
use futextest.Machine.{Memory, IsLocal, perform, Thread, running, waiting}
use futextest.Mutex.{
  futex, Pc, lock_load, lock_mark, lock_wait, lock_reload, lock_retry, unlock_load, unlock_free,
  unlock_marked, unlock_wake, access, resume,
}

-- The thread has taken the lock and has not yet freed the word.
abbrev pub holds_at : Pc → ℕ
holds_at (unlock_load _) = 1
holds_at (unlock_free _) = 1
holds_at (unlock_marked _) = 1
holds_at _ = 0

-- The thread will wake a sleeper, or it will not leave the lock before the word is 2 again.
abbrev pub helps_at : Pc → ℕ
helps_at (lock_mark _) = 1
helps_at (lock_wait _) = 1
helps_at (lock_reload _) = 1
helps_at (lock_retry _) = 1
helps_at (unlock_wake _) = 1
helps_at _ = 0

abbrev pub holds : Thread Pc → ℕ
holds (running c) = holds_at c
holds (waiting _) = 0

abbrev pub helps : Thread Pc → Bool → ℕ
helps (running c) _ = helps_at c
helps (waiting _) true = 0
helps (waiting _) false = 1

abbrev pub sleeps : Bool → ℕ
sleeps true = 1
sleeps false = 0

-- The thread has seen that the word is 2 while it holds the lock.
abbrev pub Marked : Pc → ℕ → Type 0
Marked (unlock_marked _) w = w ≡ 2
Marked _ w = Unit {0}

-- One access of a thread that is at `c`, when the word is `m futex`.
pub record Effect (c : Pc) (m : Memory) (w : ℕ) (c' : Pc) : Type 0 where
  pub small : w ≤ 2
  pub owned : min w 1 + holds_at c ≡ min (m futex) 1 + holds_at c'
  pub marked : Marked c' w
  pub kept : m futex ≡ 2 → (w ≡ 2) ⊎ ((holds_at c ≡ 1) × (helps_at c' ≡ 1))
  pub helped : helps_at c ≤ helps_at c' ⊎ (w ≡ 2)

pub act-Effect :
    (c : Pc) (m : Memory)
    → IsLocal (access c)
    → m futex ≤ 2
    → holds_at c ≤ min (m futex) 1
    → Marked c (m futex)
    → Effect c m ((perform (access c) m).0 futex) (resume c (perform (access c) m).1)
unfolding perform
act-Effect (lock_load k) m l s h d = ground arith
act-Effect _ m l s h d = ground arith
