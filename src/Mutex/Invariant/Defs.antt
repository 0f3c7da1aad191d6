-- ===== src/Mutex/Invariant/Defs.antt =====
-- The invariant of the lock of performance/futex_wait.c, and that it holds at the start.
use futextest.Common.{ℕ, zero, suc, ◌≤◌, ◌<◌, ◌≡◌, ◌⊎◌, true, min, refl, arith, total, total_zero}
use futextest.Kernel.{Sleepers}
use futextest.Machine.{Thread, running, waiting}
use futextest.Mutex.{futex, Pc, lock_wait, next_round, init}
use futextest.Mutex.Counts.{holds_at, holds, helps, sleeps, Marked}

abbrev pub holders : ℕ → (ℕ → Thread Pc) → ℕ
holders n t = total n (λ i. holds (t i))

abbrev pub helpers : ℕ → (ℕ → Thread Pc) → Sleepers → ℕ
helpers n t q = total n (λ i. helps (t i) (q i))

abbrev pub sleepers : ℕ → Sleepers → ℕ
sleepers n q = total n (λ i. sleeps (q i))

abbrev pub MarkedThread : Thread Pc → ℕ → Type 0
MarkedThread (running c) w = Marked c w
MarkedThread (waiting _) w = Unit {0}

-- Only a thread inside futex_wait(futex, 2, ...) is on the futex's queue.
abbrev pub IsWaiting : Thread Pc → Type 0
IsWaiting (waiting (lock_wait _)) = Unit {0}
IsWaiting _ = ⊥

abbrev pub IsWaiter : ℕ → Thread Pc → ℕ → Type 0
IsWaiter n t i = (i < n) × IsWaiting t

pub record Inv (n : ℕ) (w : ℕ) (q : Sleepers) (t : ℕ → Thread Pc) : Type 0 where
  pub small : w ≤ 2
  pub owned : holders n t ≡ min w 1
  pub marked : (i : ℕ) → i < n → MarkedThread (t i) w
  pub asleep : (i : ℕ) → q i ≡ true → IsWaiter n (t i) i
  pub covered : 0 < sleepers n q → (w ≡ 2) ⊎ (0 < helpers n t q)

pub holds-next_round : (k : ℕ) → holds_at (next_round k) ≡ 0
holds-next_round zero = refl
holds-next_round (suc k) = refl

pub Marked-next_round : (k w : ℕ) → Marked (next_round k) w
Marked-next_round zero w = tt
Marked-next_round (suc k) w = tt

pub Inv-init :
    (n : ℕ) (loops : ℕ → ℕ) → let s = init loops in Inv n (s.mem futex) (s.queue futex) s.thread
Inv-init n loops = record {
  small = omega arith;
  owned = omega (
    arith,
    total_zero n (λ i. holds_at (next_round (loops i))) (λ j _. holds-next_round (loops j)),
  );
  marked = λ i lt. Marked-next_round (loops i) 0;
  asleep = λ i e. cc;
  covered = λ h. absurd (omega (arith, total_zero n (λ i. 0) (λ j _. refl)));
}
