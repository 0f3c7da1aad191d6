-- ===== src/Locktest/Runs.antt =====
-- The runs of `locktest` of performance/harness.h, seen through its parts.
use futextest.Common.{ℕ, suc, ◌≡◌, arith, false, ltb, if◌then◌else◌, subst, Bool}
use futextest.Common.Window.{window}
use futextest.Kernel.{Kernel, Sleepers}
use futextest.Machine.{System, Reach, running}
use futextest.Machine.Project.{view_system}
use futextest.Machine.Refines.{Reach-Follows}
use futextest.Mutex
use futextest.Mutex.{futex_wait_test, next_round}
use futextest.Barrier
use futextest.Barrier.{barrier, sync_dec, wait_load, barrier_init}
use futextest.Locktest.{Pc, locktest, init, shared_words, main_start, value_of}
use futextest.Locktest.Parts.{before_part, after_part, lock_part, start_of, rounds_of}

-- The rounds of thread `i`: the calling thread does none.
abbrev pub rounds : ℕ → ℕ → ℕ → ℕ
rounds loops n i = if ltb i n then loops else 0

no_sleepers : (b w a j : ℕ) → window {A = Sleepers} b w (λ _. false) (λ _ _. false) a j ≡ false
no_sleepers b w a j = ground arith

module _ (all : Bool) (n : ℕ) where
  before_words : (a : ℕ) → window 0 2 0 (shared_words n) a ≡ barrier_init n a
  before_words a = ground arith

  after_words : (a : ℕ) → window 2 2 0 (shared_words n) a ≡ barrier_init n a
  after_words a = ground arith

  lock_words : (a : ℕ) → window 4 1 0 (shared_words n) a ≡ 0
  lock_words a = ground arith

  start_lem :
      (i : ℕ)
      → start_of (if ltb i n then sync_dec else main_start all)
        ≡ (if ltb i n then sync_dec else wait_load)
  start_lem i = ground arith

  rounds_lem :
      (loops i : ℕ)
      → rounds_of all loops (if ltb i n then sync_dec else main_start all)
        ≡ next_round (rounds loops n i)
  rounds_lem loops i = ground arith

  module _ (loops : ℕ) where
    init_before :
        view_system (before_part all loops) (init all n) ≡ Barrier.started (main_start all) n
    init_before = λ l. record {
      shared = record { mem = λ a. before_words a l; queue = λ a j. no_sleepers 0 2 a j l };
      thread = λ i. running (if ltb i n then sync_dec else main_start all);
    }

    init_after : view_system (after_part all loops) (init all n) ≡ Barrier.init n
    init_after = λ l. record {
      shared = record { mem = λ a. after_words a l; queue = λ a j. no_sleepers 2 2 a j l };
      thread = λ i. running (start_lem i l);
    }

    init_lock : view_system (lock_part all loops) (init all n) ≡ Mutex.init (rounds loops n)
    init_lock = λ l. record {
      shared = record { mem = λ a. lock_words a l; queue = λ a j. no_sleepers 4 1 a j l };
      thread = λ i. running (rounds_lem loops i l);
    }

-- Every state that `locktest` reaches after its loop over `pthread_create`, aborted or not, is, seen
-- through each of its parts, one that the part reaches by itself: barrier_before, opened with 1 after
-- `barrier_wait` or with -1 at once, barrier_after with `n` workers, and the lock with shared.loops
-- rounds for each worker.
pub part_runs :
    {k : Kernel} {n : ℕ} (all : Bool) (loops : ℕ) {s : System Pc}
    → Reach k (locktest all loops) (suc n) (init all n) s
    → Reach k
        (barrier (value_of all))
        (suc n)
        (Barrier.started (main_start all) n)
        (view_system (before_part all loops) s)
      × Reach k (barrier 1) (suc n) (Barrier.init n) (view_system (after_part all loops) s)
      × Reach k futex_wait_test
          (suc n)
          (Mutex.init (rounds loops n))
          (view_system (lock_part all loops) s)
part_runs {k} {n} all loops {s} r = (
  subst (λ x. Reach k (barrier (value_of all)) (suc n) x (view_system (before_part all loops) s))
      (init_before all n loops) (Reach-Follows (before_part all loops) r),
  subst (λ x. Reach k (barrier 1) (suc n) x (view_system (after_part all loops) s))
      (init_after all n loops) (Reach-Follows (after_part all loops) r),
  subst (λ x. Reach k futex_wait_test (suc n) x (view_system (lock_part all loops) s))
      (init_lock all n loops) (Reach-Follows (lock_part all loops) r),
)
