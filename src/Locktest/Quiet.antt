-- ===== src/Locktest/Quiet.antt =====
-- `locktest` of performance/harness.h when no thread can run on.
use futextest.Common.{ℕ, suc, ◌<◌, ◌≡◌, refl, arith, ap, sym, ◌∙◌, dec_lt, subst, true, Bool}
use futextest.Word.{int_max}
use futextest.Kernel.{Kernel, IsFutex}
use futextest.Machine.{Thread, System, Reach, running, waiting, IsQuiet}
use futextest.Machine.Positions.{position}
use futextest.Machine.Project.{view_system, view_thread}
use futextest.Machine.Refines.{AtEnd, view-IsStill}
use futextest.Mutex.{finished}
use futextest.Barrier.{barrier, synced, opened}
use futextest.Barrier.Rules
use futextest.Barrier.Quiet.{rest_passed}
use futextest.Locktest.{
  joining, Pc, before, locking, after, returned, measured, locktest, init, lock_word,
}
use futextest.Locktest.Parts.{
  before_part, after_part, before_place, after_place, lock_place, at_before, at_lock, lock_part,
}
use futextest.Locktest.Runs.{part_runs, rounds}
use futextest.Locktest.Phases.{IsPlaced, Reach-IsPlaced, pc_before}
use futextest.Common.Window.{window, window_at}
use futextest.Mutex.Safety.{quiet_finished}

module _ (loops : ℕ) where
  pub before_end : (all : Bool) (c : Pc) → AtEnd (before_place all loops c)
  unfolding before_place
  before_end all (before c) = tt
  before_end all _ = refl

  -- Past barrier_before.
  abbrev IsPast : Pc → Type 0
  IsPast (before _) = ⊥
  IsPast (returned _) = ⊥
  IsPast joining = ⊥
  IsPast _ = Unit {0}

  worker-IsPast : (c : Pc) → IsPlaced true c → at_before true loops c ≡ synced 1 → IsPast c
  worker-IsPast (before (synced v)) ok e = ok
  worker-IsPast (before _) ok e = cc
  worker-IsPast (returned v) ok e = let one : v ≡ 1 = cc in absurd (ground arith)
  worker-IsPast (locking _ _) ok e = tt
  worker-IsPast (after _ _) ok e = tt
  worker-IsPast (measured _) ok e = tt
  worker-IsPast joining ok e = cc

  main-IsPast : (c : Pc) → IsPlaced true c → at_before true loops c ≡ opened → IsPast c
  main-IsPast (before opened) ok e = ok
  main-IsPast (before _) ok e = cc
  main-IsPast (returned v) ok e = cc
  main-IsPast (locking _ _) ok e = tt
  main-IsPast (after _ _) ok e = tt
  main-IsPast (measured _) ok e = tt
  main-IsPast joining ok e = cc

  lock_end : (c : Pc) → IsPast c → AtEnd (lock_place true loops c)
  unfolding lock_place
  lock_end (locking _ _) h = tt
  lock_end (after _ _) h = refl
  lock_end (measured _) h = refl
  lock_end joining h = elim h [ ]
  lock_end (before _) h = elim h [ ]
  lock_end (returned _) h = elim h [ ]

  -- Past the lock.
  abbrev IsLate : Pc → Type 0
  IsLate (after _ _) = Unit {0}
  IsLate (measured _) = Unit {0}
  IsLate _ = ⊥

  leaves_lock : (c : Pc) → IsPlaced true c → IsPast c → at_lock true loops c ≡ finished → IsLate c
  leaves_lock (locking u finished) ok past e = ok.1
  leaves_lock (locking u _) ok past e = cc
  leaves_lock (after _ _) ok past e = tt
  leaves_lock (measured _) ok past e = tt
  leaves_lock joining ok past e = past
  leaves_lock (before _) ok past e = past
  leaves_lock (returned _) ok past e = past

  after_end : (c : Pc) → IsLate c → AtEnd (after_place true loops c)
  unfolding after_place
  after_end (after _ _) h = tt
  after_end (measured _) h = tt
  after_end joining h = elim h [ ]
  after_end (before _) h = elim h [ ]
  after_end (locking _ _) h = elim h [ ]
  after_end (returned _) h = elim h [ ]

  -- A thread at its end.
  at_synced :
      (t : Thread Pc)
      → IsLate (position t)
      → at_before true loops (position t) ≡ synced 1
      → view_thread (after_part true loops) t ≡ running (synced 1)
      → t ≡ running (after 1 (synced 1))
  unfolding after_place
  at_synced (running (after u c)) l b e = cc
  at_synced (running (measured c)) l b e = cc
  at_synced (running (before _)) l b e = elim l [ ]
  at_synced (running joining) l b e = elim l [ ]
  at_synced (running (locking _ _)) l b e = elim l [ ]
  at_synced (running (returned _)) l b e = elim l [ ]
  at_synced (waiting (after u c)) l b e = cc
  at_synced (waiting (measured c)) l b e = cc
  at_synced (waiting (before _)) l b e = elim l [ ]
  at_synced (waiting joining) l b e = elim l [ ]
  at_synced (waiting (locking _ _)) l b e = elim l [ ]
  at_synced (waiting (returned _)) l b e = elim l [ ]

  at_opened :
      (t : Thread Pc)
      → IsLate (position t)
      → at_before true loops (position t) ≡ opened
      → view_thread (after_part true loops) t ≡ running opened
      → t ≡ running (measured opened)
  unfolding after_place
  at_opened (running (after u c)) l b e = cc
  at_opened (running (measured c)) l b e = cc
  at_opened (running (before _)) l b e = elim l [ ]
  at_opened (running joining) l b e = elim l [ ]
  at_opened (running (locking _ _)) l b e = elim l [ ]
  at_opened (running (returned _)) l b e = elim l [ ]
  at_opened (waiting (after u c)) l b e = cc
  at_opened (waiting (measured c)) l b e = cc
  at_opened (waiting (before _)) l b e = elim l [ ]
  at_opened (waiting joining) l b e = elim l [ ]
  at_opened (waiting (locking _ _)) l b e = elim l [ ]
  at_opened (waiting (returned _)) l b e = elim l [ ]

  finished_lem :
      (t : Thread Pc)
      → view_thread (lock_part true loops) t ≡ running finished
      → at_lock true loops (position t) ≡ finished
  unfolding lock_place
  finished_lem (running c) e = cc
  finished_lem (waiting (before c)) e = cc
  finished_lem (waiting (locking u c)) e = cc
  finished_lem (waiting (after u c)) e = refl
  finished_lem (waiting (returned u)) e = cc
  finished_lem (waiting (measured c)) e = refl
  finished_lem (waiting joining) e = refl

module _ {k : Kernel} (doc : IsFutex k) {n : ℕ} (small : n < int_max) (loops : ℕ) {s : System Pc}
    (r : Reach k (locktest true loops) (suc n) (init true n) s)
    (quiet : IsQuiet (locktest true loops) (suc n) s) where
  placed : (i : ℕ) → IsPlaced true (position (s.thread i))
  placed = Reach-IsPlaced true loops r

  before-IsQuiet : IsQuiet (barrier 1) (suc n) (view_system (before_part true loops) s)
  before-IsQuiet = λ i lt.
      view-IsStill (before_part true loops) s i (quiet i lt)
        (before_end loops true (position (s.thread i)))

  passed :
      (i : ℕ)
      → i < n
      → (at_before true loops (position (s.thread n)) ≡ opened)
        × (at_before true loops (position (s.thread i)) ≡ synced 1)
  passed i lt =
      let (run, _, _) = part_runs true loops r in
      let (main, worker) =
        rest_passed doc small run before-IsQuiet i lt (λ e. absurd (omega arith)) in
      (
        sym (pc_before true loops (s.thread n)) ∙ ap Rules.pc main,
        sym (pc_before true loops (s.thread i)) ∙ ap Rules.pc worker,
      )

  past : (i : ℕ) → i < n → (j : ℕ) → j < suc n → IsPast loops (position (s.thread j))
  past i lt j lt' = elim (dec_lt j n) [
    | yes below ↦ worker-IsPast loops (position (s.thread j)) (placed j) (passed j below).1
    | no above ↦
        subst (λ x. IsPast loops (position (s.thread x))) (omega (arith, above, lt'))
          (main-IsPast loops (position (s.thread n)) (placed n) (passed i lt).0)
  ]

  unlocked :
      (i : ℕ)
      → i < n
      → ((j : ℕ) → j < suc n → view_thread (lock_part true loops) (s.thread j) ≡ running finished)
        × (window 4 1 0 s.mem 0 ≡ 0)
  unlocked i lt =
      let (_, _, run) = part_runs true loops r in
      quiet_finished doc (rounds loops n) run (λ j lt'.
        view-IsStill (lock_part true loops) s j (quiet j lt')
          (lock_end loops (position (s.thread j)) (past i lt j lt')))

  past_lock : (i : ℕ) → i < n → (j : ℕ) → j < suc n → IsLate loops (position (s.thread j))
  past_lock i lt j lt' =
      leaves_lock loops (position (s.thread j)) (placed j) (past i lt j lt')
        (finished_lem loops (s.thread j) ((unlocked i lt).0 j lt'))

  -- No schedule blocks. With fewer than INT_MAX workers, at least one, and a kernel whose FUTEX_WAIT
  -- and FUTEX_WAKE do what futex(2) says: when no thread can run on, the calling thread has passed
  -- both barriers, every worker has done its rounds and got 1 from both of its `barrier_sync`, and
  -- the lock is free.
  pub locktest_rests :
      (i : ℕ)
      → i < n
      → (s.thread n ≡ running (measured opened))
        × (s.thread i ≡ running (after 1 (synced 1)))
        × (s.mem lock_word ≡ 0)
  locktest_rests i lt =
      let (_, run, _) = part_runs true loops r in
      let rest : IsQuiet (barrier 1) (suc n) (view_system (after_part true loops) s) = λ j lt'.
        view-IsStill (after_part true loops) s j (quiet j lt')
          (after_end loops (position (s.thread j)) (past_lock i lt j lt')) in
      let (main, worker) = rest_passed doc small run rest i lt (λ e. absurd (omega arith)) in
      (
        at_opened loops (s.thread n) (past_lock i lt n (omega arith)) (passed i lt).0 main,
        at_synced loops (s.thread i) (past_lock i lt i (omega arith)) (passed i lt).1 worker,
        sym (window_at 4 1 0 s.mem 0 (omega arith)) ∙ (unlocked i lt).1,
      )
