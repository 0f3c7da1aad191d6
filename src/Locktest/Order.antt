-- ===== src/Locktest/Order.antt =====
-- The order of the phases of `locktest` of performance/harness.h.
use futextest.Common.{ℕ, suc, ◌^◌, ◌<◌, ◌≡◌, ◌≢◌, refl, arith, subst, ap, sym, ◌∙◌, dec_lt, true}
use futextest.Kernel.{Kernel, IsFutex}
use futextest.Machine.{Thread, System, Reach, running, waiting}
use futextest.Machine.Positions.{position}
use futextest.Machine.Project.{view_thread}
use futextest.Mutex.{finished}
use futextest.Mutex.Safety.{InSection, mutual_exclusion, word_tells}
use futextest.Barrier
use futextest.Barrier.{sync_dec, synced, opened, wait_load}
use futextest.Barrier.Rules
use futextest.Barrier.Rules.{WorkerOk}
use futextest.Barrier.Safety.{Reach-Inv, HasWaited, barrier_sync_holds, barrier_wait_holds}
use futextest.Locktest.{
  joining, Pc, before, locking, after, returned, measured, locktest, init, lock_word,
}
use futextest.Locktest.Parts.{after_part, lock_part, lock_place, at_before, at_after, at_lock}
use futextest.Locktest.Runs.{part_runs, rounds}
use futextest.Locktest.Phases.{pc_before, pc_after}
use futextest.Common.Window.{window_at}

-- The first `barrier_sync` of a worker has returned `v`.
abbrev pub HasSynced : ℕ → Pc → Type 0
HasSynced v (locking u _) = u ≡ v
HasSynced v (after u _) = u ≡ v
HasSynced v (returned u) = u ≡ v
HasSynced v _ = ⊥

-- A worker has done its rounds and counted itself off at barrier_after.
abbrev pub IsOver : Pc → Type 0
IsOver (after _ c) = c ≢ sync_dec
IsOver _ = ⊥

synced_lem : (loops v : ℕ) (c : Pc) → HasSynced v c → at_before true loops c ≡ synced v
synced_lem loops v (locking u c) h = ap synced h
synced_lem loops v (after u c) h = ap synced h
synced_lem loops v (returned u) h = ap synced h
synced_lem loops v (before _) h = elim h [ ]
synced_lem loops v (measured _) h = elim h [ ]
synced_lem loops v joining h = elim h [ ]

over_lem :
    (loops u : ℕ) (c : Pc)
    → WorkerOk u (at_before true loops c)
    → at_after true loops c ≢ sync_dec
    → IsOver c
over_lem loops u (after v c) ok ne = ne
over_lem loops u (before c) ok ne = ground arith
over_lem loops u (locking v c) ok ne = absurd (ne refl)
over_lem loops u (returned v) ok ne = absurd (ne refl)
over_lem loops u (measured c) ok ne = absurd ok
over_lem loops u joining ok ne = elim ok [ ]

module _ {k : Kernel} {n : ℕ} (small : n < 2 ^ 31) (loops : ℕ) {s : System Pc}
    (r : Reach k (locktest true loops) (suc n) (init true n) s) where
  -- For fewer than 2 ^ 31 workers, on any schedule and any kernel: a worker whose first `barrier_sync`
  -- has returned got 1, so it goes on to its rounds, and all workers have counted themselves off
  -- at barrier_before by then: nobody takes the lock before all threads are there.
  rounds_after_barrier :
      (i j v : ℕ)
      → i < n
      → j < n
      → HasSynced v (position (s.thread j))
      → (v ≡ 1) × (position (s.thread i) ≢ before sync_dec)
  rounds_after_barrier i j v li lj h =
      let (run, _, _) = part_runs true loops r in
      let (one, ne) =
        barrier_sync_holds small run i j v li lj
          (pc_before true loops (s.thread j) ∙ synced_lem loops v (position (s.thread j)) h) in
      (one, λ e. ne (pc_before true loops (s.thread i) ∙ ap (at_before true loops) e))

  -- For fewer than 2 ^ 31 workers, on any schedule and any kernel: when `barrier_wait` on
  -- barrier_after has returned to the calling thread, which then reads the clock, every worker has
  -- done its rounds and counted itself off at barrier_after.
  pub measured_after_rounds :
      (i : ℕ) (c : Barrier.Pc)
      → i < n
      → position (s.thread n) ≡ measured c
      → HasWaited c
      → IsOver (position (s.thread i))
  measured_after_rounds i c lt e h =
      let (run, run', _) = part_runs true loops r in
      let at : HasWaited (Rules.pc (view_thread (after_part true loops) (s.thread n))) =
        subst HasWaited (sym (pc_after true loops (s.thread n) ∙ ap (at_after true loops) e)) h in
      let ne = barrier_wait_holds small run' i lt at in
      let ok = (Reach-Inv 0 wait_load small refl run).workers i lt in
      over_lem loops _ (position (s.thread i))
        (subst (WorkerOk _) (pc_before true loops (s.thread i)) ok)
        (λ f. ne (pc_after true loops (s.thread i) ∙ f))

-- Between the return of `futex_wait_lock` and the release.
abbrev pub HoldsLock : Thread Pc → Type 0
HoldsLock (running (locking _ c)) = InSection (running c)
HoldsLock _ = ⊥

holds_lem :
    (loops : ℕ) (t : Thread Pc) → HoldsLock t → InSection (view_thread (lock_part true loops) t)
holds_lem loops (running (locking u c)) h = h
holds_lem loops (running _) h = elim h [ ]
holds_lem loops (waiting _) h = elim h [ ]

over_finished : (loops : ℕ) (c : Pc) → IsOver c → at_lock true loops c ≡ finished
over_finished loops (after v c) h = refl
over_finished loops (before _) h = elim h [ ]
over_finished loops (locking _ _) h = elim h [ ]
over_finished loops (returned _) h = elim h [ ]
over_finished loops (measured _) h = elim h [ ]
over_finished loops joining h = elim h [ ]

out_of_section :
    (loops : ℕ) (t : Thread Pc)
    → at_lock true loops (position t) ≡ finished
    → ¬ InSection (view_thread (lock_part true loops) t)
unfolding lock_place
out_of_section loops (running c) e h = subst (λ x. InSection (running x)) e h
out_of_section loops (waiting (locking u c)) e h = h
out_of_section loops (waiting (before c)) e h = subst (λ x. InSection (running x)) e h
out_of_section loops (waiting (after u c)) e h = h
out_of_section loops (waiting joining) e h = h
out_of_section loops (waiting (returned u)) e h = subst (λ x. InSection (running x)) e h
out_of_section loops (waiting (measured c)) e h = h

module _ {k : Kernel} (doc : IsFutex k) {n : ℕ} (loops : ℕ) {s : System Pc}
    (r : Reach k (locktest true loops) (suc n) (init true n) s) where
  -- In the whole of `locktest`, two workers are never between the return of `futex_wait_lock` and the
  -- release at the same time.
  pub locktest_exclusion :
      (i j : ℕ) → i < n → j < n → HoldsLock (s.thread i) → HoldsLock (s.thread j) → i ≡ j
  locktest_exclusion i j li lj hi hj =
      let (_, _, run) = part_runs true loops r in
      mutual_exclusion doc (rounds loops n) run i j (omega arith) (omega arith)
        (holds_lem loops (s.thread i) hi) (holds_lem loops (s.thread j) hj)

  -- With fewer than 2 ^ 31 workers, the lock is free when `barrier_wait` on barrier_after has returned.
  pub measured_lock_free :
      (c : Barrier.Pc)
      → n < 2 ^ 31
      → position (s.thread n) ≡ measured c
      → HasWaited c
      → s.mem lock_word ≡ 0
  measured_lock_free c small e h =
      let (_, _, run) = part_runs true loops r in
      let (_, free) = (word_tells doc (rounds loops n) run).1 in
      sym (window_at 4 1 0 s.mem 0 (omega arith)) ∙ free outside
    where
      outside : (i : ℕ) → i < suc n → ¬ InSection (view_thread (lock_part true loops) (s.thread i))
      outside i lt = elim (dec_lt i n) [
        | yes below ↦ out_of_section loops (s.thread i) (
            over_finished loops (position (s.thread i))
              (measured_after_rounds small loops r i c below e h))
        | no ge ↦ out_of_section loops (s.thread i) (
            subst (λ x. at_lock true loops (position (s.thread x)) ≡ finished)
              (omega (arith, lt, ge)) (ap (at_lock true loops) e))
      ]
