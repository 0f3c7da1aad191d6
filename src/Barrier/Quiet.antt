-- ===== src/Barrier/Quiet.antt =====
-- The barrier of performance/harness.h when no thread can run on.
use futextest.Common.{
  false, refl, ℕ, ◌<◌, ◌≡◌, ◌≢◌, ◌+◌, ap, arith, suc, inl, inr, true, ◌⊎◌, total_exists, subst,
  false, sym,
}
use futextest.Barrier.{
  Pc, access, synced, opened, threads, unblock, init, barrier, halt, wait, int_max, System,
  wait_load, started,
}
use futextest.Barrier.Safety.{Inv, Reach-Inv}
use futextest.Barrier.Rest.{Covered, Reach-Covered}
use futextest.Barrier.Sleep.{wakes, IsOpening, IsEmpty, worker_wait, main_wait}
use futextest.Barrier.Rules.{pc, before, WorkerOk, MainOk}
use futextest.Kernel.{Kernel, IsFutex}
use futextest.Machine.{Reach, IsQuiet, running, IsStill}

module _ (value : ℕ) where
  -- A thread that cannot run on is neither about to count itself off nor about to wake anybody.
  idle_halt : (c : Pc) → access value c ≡ halt → before c + wakes c ≡ 0
  idle_halt c e = ground arith

  idle_wait : (c : Pc) {a v : ℕ} → access value c ≡ wait a v → before c + wakes c ≡ 0
  idle_wait c e = ground arith

  pub main_halt :
      (spare : ℕ) (c : Pc) (t u : ℕ)
      → MainOk value spare t u c
      → access value c ≡ halt
      → (c ≡ opened) × (u ≡ value)
  main_halt spare opened t u ok e = (refl, ok.0)
  main_halt spare (synced v) t u ok e = absurd ok
  main_halt spare _ t u ok e = cc

  worker_halt : (c : Pc) (u : ℕ) → WorkerOk u c → access value c ≡ halt → c ≡ synced u
  worker_halt (synced v) u ok e = ap synced ok.0
  worker_halt opened u ok e = absurd ok
  worker_halt _ u ok e = cc

-- A worker that cannot run on once `barrier_unblock` has returned.
module _ {k : Kernel} (doc : IsFutex k) {value : ℕ} (spare : ℕ) {n : ℕ} (start : Pc)
    (small : n < int_max) (first : MainOk value spare n 0 start) {s : System Pc}
    (r : Reach k (barrier value) (suc n) (started start n) s) where
  pub worker_passed :
      (i : ℕ)
      → i < n
      → value ≢ 0
      → s.thread n ≡ running opened
      → s.mem unblock ≡ value
      → IsStill (barrier value) s i
      → s.thread i ≡ running (synced value)
  worker_passed i lt nz main set still = elim still [
    | inl (c, e, f) ↦
        let ok = subst (λ d. WorkerOk (s.mem unblock) (pc d)) e (inv.workers i lt) in
        let at = worker_halt value c (s.mem unblock) ok f in cc
    | inr (c, a, v, e, f, q) ↦
        let ok = subst (λ d. WorkerOk (s.mem unblock) (pc d)) e (inv.workers i lt) in
        let (at, on, z) = worker_wait value c (s.mem unblock) ok f in
        absurd (asleep (subst (λ x. s.queue x i ≡ true) (sym on) q) cov.workers)
  ]
    where
      inv : Inv value spare n s.mem s.thread
      inv = Reach-Inv spare start (omega arith) first r

      cov : Covered n s.shared s.thread
      cov = Reach-Covered doc spare start small first r

      asleep :
          s.queue unblock i ≡ true
          → (s.mem unblock ≡ 0) ⊎ (IsOpening (pc (s.thread n)) ⊎ IsEmpty (s.queue unblock))
          → ⊥
      asleep q (inl z) = omega (arith, set)
      asleep q (inr (inl o)) = subst (λ d. IsOpening (pc d)) main o
      asleep q (inr (inr empty)) = let h : s.queue unblock i ≡ false = empty i in cc

module _ {k : Kernel} (doc : IsFutex k) {value n : ℕ} (small : n < int_max) {s : System Pc}
    (r : Reach k (barrier value) (suc n) (init n) s)
    (quiet : IsQuiet (barrier value) (suc n) s) where
  inv : Inv value 0 n s.mem s.thread
  inv = Reach-Inv 0 wait_load (omega arith) refl r

  cov : Covered n s.shared s.thread
  cov = Reach-Covered doc 0 wait_load small refl r

  idle : (j : ℕ) → j < suc n → before (pc (s.thread j)) + wakes (pc (s.thread j)) ≡ 0
  idle j lt = elim (quiet j lt) [
    | inl (c, e, f) ↦ rw e (idle_halt value c f)
    | inr (c, a, v, e, f, q) ↦ rw e (idle_wait value c f)
  ]

  main_opened : (s.thread n ≡ running opened) × (s.mem unblock ≡ value)
  main_opened = elim (quiet n (omega arith)) [
    | inl (c, e, f) ↦
        let ok = subst (λ d. MainOk value 0 (s.mem threads) (s.mem unblock) (pc d)) e inv.main in
        let (at, u) = main_halt value 0 c (s.mem threads) (s.mem unblock) ok f in (cc, u)
    | inr (c, a, v, e, f, q) ↦
        let ok = subst (λ d. MainOk value 0 (s.mem threads) (s.mem unblock) (pc d)) e inv.main in
        let (at, p) = main_wait value 0 c (s.mem threads) (s.mem unblock) ok f in
        absurd (asleep (subst (λ x. s.queue x n ≡ true) at q) cov.main)
  ]
    where
      asleep :
          s.queue threads n ≡ true
          → (0 < s.mem threads)
            ⊎ (((i : ℕ) × (i < n) × (wakes (pc (s.thread i)) ≡ 1)) ⊎ IsEmpty (s.queue threads))
          → ⊥
      asleep q (inl p) =
          let (i, lt, b) =
            total_exists n (λ j. before (pc (s.thread j))) (omega (arith, inv.counted)) in
          omega (arith, idle i (omega arith))
      asleep q (inr (inl (i, lt, w))) = omega (arith, idle i (omega arith))
      asleep q (inr (inr empty)) = let h : s.queue threads n ≡ false = empty n in cc

  -- No wakeup is lost. With fewer than INT_MAX workers, a value that is not 0 and a kernel whose
  -- FUTEX_WAIT and FUTEX_WAKE do what futex(2) says: when no thread can run on, `barrier_unblock` has
  -- returned to the main thread and `barrier_sync` has returned the value to every worker.
  pub rest_passed :
      (i : ℕ)
      → i < n
      → value ≢ 0
      → (s.thread n ≡ running opened) × (s.thread i ≡ running (synced value))
  rest_passed i lt nz = (
    main_opened.0,
    worker_passed doc 0 wait_load small refl r i lt nz main_opened.0 main_opened.1
        (quiet i (omega arith)),
  )
