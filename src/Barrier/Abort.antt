-- ===== src/Barrier/Abort.antt =====
-- The barrier of performance/harness.h when the main thread opens it without `barrier_wait`, as `locktest`
-- does when it cannot make a thread.
use futextest.Common.{
  ℕ, suc, ◌<◌, ◌≡◌, ◌≢◌, inl, inr, refl, arith, subst, ltb, Bool, true, false, if◌then◌else◌,
}
use futextest.Kernel.{Kernel, IsFutex}
use futextest.Machine.{System, Reach, IsStill, running}
use futextest.Machine.Positions.{position, Reach-keeps}
use futextest.Barrier.{
  Pc, barrier, access, resume, started, wait, unblock_store, sync_dec, wait_load, wait_wait, synced,
  opened, threads, unblock, int_max,
}
use futextest.Barrier.Rules.{pc, MainOk, WorkerOk}
use futextest.Barrier.Safety.{Inv, Reach-Inv, released}
use futextest.Barrier.Quiet.{main_halt, worker_passed}

-- Not in `barrier_wait`
abbrev NotWaiting : Pc → Type 0
NotWaiting wait_load = ⊥
NotWaiting (wait_wait _) = ⊥
NotWaiting _ = Unit {0}

resume-NotWaiting : (value : ℕ) (c : Pc) (v : ℕ) → NotWaiting c → NotWaiting (resume value c v)
resume-NotWaiting value c v h = ground arith

started-NotWaiting : (b : Bool) → NotWaiting (if b then sync_dec else unblock_store)
started-NotWaiting true = tt
started-NotWaiting false = tt

no_sleep :
    (value spare t u : ℕ) (c : Pc) {a v : ℕ}
    → MainOk value spare t u c
    → NotWaiting c
    → access value c ≡ wait a v
    → ⊥
no_sleep value spare t u c ok h e = ground arith

module _ {k : Kernel} {value n : ℕ} (small : n < int_max) {s : System Pc}
    (r : Reach k (barrier value) (suc n) (started unblock_store n) s) where
  inv : Inv value n n s.mem s.thread
  inv = Reach-Inv n unblock_store (omega arith) (refl, omega arith) r

  -- Whatever the workers do, `barrier_sync` returns the value of `barrier_unblock`.
  pub abort_syncs : (j v : ℕ) → j < n → pc (s.thread j) ≡ synced v → v ≡ value
  abort_syncs j v lt e =
      let (same, nz) = subst (WorkerOk (s.mem unblock)) e (inv.workers j lt) in
      let (set, _) = released value n (s.mem unblock) (pc (s.thread n)) inv.main nz in cc

  main_opened :
      IsStill (barrier value) s n → (s.thread n ≡ running opened) × (s.mem unblock ≡ value)
  main_opened still = elim still [
    | inl (c, e, f) ↦
        let ok = subst (λ d. MainOk value n (s.mem threads) (s.mem unblock) (pc d)) e inv.main in
        let (at, u) = main_halt value n c (s.mem threads) (s.mem unblock) ok f in (cc, u)
    | inr (c, a, v, e, f, q) ↦
        let ok = subst (λ d. MainOk value n (s.mem threads) (s.mem unblock) (pc d)) e inv.main in
        let out : NotWaiting c =
          subst (λ d. NotWaiting (position d)) e
            (Reach-keeps (barrier value) NotWaiting (resume-NotWaiting value) r
              (λ i. started-NotWaiting (ltb i n)) n) in
        absurd (no_sleep value n (s.mem threads) (s.mem unblock) c ok out f)
  ]

  pub abort_passed :
      IsFutex k
      → (i : ℕ) → i < n
      → value ≢ 0
      → IsStill (barrier value) s n
      → IsStill (barrier value) s i
      → (s.thread n ≡ running opened) × (s.thread i ≡ running (synced value))
  abort_passed doc i lt nz main still =
      let (o, u) = main_opened main in
      (o, worker_passed doc n unblock_store small (refl, omega arith) r i lt nz o u still)
