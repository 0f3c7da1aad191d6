-- ===== src/Requeue/Broadcast.antt =====
-- functional/futex_requeue_pi.c: the rounds and the result of `broadcast_wakerfn`.
use futextest.Common.{
  ℕ, zero, suc, ◌+◌, ◌≤◌, ◌<◌, ◌≡◌, ◌⊎◌, inl, inr, refl, arith, Bool, true, not, ◌||◌, List, [],
  ◌∷◌, some, ltb, Bool-cases, ap,
}
use futextest.Common.Int.{ℤ, pos, ◌≤ℤ◌, ltb_ℤ, ltb_ℤ-false}
use futextest.Logging.{ret_error}
use futextest.Word.{int_max}
use futextest.Syscall.{Uapi, Args}
use futextest.Requeue.{max_wake_iters, thread_max, requeue, lock_f2}
use futextest.Requeue.Waker.{
  World, Waker, idle, negate, locked, broadcast_loop, broadcast_finish, broadcast_wakerfn, add_int,
}
use futextest.Requeue.Blocked.{AllBlocked, wait_blocked-AllBlocked, LocksReturn}

pub first_lock : (lock : Bool) (w : World) → LocksReturn lock w → not lock || w.locks 0 ≡ true
first_lock lock w h = elim (Bool-cases lock) [ inl e ↦ rw (e, h e 0) refl | inr e ↦ rw e refl ]

module _ (u : Uapi) (lock : Bool) (w : World) where
  -- `k` requeues in a row, after the lock of f2 if `lock` is set.
  abbrev pub requeues : ℕ → List Args
  requeues zero = locked lock (lock_f2 u) []
  requeues (suc k) = requeue u (pos int_max) ∷ requeues k

  -- After `k` requeues: the count is not below THREAD_MAX less the waiters seen awake after the last.
  abbrev pub Stops : ℕ → ℤ → Type 0
  Stops k count = (i : ℕ) × (k ≡ suc i) × (add_int (pos thread_max) (negate (w.woken i)) ≤ℤ count)

  -- A property `IsLow` of the count before each round, and `IsCount` of it at the end.
  abbrev pub Keeps : (IsLow IsCount : ℤ → Type 0) → Type 0
  Keeps IsLow IsCount =
      (i : ℕ) (c : ℤ)
      → IsLow c
      → pos 0 ≤ℤ (w.reply i).res
      → let c' = add_int c (w.reply i).res in
        IsCount c' × (ltb_ℤ c' (add_int (pos thread_max) (negate (w.woken i))) ≡ true → IsLow c')

  abbrev pub Left : (ℤ → Type 0) → Waker → Type 0
  Left IsCount s =
      (k : ℕ) × ((k ≤ max_wake_iters)
        × (s.calls ≡ requeues k)
        × ((s.ret ≡ ret_error) ⊎ ((pos 0 ≤ℤ s.ret) × IsCount s.task_count × Stops k s.task_count)))

  -- A round whose requeue succeeds.
  abbrev next : ℕ → Waker → Waker
  next i s = record {
    ret = (w.reply i).res;
    task_count = add_int s.task_count (w.reply i).res;
    calls = requeue u (pos int_max) ∷ s.calls;
  }

  abbrev stop : Waker → Waker
  stop s = record s { ret = ret_error; calls = requeue u (pos int_max) ∷ s.calls }

  pub broadcast_loop_ends :
      (IsLow IsCount : ℤ → Type 0) (fuel i : ℕ) (s : Waker)
      → Keeps IsLow IsCount
      → i < max_wake_iters
      → max_wake_iters ≤ fuel + i
      → s.calls ≡ requeues i
      → IsLow s.task_count
      → (s' : Waker) × (broadcast_loop u lock w fuel i s ≡ some s') × Left IsCount s'
  unfolding broadcast_loop
  broadcast_loop_ends IsLow IsCount zero i s keeps le enough c low = absurd (omega arith)
  broadcast_loop_ends IsLow IsCount (suc fuel) i s keeps le enough c low =
      let made : requeue u (pos int_max) ∷ s.calls ≡ requeues (suc i) =
        ap (◌∷◌ (requeue u (pos int_max))) c in
      elim (Bool-cases (ltb_ℤ (w.reply i).res (pos 0))) [
        | inl bad ↦ (stop s, rw bad refl, (suc i, (le, made, inl refl)))
        | inr good ↦
            let nonneg = ltb_ℤ-false (w.reply i).res (pos 0) good in
            let (count, on) = keeps i s.task_count low nonneg in
            elim (Bool-cases (ltb (suc i) max_wake_iters)) [
              | inr many ↦ (stop s, rw (good, many) refl, (suc i, (le, made, inl refl)))
              | inl few ↦
                  elim (Bool-cases (
                    ltb_ℤ (add_int s.task_count (w.reply i).res)
                      (add_int (pos thread_max) (negate (w.woken i))))) [
                        | inl more ↦
                            rw (good, few, more)
                              (broadcast_loop_ends IsLow IsCount fuel (suc i) (next i s) keeps
                                (ground arith) (omega arith) made (on more))
                        | inr all ↦ (
                          next i s,
                          rw (good, few, all) refl,
                          (
                            suc i,
                            (
                              le,
                              made,
                              inr (
                                nonneg,
                                count,
                                (
                                  i,
                                  refl,
                                  ltb_ℤ-false (add_int s.task_count (w.reply i).res)
                                      (add_int (pos thread_max) (negate (w.woken i))) all,
                                ),
                              ),
                            ),
                          ),
                        )
                      ]
            ]
      ]

  pub broadcast_wakerfn_returns :
      (fuel : ℕ)
      → max_wake_iters ≤ fuel
      → AllBlocked w fuel
      → LocksReturn lock w
      → (s : Waker) × (broadcast_wakerfn u lock w fuel ≡ some s)
  unfolding broadcast_wakerfn
  broadcast_wakerfn_returns fuel enough blocks locks =
      let (s, run, _) =
        broadcast_loop_ends (λ _. Unit {0}) (λ _. Unit {0}) fuel 0
          (record idle { calls = requeues 0 }) (λ i c a b. (tt, λ _. tt)) (omega arith)
          (omega arith) refl tt in
      (
        broadcast_finish u lock w s,
        rw (wait_blocked-AllBlocked w fuel blocks, first_lock lock w locks, run) refl,
      )
