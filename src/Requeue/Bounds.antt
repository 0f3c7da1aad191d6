-- ===== src/Requeue/Bounds.antt =====
-- functional/futex_requeue_pi.c: the rounds and the result of `signal_wakerfn`.
use futextest.Common.{
  ℕ, zero, suc, ◌+◌, ◌≤◌, ◌<◌, ◌≡◌, ◌⊎◌, inl, inr, refl, arith, Bool, true, false, List, [], some,
  ltb, Bool-cases, ap,
}
use futextest.Common.Int.{ℤ, pos, ◌≤ℤ◌, ltb_ℤ, leb_ℤ, ltb_ℤ-false}
use futextest.Logging.{ret_error}
use futextest.Syscall.{Uapi, Args}
use futextest.Requeue.{max_wake_iters, thread_max}
use futextest.Requeue.Waker.{
  World, Waker, code_of, signal_calls, signal_loop, signal_wakerfn, signal_finish, idle, add_int,
}
use mathlib.Core.Bool.{true, false}
use futextest.Requeue.Blocked.{AllBlocked, wait_blocked-AllBlocked, LocksReturn, lock_returns}

leb_ℤ-true : (a b : ℤ) → ltb_ℤ b a ≡ false → leb_ℤ a b ≡ true
leb_ℤ-true a b h = ground arith

module _ (u : Uapi) (lock : Bool) (w : World) where
  -- The calls of `k` whole rounds.
  abbrev pub rounds : ℕ → List Args
  rounds zero = []
  rounds (suc k) = signal_calls u lock w (rounds k)

  -- Enough tasks were woken or requeued, or the `k`-th read has found all waiters awake.
  abbrev pub AllWoken : ℕ → ℤ → Type 0
  AllWoken k count = (pos thread_max ≤ℤ count) ⊎ (pos thread_max ≤ℤ w.woken k)

  -- A loop that is left after `k` rounds, with a count that has a property.
  abbrev pub Left : (ℤ → Type 0) → ℕ → Waker → Type 0
  Left IsCount k s =
      (k ≤ max_wake_iters + thread_max + 1)
      × (s.calls ≡ rounds k)
      × IsCount s.task_count
      × ((s.ret ≡ ret_error) ⊎ ((leb_ℤ (pos 0) s.ret ≡ true) × AllWoken k s.task_count))

  -- A requeue that wakes one task and moves none reports one task at most.
  abbrev pub WakesOne : Type 0
  WakesOne = (i : ℕ) → code_of (w.reply i) ≤ℤ pos 1

  -- A round whose requeue succeeds.
  abbrev next : ℕ → Waker → Waker
  next i s = record {
    ret = code_of (w.reply i);
    task_count = add_int s.task_count (code_of (w.reply i));
    calls = signal_calls u lock w s.calls;
  }

  -- A round whose requeue succeeds keeps the property of the count.
  abbrev Keeps : (ℤ → Type 0) → Type 0
  Keeps IsCount =
      (i : ℕ) (c : ℤ)
      → IsCount c
      → ltb_ℤ c (pos thread_max) ≡ true
      → ltb_ℤ (code_of (w.reply i)) (pos 0) ≡ false
      → IsCount (add_int c (code_of (w.reply i)))

  signal_loop_ends :
      (IsCount : ℤ → Type 0) (fuel i : ℕ) (s : Waker)
      → Keeps IsCount
      → LocksReturn lock w
      → i ≤ max_wake_iters + thread_max
      → max_wake_iters + thread_max < fuel + i
      → s.calls ≡ rounds i
      → leb_ℤ (pos 0) s.ret ≡ true
      → IsCount s.task_count
      → (s' : Waker) × (signal_loop u lock w fuel i s ≡ some s') × ((k : ℕ) × Left IsCount k s')
  unfolding signal_loop
  signal_loop_ends IsCount zero i s keeps locks le enough c p count = absurd (omega arith)
  signal_loop_ends IsCount (suc fuel) i s keeps locks le enough c p count =
      let returns = lock_returns lock w i locks in
      elim (Bool-cases (ltb_ℤ s.task_count (pos thread_max))) [
        | inr all ↦ (
          s,
          rw all refl,
          (
            i,
            (omega arith, c, count, inr (p, inl (ltb_ℤ-false s.task_count (pos thread_max) all))),
          ),
        )
        | inl more ↦ elim (Bool-cases (ltb_ℤ (w.woken i) (pos thread_max))) [
          | inr all ↦ (
            s,
            rw (more, all) refl,
            (
              i,
              (omega arith, c, count, inr (p, inr (ltb_ℤ-false (w.woken i) (pos thread_max) all))),
            ),
          )
          | inl asleep ↦ elim (Bool-cases (ltb_ℤ (code_of (w.reply i)) (pos 0))) [
            | inl bad ↦ (
              record s { ret = ret_error; calls = signal_calls u lock w s.calls },
              rw (more, asleep, returns, bad) refl,
              (suc i, (omega arith, ap (signal_calls u lock w) c, count, inl refl)),
            )
            | inr good ↦
                let count' = keeps i s.task_count count more good in
                elim (Bool-cases (ltb (max_wake_iters + thread_max) (suc i))) [
                  | inl many ↦ (
                    record (next i s) { ret = ret_error },
                    rw (more, asleep, returns, good, many) refl,
                    (suc i, (omega arith, ap (signal_calls u lock w) c, count', inl refl)),
                  )
                  | inr few ↦
                      rw (more, asleep, returns, good, few)
                        (signal_loop_ends IsCount fuel (suc i) (next i s) keeps locks (ground arith)
                          (omega arith) (ap (signal_calls u lock w) c)
                          (leb_ℤ-true (pos 0) (code_of (w.reply i)) good) count')
                ]
          ]
        ]
      ]

  pub signal_wakerfn_returns :
      (fuel : ℕ)
      → max_wake_iters + thread_max < fuel
      → AllBlocked w fuel
      → LocksReturn lock w
      → (s : Waker) × (signal_wakerfn u lock w fuel ≡ some s)
  unfolding signal_wakerfn
  signal_wakerfn_returns fuel enough blocks locks =
      let (s, run, _) =
        signal_loop_ends (λ _. Unit {0}) fuel 0 idle (λ i c a b d. tt) locks (omega arith)
          (omega arith) refl refl tt in
      (signal_finish u lock w s, rw (wait_blocked-AllBlocked w fuel blocks, run) refl)
