-- ===== src/Requeue/Verdict.antt =====
-- functional/futex_requeue_pi.c: the result of `unit_test`.
use futextest.Common.{
  ℕ, ◌+◌, ◌<◌, ◌≡◌, refl, arith, ◌↔◌, ◌⊎◌, inl, inr, if◌then◌else◌, some, Bool-cases, Option, none,
}
use futextest.Common.Int.{ℤ, pos, ◌≤ℤ◌, eqb_ℤ}
use futextest.Syscall.{Uapi}
use futextest.Requeue.UnitTest.{
  Style, collect, World, join_waiters, waiter_rets, finish, blocker_ret, starts, unit_test,
  run_waker, joins,
}
use futextest.Requeue.Waker.{Waker}
use futextest.Requeue.{thread_max, max_wake_iters}
use futextest.Requeue.Results.{
  WaiterPassed, blocker_ret-BlockerPassed, BlockerPassed, join_waiters-FirstError,
  waiter_rets-WaiterPassed,
}
use futextest.Logging.{ret_pass, ret_error}
use futextest.Requeue.Broadcast.{broadcast_wakerfn_returns}
use futextest.Requeue.Bounds.{signal_wakerfn_returns}
use futextest.Requeue.Blocked.{AllBlocked, LocksReturn}
use futextest.Requeue.Started.{Started, starts-Started, Ended, joins-Ended}

-- The clock, all waiters, the waker and the blocker of a style ended well.
pub record Passed (s : Style) (w : World) (k : Waker) : Type 0 where
  pub clock : (s.timeout_ns ≡ pos 0) ⊎ (w.clock ≡ pos 0)
  pub waiters : (i : ℕ) → i < thread_max → WaiterPassed s (w.waiter i)
  pub waker : pos 0 ≤ℤ k.ret
  pub blocker : BlockerPassed s w.blocker

join_waiters-WaiterPassed :
    (u : Uapi) (s : Style) (w : World)
    → (join_waiters (waiter_rets u s w) thread_max 0 (pos 0) ≡ pos 0)
      ↔ ((i : ℕ) → i < thread_max → WaiterPassed s (w.waiter i))
join_waiters-WaiterPassed u s w =
    elim (join_waiters-FirstError (waiter_rets u s w) thread_max 0 thread_max refl) [
      | inl (e, all) ↦
          (λ h i lt. (waiter_rets-WaiterPassed u s w i).0 (all i (omega arith) lt), λ h. e)
      | inr (nz, (k, a, b, e, all)) ↦ (
        λ h. absurd (nz h),
        λ h. absurd (nz (rw e ((waiter_rets-WaiterPassed u s w k).1 (h k b)))),
      )
    ]

collect-zero :
    (waiter waker blocker : ℤ)
    → (collect waiter waker blocker ≡ pos 0)
      ↔ ((waiter ≡ pos 0) × (pos 0 ≤ℤ waker) × (blocker ≡ pos 0))
collect-zero waiter waker blocker = (λ h. ground arith, λ h. ground arith)

guarded :
    (t c r : ℤ)
    → (let ret = if eqb_ℤ t (pos 0) then pos 0 else c in if eqb_ℤ ret (pos 0) then r else ret)
        ≡ pos 0
      ↔ (((t ≡ pos 0) ⊎ (c ≡ pos 0)) × (r ≡ pos 0))
guarded t c r = (λ h. ground arith, λ h. ground arith)

finish-Passed :
    (u : Uapi) (s : Style) (w : World) (k : Waker) → (finish u s w k ≡ pos 0) ↔ Passed s w k
finish-Passed u s w k =
    let joined = join_waiters (waiter_rets u s w) thread_max 0 (pos 0) in
    let (waiters, awake) = join_waiters-WaiterPassed u s w in
    let (blocker, free) = blocker_ret-BlockerPassed u s w in
    let (all, collected) = collect-zero joined k.ret (blocker_ret u s w) in
    let (clear, guard) = guarded s.timeout_ns w.clock (collect joined k.ret (blocker_ret u s w)) in
    (
      λ h.
          let (clock, c) = clear h in
          let (e, waker, b) = all c in
          record { clock = clock; waiters = waiters e; waker = waker; blocker = blocker b },
      λ p. guard (p.clock, collected (awake p.waiters, p.waker, free p.blocker)),
    )

run_waker_ends :
    (u : Uapi) (s : Style) (w : World) (fuel : ℕ)
    → max_wake_iters + thread_max < fuel
    → AllBlocked w.waker fuel
    → LocksReturn s.lock w.waker
    → (k : Waker) × (run_waker u s w fuel ≡ some k)
run_waker_ends u s w fuel enough blocks locks = elim (Bool-cases s.broadcast) [
  | inl b ↦
      let (k, run) = broadcast_wakerfn_returns u s.lock w.waker fuel (omega arith) blocks locks in
      (k, rw b run)
  | inr b ↦
      let (k, run) = signal_wakerfn_returns u s.lock w.waker fuel enough blocks locks in
      (k, rw b run)
]

-- The three ways of `unit_test`: a thread cannot be made; all are made, and one that it joins does not
-- end; all are made and end, and the result tells whether they ended well.
abbrev pub Judged : Uapi → Style → World → ℕ → Option ℤ → Type 0
Judged u s w fuel result =
    ((Started s w → ⊥) × (result ≡ some ret_error))
    ⊎ (Started s w × (Ended s w → ⊥) × (result ≡ none))
    ⊎ (Started s w
        × Ended s w
        × ((k : Waker) × (r : ℤ) × (run_waker u s w fuel ≡ some k)
            × (result ≡ some r)
            × ((r ≡ ret_pass) ↔ Passed s w k)))

-- With fuel for more than MAX_WAKE_ITERS + THREAD_MAX rounds, if one of the first `fuel` reads of the waker
-- finds all waiters blocked and its calls of FUTEX_LOCK_PI return where it makes them: the test returns RET_ERROR if a thread could not be made. If all could be made and a waiter, or the blocker
-- of a style that has one, never ends, it does not return. Else
-- it returns with the waker's loop ended, and its result is RET_PASS exactly if the clock could be read
-- where a timeout is set, each waiter was woken or, where a timeout is set, timed out, the waker's result is
-- not negative and the calls of the blocker, if there is one, returned 0.
pub unit_test_judges :
    (u : Uapi) (s : Style) (w : World) (fuel : ℕ)
    → max_wake_iters + thread_max < fuel
    → AllBlocked w.waker fuel
    → LocksReturn s.lock w.waker
    → Judged u s w fuel (unit_test u s w fuel)
unfolding unit_test
unit_test_judges u s w fuel enough blocks locks =
    let (k, run) = run_waker_ends u s w fuel enough blocks locks in
    let (started, start) = starts-Started s w in
    let (ended, end) = joins-Ended s w in
    let (passed, finishes) = finish-Passed u s w k in
    elim (Bool-cases (starts s w)) [
      | inr e ↦ inl ((λ all. let t = start all in absurd (ground arith)), rw e refl)
      | inl e ↦ elim (Bool-cases (joins s w)) [
        | inr f ↦
            inr (inl (started e, (λ all. let t = end all in absurd (ground arith)), rw (e, f) refl))
        | inl f ↦ inr (
            inr (
              started e,
              ended f,
              (k, finish u s w k, run, rw (e, f, run) refl, (passed, finishes)),
            ))
      ]
    ]
