-- ===== src/SignalRestart/Verdict.antt =====
-- functional/futex_requeue_pi_signal_restart.c: the exit status and the order of the events.
use futextest.Common.{
  ℕ, suc, ◌<◌, ◌≡◌, ◌≢◌, ◌⊎◌, refl, arith, List, [], ◌∷◌, some, none, inl, if◌then◌else◌, inr,
}
use futextest.Common.Int.{ℤ, pos, ◌≤ℤ◌, eqb_lem, eqb_ℤ}
use futextest.Logging.{ret_pass, ret_fail}
use futextest.Syscall.{Uapi}
use futextest.Futex.Atomic.{AtomicT}
use futextest.Functional.{Reply, ewouldblock}
use futextest.Requeue.{lock_f2, unlock_f2}
use futextest.Requeue.Threads.{waiter_call}
use futextest.SignalRestart.Threads.{create_rt_thread}
use futextest.SignalRestart.{World, Event, call, kill, join, start, signal_test, out}
use futextest.SignalRestart.Waiter.{waiterfn}
use futextest.SignalRestart.Rounds.{rounds, IsFirst, loop-rounds, loop-none}

-- The waiter saw the requeue, and its wait left EWOULDBLOCK in errno.
abbrev pub IsRestarted : Reply → AtomicT → Type 0
IsRestarted r seen = (seen.val ≢ pos 0) × (r.errno ≡ ewouldblock)

unlocked :
    (u : Uapi) (r : Reply)
    → let calls =
        if eqb_ℤ r.res (pos 0)
        then unlock_f2 u ∷ waiter_call u none ∷ []
        else waiter_call u none ∷ [] in
      ((r.res ≡ pos 0) × (calls ≡ unlock_f2 u ∷ waiter_call u none ∷ []))
      ⊎ ((r.res ≢ pos 0) × (calls ≡ waiter_call u none ∷ []))
unlocked u r = elim (eqb_lem r.res (pos 0)) [
  | inl (e, z) ↦ inl (z, rw e refl)
  | inr (e, nz) ↦ inr (nz, rw e refl)
]

out-pass : (ret : ℤ) → out ret_pass ret ≡ ret
out-pass ret = ground arith

-- The waiter passes exactly when it sees `requeued` set and errno is EWOULDBLOCK, and else fails. Its
-- only calls are the wait and, if it fails after a wait that returned 0, an unlock of f2: a wait that
-- returns 0 while errno is EWOULDBLOCK passes and leaves f2 locked.
waiterfn_judges :
    (u : Uapi) (r : Reply) (seen : AtomicT)
    → let w = waiterfn u r seen in
      (((w.ret ≡ ret_pass) × IsRestarted r seen × (w.calls ≡ waiter_call u none ∷ []))
        ⊎ ((w.ret ≡ ret_fail)
            × ¬ IsRestarted r seen
            × (((r.res ≡ pos 0) × (w.calls ≡ unlock_f2 u ∷ waiter_call u none ∷ []))
                ⊎ ((r.res ≢ pos 0) × (w.calls ≡ waiter_call u none ∷ [])))))
unfolding waiterfn
waiterfn_judges u r seen = elim (eqb_lem seen.val (pos 0)) [
  | inl (e, z) ↦ rw e (inr (refl, (λ h. h.0 z), unlocked u r))
  | inr (e, nz) ↦ elim (eqb_lem r.errno ewouldblock) [
    | inl (f, same) ↦ rw (e, f) (inl (refl, (nz, same), refl))
    | inr (f, other) ↦ rw (e, f) (inr (refl, (λ h. other h.1), unlocked u r))
  ]
]

-- What `main` does if round `k` is the first to report a task: it locks f2, then signals and requeues
-- k + 1 times, signals again, joins the waiter and unlocks f2.
abbrev pub run_events : Uapi → ℕ → List Event
run_events u k = call (unlock_f2 u) ∷ join ∷ kill ∷ rounds u (suc k) (call (lock_f2 u) ∷ [])

-- If the waiter could be made and some requeue reports a task, the first of them in round `k`, then
-- more than `k` rounds of fuel are enough: `main` locks f2, signals the waiter and requeues k + 1
-- times in turn, signals it once more, joins it and unlocks f2. It passes exactly when the waiter
-- saw the requeue and got EWOULDBLOCK, and else it fails.
pub signal_test_ends :
    (u : Uapi) (w : World) (k fuel : ℕ)
    → create_rt_thread w.thread ≡ pos 0
    → IsFirst u w.requeued_by 0 k
    → k < fuel
    → (ret : ℤ) × (signal_test u w fuel ≡ some (ret, run_events u k))
      × (((ret ≡ ret_pass) × IsRestarted w.woken w.seen)
          ⊎ ((ret ≡ ret_fail) × ¬ IsRestarted w.woken w.seen))
unfolding signal_test
signal_test_ends u w k fuel made first enough =
    let run = loop-rounds u w.requeued_by fuel 0 k k (start u) (omega arith) enough first in
    (
      (waiterfn u w.woken w.seen).ret,
      rw (made, run, out-pass (waiterfn u w.woken w.seen).ret) refl,
      elim (waiterfn_judges u w.woken w.seen) [
        | inl (pass, h, _) ↦ inl (pass, h)
        | inr (fail, h, _) ↦ inr (fail, h)
      ],
    )

-- The loop has no end where no requeue ever reports a task, also where each of them fails, since its
-- test for an error is the test for a task over again: with any fuel, `main` does not get to its end.
pub signal_test_stuck :
    (u : Uapi) (w : World) (fuel : ℕ)
    → create_rt_thread w.thread ≡ pos 0
    → ((i : ℕ) → (w.requeued_by i).res ≤ℤ pos 0)
    → signal_test u w fuel ≡ none
unfolding signal_test
signal_test_stuck u w fuel made all =
    let run = loop-none u w.requeued_by fuel 0 (start u) all in rw (made, run) refl
