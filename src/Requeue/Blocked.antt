-- ===== src/Requeue/Blocked.antt =====
-- functional/futex_requeue_pi.c: the loop in which a waker waits for the waiters.
use futextest.Common.{
  ℕ, zero, suc, ◌+◌, ◌<◌, ◌≤◌, ◌≡◌, inl, inr, refl, arith, true, Bool-cases, ℕ_discrete, subst,
  Bool, ◌&&◌, not, false,
}
use futextest.Common.Int.{pos, ◌≤ℤ◌, ltb_ℤ}
use futextest.Requeue.{thread_max}
use futextest.Requeue.Waker.{World, wait_blocked}

-- Some read before the `fuel`-th finds all waiters blocked.
abbrev pub AllBlocked : World → ℕ → Type 0
AllBlocked w fuel = (m : ℕ) × (m < fuel) × (pos thread_max ≤ℤ w.blocked m)

-- Each FUTEX_LOCK_PI that the waker makes, if it makes them, returns.
abbrev pub LocksReturn : Bool → World → Type 0
LocksReturn lock w = lock ≡ true → (i : ℕ) → w.locks i ≡ true

pub lock_returns :
    (lock : Bool) (w : World) (i : ℕ) → LocksReturn lock w → lock && not (w.locks i) ≡ false
lock_returns true w i h = rw (h refl i) refl
lock_returns false w i h = refl

fewer :
    (w : World) (n m : ℕ)
    → n ≤ m
    → ltb_ℤ (w.blocked n) (pos thread_max) ≡ true
    → pos thread_max ≤ℤ w.blocked m
    → n < m
fewer w n m le less all = elim (ℕ_discrete m n) [
  | yes e ↦
      let all' : pos thread_max ≤ℤ w.blocked n = subst (λ x. pos thread_max ≤ℤ w.blocked x) e all in
      absurd (ground arith)
  | no ne ↦ omega (arith, le, ne)
]

ends_at :
    (w : World) (fuel n m : ℕ)
    → n ≤ m
    → m < fuel + n
    → pos thread_max ≤ℤ w.blocked m
    → wait_blocked w fuel n ≡ true
unfolding wait_blocked
ends_at w zero n m le lt all = absurd (omega arith)
ends_at w (suc fuel) n m le lt all = elim (Bool-cases (ltb_ℤ (w.blocked n) (pos thread_max))) [
  | inl less ↦ rw less (ends_at w fuel (suc n) m (fewer w n m le less all) (omega arith) all)
  | inr e ↦ rw e refl
]

pub wait_blocked-AllBlocked :
    (w : World) (fuel : ℕ) → AllBlocked w fuel → wait_blocked w fuel 0 ≡ true
wait_blocked-AllBlocked w fuel (m, lt, all) = ends_at w fuel 0 m (omega arith) (omega arith) all
