-- ===== src/Requeue/Results.antt =====
-- functional/futex_requeue_pi.c: the absolute timeout, and the results of the threads in `unit_test`.
use futextest.Common.{
  ℕ, zero, suc, ◌+◌, ◌≤◌, ◌<◌, ◌≡◌, refl, arith, ◌*◌, ◌⊎◌, ◌/◌, ◌≢◌, inl, ◌%◌, inr, ℕ_discrete,
  subst, true, ◌↔◌,
}
use futextest.Common.Int.{ℤ, pos, eqb_lem, add_pos, ◌<ℤ◌}
use futextest.Requeue.UnitTest.{
  Long, bits32, bits64, long_max, modulus, wrap_long, timeout_at, nsec_per_sec, join_waiters, Style,
  World, waiter_rets, blocker_ret,
}
use futextest.Requeue.Threads.{waiterfn, third_party_blocker, Blocker}
use futextest.Functional.{Reply, etimedout}
use futextest.Syscall.{Uapi}

wrap_long-fits : (l : Long) (n : ℕ) → n ≤ long_max l → wrap_long l (pos n) ≡ pos n
unfolding wrap_long modulus
wrap_long-fits bits32 n h = ground arith
wrap_long-fits bits64 n h = ground arith

long_max-bits64 : (l : Long) → long_max l ≤ long_max bits64
unfolding modulus
long_max-bits64 bits32 = omega arith
long_max-bits64 bits64 = omega arith

-- For a time of the clock with nanoseconds `n` and a timeout of `t` nanoseconds whose sum fits `long`, and a
-- result whose seconds fit it too: the absolute timeout has nanoseconds below 10 ^ 9, and its seconds and
-- nanoseconds make up the time plus the timeout. The `long` has 32 or 64 bits.
pub timeout_at_keeps_time :
    (l : Long) (sec n t : ℕ)
    → n + t ≤ long_max l
    → sec + (n + t) / nsec_per_sec ≤ long_max l
    → (q m : ℕ) × (timeout_at l (record { tv_sec = pos sec; tv_nsec = pos n }) (pos t)
        ≡ record { tv_sec = pos q; tv_nsec = pos m })
      × (m < nsec_per_sec)
      × (q * nsec_per_sec + m ≡ sec * nsec_per_sec + n + t)
unfolding timeout_at
timeout_at_keeps_time l sec n t fits later = (
  sec + (n + t) / nsec_per_sec,
  (n + t) % nsec_per_sec,
  rw
      (
        add_pos n t,
        wrap_long-fits l (n + t) fits,
        wrap_long-fits bits64 (n + t) (omega (arith, fits, long_max-bits64 l)),
        add_pos sec ((n + t) / nsec_per_sec),
        wrap_long-fits l (sec + (n + t) / nsec_per_sec) later,
      )
      refl,
  omega arith,
  omega arith,
)

-- `waiter_ret` keeps the first result that is not 0.
join_waiters-kept : (ret : ℕ → ℤ) (n i : ℕ) (r : ℤ) → r ≢ pos 0 → join_waiters ret n i r ≡ r
unfolding join_waiters
join_waiters-kept ret zero i r nz = refl
join_waiters-kept ret (suc n) i r nz = elim (eqb_lem r (pos 0)) [
  | inl (e, z) ↦ absurd (nz z)
  | inr (e, _) ↦ rw e (join_waiters-kept ret n (suc i) r nz)
]

-- The result of joining: 0 if all are, else the first that is not.
abbrev pub FirstError : (ℕ → ℤ) → (i end : ℕ) → ℤ → Type 0
FirstError ret i end r =
    ((r ≡ pos 0) × ((k : ℕ) → i ≤ k → k < end → ret k ≡ pos 0))
    ⊎ ((r ≢ pos 0)
        × ((k : ℕ) × (i ≤ k) × (k < end) × (r ≡ ret k) × ((j : ℕ) → i ≤ j → j < k → ret j ≡ pos 0)))

from_zero :
    (ret : ℕ → ℤ) (i end : ℕ)
    → ret i ≡ pos 0
    → ((k : ℕ) → suc i ≤ k → k < end → ret k ≡ pos 0)
    → (k : ℕ) → i ≤ k
    → k < end
    → ret k ≡ pos 0
from_zero ret i end z all k a b = elim (ℕ_discrete i k) [
  | yes e ↦ subst (λ j. ret j ≡ pos 0) e z
  | no ne ↦ all k (grind arith) b
]

-- A first result of 0 changes nothing.
first_zero :
    (ret : ℕ → ℤ) (i end : ℕ) (r : ℤ)
    → ret i ≡ pos 0
    → FirstError ret (suc i) end r
    → FirstError ret i end r
first_zero ret i end r z (inl (p, all)) = inl (p, from_zero ret i end z all)
first_zero ret i end r z (inr (nz, (k, a, b, e, all))) =
    inr (nz, (k, omega arith, b, e, from_zero ret i k z all))

-- The result of joining `n` waiters from `i` on is 0 if all their results are 0, and else the first of
-- them, in the order of joining, that is not 0.
pub join_waiters-FirstError :
    (ret : ℕ → ℤ) (n i end : ℕ) → end ≡ i + n → FirstError ret i end (join_waiters ret n i (pos 0))
unfolding join_waiters
join_waiters-FirstError ret zero i end e = inl (refl, λ k a b. absurd (omega arith))
join_waiters-FirstError ret (suc n) i end e = elim (eqb_lem (ret i) (pos 0)) [
  | inl (_, z) ↦
      rw z (first_zero ret i end _ z (join_waiters-FirstError ret n (suc i) end (omega arith)))
  | inr (_, nz) ↦
      rw (join_waiters-kept ret n (suc i) (ret i) nz)
        (inr (nz, (i, omega arith, omega arith, refl, λ j a b. absurd (omega arith))))
]

-- The reply of its wait with which a waiter ends well: woken, or timed out where a timeout is set.
abbrev pub WaiterPassed : Style → Reply → Type 0
WaiterPassed s r =
    (r.res ≡ pos 0) ⊎ ((r.res <ℤ pos 0) × (s.timeout_ns ≢ pos 0) × (r.errno ≡ etimedout))

abbrev pub BlockerPassed : Style → Blocker → Type 0
BlockerPassed s b =
    (s.owner ≡ true) → (b.locked ≡ pos 0) × (b.waited ≡ pos 0) × (b.unlocked ≡ pos 0)

pub waiter_rets-WaiterPassed :
    (u : Uapi) (s : Style) (w : World) (i : ℕ)
    → (waiter_rets u s w i ≡ pos 0) ↔ WaiterPassed s (w.waiter i)
unfolding waiterfn
waiter_rets-WaiterPassed u s w i = (λ h. ground arith, λ h. ground arith)

pub blocker_ret-BlockerPassed :
    (u : Uapi) (s : Style) (w : World) → (blocker_ret u s w ≡ pos 0) ↔ BlockerPassed s w.blocker
unfolding third_party_blocker
blocker_ret-BlockerPassed u s w = (λ h. ground arith, λ h. ground arith)
