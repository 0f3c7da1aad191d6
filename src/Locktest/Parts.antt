-- ===== src/Locktest/Parts.antt =====
-- The two barriers and the lock as parts of `locktest` of performance/harness.h.
use futextest.Common.{ℕ, ◌<◌, ◌≡◌, inl, inr, refl, arith, ◌∙◌, ◌+◌, Bool-cases, ◌≤◌, ◌⊎◌, ap, Bool}
use futextest.Common.Window.{IsApart}
use futextest.Machine.Project.{shift, AtAddress, Part, Place, own, other}
use futextest.Mutex
use futextest.Mutex.{finished, next_round, futex_wait_test}
use futextest.Barrier
use futextest.Barrier.{
  barrier, sync_dec, sync_test, sync_wake, sync_load, sync_wait, sync_return, synced, wait_load,
  wait_wait, unblock_store, unblock_wake, opened,
}
use futextest.Locktest.{
  joining, value_of, Pc, before, locking, after, returned, measured, in_lock, is_positive,
  from_before, locktest,
}

-- The words that the two programs name.
pub barrier_inside : (value : ℕ) (c : Barrier.Pc) → AtAddress (λ a. a < 2) (Barrier.access value c)
barrier_inside value sync_dec = omega arith
barrier_inside value _ = omega arith

pub lock_inside : (c : Mutex.Pc) → AtAddress (λ a. a < 1) (Mutex.access c)
lock_inside finished = tt
lock_inside _ = omega arith

pub lock-IsApart :
    (b w : ℕ) → b + w ≤ 4 → (c : Mutex.Pc) → AtAddress (IsApart b w) (shift 4 (Mutex.access c))
lock-IsApart b w h finished = tt
lock-IsApart b w h _ = inr (omega arith)

-- A barrier's words, from `d` on, are outside a window that lies before or after them.
pub barrier-IsApart :
    (value b w d : ℕ)
    → (d + 2 ≤ b) ⊎ (b + w ≤ d)
    → (c : Barrier.Pc) → AtAddress (IsApart b w) (shift d (Barrier.access value c))
barrier-IsApart value b w d h sync_dec = elim h [
  | inl p ↦ inl (omega arith)
  | inr p ↦ inr (omega arith)
]
barrier-IsApart value b w d h (synced v) = tt
barrier-IsApart value b w d h opened = tt
barrier-IsApart value b w d h _ = elim h [ inl p ↦ inl (omega arith) | inr p ↦ inr (omega arith) ]

-- A worker's first position at a barrier, and the caller's.
abbrev pub start_of : Barrier.Pc → Barrier.Pc
start_of sync_dec = sync_dec
start_of sync_test = sync_dec
start_of sync_wake = sync_dec
start_of sync_load = sync_dec
start_of sync_wait = sync_dec
start_of sync_return = sync_dec
start_of (synced _) = sync_dec
start_of _ = wait_load

pub start_of-resume :
    (value : ℕ) (c : Barrier.Pc) (v : ℕ) → start_of (Barrier.resume value c v) ≡ start_of c
start_of-resume value c v = ground arith

module _ (all : Bool) (loops : ℕ) where
  abbrev pub at_before : Pc → Barrier.Pc
  at_before (before c) = c
  at_before (locking v _) = synced v
  at_before (after v _) = synced v
  at_before (returned v) = synced v
  at_before joining = opened
  at_before (measured _) = opened

  pub before-in_lock : (v : ℕ) (c : Mutex.Pc) → at_before (in_lock v c) ≡ synced v
  before-in_lock v finished = refl
  before-in_lock v _ = refl

  pub before-from_before : (c : Barrier.Pc) → at_before (from_before all loops c) ≡ c
  before-from_before (synced v) = elim (Bool-cases (is_positive v)) [
    | inl e ↦ rw e (before-in_lock v (next_round loops))
    | inr e ↦ rw e refl
  ]
  before-from_before opened = elim (Bool-cases all) [ inl e ↦ rw e refl | inr e ↦ rw e refl ]
  before-from_before _ = refl

  unfoldable pub before_place :
      (c : Pc) → Place (locktest all loops) (barrier (value_of all)) 0 2 at_before c
  before_place (before c) =
      own refl (barrier_inside (value_of all) c)
        (λ v. before-from_before (Barrier.resume (value_of all) c v))
  before_place (locking u c) =
      other (lock-IsApart 0 2 (omega arith) c) (λ v. before-in_lock u (Mutex.resume c v))
  before_place (after u c) = other (barrier-IsApart 1 0 2 2 (inr (omega arith)) c) (λ v. refl)
  before_place (returned u) = other tt (λ v. refl)
  before_place joining = other tt (λ v. refl)
  before_place (measured c) = other (barrier-IsApart 1 0 2 2 (inr (omega arith)) c) (λ v. refl)

  abbrev pub before_part : Part (locktest all loops) (barrier (value_of all)) 0 2
  before_part = record { view = at_before; place = before_place }

  abbrev pub at_after : Pc → Barrier.Pc
  at_after (before c) = start_of c
  at_after (locking _ _) = sync_dec
  at_after (after _ c) = c
  at_after (returned _) = sync_dec
  at_after joining = wait_load
  at_after (measured c) = c

  pub after-in_lock : (v : ℕ) (c : Mutex.Pc) → at_after (in_lock v c) ≡ sync_dec
  after-in_lock v finished = refl
  after-in_lock v _ = refl

  pub after-from_before : (c : Barrier.Pc) → at_after (from_before all loops c) ≡ start_of c
  after-from_before (synced v) = elim (Bool-cases (is_positive v)) [
    | inl e ↦ rw e (after-in_lock v (next_round loops))
    | inr e ↦ rw e refl
  ]
  after-from_before opened = elim (Bool-cases all) [ inl e ↦ rw e refl | inr e ↦ rw e refl ]
  after-from_before _ = refl

  unfoldable pub after_place : (c : Pc) → Place (locktest all loops) (barrier 1) 2 2 at_after c
  after_place (before c) = other (barrier-IsApart (value_of all) 2 2 0 (inl (omega arith)) c) (λ v.
      after-from_before (Barrier.resume (value_of all) c v) ∙ start_of-resume (value_of all) c v)
  after_place (locking u c) =
      other (lock-IsApart 2 2 (omega arith) c) (λ v. after-in_lock u (Mutex.resume c v))
  after_place (after u c) = own refl (barrier_inside 1 c) (λ v. refl)
  after_place (returned u) = other tt (λ v. refl)
  after_place joining = other tt (λ v. refl)
  after_place (measured c) = own refl (barrier_inside 1 c) (λ v. refl)

  abbrev pub after_part : Part (locktest all loops) (barrier 1) 2 2
  after_part = record { view = at_after; place = after_place }

  -- The rounds that a thread will do, from its position at the first barrier.
  abbrev pub rounds_at : Barrier.Pc → Mutex.Pc
  rounds_at sync_dec = next_round loops
  rounds_at _ = finished

  abbrev pub rounds_of : Barrier.Pc → Mutex.Pc
  rounds_of c = rounds_at (start_of c)

  abbrev pub at_lock : Pc → Mutex.Pc
  at_lock (before c) = rounds_of c
  at_lock (locking _ c) = c
  at_lock (after _ _) = finished
  at_lock (returned _) = next_round loops
  at_lock joining = finished
  at_lock (measured _) = finished

  pub lock-in_lock : (v : ℕ) (c : Mutex.Pc) → at_lock (in_lock v c) ≡ c
  lock-in_lock v finished = refl
  lock-in_lock v _ = refl

  pub lock-from_before : (c : Barrier.Pc) → at_lock (from_before all loops c) ≡ rounds_of c
  lock-from_before (synced v) = elim (Bool-cases (is_positive v)) [
    | inl e ↦ rw e (lock-in_lock v (next_round loops))
    | inr e ↦ rw e refl
  ]
  lock-from_before opened = elim (Bool-cases all) [ inl e ↦ rw e refl | inr e ↦ rw e refl ]
  lock-from_before _ = refl

  pub rounds_of-resume :
      (value : ℕ) (c : Barrier.Pc) (v : ℕ) → rounds_of (Barrier.resume value c v) ≡ rounds_of c
  rounds_of-resume value c v = ap rounds_at (start_of-resume value c v)

  unfoldable pub lock_place : (c : Pc) → Place (locktest all loops) futex_wait_test 4 1 at_lock c
  lock_place (before c) = other (barrier-IsApart (value_of all) 4 1 0 (inl (omega arith)) c) (λ v.
      lock-from_before (Barrier.resume (value_of all) c v) ∙ rounds_of-resume (value_of all) c v)
  lock_place (locking u c) = own refl (lock_inside c) (λ v. lock-in_lock u (Mutex.resume c v))
  lock_place (after u c) = other (barrier-IsApart 1 4 1 2 (inl (omega arith)) c) (λ v. refl)
  lock_place (returned u) = other tt (λ v. refl)
  lock_place joining = other tt (λ v. refl)
  lock_place (measured c) = other (barrier-IsApart 1 4 1 2 (inl (omega arith)) c) (λ v. refl)

  abbrev pub lock_part : Part (locktest all loops) futex_wait_test 4 1
  lock_part = record { view = at_lock; place = lock_place }
