-- ===== src/Requeue/System/Rules.antt =====
-- functional/futex_requeue_pi.c: which threads hold f2, and which sleep, in every state of its threads.
use futextest.Common.{ℕ, ◌≡◌, ◌≢◌, ◌⊎◌, Bool, true, false, none, some, refl, arith}
use futextest.Common.Int.{pos, leb_ℤ}
use futextest.Functional.{Reply, etimedout}
use futextest.Pi.{
  Pi, Access, load_blocked, load_woken, inc_blocked, inc_woken, wait_requeue, lock, unlock, requeue,
  wake_complete, wait_complete, Thread, running, waiting, ok, failed,
}
use futextest.Requeue.System.{
  Pc, waits, counts_out, relocks, releases, locks, signals, lets_go, broadcast_locks,
  after_broadcast, access, resume, after_requeue, Loop, code_of, broadcasts, after_broadcast,
  broadcast_unlocks, rechecks, broadcast_completes, blocker_unlocks, blocker_locks, blocker_waits,
}

-- No call that may end with another owner of f2.
abbrev pub IsPlain : Access → Type 0
IsPlain load_blocked = Unit {0}
IsPlain load_woken = Unit {0}
IsPlain inc_blocked = Unit {0}
IsPlain inc_woken = Unit {0}
IsPlain (requeue _) = Unit {0}
IsPlain wake_complete = Unit {0}
IsPlain _ = ⊥

abbrev pub is_asleep : Thread Pc → Bool
is_asleep (running _) = false
is_asleep (waiting _) = true

module _ (n : ℕ) (broadcast lock_f2 timed : Bool) where
  -- At `c` the thread holds f2.
  abbrev pub holds_at : Pc → Bool
  holds_at (counts_out r) = leb_ℤ (pos 0) r.res
  holds_at (releases _) = true
  holds_at (signals _) = lock_f2
  holds_at (lets_go _) = true
  holds_at (broadcasts _) = lock_f2
  holds_at (rechecks _) = lock_f2
  holds_at (broadcast_completes _) = lock_f2
  holds_at (broadcast_unlocks _) = true
  holds_at blocker_waits = true
  holds_at (blocker_unlocks _) = true
  holds_at _ = false

  abbrev pub holds : Thread Pc → Bool
  holds (running c) = holds_at c
  holds (waiting blocker_waits) = true
  holds (waiting _) = false

  -- Only `-l` locks f2 across the requeue, and only six calls sleep.
  abbrev pub IsPlaced : Thread Pc → Type 0
  IsPlaced (running (locks _)) = lock_f2 ≡ true
  IsPlaced (running broadcast_locks) = lock_f2 ≡ true
  IsPlaced (running _) = Unit {0}
  IsPlaced (waiting waits) = Unit {0}
  IsPlaced (waiting (relocks _)) = Unit {0}
  IsPlaced (waiting (locks _)) = lock_f2 ≡ true
  IsPlaced (waiting broadcast_locks) = lock_f2 ≡ true
  IsPlaced (waiting blocker_locks) = Unit {0}
  IsPlaced (waiting blocker_waits) = Unit {0}
  IsPlaced (waiting _) = ⊥

  -- What holds of thread `j` at `t`.
  pub record Own (p : Pi) (j : ℕ) (t : Thread Pc) : Type 0 where
    pub owns : p.owner ≡ some j → (holds t ≡ true) ⊎ (is_asleep t ≡ true)
    pub holder : holds t ≡ true → p.owner ≡ some j
    pub one : p.on_f1 j ≡ true → (t ≡ waiting waits) × (p.owner ≢ some j) × (p.on_f2 j ≡ false)
    pub two : p.on_f2 j ≡ true → (is_asleep t ≡ true) × (p.owner ≢ some j) × (p.owner ≢ none)
    pub asleep : is_asleep t ≡ true → (p.on_f1 j ≡ true) ⊎ ((p.on_f2 j ≡ true) ⊎ (p.owner ≡ some j))
    pub placed : IsPlaced t

  after_requeue_free : (v : Loop) → holds_at (after_requeue n broadcast lock_f2 timed v) ≡ false
  unfolding after_requeue
  after_requeue_free v = ground arith

  after_requeue-IsPlaced :
      (v : Loop) → IsPlaced (running (after_requeue n broadcast lock_f2 timed v))
  unfolding after_requeue
  after_requeue-IsPlaced v = ground arith

  after_broadcast_holds :
      (v : Loop) → holds_at (after_broadcast n broadcast lock_f2 timed v) ≡ lock_f2
  unfolding after_broadcast
  after_broadcast_holds v = ground arith

  after_broadcast-IsPlaced :
      (v : Loop) → IsPlaced (running (after_broadcast n broadcast lock_f2 timed v))
  unfolding after_broadcast
  after_broadcast-IsPlaced v = ground arith

  pub plain_holds :
      (c : Pc) (r : Reply)
      → IsPlain (access n broadcast lock_f2 timed c)
      → (holds_at (resume n broadcast lock_f2 timed c r) ≡ holds_at c)
        × IsPlaced (running (resume n broadcast lock_f2 timed c r))
  unfolding resume
  plain_holds (signals v) r h =
      let v' : Loop = record v { ret = code_of r } in
      ground (arith, after_requeue_free v', after_requeue-IsPlaced v')
  plain_holds (counts_out q) r h = ground arith
  plain_holds (broadcasts v) r h =
      let v' : Loop = record v { ret = r.res } in
      ground (arith, after_broadcast_holds v', after_broadcast-IsPlaced v')
  plain_holds c r h = ground arith

  -- What the other steps of a thread lead to.
  pub gets_holds :
      (c : Pc)
      → access n broadcast lock_f2 timed c ≢ wait_complete
      → IsPlaced (waiting c)
      → (holds_at (resume n broadcast lock_f2 timed c (ok (pos 0))) ≡ true)
        × IsPlaced (running (resume n broadcast lock_f2 timed c (ok (pos 0))))
  unfolding resume
  gets_holds waits ne h = ground arith
  gets_holds (relocks ret) ne h = ground arith
  gets_holds (locks v) ne h = ground arith
  gets_holds broadcast_locks ne h = ground arith
  gets_holds blocker_locks ne h = ground arith
  gets_holds blocker_waits ne h = absurd (ne (λ i. wait_complete))
  gets_holds _ ne h = elim h [ ]

  pub takes_holds :
      (c : Pc)
      → IsPlaced (running c)
      → access n broadcast lock_f2 timed c ≡ lock
      → (holds_at (resume n broadcast lock_f2 timed c (ok (pos 0))) ≡ true)
        × (holds_at c ≡ false)
        × IsPlaced (running (resume n broadcast lock_f2 timed c (ok (pos 0))))
        × IsPlaced (waiting c)
  unfolding resume
  takes_holds (relocks ret) h e = ground arith
  takes_holds (locks v) h e = ground arith
  takes_holds broadcast_locks h e = ground arith
  takes_holds blocker_locks h e = ground arith
  takes_holds _ h e = cc

  pub unlock_holds :
      (c : Pc) (r : Reply)
      → access n broadcast lock_f2 timed c ≡ unlock
      → (holds_at c ≡ true)
        × (holds_at (resume n broadcast lock_f2 timed c r) ≡ false)
        × IsPlaced (running (resume n broadcast lock_f2 timed c r))
  unfolding resume
  unlock_holds (releases ret) r e = ground arith
  unlock_holds (lets_go v) r e = (refl, after_requeue_free v, after_requeue-IsPlaced v)
  unlock_holds (broadcast_unlocks v) r e = ground arith
  unlock_holds (blocker_unlocks ret) r e = ground arith
  unlock_holds _ r e = cc

  pub rests_holds :
      (c : Pc) (r : Reply)
      → access n broadcast lock_f2 timed c ≡ wait_complete
      → (c ≡ blocker_waits)
        × (holds_at (resume n broadcast lock_f2 timed c r) ≡ true)
        × IsPlaced (running (resume n broadcast lock_f2 timed c r))
  unfolding resume
  rests_holds blocker_waits r e = (refl, refl, tt)
  rests_holds _ r e = cc

  pub waits_lem :
      (c : Pc)
      → access n broadcast lock_f2 timed c ≡ wait_requeue
      → (c ≡ waits) × (holds_at c ≡ false) × IsPlaced (waiting c)
  waits_lem waits e = ground arith
  waits_lem _ e = cc

  pub times_out_holds :
      (c : Pc)
      → access n broadcast lock_f2 timed c ≡ wait_requeue
      → (holds_at (resume n broadcast lock_f2 timed c (failed etimedout)) ≡ false)
        × IsPlaced (running (resume n broadcast lock_f2 timed c (failed etimedout)))
  unfolding resume
  times_out_holds waits e = ground arith
  times_out_holds _ e = cc
