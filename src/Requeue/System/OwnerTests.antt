-- ===== src/Requeue/System/OwnerTests.antt =====
-- functional/futex_requeue_pi.c: runs of its threads with the third-party owner of f2.
use futextest.Common.{
  Bool, true, false, refl, arith, ℕ_discrete, ℕ, ◌≡◌, ◌<◌, none, dec_lt, subst, ◌⊎◌, inl, inr, ◌≤◌,
  ◌*◌, ◌+◌,
}
use futextest.Common.Int.{◌+ℤ◌, pos, ℤ, ◌≤ℤ◌}
use futextest.Pi.{
  halt, System, Reach, start, later, pick, reads_blocked, reads_woken, adds_blocked, adds_woken,
  takes, blocks, gets, unlocks, requeues, wakes, wakes_one, rests, returns, queues, running,
  IsStill, waiting,
}
use futextest.Pi.Plain.{plain_pi, moves, passes, frees, plain_pi-IsPi}
use futextest.Requeue.System.{
  access, Pc, init, threads, resume, next_round, after_requeue, exited, ended, waits, ret_error,
  blocker_exited,
}
use futextest.Futex.Atomic.{atomic_inc}
use futextest.Word.{to_int, to_u32}
use futextest.Requeue.System.Still.{IsStuck}
use futextest.Requeue.System.Rest.{requeue_frees}
use futextest.Requeue.System.Joins.{Verdict, requeue_joins}
use futextest.Requeue.System.Paces.{requeue_steps, Paced}

-- One waiter, `signal_wakerfn` without a timeout, and the blocker.
record Run (lock_f2 : Bool) : Type 0 where
  last : System Pc
  reach : Reach plain_pi (threads 1 false lock_f2 false) 3 (init 1) last

abbrev blocker_first : Run false
unfolding ℕ_discrete resume next_round after_requeue atomic_inc ◌+ℤ◌ to_int to_u32
blocker_first = record {
  last = _;
  reach =
      later
        (later (later start (pick 2 (omega arith) (takes refl refl)))
          (pick 0 (omega arith) (adds_blocked refl)))
        (pick 0 (omega arith) (blocks refl));
}

abbrev blocker_woken : Run false
unfolding ℕ_discrete resume next_round after_requeue atomic_inc ◌+ℤ◌ to_int to_u32
blocker_woken = record {
  last = _;
  reach =
      later
        (later
          (later
            (later
              (later (later blocker_first.reach (pick 2 (omega arith) (rests refl)))
                (pick 1 (omega arith) (reads_blocked refl)))
              (pick 1 (omega arith) (reads_woken refl)))
            (pick 1 (omega arith) (requeues refl (moves 0 2 refl refl (omega arith)))))
          (pick 1 (omega arith) (wakes_one 2 refl refl)))
        (pick 2 (omega arith) (returns refl refl));
}

abbrev blocker_done : Run false
unfolding ℕ_discrete resume next_round after_requeue atomic_inc ◌+ℤ◌ to_int to_u32
blocker_done = record {
  last = _;
  reach =
      later
        (later
          (later
            (later blocker_woken.reach (pick 2 (omega arith) (unlocks refl refl (passes 0 refl))))
            (pick 0 (omega arith) (gets (cc) refl)))
          (pick 0 (omega arith) (adds_woken refl)))
        (pick 0 (omega arith) (unlocks refl refl (frees (λ j. ground arith))));
}

all_over :
    (i : ℕ)
    → i < 3
    → (c : Pc) × (blocker_done.last.thread i ≡ running c) × (access 1 false false false c ≡ halt)
unfolding ℕ_discrete resume next_round after_requeue atomic_inc ◌+ℤ◌ to_int to_u32
all_over i lt = elim (dec_lt i 1) [
  | yes first ↦ let e : 0 ≡ i = omega arith in subst IsOver e (exited (pos 0), refl, refl)
  | no above ↦ elim (dec_lt i 2) [
    | yes second ↦ let e : 1 ≡ i = omega arith in subst IsOver e (ended (pos 1), refl, refl)
    | no above' ↦ let e : 2 ≡ i = omega arith in subst IsOver e (blocker_exited (pos 0), refl, refl)
  ]
]
  where
    IsOver : ℕ → Type 0
    IsOver j =
        (c : Pc) × (blocker_done.last.thread j ≡ running c) × (access 1 false false false c ≡ halt)

all_at_rest : (i : ℕ) → i < 3 → IsStill (threads 1 false false false) blocker_done.last i
all_at_rest i lt = inl (all_over i lt)

requeue_frees_example :
    IsStuck true false 1 blocker_done.last
    ⊎ ((blocker_done.last.pi.owner ≡ none)
        × ((ret : ℤ) × (blocker_done.last.thread 1 ≡ running (ended ret))
            × ((ret ≡ ret_error) ⊎ (pos 0 ≤ℤ ret)))
        × ((i : ℕ)
            → i < 1
            → (blocker_done.last.thread i ≡ running (exited (pos 0)))
              ⊎ ((blocker_done.last.thread i ≡ waiting waits)
                  × (blocker_done.last.pi.on_f1 i ≡ true)))
        × ((true ≡ false) ⊎ (blocker_done.last.thread 2 ≡ running (blocker_exited (pos 0)))))
requeue_frees_example =
    requeue_frees plain_pi plain_pi-IsPi 1 false false false true (omega arith) blocker_done.reach
      all_at_rest

requeue_joins_example :
    (ret : ℤ) × (blocker_done.last.thread 1 ≡ running (ended ret))
    × Verdict false true 1 (pos 0) blocker_done.last ret
requeue_joins_example =
    requeue_joins plain_pi plain_pi-IsPi 1 false false false true (omega arith) (pos 0)
      blocker_done.reach all_over

requeue_steps_example :
    (m : ℕ) × Paced 1 false false false plain_pi 3 blocker_done.last blocker_done.reach m
    × (m ≤ 19 * 1 + 8030)
requeue_steps_example = requeue_steps 1 false false false true plain_pi-IsPi blocker_done.reach

-- The waker wakes wake_complete before the blocker comes to its wait.
abbrev lost_wakeup : Run false
unfolding ℕ_discrete resume next_round after_requeue atomic_inc ◌+ℤ◌ to_int to_u32
lost_wakeup = record {
  last = _;
  reach =
      later
        (later
          (later
            (later (later blocker_first.reach (pick 1 (omega arith) (reads_blocked refl)))
              (pick 1 (omega arith) (reads_woken refl)))
            (pick 1 (omega arith) (requeues refl (moves 0 2 refl refl (omega arith)))))
          (pick 1 (omega arith) (wakes refl (λ j. refl))))
        (pick 2 (omega arith) (rests refl));
}

lost_wakeup-IsStuck :
    IsStuck true false 1 lost_wakeup.last × (lost_wakeup.last.thread 0 ≡ waiting waits)
unfolding ℕ_discrete resume next_round after_requeue atomic_inc ◌+ℤ◌ to_int to_u32
lost_wakeup-IsStuck = ((refl, refl, refl, inr (pos 1, refl)), refl)

-- With -l: the waker waits for f2, and the blocker for the waker.
abbrev deadlock : Run true
unfolding ℕ_discrete resume next_round after_requeue atomic_inc ◌+ℤ◌ to_int to_u32
deadlock = record {
  last = _;
  reach =
      later
        (later
          (later
            (later
              (later
                (later (later start (pick 2 (omega arith) (takes refl refl)))
                  (pick 0 (omega arith) (adds_blocked refl)))
                (pick 0 (omega arith) (blocks refl)))
              (pick 2 (omega arith) (rests refl)))
            (pick 1 (omega arith) (reads_blocked refl)))
          (pick 1 (omega arith) (reads_woken refl)))
        (pick 1 (omega arith) (queues refl (cc)));
}

deadlock-IsStuck : IsStuck true true 1 deadlock.last × (deadlock.last.thread 0 ≡ waiting waits)
unfolding ℕ_discrete resume next_round after_requeue atomic_inc ◌+ℤ◌ to_int to_u32
deadlock-IsStuck = ((refl, refl, refl, inl (refl, refl)), refl)
