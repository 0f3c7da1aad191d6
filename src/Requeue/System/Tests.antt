-- ===== src/Requeue/System/Tests.antt =====
-- functional/futex_requeue_pi.c: runs of its threads.
use futextest.Common.{
  true, false, refl, arith, ℕ_discrete, ℕ, ◌≡◌, ◌<◌, none, some, dec_lt, subst, ◌⊎◌, inl,
}
use futextest.Common.Int.{◌+ℤ◌, pos}
use futextest.Pi.{
  System, Reach, start, later, pick, reads_blocked, reads_woken, adds_blocked, adds_woken, takes,
  queues, blocks, gets, unlocks, requeues, wakes, running, IsStill, unlock, waiting,
}
use futextest.Pi.Plain.{plain_pi, moves, passes, frees, plain_pi-IsPi, hands}
use futextest.Requeue.System.{
  Pc, init, threads, resume, next_round, after_requeue, exited, releases, access, ended, waits,
  ret_error, after_broadcast,
}
use futextest.Futex.Atomic.{atomic_inc}
use futextest.Word.{to_int, to_u32}
use futextest.Requeue.System.Safety.{requeue_unlocks_own}
use futextest.Requeue.System.Rest.{requeue_rests}
use futextest.Requeue.System.Still.{IsStuck}

record Run : Type 0 where
  last : System Pc
  reach : Reach plain_pi (threads 2 false true false) 3 (init 2) last

abbrev both_blocked : Run
unfolding ℕ_discrete resume next_round after_requeue atomic_inc ◌+ℤ◌ to_int to_u32
both_blocked = record {
  last = _;
  reach =
      later
        (later
          (later (later start (pick 0 (omega arith) (adds_blocked refl)))
            (pick 1 (omega arith) (adds_blocked refl)))
          (pick 0 (omega arith) (blocks refl)))
        (pick 1 (omega arith) (blocks refl));
}

abbrev first_requeued : Run
unfolding ℕ_discrete resume next_round after_requeue atomic_inc ◌+ℤ◌ to_int to_u32
first_requeued = record {
  last = _;
  reach =
      later
        (later
          (later
            (later
              (later
                (later (later both_blocked.reach (pick 2 (omega arith) (reads_blocked refl)))
                  (pick 2 (omega arith) (reads_woken refl)))
                (pick 2 (omega arith) (takes refl refl)))
              (pick 2 (omega arith) (requeues refl (moves 0 2 refl refl (omega arith)))))
            (pick 2 (omega arith) (unlocks refl refl (passes 0 refl))))
          (pick 2 (omega arith) (reads_woken refl)))
        (pick 2 (omega arith) (queues refl (cc)));
}

abbrev first_exited : Run
unfolding ℕ_discrete resume next_round after_requeue atomic_inc ◌+ℤ◌ to_int to_u32
first_exited = record {
  last = _;
  reach =
      later
        (later (later first_requeued.reach (pick 0 (omega arith) (gets (cc) refl)))
          (pick 0 (omega arith) (adds_woken refl)))
        (pick 0 (omega arith) (unlocks refl refl (passes 2 refl)));
}

abbrev second_requeued : Run
unfolding ℕ_discrete resume next_round after_requeue atomic_inc ◌+ℤ◌ to_int to_u32
second_requeued = record {
  last = _;
  reach =
      later
        (later
          (later (later first_exited.reach (pick 2 (omega arith) (gets (cc) refl)))
            (pick 2 (omega arith) (requeues refl (moves 1 2 refl refl (omega arith)))))
          (pick 2 (omega arith) (unlocks refl refl (passes 1 refl))))
        (pick 2 (omega arith) (wakes refl (λ j. refl)));
}

abbrev all_still : Run
unfolding ℕ_discrete resume next_round after_requeue atomic_inc ◌+ℤ◌ to_int to_u32
all_still = record {
  last = _;
  reach =
      later
        (later (later second_requeued.reach (pick 1 (omega arith) (gets (cc) refl)))
          (pick 1 (omega arith) (adds_woken refl)))
        (pick 1 (omega arith) (unlocks refl refl (frees (λ j. ground arith))));
}

all_at_rest : (i : ℕ) → i < 3 → IsStill (threads 2 false true false) all_still.last i
unfolding ℕ_discrete resume next_round after_requeue atomic_inc ◌+ℤ◌ to_int to_u32
all_at_rest i lt = elim (dec_lt i 1) [
  | yes first ↦
      let e : 0 ≡ i = omega arith in
      subst (IsStill (threads 2 false true false) all_still.last) e
        (inl (exited (pos 0), refl, refl))
  | no above ↦ elim (dec_lt i 2) [
    | yes second ↦
        let e : 1 ≡ i = omega arith in
        subst (IsStill (threads 2 false true false) all_still.last) e
          (inl (exited (pos 0), refl, refl))
    | no above' ↦
        let e : 2 ≡ i = omega arith in
        subst (IsStill (threads 2 false true false) all_still.last) e
          (inl (ended (pos 2), refl, refl))
  ]
]

requeue_rests_example :
    (all_still.last.thread 2 ≡ running (ended ret_error))
    ⊎ (((i : ℕ) → i < 2 → all_still.last.thread i ≡ running (exited (pos 0)))
        ⊎ IsStuck false true 2 all_still.last)
requeue_rests_example =
    requeue_rests plain_pi plain_pi-IsPi 2 false true false false (omega arith) (inl refl)
      all_still.reach all_at_rest

-- The first waiter holds f2 before it unlocks it.
abbrev first_releases : Run
unfolding ℕ_discrete resume next_round after_requeue atomic_inc ◌+ℤ◌ to_int to_u32
first_releases = record {
  last = _;
  reach =
      later (later first_requeued.reach (pick 0 (omega arith) (gets (cc) refl)))
        (pick 0 (omega arith) (adds_woken refl));
}

at_release : first_releases.last.thread 0 ≡ running (releases (pos 0))
unfolding ℕ_discrete resume next_round after_requeue atomic_inc ◌+ℤ◌ to_int to_u32
at_release = refl

requeue_unlocks_own_example :
    (first_releases.last.pi.owner ≡ some 0)
    × ((j : ℕ) (d : Pc)
        → first_releases.last.thread j ≡ running d
        → access 2 false true false d ≡ unlock
        → 0 ≡ j)
requeue_unlocks_own_example =
    requeue_unlocks_own plain_pi plain_pi-IsPi 2 false true false false first_releases.reach
      at_release refl

-- Without -l: waiter 1 has raised waiters_blocked and comes to its wait after the broadcast, which counts
-- waiter 0 twice, as requeued and as woken.
record Broadcast : Type 0 where
  last : System Pc
  reach : Reach plain_pi (threads 2 true false false) 3 (init 2) last

abbrev first_exits : Broadcast
unfolding ℕ_discrete resume next_round after_requeue after_broadcast atomic_inc ◌+ℤ◌ to_int to_u32
first_exits = record {
  last = _;
  reach =
      later
        (later
          (later
            (later
              (later
                (later
                  (later (later start (pick 0 (omega arith) (adds_blocked refl)))
                    (pick 1 (omega arith) (adds_blocked refl)))
                  (pick 0 (omega arith) (blocks refl)))
                (pick 2 (omega arith) (reads_blocked refl)))
              (pick 2 (omega arith) (requeues refl (hands 0 refl refl))))
            (pick 0 (omega arith) (gets (cc) refl)))
          (pick 0 (omega arith) (adds_woken refl)))
        (pick 0 (omega arith) (unlocks refl refl (frees (λ j. refl))));
}

abbrev second_left : Broadcast
unfolding ℕ_discrete resume next_round after_requeue after_broadcast atomic_inc ◌+ℤ◌ to_int to_u32
second_left = record {
  last = _;
  reach =
      later
        (later (later first_exits.reach (pick 2 (omega arith) (reads_woken refl)))
          (pick 2 (omega arith) (wakes refl (λ j. refl))))
        (pick 1 (omega arith) (blocks refl));
}

second_left_asleep :
    (second_left.last.thread 0 ≡ running (exited (pos 0)))
    × (second_left.last.thread 1 ≡ waiting waits)
    × (second_left.last.thread 2 ≡ running (ended (pos 1)))
    × (second_left.last.pi.owner ≡ none)
unfolding ℕ_discrete resume next_round after_requeue after_broadcast atomic_inc ◌+ℤ◌ to_int to_u32
second_left_asleep = (refl, refl, refl, refl)
