-- ===== src/SignalRestart/System/Tests.antt =====
-- functional/futex_requeue_pi_signal_restart.c: runs of its two threads.
use futextest.Common.{ℕ, ◌≡◌, ◌⊎◌, Bool, true, false, none, some, arith, refl, ℕ_discrete, ◌≤◌}
use futextest.Logging.{ret_pass, ret_fail}
use futextest.Futex.Atomic.{atomic_set}
use futextest.Pi.{Pi}
use futextest.Pi.Plain.{plain_pi, plain_pi-IsPi, moves, frees, Handover}
use futextest.SignalRestart.System.{
  Step, State, Reach, begins, later, returned, exited, main_takes, main_kills, main_requeues,
  main_sets, main_kills_again, main_joins, main_unlocks, main_ends, waiter_blocks, waiter_reads,
  restarts, interrupts, ℤ,
}
use futextest.SignalRestart.System.Ends.{Steps, stays, more}
use futextest.SignalRestart.System.Passes.{signal_restart_exits, signal_restart_ends}

record Run (prompt : Bool) : Type 0 where
  last : State
  reach : Reach plain_pi prompt last

-- The signal of the loop makes the waiter restart its wait, and then it is requeued.
abbrev requeued_once : Run true
unfolding ℕ_discrete
requeued_once = record {
  last = _;
  reach =
      later
        (later
          (later
            (later (later (later begins (waiter_blocks refl refl)) (main_takes refl refl))
              (main_kills refl))
            (restarts refl refl refl))
          (waiter_blocks refl refl))
        (main_requeues refl (λ _. refl) (moves 1 0 refl refl (omega arith)));
}

abbrev signalled : Run true
unfolding ℕ_discrete atomic_set
signalled = record {
  last = _;
  reach =
      later (later (later requeued_once.reach (main_sets refl)) (main_kills_again refl))
        (interrupts refl refl refl);
}

abbrev passed : Run true
unfolding ℕ_discrete atomic_set
passed = record {
  last = _;
  reach =
      later
        (later (later (later signalled.reach (waiter_reads refl)) (main_joins refl refl))
          (main_unlocks refl refl (frees (λ j. ground arith))))
        (main_ends refl);
}

passed_exited : passed.last.main ≡ exited ret_pass
unfolding ℕ_discrete atomic_set
passed_exited = refl

signal_restart_exits_example :
    (passed.last.waiter ≡ returned ret_pass)
    × (passed.last.pi.owner ≡ none)
    × (passed.last.pi.on_f1 1 ≡ false)
    × (passed.last.pi.on_f2 1 ≡ false)
    × ((ret_pass ≡ ret_pass) ⊎ ((ret_pass ≡ ret_fail) × (true ≡ false)))
signal_restart_exits_example =
    signal_restart_exits plain_pi plain_pi-IsPi true passed.reach passed_exited

unlocks_alone :
    (p : Pi) → p.owner ≡ some 0 → ((j : ℕ) → p.on_f2 j ≡ false) → (q : Pi) × Handover p q
unlocks_alone p mine off = (_, frees off)

record Rest : Type 0 where
  last : State
  steps : Steps plain_pi true requeued_once.last 2 last

abbrev two_steps : Rest
unfolding ℕ_discrete atomic_set
two_steps = record { last = _; steps = more (more stays (main_sets refl)) (main_kills_again refl) }

signal_restart_ends_example :
    (2 ≤ 13)
    × (((ret : ℤ) × (two_steps.last.main ≡ exited ret))
        ⊎ ((u : State) × Step plain_pi true two_steps.last u))
unfolding ℕ_discrete
signal_restart_ends_example =
    signal_restart_ends plain_pi plain_pi-IsPi true unlocks_alone requeued_once.reach tt
      two_steps.steps

-- The signal of the loop comes after the requeue, before `main` has set `requeued`.
abbrev signalled_early : Run false
unfolding ℕ_discrete atomic_set
signalled_early = record {
  last = _;
  reach =
      later
        (later
          (later
            (later
              (later (later (later begins (waiter_blocks refl refl)) (main_takes refl refl))
                (main_kills refl))
              (main_requeues refl (cc) (moves 1 0 refl refl (omega arith))))
            (interrupts refl refl refl))
          (waiter_reads refl))
        (main_sets refl);
}

abbrev failed_early : Run false
unfolding ℕ_discrete atomic_set
failed_early = record {
  last = _;
  reach =
      later
        (later (later (later signalled_early.reach (main_kills_again refl)) (main_joins refl refl))
          (main_unlocks refl refl (frees (λ j. ground arith))))
        (main_ends refl);
}

failed_early_exited : failed_early.last.main ≡ exited ret_fail
unfolding ℕ_discrete atomic_set
failed_early_exited = refl
