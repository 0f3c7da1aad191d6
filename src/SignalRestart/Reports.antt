-- ===== src/SignalRestart/Reports.antt =====
-- functional/futex_requeue_pi_signal_restart.c: how `main` ends.
use futextest.Common.{ℕ, ◌<◌, ◌≡◌, ◌⊎◌, inl, inr, refl, List, some, ◌≢◌}
use futextest.Common.Int.{pos, eqb_lem}
use futextest.Logging.{Console, print_result, fresh}
use futextest.Getopt.{Opt, Flow, go, exit, getopt_loop, switch_chv}
use futextest.Getopt.{usage_lines}
use futextest.Getopt.Laws.{IsConsole, fresh-IsConsole, IsUsage, Ends, options-IsConsole}
use futextest.Syscall.{Uapi}
use futextest.Functional.{Outcome, finish}
use futextest.SignalRestart.Threads.{create_rt_thread}
use futextest.SignalRestart.{World, signal_test, banner, after_options, main}
use futextest.SignalRestart.Rounds.{IsFirst}
use futextest.SignalRestart.Verdict.{run_events, signal_test_ends}

-- The console with which the test runs, and how it ends there.
abbrev pub IsRun : Uapi → World → ℕ → ℕ → Outcome → Type 0
IsRun u w k fuel o =
    (c : Console) × IsConsole c
    × (((w.sigaction ≢ pos 0) × (o.status ≡ pos 1) × (o.console ≡ banner c))
        ⊎ ((w.sigaction ≡ pos 0)
            × (signal_test u w fuel ≡ some (o.status, run_events u k))
            × (o.console ≡ print_result o.status (banner c))))

module _ (u : Uapi) (w : World) (k fuel : ℕ) (made : create_rt_thread w.thread ≡ pos 0)
    (first : IsFirst u w.requeued_by 0 k) (enough : k < fuel) where
  after_options_lem :
      (f : Flow Console)
      → Ends IsConsole (IsUsage usage_lines) f
      → (o : Outcome) × (after_options u w fuel f ≡ some o)
        × (IsUsage usage_lines o.status o.console ⊎ IsRun u w k fuel o)
  after_options_lem (exit r c) h = (record { status = r; console = c }, refl, inl h)
  after_options_lem (go c) h = elim (eqb_lem w.sigaction (pos 0)) [
    | inl (e, z) ↦
        let (ret, run, _) = signal_test_ends u w k fuel made first enough in
        (finish ret (banner c), rw (e, run) refl, inr (c, h, inr (z, run, refl)))
    | inr (e, nz) ↦
        (record { status = pos 1; console = banner c }, rw e refl, inr (c, h, inl (nz, refl, refl)))
  ]

  -- If the waiter could be made and a requeue reports a task, `main` ends on all arguments: with the
  -- usage as its last output and status 0 or 1; or, where sigaction fails, with status 1 after the
  -- banner; or with the result of the test, reported in the last line printed, as its status.
  pub main_reports :
      (os : List Opt)
      → (o : Outcome) × (main u w fuel os ≡ some o)
        × (IsUsage usage_lines o.status o.console ⊎ IsRun u w k fuel o)
  unfolding main
  main_reports os =
      after_options_lem (getopt_loop switch_chv os fresh)
        (options-IsConsole os fresh fresh-IsConsole)
