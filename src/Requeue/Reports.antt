-- ===== src/Requeue/Reports.antt =====
-- functional/futex_requeue_pi.c: how `main` ends.
use futextest.Requeue.Options.{
  Settings, switch, defaults, banner, after_options, run_test, main, ended,
}
use futextest.Requeue.UnitTest.{World, unit_test}
use futextest.Requeue.Verdict.{unit_test_judges, Judged}
use futextest.Requeue.Started.{Started, Ended}
use futextest.Common.Int.{ℤ}
use futextest.Common.{Option, none, true}
use futextest.Requeue.Options.{usage_lines}
use futextest.Getopt.Laws.{
  IsConsole, Ends, IsUsage, if-Ends, log_color-IsConsole, log_verbosity-IsConsole, getopt_loop-Ends,
  fresh-IsConsole,
}
use futextest.Getopt.{Opt, Flow, atoi, exit, getopt_loop, go}
use futextest.Syscall.{Uapi}
use futextest.Common.{ℕ, refl}
use futextest.Functional.{Outcome, finish}
use futextest.Requeue.{max_wake_iters, thread_max}
use futextest.Common.{◌≡◌, ◌+◌, ◌==◌, some, ◌<◌, inl, List, ◌⊎◌, inr}
use futextest.Logging.{print_result}
use futextest.Requeue.Blocked.{AllBlocked}

abbrev HasConsole : Settings → Type 0
HasConsole s = IsConsole s.console

switch-Ends :
    (o : Opt) (s : Settings)
    → IsConsole s.console
    → Ends HasConsole (IsUsage usage_lines) (switch o s)
unfolding switch
switch-Ends o s h =
    let over = if-Ends HasConsole (IsUsage usage_lines) in
    over (o.code == b'b') _ _ h (
      over (o.code == b'c') _ _ (log_color-IsConsole s.console h) (
        over (o.code == b'h') _ _ (inl refl, s.console, h, refl)
          (over (o.code == b'l') _ _ h (
            over (o.code == b'o') _ _ h (
              over (o.code == b't') _ _ h (
                over (o.code == b'v') _ _ (log_verbosity-IsConsole (atoi o.optarg) s.console h)
                  (inr refl, s.console, h, refl)))))))

-- The settings that the options have left, and what becomes of the test with them: a result, and the
-- report of it; or no result, since all threads could be made and one that is joined never ends.
abbrev pub IsRun : Uapi → World → ℕ → Flow Settings → Option Outcome → Type 0
IsRun u w fuel f o =
    (s : Settings) × (f ≡ go s)
    × IsConsole s.console
    × (((out : Outcome) × (o ≡ some out)
          × Judged u s.style w fuel (some out.status)
          × (out.console ≡ print_result out.status (banner s.console)))
        ⊎ ((o ≡ none) × Started s.style w × (Ended s.style w → ⊥)))

-- What `main` gives when the options end in `f`.
abbrev pub Finishes : Uapi → World → ℕ → Flow Settings → Option Outcome → Type 0
Finishes u w fuel f o =
    ((out : Outcome) × (o ≡ some out) × IsUsage usage_lines out.status out.console)
    ⊎ IsRun u w fuel f o

IsRun-Judged :
    (u : Uapi) (w : World) (fuel : ℕ) (s : Settings)
    → IsConsole s.console
    → (r : Option ℤ) → Judged u s.style w fuel r
    → IsRun u w fuel (go s) (ended (banner s.console) r)
IsRun-Judged u w fuel s h none (inl (_, e)) = absurd (cc)
IsRun-Judged u w fuel s h none (inr (inl (all, never, e))) = (s, refl, h, inr (refl, all, never))
IsRun-Judged u w fuel s h none (inr (inr (_, _, (_, _, _, e, _)))) = absurd (cc)
IsRun-Judged u w fuel s h (some r) j =
    (s, refl, h, inl (finish r (banner s.console), refl, j, refl))

module _ (u : Uapi) (w : World) (fuel : ℕ) (enough : max_wake_iters + thread_max < fuel)
    (blocks : AllBlocked w.waker fuel) (locks : (i : ℕ) → w.waker.locks i ≡ true) where
  after_options_lem :
      (f : Flow Settings)
      → Ends HasConsole (IsUsage usage_lines) f
      → Finishes u w fuel f (after_options f (run_test u w fuel))
  after_options_lem (exit r c) h = inl (record { status = r; console = c }, refl, h)
  after_options_lem (go s) h = inr (
      IsRun-Judged u w fuel s h (unit_test u s.style w fuel)
        (unit_test_judges u s.style w fuel enough blocks (λ _. locks)))

  -- With fuel for more than MAX_WAKE_ITERS + THREAD_MAX rounds, if one of the first `fuel` reads of the
  -- waker finds all waiters blocked and each of its calls of FUTEX_LOCK_PI returns: on all arguments
  -- `main` ends with the usage as its last output and status 0 or 1; or it ends with the result of the test for the style that the options have left as the exit
  -- status, judged as `unit_test` is, and with the report of that status as the last line printed, after a
  -- banner, where the options have left a verbosity in 0 to VMAX and labels of one kind; or it never ends,
  -- and then all threads could be made and a waiter, or the blocker of a style that has one, never ends.
  pub main_ends :
      (os : List Opt) → Finishes u w fuel (getopt_loop switch os defaults) (main u w fuel os)
  unfolding main
  main_ends os = after_options_lem (getopt_loop switch os defaults) (
      getopt_loop-Ends HasConsole (IsUsage usage_lines) switch switch-Ends os defaults
        fresh-IsConsole)
