-- ===== src/Requeue/Options.antt =====
-- functional/futex_requeue_pi.c: the options and `main`.
use futextest.Common.{ℕ, true, false, List, Option, none, some, if◌then◌else◌, ◌==◌, ◌∷◌, []}
use futextest.Common.Int.{ℤ, pos}
use futextest.Logging.{Console, fresh, print, usage, title, log_color, log_verbosity}
use futextest.Getopt.{Opt, Flow, go, exit, getopt_loop, atoi}
use futextest.Syscall.{Uapi}
use futextest.Functional.{Outcome, finish}
use futextest.Requeue.UnitTest.{Style, World, unit_test}
use Prim.Native.String.{String}

-- The globals that the options set.
pub record Settings : Type 0 where
  pub console : Console
  pub style : Style

abbrev pub defaults : Settings
defaults = record {
  console = fresh;
  style = record { broadcast = false; lock = false; owner = false; timeout_ns = pos 0 };
}

abbrev pub usage_lines : List String
usage_lines =
    "Usage: %s" ∷ "  -b\tBroadcast wakeup (all waiters)" ∷ "  -c\tUse color"
    ∷ "  -h\tDisplay this help message" ∷ "  -l\tLock the pi futex across requeue"
    ∷ "  -o\tUse a third party pi futex owner during requeue (cancels -l)"
    ∷ "  -t N\tTimeout in nanoseconds (default: 0)"
    ∷ "  -v L\tVerbosity level: %d=QUIET %d=CRITICAL %d=INFO" ∷ []

unfoldable pub switch : Opt → Settings → Flow Settings
unfolding atoi log_color log_verbosity
switch o s =
    if o.code == b'b'
    then go (record s { style = record s.style { broadcast = true } })
    else if o.code == b'c'
    then go (record s { console = log_color true s.console })
    else if o.code == b'h'
    then exit (pos 0) (print (usage usage_lines) s.console)
    else if o.code == b'l'
    then go (record s { style = record s.style { lock = true } })
    else if o.code == b'o'
    then go (record s { style = record s.style { owner = true; lock = false } })
    else if o.code == b't'
    then go (record s { style = record s.style { timeout_ns = atoi o.optarg } })
    else if o.code == b'v'
    then go (record s { console = log_verbosity (atoi o.optarg) s.console })
    else exit (pos 1) (print (usage usage_lines) s.console)

abbrev pub ended : Console → Option ℤ → Option Outcome
ended c none = none
ended c (some ret) = some (finish ret c)

abbrev pub banner : Console → Console
banner c =
    print (title "\tArguments: broadcast=%d locked=%d owner=%d timeout=%ldns")
      (print (title "%s: Test requeue functionality") c)

abbrev pub after_options : Flow Settings → (Settings → Option Outcome) → Option Outcome
after_options (go s) rest = rest s
after_options (exit r c) rest = some (record { status = r; console = c })

abbrev pub run_test : Uapi → (World) → ℕ → Settings → Option Outcome
run_test u w fuel s = ended (banner s.console) (unit_test u s.style w fuel)

-- With fuel for the waker's loop.
unfoldable pub main : Uapi → World → ℕ → List Opt → Option Outcome
unfolding getopt_loop switch unit_test
main u w fuel os = after_options (getopt_loop switch os defaults) (run_test u w fuel)
