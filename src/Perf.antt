-- ===== src/Perf.antt =====
-- performance/futex_wait.c: the options and `main`, and the course that `locktest` of performance/harness.h
-- takes in its calling thread, with what it prints.
pub mod Reports
mod Tests
use futextest.Common.{
  ℕ, zero, suc, Bool, List, Option, none, some, if◌then◌else◌, ◌==◌, ◌/◌, true, ◌∷◌, [],
}
use futextest.Common.Int.{ℤ, pos, negsuc, sub_ℕ, quot}
use futextest.Logging.{
  Console, fresh, print, usage, title, log_color, log_verbosity, error, info, print_result,
  ret_pass, ret_error,
}
use futextest.Getopt.{Opt, Flow, go, exit, getopt_loop, atoi}
use futextest.Functional.{Outcome}
use Prim.Native.String.{String}

-- The globals that the options set.
pub record Settings : Type 0 where
  pub console : Console
  pub threads : ℤ
  pub iterations : ℤ

abbrev pub defaults : Settings
defaults = record { console = fresh; threads = pos 256; iterations = pos 100000000 }

abbrev pub usage_lines : List String
usage_lines =
    "Usage: %s" ∷ "  -c\tUse color" ∷ "  -h\tDisplay this help message"
    ∷ "  -i I\tNumber of iterations (default: %d)" ∷ "  -n N\tNumber of threads (default: %d)"
    ∷ "  -v L\tVerbosity level: %d=QUIET %d=CRITICAL %d=INFO" ∷ []

unfoldable pub switch : Opt → Settings → Flow Settings
unfolding atoi log_color log_verbosity
switch o s =
    if o.code == b'c'
    then go (record s { console = log_color true s.console })
    else if o.code == b'h'
    then exit (pos 0) (print (usage usage_lines) s.console)
    else if o.code == b'i'
    then go (record s { iterations = atoi o.optarg })
    else if o.code == b'n'
    then go (record s { threads = atoi o.optarg })
    else if o.code == b'v'
    then go (record s { console = log_verbosity (atoi o.optarg) s.console })
    else exit (pos 1) (print (usage usage_lines) s.console)

-- Whether the i-th `pthread_create` gives a thread, and `errno` after the one that does not.
pub record World : Type 0 where
  pub creates : ℕ → Bool
  pub errno : ℤ

-- `locktest` makes all threads, which do `loops` rounds each, or it aborts when it has made `i`.
pub data Course : Type 0 where
  complete : ℤ → Course
  aborted : ℕ → Course

-- `for (i = 0; i < threads; i++) if (pthread_create(...))`, with the number of threads left: the first
-- index without a thread
unfoldable pub create : World → ℕ → ℕ → Option ℕ
create w i zero = none
create w i (suc left) = let rest = create w (suc i) left in if w.creates i then rest else some i

-- `none` where C gives the code no meaning: `while (loops--)` takes a negative number of loops below
-- INT_MIN.
abbrev pub course_of : ℤ → Option ℕ → Option Course
course_of (pos loops) none = some (complete (pos loops))
course_of (negsuc _) none = none
course_of loops (some i) = some (aborted i)

-- `none` also for a division by 0 or an array of a negative size.
unfoldable pub course : World → ℤ → ℤ → Option Course
unfolding create
course w iterations (pos zero) = none
course w iterations (pos (suc n)) = course_of (quot iterations (suc n)) (create w 0 (suc n))
course w iterations (negsuc n) = none

-- What `locktest` prints, and what it returns.
abbrev pub report : World → Console → Course → Outcome
report w c (complete loops) = record {
  status = ret_pass;
  console =
      print (title "Result: %.0f Kiter/s")
        (info "%.2fs user, %.2fs system, %.2fs wall, %.2f cores" c);
}
report w c (aborted i) = record {
  status = ret_error;
  console = print_result ret_error (error "pthread_create" w.errno c);
}

abbrev pub banner : Console → Console
banner c =
    print (title "\tArguments: iterations=%d threads=%d")
      (print (title "%s: Measure FUTEX_WAIT operations per second") c)

abbrev pub reported : World → Console → Option Course → Option Outcome
reported w c none = none
reported w c (some r) = some (report w c r)

abbrev pub run_test : World → Settings → Option Outcome
run_test w s = reported w (banner s.console) (course w s.iterations s.threads)

abbrev pub after_options : Flow Settings → (Settings → Option Outcome) → Option Outcome
after_options (go s) rest = rest s
after_options (exit r c) rest = some (record { status = r; console = c })

unfoldable pub main : World → List Opt → Option Outcome
unfolding getopt_loop switch course
main w os = after_options (getopt_loop switch os defaults) (run_test w)
