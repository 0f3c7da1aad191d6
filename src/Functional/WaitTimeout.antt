-- ===== src/Functional/WaitTimeout.antt =====
-- functional/futex_wait_timeout.c
use futextest.Common.{◌==◌, true, ◌||◌, not, List, some, if◌then◌else◌, ◌∷◌, []}
use futextest.Common.Int.{ℤ, pos, eqb_ℤ}
use futextest.Logging.{
  Console, usage, title, fresh, print, log_color, log_verbosity, info, fail, ret_pass, ret_fail,
}
use futextest.Getopt.{Opt, Flow, go, exit, getopt_loop, atoi}
use futextest.Syscall.{Uapi, Args, futex_wait}
use futextest.Futex.{futex_initializer}
use futextest.Functional.{Futex, Reply, Outcome, finish, after_options, etimedout, f1}
use Prim.Native.String.{String}

-- The globals that the options set.
pub record Settings : Type 0 where
  pub console : Console
  pub timeout_ns : ℤ

abbrev pub defaults : Settings
defaults = record { console = fresh; timeout_ns = pos 100000 }

abbrev pub usage_lines : List String
usage_lines =
    "Usage: %s" ∷ "  -c\tUse color" ∷ "  -h\tDisplay this help message"
    ∷ "  -t N\tTimeout in nanoseconds (default: 100,000)"
    ∷ "  -v L\tVerbosity level: %d=QUIET %d=CRITICAL %d=INFO" ∷ []

unfoldable pub switch : Opt → Settings → Flow Settings
unfolding atoi log_color log_verbosity
switch o s =
    if o.code == b'c'
    then go (record s { console = log_color true s.console })
    else if o.code == b'h'
    then exit (pos 0) (print (usage usage_lines) s.console)
    else if o.code == b't'
    then go (record s { timeout_ns = atoi o.optarg })
    else if o.code == b'v'
    then go (record s { console = log_verbosity (atoi o.optarg) s.console })
    else exit (pos 1) (print (usage usage_lines) s.console)

-- The call under test: the word holds 0, and 0 is expected.
abbrev pub call : Uapi → ℤ → Args
call u timeout_ns =
    futex_wait u f1 futex_initializer (some (record { tv_sec = pos 0; tv_nsec = timeout_ns }))
      u.futex_private_flag

abbrev pub judge : Reply → Console → Outcome
judge r c =
    if eqb_ℤ r.res (pos 0) || not (eqb_ℤ r.errno etimedout)
    then finish ret_fail (fail "futex_wait returned %d" c)
    else finish ret_pass c

unfoldable pub run_test : Uapi → Futex → Settings → Outcome
unfolding info fail
run_test u futex s =
    let c =
      print (title "\tArguments: timeout=%ldns")
        (print (title "%s: Block on a futex and wait for timeout") s.console) in
    judge (futex (call u s.timeout_ns)) (info "Calling futex_wait on f1: %u @ %p" c)

unfoldable pub main : Uapi → Futex → List Opt → Outcome
unfolding run_test getopt_loop switch
main u futex os = after_options (getopt_loop switch os defaults) (run_test u futex)
