-- ===== src/Functional/WaitWouldblock.antt =====
-- functional/futex_wait_wouldblock.c
use futextest.Common.{◌+◌, ◌%◌, ◌||◌, not, List, some, if◌then◌else◌}
use futextest.Common.Int.{pos, eqb_ℤ}
use futextest.Word.{u32_mod}
use futextest.Logging.{Console, title, fresh, print, info, fail, ret_pass, ret_fail}
use futextest.Getopt.{Opt, getopt_loop, switch_chv}
use futextest.Syscall.{Uapi, Args, futex_wait}
use futextest.Futex.{futex_initializer}
use futextest.Functional.{Futex, Reply, Outcome, finish, after_options, ewouldblock, f1}

-- The call under test: the word holds 0, and 1 is expected, with the timeout of 100000 ns.
abbrev pub call : Uapi → Args
call u =
    futex_wait u f1 ((futex_initializer + 1) % u32_mod)
      (some (record { tv_sec = pos 0; tv_nsec = pos 100000 })) u.futex_private_flag

abbrev pub judge : Reply → Console → Outcome
judge r c =
    if eqb_ℤ r.res (pos 0) || not (eqb_ℤ r.errno ewouldblock)
    then finish ret_fail (fail "futex_wait returned: %d %s" c)
    else finish ret_pass c

unfoldable pub run_test : Uapi → Futex → Console → Outcome
unfolding info fail
run_test u futex s =
    let c = print (title "%s: Test the unexpected futex value in FUTEX_WAIT") s in
    judge (futex (call u)) (info "Calling futex_wait on f1: %u @ %p with val=%u" c)

-- The option string allows -t, which the switch leaves to its default.
unfoldable pub main : Uapi → Futex → List Opt → Outcome
unfolding run_test getopt_loop switch_chv
main u futex os = after_options (getopt_loop switch_chv os fresh) (run_test u futex)
