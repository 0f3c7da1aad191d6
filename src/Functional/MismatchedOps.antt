-- ===== src/Functional/MismatchedOps.antt =====
-- functional/futex_requeue_pi_mismatched_ops.c. `created` is what pthread_create returned, and `waits`
-- the reply to the child's FUTEX_WAIT, which has no timeout: `none` if it never returns, and then the
-- program joins the child for ever and reports nothing. What the child prints stands before what main prints
-- after the join.
use futextest.Common.{List, Option, none, some, if◌then◌else◌}
use futextest.Common.Int.{ℤ, pos, ltb_ℤ, eqb_ℤ, pos_part, neg_part, sub_ℕ}
use futextest.Logging.{Console, title, fresh, print, error, fail, ret_pass, ret_error, ret_fail}
use futextest.Getopt.{Opt, Flow, go, exit, getopt_loop, switch_chv}
use futextest.Syscall.{Uapi, Args, futex_wait, futex_wake, futex_cmp_requeue_pi}
use futextest.Futex.{futex_initializer}
use futextest.Functional.{Futex, Reply, Outcome, finish, einval, f1, f2}

-- A value for a variable `ret`, with the console.
abbrev pub Ret : Type 0
Ret = ℤ × Console

abbrev pub negate : ℤ → ℤ
negate x = sub_ℕ (neg_part x) (pos_part x)

abbrev pub wait_call : Uapi → Args
wait_call u = futex_wait u f1 futex_initializer none u.futex_private_flag

-- What `blocking_child` leaves in `child_ret` after a reply.
abbrev pub replied : Console → Option Reply → Option Ret
replied c none = none
replied c (some r) =
    some
      (if ltb_ℤ r.res (pos 0) then (negate r.errno, error "futex_wait" r.errno c) else (r.res, c))

unfoldable pub blocking_child : Uapi → (waits : Args → Option Reply) → Console → Option Ret
unfolding error
blocking_child u waits c = replied c (waits (wait_call u))

abbrev pub requeue_call : Uapi → Args
requeue_call u = futex_cmp_requeue_pi u f1 futex_initializer f2 (pos 1) (pos 0) u.futex_private_flag

abbrev pub wake_call : Uapi → Args
wake_call u = futex_wake u f1 (pos 1) u.futex_private_flag

-- After EINVAL the child is woken by FUTEX_WAKE.
unfoldable pub wake_child : Reply → Console → Ret
unfolding error
wake_child w c =
    if eqb_ℤ w.res (pos 1)
    then (ret_pass, c)
    else if ltb_ℤ w.res (pos 0)
    then (ret_error, error "futex_wake" w.errno c)
    else (ret_error, error "futex_wake did not wake the child" (pos 0) c)

unfoldable pub requeue : Uapi → Futex → Console → Ret
unfolding error fail wake_child
requeue u futex c =
    let r = futex (requeue_call u) in
    if ltb_ℤ r.res (pos 0)
    then (if eqb_ℤ r.errno einval
        then wake_child (futex (wake_call u)) c
        else (ret_error, error "futex_cmp_requeue_pi" r.errno c))
    else if ltb_ℤ (pos 0) r.res
    then (ret_fail, fail "futex_cmp_requeue_pi failed to detect the mismatch" c)
    else (ret_error, error "futex_cmp_requeue_pi found no waiters" (pos 0) c)

-- `pthread_join(child, NULL); if (!ret) ret = child_ret;`
abbrev pub joined : ℤ → Option Ret → Option Outcome
joined ret none = none
joined ret (some (child_ret, c)) = some (finish (if eqb_ℤ ret (pos 0) then child_ret else ret) c)

abbrev join : Ret → (Console → Option Ret) → Option Outcome
join (ret, c) child = joined ret (child c)

unfoldable pub run_test :
    Uapi → Futex → (Args → Option Reply) → (created : ℤ) → (errno : ℤ) → Console → Option Outcome
unfolding error requeue blocking_child
run_test u futex waits created errno s =
    let c = print (title "%s: Detect mismatched requeue_pi operations") s in
    if eqb_ℤ created (pos 0)
    then join (requeue u futex c) (blocking_child u waits)
    else some (finish ret_error (error "pthread_create" errno c))

abbrev after_options : Flow Console → (Console → Option Outcome) → Option Outcome
after_options (go s) rest = rest s
after_options (exit r c) rest = some (record { status = r; console = c })

unfoldable pub main :
    Uapi → Futex → (Args → Option Reply) → (created : ℤ) → (errno : ℤ) → List Opt → Option Outcome
unfolding run_test getopt_loop switch_chv
main u futex waits created errno os =
    after_options (getopt_loop switch_chv os fresh) (run_test u futex waits created errno)
