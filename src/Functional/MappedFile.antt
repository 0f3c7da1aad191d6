-- ===== src/Functional/MappedFile.antt =====
-- functional/futex_wait_private_mapped_file.c. What the waiter prints stands at the join, unless it
-- ends the process before the wakeup (`early`).
use futextest.Common.{ℕ, Bool, true, false, ◌&&◌, not, List, some, if◌then◌else◌}
use futextest.Common.Int.{ℤ, pos, ltb_ℤ, eqb_ℤ}
use futextest.Logging.{
  Console, title, fresh, print, info, error, fail, print_result, ret_pass, ret_error, ret_fail,
}
use futextest.Getopt.{Opt, Flow, go, exit, getopt_loop, switch_chv}
use futextest.Syscall.{Uapi, Args, futex_wait, futex_wake}
use futextest.Functional.{Futex, Reply, Outcome, finish, after_options, ewouldblock, etimedout}

-- The address of `val`.
abbrev val : ℕ
val = 1

abbrev pub wait_call : Uapi → Args
wait_call u = futex_wait u val 1 (some (record { tv_sec = pos 5; tv_nsec = pos 0 })) 0

abbrev pub wake_call : Uapi → Args
wake_call u = futex_wake u val (pos 1) 0

abbrev pub failed : Reply → Bool
failed r = not (eqb_ℤ r.res (pos 0))

unfoldable pub thr_futex_wait : Reply → Console → Flow Console
unfolding info error fail print_result
thr_futex_wait r s =
    let c = info "futex wait" s in
    if failed r && (not (eqb_ℤ r.errno ewouldblock) && not (eqb_ℤ r.errno etimedout))
    then exit ret_error (print_result ret_error (error "futex error." r.errno c))
    else go (
        info "futex_wait: ret = %d, errno = %d"
          (if failed r && eqb_ℤ r.errno etimedout then fail "waiter timedout" c else c))

-- The thread, if pthread_create has made one.
abbrev pub thread : ℤ → Reply → Console → Flow Console
thread created r = if eqb_ℤ created (pos 0) then thr_futex_wait r else go

-- `pthread_join(thr, NULL)`, then the result.
abbrev pub join : ℤ → Flow Console → Outcome
join ret (go c) = finish ret c
join ret (exit r c) = record { status = r; console = c }

abbrev pub wake_result : Reply → Console → ℤ × Console
wake_result w c =
    if eqb_ℤ w.res (pos 1)
    then (ret_pass, c)
    else (ret_fail, fail "FUTEX_WAKE didn't find the waiting thread." c)

-- With `ret` as pthread_create returned it.
abbrev pub woken : ℤ → ℤ × Console → (Console → Flow Console) → Outcome
woken created (ret, c) child =
    join (if eqb_ℤ ret ret_pass then created else ret) (child (info "join" c))

abbrev pub is_exit : Flow Console → Bool
is_exit (go _) = false
is_exit (exit _ _) = true

-- `main` from the wait for the wakeup on, with the thread that it made.
abbrev pub rest_of_main :
    Reply → (created : ℤ) → (early : Bool) → (Console → Flow Console) → Console → Outcome
rest_of_main w created early child c =
    if early && is_exit (child c)
    then join created (child c)
    else woken created (wake_result w (info "futex_wake %d" c)) child

unfoldable pub run_test : Uapi → Futex → (created : ℤ) → (early : Bool) → Console → Outcome
unfolding info fail thr_futex_wait
run_test u futex created early s =
    let c = print (title "%s: Test the futex value of private file mappings in FUTEX_WAIT") s in
    if ltb_ℤ created (pos 0)
    then finish ret_error (print (title "pthread_create error") c)
    else rest_of_main (futex (wake_call u)) created early (thread created (futex (wait_call u)))
        (info "wait a while" c)

unfoldable pub main : Uapi → Futex → (created : ℤ) → (early : Bool) → List Opt → Outcome
unfolding run_test getopt_loop switch_chv
main u futex created early os =
    after_options (getopt_loop switch_chv os fresh) (run_test u futex created early)
