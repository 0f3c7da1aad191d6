-- ===== src/Functional/UninitializedHeap.antt =====
-- functional/futex_wait_uninitialized_heap.c. The reply of the child's futex_wait is `none` while the
-- child is still in the kernel when `main` looks, five seconds later. A child whose call has returned
-- clears `child_blocked` first and sets `child_ret` last; `main` may look in between.
use futextest.Common.{ℕ, Bool, true, false, ◌&&◌, not, List, Option, none, some, if◌then◌else◌}
use futextest.Common.Int.{ℤ, pos, eqb_ℤ}
use futextest.Logging.{
  Console, title, fresh, print, info, error, fail, ret_pass, ret_error, ret_fail,
}
use futextest.Getopt.{Opt, getopt_loop, switch_chv}
use futextest.Syscall.{Uapi, Args, futex_wait}
use futextest.Functional.{Reply, Outcome, finish, after_options, ewouldblock}

-- The globals `child_blocked` and `child_ret`, and the console.
pub record Child : Type 0 where
  pub child_blocked : Bool
  pub child_ret : ℤ
  pub console : Console

-- The call under test: the word of the fresh page is 0, and 1 is expected, without a timeout.
abbrev pub call : Uapi → (buf : ℕ) → Args
call u buf = futex_wait u buf 1 none 0

-- How far a child has come that has cleared `child_blocked`: that, the message, or all of it.
pub data Stage : Type 0 where
  cleared reported recorded : Stage

abbrev message_at : Stage → ℤ → Console → Console
message_at cleared errno c = c
message_at reported errno c = error "futex failure" errno c
message_at recorded errno c = error "futex failure" errno c

abbrev pub ret_at : Stage → ℤ
ret_at cleared = ret_pass
ret_at reported = ret_pass
ret_at recorded = ret_error

-- What the child has left when `main` looks.
unfoldable pub wait_thread : Option Reply → Stage → Console → Child
unfolding error
wait_thread none stage c = record { child_blocked = true; child_ret = ret_pass; console = c }
wait_thread (some r) stage c =
    if not (eqb_ℤ r.res (pos 0)) && not (eqb_ℤ r.errno ewouldblock)
    then record {
      child_blocked = false;
      child_ret = ret_at stage;
      console = message_at stage r.errno c;
    }
    else record { child_blocked = false; child_ret = ret_pass; console = c }

abbrev pub judge : Child → Outcome
judge t =
    if t.child_blocked
    then finish ret_fail (fail "child blocked in kernel" t.console)
    else finish t.child_ret t.console

-- What the C library's calls give: mmap's page, or none; what pthread_create returned; `errno`. And
-- the stage of the child when `main` looks.
pub record World : Type 0 where
  pub futex : Args → Option Reply
  pub stage : Stage
  pub page : Option ℕ
  pub created : ℤ
  pub errno : ℤ

abbrev created_case : Uapi → World → ℕ → Console → Outcome
created_case u w buf c =
    if eqb_ℤ w.created (pos 0)
    then judge
        (wait_thread (w.futex (call u buf)) w.stage (info "waiting %dus for child to return" c))
    else finish ret_error (error "pthread_create" w.errno c)

unfoldable pub run_test : Uapi → World → Console → Outcome
unfolding info error fail wait_thread
run_test u w c = elim w.page [
  | none ↦ record { status = pos 1; console = error "mmap" w.errno c }
  | some buf ↦
      created_case u w buf (print (title "%s: Test the uninitialized futex value in FUTEX_WAIT") c)
]

unfoldable pub main : Uapi → World → List Opt → Outcome
unfolding run_test getopt_loop switch_chv
main u w os = after_options (getopt_loop switch_chv os fresh) (run_test u w)
