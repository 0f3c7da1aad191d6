-- ===== src/Functional/Report.antt =====
-- How the programs under functional/ judge the kernel: which replies pass, and what they report.
use futextest.Common.{
  ℕ, ◌≡◌, ◌≢◌, ◌⊎◌, inl, inr, refl, arith, Bool, true, Option, none, some, if◌then◌else◌, ◌||◌,
  ◌&&◌, not, ◌<◌, Bool-cases,
}
use futextest.Common.Int.{ℤ, pos, negsuc, ltb_ℤ, eqb_ℤ, eqb_lem}
use futextest.Logging.{Console, print_result, ret_pass, ret_error, ret_fail, info, print, title}
use futextest.Syscall.{Uapi, Args, Timespec, futex_wait}
use futextest.Functional.{Futex, Reply, Outcome, ewouldblock, etimedout, einval, f1, finish}
use futextest.Syscall.Decode.{decode, issue, request, IsLinux, wait, decode-issue}
use mathlib.Core.Bool.{true}
use futextest.Functional.WaitTimeout
use futextest.Functional.WaitWouldblock
use futextest.Functional.MismatchedOps
use futextest.Functional.UninitializedHeap

-- The last line printed is the result of the exit status.
abbrev pub IsReported : Outcome → Type 0
IsReported o = (c : Console) × (o.console ≡ print_result o.status c)

-- What a test makes of one reply: it passes if the call failed with the errno, else it fails.
abbrev pub Judges : ℤ → Reply → Outcome → Type 0
Judges wanted r o =
    (((o.status ≡ ret_pass) × (r.res ≢ pos 0) × (r.errno ≡ wanted))
      ⊎ ((o.status ≡ ret_fail) × ((r.res ≡ pos 0) ⊎ (r.errno ≢ wanted))))
    × IsReported o

judge-Judges :
    (wanted : ℤ) (r : Reply) (failed passed : Console)
    → Judges wanted r (
        if eqb_ℤ r.res (pos 0) || not (eqb_ℤ r.errno wanted)
        then finish ret_fail failed
        else finish ret_pass passed)
judge-Judges wanted r failed passed = elim (eqb_lem r.res (pos 0)) [
  | inl (e, z) ↦ rw e (inr (refl, inl z), (failed, refl))
  | inr (e, nz) ↦ elim (eqb_lem r.errno wanted) [
    | inl (f, same) ↦ rw (e, f) (inl (refl, nz, same), (passed, refl))
    | inr (f, other) ↦ rw (e, f) (inr (refl, inr other), (failed, refl))
  ]
]

-- With the op codes of <linux/futex.h>, the timeout test makes a FUTEX_WAIT on f1, private to the process, that expects the word's value 0 with
-- the timeout asked for. It passes exactly when that call fails with ETIMEDOUT; otherwise it fails, and it
-- reports its status.
pub wait_timeout-Judges :
    (u : Uapi) (futex : Futex) (s : WaitTimeout.Settings)
    → IsLinux u
    → (a : Args) × (decode a
        ≡ some
            (request f1 true (wait 0 (some (record { tv_sec = pos 0; tv_nsec = s.timeout_ns })))))
      × Judges etimedout (futex a) (WaitTimeout.run_test u futex s)
unfolding WaitTimeout.run_test issue
wait_timeout-Judges u futex s linux =
    let t : Timespec = record { tv_sec = pos 0; tv_nsec = s.timeout_ns } in
    (
      WaitTimeout.call u s.timeout_ns,
      decode-issue u linux (request f1 true (wait 0 (some t))),
      judge-Judges etimedout _ _ _,
    )

-- With the op codes of <linux/futex.h>, the wouldblock test makes a FUTEX_WAIT on f1, private to the process, that expects 1 where the word holds
-- 0, with a timeout of 100000 ns. It passes exactly when that call fails with EWOULDBLOCK; otherwise it
-- fails, and it reports its status.
pub wait_wouldblock-Judges :
    (u : Uapi) (futex : Futex) (c : Console)
    → IsLinux u
    → (a : Args) × (decode a
        ≡ some (request f1 true (wait 1 (some (record { tv_sec = pos 0; tv_nsec = pos 100000 })))))
      × Judges ewouldblock (futex a) (WaitWouldblock.run_test u futex c)
unfolding WaitWouldblock.run_test issue
wait_wouldblock-Judges u futex c linux =
    let t : Timespec = record { tv_sec = pos 0; tv_nsec = pos 100000 } in
    (
      WaitWouldblock.call u,
      decode-issue u linux (request f1 true (wait 1 (some t))),
      judge-Judges ewouldblock _ _ _,
    )

-- The verdict of the mismatched-operations test on the replies to the requeue, the wakeup and the
-- child's wait, when the child could be created.
abbrev pub mismatched_verdict : Reply → Reply → Reply → ℤ
mismatched_verdict r w child =
    if ltb_ℤ r.res (pos 0) && eqb_ℤ r.errno einval && eqb_ℤ w.res (pos 1)
    then (if ltb_ℤ child.res (pos 0) then MismatchedOps.negate child.errno else child.res)
    else if ltb_ℤ (pos 0) r.res
    then ret_fail
    else ret_error

abbrev is_mismatch : Reply → Reply → Bool
is_mismatch r w = ltb_ℤ r.res (pos 0) && eqb_ℤ r.errno einval && eqb_ℤ w.res (pos 1)

requeue_ret :
    (u : Uapi) (futex : Futex) (c : Console)
    → (MismatchedOps.requeue u futex c).0 ≡ (
        if is_mismatch (futex (MismatchedOps.requeue_call u)) (futex (MismatchedOps.wake_call u))
        then ret_pass
        else if ltb_ℤ (pos 0) (futex (MismatchedOps.requeue_call u)).res
        then ret_fail
        else ret_error)
unfolding MismatchedOps.requeue MismatchedOps.wake_child
requeue_ret u futex c = ground arith

-- What becomes of the mismatched-operations test when the child's wait has this reply: nothing is reported
-- if it never returns, else the verdict is.
abbrev pub MismatchJudged : Reply → Reply → Option Reply → Option Outcome → Type 0
MismatchJudged r w none out = out ≡ none
MismatchJudged r w (some child) out =
    (o : Outcome) × (out ≡ some o) × (o.status ≡ mismatched_verdict r w child) × IsReported o

joined_lem :
    (u : Uapi) (futex : Futex) (reply : Option Reply) (c c' : Console)
    → let r = futex (MismatchedOps.requeue_call u) in
      let w = futex (MismatchedOps.wake_call u) in
      MismatchJudged r w reply
        (MismatchedOps.joined (MismatchedOps.requeue u futex c).0 (MismatchedOps.replied c' reply))
joined_lem u futex none c c' = refl
joined_lem u futex (some r) c c' = (_, refl, rw (requeue_ret u futex c) (ground arith), (_, refl))

-- If the child could be made: where its FUTEX_WAIT on f1, which has no timeout, never returns, the test
-- joins it for ever and reports nothing. Else the test reports the child's own result
-- if the requeue fails with EINVAL and one thread is then woken; it fails if the requeue moved a thread,
-- and every other reply is an error.
pub mismatched_ops_judges :
    (u : Uapi) (futex : Futex) (waits : Args → Option Reply) (errno : ℤ) (c : Console)
    → MismatchJudged
        (futex (MismatchedOps.requeue_call u))
        (futex (MismatchedOps.wake_call u))
        (waits (futex_wait u f1 0 none u.futex_private_flag))
        (MismatchedOps.run_test u futex waits (pos 0) errno c)
unfolding MismatchedOps.run_test MismatchedOps.blocking_child
mismatched_ops_judges u futex waits errno c =
    let start = print (title "%s: Detect mismatched requeue_pi operations") c in
    joined_lem u futex (waits (futex_wait u f1 0 none u.futex_private_flag)) start
      (MismatchedOps.requeue u futex start).1

-- A call that failed with another errno is an error only once the child has recorded it.
abbrev pub error_at : UninitializedHeap.Stage → ℤ
error_at UninitializedHeap.cleared = ret_pass
error_at UninitializedHeap.reported = ret_pass
error_at UninitializedHeap.recorded = ret_error

abbrev pub heap_verdict : Option Reply → UninitializedHeap.Stage → ℤ
heap_verdict none stage = ret_fail
heap_verdict (some r) stage =
    if eqb_ℤ r.res (pos 0) || eqb_ℤ r.errno ewouldblock then ret_pass else error_at stage

heap_judge :
    (o : Option Reply) (stage : UninitializedHeap.Stage) (c : Console)
    → let out = UninitializedHeap.judge (UninitializedHeap.wait_thread o stage c) in
      (out.status ≡ heap_verdict o stage) × IsReported out
unfolding UninitializedHeap.wait_thread
heap_judge none stage c = (refl, (_, refl))
heap_judge (some r) stage c = elim (Bool-cases (eqb_ℤ r.res (pos 0))) [
  | inl a ↦ rw a (refl, (c, refl))
  | inr a ↦ elim (Bool-cases (eqb_ℤ r.errno ewouldblock)) [
    | inl b ↦ rw (a, b) (refl, (c, refl))
    | inr b ↦ rw (a, b) (failed_at stage, (_, refl))
  ]
]
  where
    failed_at : (stage : UninitializedHeap.Stage) → UninitializedHeap.ret_at stage ≡ error_at stage
    failed_at UninitializedHeap.cleared = refl
    failed_at UninitializedHeap.reported = refl
    failed_at UninitializedHeap.recorded = refl

-- Where the page could be mapped and the child made, the heap test fails if the child is still in the kernel when main looks. If its FUTEX_WAIT has returned,
-- the test passes when it returned 0 or failed with EWOULDBLOCK. Any other error of the call is an error of
-- the test when the child has recorded it; but if main looks after the child has cleared `child_blocked`
-- and before it has set `child_ret`, the test passes.
pub uninitialized_heap_judges :
    (u : Uapi) (w : UninitializedHeap.World) (buf : ℕ) (c : Console)
    → w.page ≡ some buf
    → w.created ≡ pos 0
    → let o = UninitializedHeap.run_test u w c in
      (o.status ≡ heap_verdict (w.futex (UninitializedHeap.call u buf)) w.stage) × IsReported o
unfolding UninitializedHeap.run_test
uninitialized_heap_judges u w buf c e z =
    rw (e, UninitializedHeap.run_test, z)
      (heap_judge (w.futex (UninitializedHeap.call u buf)) w.stage (
        info "waiting %dus for child to return"
          (print (title "%s: Test the uninitialized futex value in FUTEX_WAIT") c)))

-- A kernel that answers FUTEX_WAIT on a word that holds 0, which nobody wakes, as futex(2) documents.
pub record IsDocumented (futex : Futex) : Type 0 where
  pub unequal :
      (a : Args) (p : Bool) (v : ℕ) (t : Option Timespec)
      → decode a ≡ some (request f1 p (wait v t))
      → 0 < v
      → futex a ≡ record { res = negsuc 0; errno = ewouldblock }
  pub expires :
      (a : Args) (p : Bool) (t : Timespec)
      → decode a ≡ some (request f1 p (wait 0 (some t)))
      → futex a ≡ record { res = negsuc 0; errno = etimedout }

-- On a kernel that behaves as documented the timeout test and the wouldblock test pass, whatever the
-- options were.
documented_passes :
    (u : Uapi) (futex : Futex) (s : WaitTimeout.Settings) (c : Console)
    → IsLinux u
    → IsDocumented futex
    → ((WaitTimeout.run_test u futex s).status ≡ ret_pass)
      × ((WaitWouldblock.run_test u futex c).status ≡ ret_pass)
unfolding WaitTimeout.run_test WaitWouldblock.run_test issue
documented_passes u futex s c linux doc =
    let t : Timespec = record { tv_sec = pos 0; tv_nsec = s.timeout_ns } in
    let t' : Timespec = record { tv_sec = pos 0; tv_nsec = pos 100000 } in
    (
      rw
          (doc.expires (WaitTimeout.call u s.timeout_ns) true t
            (decode-issue u linux (request f1 true (wait 0 (some t)))))
          refl,
      rw
          (doc.unequal (WaitWouldblock.call u) true 1 (some t')
            (decode-issue u linux (request f1 true (wait 1 (some t')))) (omega arith))
          refl,
    )
