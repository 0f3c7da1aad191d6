-- ===== src/Functional/Tests.antt =====
-- The judgements of the programs under functional/ at concrete kernels.
use futextest.Functional.MismatchedOps
use futextest.Functional.MappedFile
use futextest.Common.{ℕ, ◌≡◌, ◌<◌, refl, arith, some, none, zero, suc, Option, Bool, true, false}
use futextest.Common.Int.{pos, negsuc}
use futextest.Logging.{fresh}
use futextest.Syscall.{Args, Timespec, futex_wait}
use futextest.Syscall.Decode.{
  IsLinux, Request, linux, decode, decode-issue, issue, request, wait, cmp_requeue,
}
use futextest.Functional.{Futex, Reply, f1, ewouldblock, etimedout, einval}
use futextest.Functional.WaitTimeout
use futextest.Functional.WaitWouldblock
use futextest.Functional.UninitializedHeap
use futextest.Functional.Report.{
  IsDocumented, IsReported, uninitialized_heap_judges, Judges, MismatchJudged, heap_verdict,
  wait_timeout-Judges, wait_wouldblock-Judges, mismatched_ops_judges,
}
use futextest.Functional.MappedReport.{mapped_verdict, mapped_file_judges}

linux-IsLinux : IsLinux linux
linux-IsLinux = omega arith

-- A kernel that reads the request: FUTEX_WAIT on words that hold 0, and no other operation.
abbrev answer : Request → Reply
answer r = elim r.operation [
  | wait zero t ↦ record { res = negsuc 0; errno = etimedout }
  | wait (suc v) t ↦ record { res = negsuc 0; errno = ewouldblock }
  | _ ↦ record { res = negsuc 0; errno = einval }
]

abbrev reply_to : Option Request → Reply
reply_to none = record { res = negsuc 0; errno = einval }
reply_to (some r) = answer r

abbrev zero_words : Futex
zero_words a = reply_to (decode a)

positive_wait :
    (p : Bool) (v : ℕ) (t : Option Timespec)
    → 0 < v
    → answer (request f1 p (wait v t)) ≡ record { res = negsuc 0; errno = ewouldblock }
positive_wait p zero t h = absurd (omega arith)
positive_wait p (suc v) t h = refl

zero_words-IsDocumented : IsDocumented zero_words
zero_words-IsDocumented = record {
  unequal = λ a p v t e h. rw e (positive_wait p v t h);
  expires = λ a p t e. rw e refl;
}

-- A wakeup that found nobody, as a kernel that never blocks would answer.
abbrev never_blocks : Futex
never_blocks _ = record { res = pos 0; errno = pos 0 }

wait_timeout-Judges_example :
    (a : Args) × (decode a
      ≡ some (request 1 true (wait 0 (some (record { tv_sec = pos 0; tv_nsec = pos 5000 })))))
    × Judges etimedout
        (zero_words a)
        (WaitTimeout.run_test linux zero_words (record { console = fresh; timeout_ns = pos 5000 }))
wait_timeout-Judges_example =
    wait_timeout-Judges linux zero_words (record { console = fresh; timeout_ns = pos 5000 })
      linux-IsLinux

wait_wouldblock-Judges_example :
    (a : Args) × (decode a
      ≡ some (request 1 true (wait 1 (some (record { tv_sec = pos 0; tv_nsec = pos 100000 })))))
    × Judges ewouldblock (never_blocks a) (WaitWouldblock.run_test linux never_blocks fresh)
wait_wouldblock-Judges_example = wait_wouldblock-Judges linux never_blocks fresh linux-IsLinux

-- The kernel requeues the child instead of refusing, and the child never comes back.
abbrev requeues_one : Futex
requeues_one _ = record { res = pos 1; errno = pos 0 }

abbrev hung : Args → Option Reply
hung _ = none

mismatched_hangs : MismatchedOps.run_test linux requeues_one hung (pos 0) (pos 0) fresh ≡ none
unfolding MismatchedOps.run_test
mismatched_hangs = refl

abbrev replies : Args → Option Reply
replies a = some (zero_words a)

mismatched_ops_judges_example :
    MismatchJudged
      (zero_words (MismatchedOps.requeue_call linux))
      (zero_words (MismatchedOps.wake_call linux))
      (replies (futex_wait linux f1 0 none 128))
      (MismatchedOps.run_test linux zero_words replies (pos 0) (pos 0) fresh)
mismatched_ops_judges_example = mismatched_ops_judges linux zero_words replies (pos 0) fresh

abbrev heap_world : UninitializedHeap.World
heap_world = record {
  futex = replies;
  stage = UninitializedHeap.recorded;
  page = some 4096;
  created = pos 0;
  errno = pos 0;
}

-- A call that failed with EINVAL passes if main looks before the child has set `child_ret`.
abbrev early_world : UninitializedHeap.World
early_world = record {
  futex = λ a. some (record { res = negsuc 0; errno = einval });
  stage = UninitializedHeap.cleared;
  page = some 4096;
  created = pos 0;
  errno = pos 0;
}

early_look : (UninitializedHeap.run_test linux early_world fresh).status ≡ pos 0
unfolding UninitializedHeap.run_test
early_look = refl

uninitialized_heap_judges_example :
    let o = UninitializedHeap.run_test linux heap_world fresh in
    (o.status
      ≡ heap_verdict
          (some (zero_words (UninitializedHeap.call linux 4096)))
          UninitializedHeap.recorded)
    × IsReported o
uninitialized_heap_judges_example = uninitialized_heap_judges linux heap_world 4096 fresh refl refl

mapped_file_judges_example :
    let o = MappedFile.run_test linux zero_words (pos 0) false fresh in
    (o.status
      ≡ mapped_verdict
          (zero_words (MappedFile.wait_call linux))
          (zero_words (MappedFile.wake_call linux)))
    × IsReported o
mapped_file_judges_example = mapped_file_judges linux zero_words false fresh

decode-issue_example :
    decode (issue linux (request 4 true (cmp_requeue (pos 1) (pos 7) 8 3)))
    ≡ some (request 4 true (cmp_requeue (pos 1) (pos 7) 8 3))
decode-issue_example =
    decode-issue linux linux-IsLinux (request 4 true (cmp_requeue (pos 1) (pos 7) 8 3))
