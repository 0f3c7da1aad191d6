-- ===== src/Requeue/System/Counting.antt =====
-- functional/futex_requeue_pi.c: the two counters and the task count after a step of each thread.
use futextest.Common.{ℕ, ◌<◌, ◌≡◌, Bool, true, arith, subst, update, sym}
use futextest.Common.Int.{pos}
use futextest.Pi.{Thread, running, System, PiKernel, IsPi, Shared, Move}
use futextest.Requeue.System.{Pc, threads, Loop, rechecks}
use futextest.Requeue.System.Codes.{IsWaiter, IsWaker}
use futextest.Requeue.System.Rules.{Own}
use futextest.Requeue.System.Blocker.{IsBlocker, Move-IsBlocker}
use futextest.Requeue.System.Moves.{Move-Went}
use futextest.Requeue.System.Wakers.{Numbers, Move-IsWaker, IsWaker-more}
use futextest.Requeue.System.Owner.{updated, away, here}
use futextest.Requeue.System.Counts.{
  left_f1, Counted, past_all, left_more, woken_more, requeue_moved, others_woken,
}

module _ (k : PiKernel) (law : IsPi k) (n : ℕ) (broadcast safe lock_f2 timed : Bool)
    (small : n < 2147483648) where
  pub waiter_step :
      (s : System Pc) (i : ℕ) (h : Shared) (u : Thread Pc)
      → i < n
      → Move k (threads n broadcast lock_f2 timed) i s.shared (s.thread i) h u
      → Counted broadcast safe n timed s
      → Counted broadcast safe n timed (record { shared = h; thread = update s.thread i u })
  waiter_step s i h u lt m c =
      let went = Move-Went n broadcast lock_f2 timed m (c.waiters i lt) in
      let s' : System Pc = record { shared = h; thread = update s.thread i u } in
      record {
        waiters =
            updated (λ j t. j < n → IsWaiter timed t) s.thread i u (λ _. went.waiter)
              (λ j ne. c.waiters j);
        waker =
            subst (IsWaker broadcast safe n (left_f1 n s'))
              (sym (away s.thread i n u (ground arith)))
              (IsWaker-more n broadcast safe lock_f2 timed (left_f1 n s) (left_f1 n s') (s.thread n)
                (left_more k law n broadcast safe lock_f2 timed small s i h u m (λ _. went.leaves))
                c.waker);
        woken = woken_more k law n broadcast safe lock_f2 timed small s i h u lt went c.woken;
        spare =
            updated (λ j t. n < j → IsBlocker t) s.thread i u (λ f. absurd (omega arith))
              (λ j ne. c.spare j);
      }

  pub blocker_step :
      (s : System Pc) (i : ℕ) (h : Shared) (u : Thread Pc)
      → n < i
      → Own n broadcast lock_f2 timed s.pi i (s.thread i)
      → Move k (threads n broadcast lock_f2 timed) i s.shared (s.thread i) h u
      → Counted broadcast safe n timed s
      → Counted broadcast safe n timed (record { shared = h; thread = update s.thread i u })
  blocker_step s i h u lt own m c =
      let s' : System Pc = record { shared = h; thread = update s.thread i u } in
      let (w, same) = Move-IsBlocker n broadcast lock_f2 timed m own (c.spare i lt) in
      record {
        waiters =
            updated (λ j t. j < n → IsWaiter timed t) s.thread i u (λ f. absurd (omega arith))
              (λ j ne. c.waiters j);
        waker =
            subst (IsWaker broadcast safe n (left_f1 n s'))
              (sym (away s.thread i n u (ground arith)))
              (IsWaker-more n broadcast safe lock_f2 timed (left_f1 n s) (left_f1 n s') (s.thread n)
                (left_more k law n broadcast safe lock_f2 timed small s i h u m
                  (λ f. absurd (omega arith)))
                c.waker);
        woken =
            others_woken k law n broadcast safe lock_f2 timed small s i h u (omega arith) same
              c.woken;
        spare = updated (λ j t. n < j → IsBlocker t) s.thread i u (λ _. w) (λ j ne. c.spare j);
      }

  pub waker_step :
      (s : System Pc) (h : Shared) (u : Thread Pc)
      → ((j : ℕ) → Own n broadcast lock_f2 timed s.pi j (s.thread j))
      → Move k (threads n broadcast lock_f2 timed) n s.shared (s.thread n) h u
      → Counted broadcast safe n timed s
      → ((v : Loop) → s.thread n ≡ running (rechecks v) → safe ≡ true → s.woken.val ≡ pos 0)
      → Counted broadcast safe n timed (record { shared = h; thread = update s.thread n u })
  waker_step s h u own m c calm =
      let s' : System Pc = record { shared = h; thread = update s.thread n u } in
      let num : Numbers n broadcast safe lock_f2 timed (left_f1 n s) (left_f1 n s') s.shared h =
        record {
          le =
              left_more k law n broadcast safe lock_f2 timed small s n h u m
                (λ f. absurd (omega arith));
          past = past_all k law n broadcast safe lock_f2 timed small s c;
          moved = λ re. requeue_moved k law n broadcast safe lock_f2 timed small s h u own c re;
        } in
      let (w, same) = Move-IsWaker n broadcast safe lock_f2 timed law num m calm c.waker in
      record {
        waiters =
            updated (λ j t. j < n → IsWaiter timed t) s.thread n u (λ f. absurd (omega arith))
              (λ j ne. c.waiters j);
        waker = subst (IsWaker broadcast safe n (left_f1 n s')) (sym (here s.thread n u)) w;
        woken =
            others_woken k law n broadcast safe lock_f2 timed small s n h u (omega arith) same
              c.woken;
        spare =
            updated (λ j t. n < j → IsBlocker t) s.thread n u (λ f. absurd (omega arith))
              (λ j ne. c.spare j);
      }
