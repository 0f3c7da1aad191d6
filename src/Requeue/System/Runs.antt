-- ===== src/Requeue/System/Runs.antt =====
-- functional/futex_requeue_pi.c: the counters in every state that its threads reach.
use futextest.Common.{
  ℕ, suc, ◌<◌, ◌≡◌, ◌≢◌, ◌⊎◌, inl, inr, Bool, true, false, sym, arith, ◌∙◌, dec_lt, ap, subst,
  total_zero, update,
}
use futextest.Common.Int.{pos}
use futextest.Pi.{PiKernel, IsPi, running, System, Reach, start, later, pick, Move, Thread}
use futextest.Requeue.System.{
  Pc, spins, counts_in, init, threads, Loop, rechecks, thread_count, blocker_locks,
}
use futextest.Requeue.System.Safety.{Reach-Own}
use futextest.Requeue.System.Codes.{out, IsWaiter, IsWaker}
use futextest.Requeue.System.Counts.{Counted, left_f1}
use futextest.Requeue.System.Counting.{waiter_step, waker_step, blocker_step}
use futextest.Requeue.System.Blocker.{IsBlocker}
use futextest.Requeue.System.Early.{IsFresh, IsEarly}
use futextest.Requeue.System.Fresh.{Reach-Early}

Init-Counted :
    (broadcast safe : Bool) (n : ℕ) (timed : Bool) → Counted broadcast safe n timed (init n)
Init-Counted broadcast safe n timed = record {
  waiters = λ j lt. subst (IsWaiter timed) (sym (at_waiter j lt)) tt;
  waker = subst (IsWaker broadcast safe n (left_f1 n (init n))) (sym at_waker) tt;
  woken = ap pos (sym (total_zero n (λ j. out ((init n).thread j)) zero_out));
  spare = λ j lt. subst IsBlocker (sym (at_blocker j lt)) tt;
}
  where
    at_waiter : (j : ℕ) → j < n → (init n).thread j ≡ running counts_in
    at_waiter j lt = ground arith

    at_waker : (init n).thread n ≡ running spins
    at_waker = ground arith

    at_blocker : (j : ℕ) → n < j → (init n).thread j ≡ running blocker_locks
    at_blocker j lt = ground arith

    zero_out : (j : ℕ) → j < n → out ((init n).thread j) ≡ 0
    zero_out j lt = ap out (at_waiter j lt)

module _ (k : PiKernel) (law : IsPi k) (n : ℕ) (broadcast safe lock_f2 timed third_party : Bool)
    (small : n < 2147483648)
    (sure : safe ≡ true
      → (broadcast ≡ false) ⊎ ((lock_f2 ≡ true) × (timed ≡ false) × (third_party ≡ false))) where
  -- Where the count of `broadcast_wakerfn` is sure, no waiter is counted as woken during it.
  calm :
      {s : System Pc}
      → Reach k (threads n broadcast lock_f2 timed) (thread_count third_party n) (init n) s
      → Counted broadcast safe n timed s
      → (v : Loop) → s.thread n ≡ running (rechecks v)
      → safe ≡ true
      → s.woken.val ≡ pos 0
  calm {s} r c v at safely = elim (sure safely) [
    | inl off ↦
        absurd (on_off (sym (subst (IsWaker broadcast safe n (left_f1 n s)) at c.waker).0 ∙ off))
    | inr (locks_f2, patient, alone) ↦
        let early =
          Reach-Early k law n broadcast lock_f2 timed locks_f2 patient (two_kinds alone r) in
        let fresh = early.fresh (subst IsEarly (sym at) tt) in
        c.woken
        ∙ ap pos
            (total_zero n (λ j. out (s.thread j)) (λ j lt. out_fresh (s.thread j) (fresh j lt)))
  ]
    where
      two_kinds :
          third_party ≡ false
          → Reach k (threads n broadcast lock_f2 timed) (thread_count third_party n) (init n) s
          → Reach k (threads n broadcast lock_f2 timed) (suc n) (init n) s
      two_kinds alone =
          subst
            (λ b.
              Reach k (threads n broadcast lock_f2 timed) (thread_count b n) (init n) s
              → Reach k (threads n broadcast lock_f2 timed) (suc n) (init n) s)
            (sym alone) (λ x. x)

      on_off : true ≢ false
      on_off = cc

      out_fresh : (t : Thread Pc) → IsFresh t → out t ≡ 0
      out_fresh t h = ground (arith, h)

  pub Reach-Counted :
      {s : System Pc}
      → Reach k (threads n broadcast lock_f2 timed) (thread_count third_party n) (init n) s
      → Counted broadcast safe n timed s
  Reach-Counted start = Init-Counted broadcast safe n timed
  Reach-Counted (later {t = s} r (pick i {h} {t = u} lt m)) = elim (dec_lt i n) [
    | yes below ↦
        waiter_step k law n broadcast safe lock_f2 timed small s i h u below m (Reach-Counted r)
    | no last ↦ elim (dec_lt n i) [
      | yes past ↦
          blocker_step k law n broadcast safe lock_f2 timed small s i h u past
            (Reach-Own k law n broadcast lock_f2 timed r i) m (Reach-Counted r)
      | no same ↦
          let e : n ≡ i = omega arith in
          subst
            (λ x.
              Move k (threads n broadcast lock_f2 timed) x s.shared (s.thread x) h u
              → Counted broadcast safe n timed
                  (record { shared = h; thread = update s.thread x u }))
            e
            (λ own_step.
              waker_step k law n broadcast safe lock_f2 timed small s h u
                (Reach-Own k law n broadcast lock_f2 timed r) own_step (Reach-Counted r)
                (calm r (Reach-Counted r)))
            m
    ]
  ]
