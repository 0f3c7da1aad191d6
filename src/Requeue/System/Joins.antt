-- ===== src/Requeue/System/Joins.antt =====
-- functional/futex_requeue_pi.c: what `unit_test` makes of the results of its threads, when they have ended.
use futextest.Common.{
  ℕ, suc, ◌≤◌, ◌<◌, ◌≡◌, ◌≢◌, ◌⊎◌, inl, inr, Bool, true, false, refl, arith, ◌∙◌, ap, subst,
  if◌then◌else◌, Bool-cases,
}
use futextest.Common.Int.{ℤ, pos, ◌≤ℤ◌, eqb_ℤ, eqb_lem}
use futextest.Logging.{ret_pass, ret_error}
use futextest.Pi.{PiKernel, IsPi, Thread, running, System, Reach, halt}
use futextest.Requeue.UnitTest.{join_waiters, collect}
use futextest.Requeue.Results.{join_waiters-FirstError}
use futextest.Requeue.System.{
  Pc, exited, ended, blocker_exited, init, threads, access, thread_count,
}
use futextest.Requeue.System.Codes.{IsWaiter, IsWaker}
use futextest.Requeue.System.Counts.{left_f1, Counted}
use futextest.Requeue.System.Halts.{halt_waiter, halt_waker, halt_blocker}
use futextest.Requeue.System.Blocker.{IsBlocker}
use futextest.Requeue.System.Runs.{Reach-Counted}

-- `args->ret` of a thread that has ended.
abbrev pub exit_code : Thread Pc → ℤ
exit_code (running (exited ret)) = ret
exit_code (running (ended ret)) = ret
exit_code (running (blocker_exited ret)) = ret
exit_code _ = pos 0

-- `ret` before the threads are made: what clock_gettime returned, if there is a timeout.
abbrev pub clock_ret : (timed : Bool) → (clock : ℤ) → ℤ
clock_ret timed clock = if timed then clock else ret_pass

-- From the loop over pthread_join to the end of `unit_test`, with `n` waiters.
abbrev pub unit_test_result : (timed third_party : Bool) → ℕ → (clock : ℤ) → System Pc → ℤ
unit_test_result timed third_party n clock s =
    if eqb_ℤ (clock_ret timed clock) (pos 0)
    then collect (join_waiters (λ i. exit_code (s.thread i)) n 0 (pos 0)) (exit_code (s.thread n))
        (if third_party then exit_code (s.thread (suc n)) else pos 0)
    else clock_ret timed clock

-- RET_PASS if the waker ended with a result `ret` that is not negative, and RET_ERROR if it ended with
-- that, unless there is a timeout and clock_gettime did not return 0: then what it returned.
abbrev pub Verdict : (timed third_party : Bool) → ℕ → (clock : ℤ) → System Pc → ℤ → Type 0
Verdict timed third_party n clock s ret =
    let result = unit_test_result timed third_party n clock s in
    (((timed ≡ false) ⊎ (clock ≡ pos 0))
      × (((result ≡ ret_pass) × (pos 0 ≤ℤ ret)) ⊎ ((result ≡ ret_error) × (ret ≡ ret_error))))
    ⊎ ((timed ≡ true) × (clock ≢ pos 0) × (result ≡ clock))

collect_zero :
    (x y z r : ℤ)
    → x ≡ pos 0
    → y ≡ r
    → z ≡ pos 0
    → (r ≡ ret_error) ⊎ (pos 0 ≤ℤ r)
    → ((collect x y z ≡ ret_pass) × (pos 0 ≤ℤ r)) ⊎ ((collect x y z ≡ ret_error) × (r ≡ ret_error))
collect_zero x y z r a b c h = ground (arith, a, b, c, h)

-- What a verdict on `collect` is worth behind the test of what clock_gettime returned.
timed_verdict :
    (timed : Bool) (clock x : ℤ) {ret : ℤ}
    → ((x ≡ ret_pass) × (pos 0 ≤ℤ ret)) ⊎ ((x ≡ ret_error) × (ret ≡ ret_error))
    → let result = if eqb_ℤ (clock_ret timed clock) (pos 0) then x else clock_ret timed clock in
      (((timed ≡ false) ⊎ (clock ≡ pos 0))
        × (((result ≡ ret_pass) × (pos 0 ≤ℤ ret)) ⊎ ((result ≡ ret_error) × (ret ≡ ret_error))))
      ⊎ ((timed ≡ true) × (clock ≢ pos 0) × (result ≡ clock))
timed_verdict false clock x h = inl (inl refl, h)
timed_verdict true clock x h = elim (eqb_lem clock (pos 0)) [
  | inl (t, e) ↦ rw t (inl (inr e, h))
  | inr (t, ne) ↦ rw t (inr (refl, ne, refl))
]

module _ (k : PiKernel) (law : IsPi k) (n : ℕ) (broadcast lock_f2 timed third_party : Bool)
    (small : n < 2147483648) where
  -- On any schedule and with each style, on a kernel whose PI calls do what futex(2) says, with fewer than
  -- 2 ^ 31 waiters: when all threads have ended, `unit_test` makes RET_PASS of their results if the waker
  -- ended with a result that is not negative, and else the waker ended with RET_ERROR, which is the result;
  -- but if there is a timeout and clock_gettime did not return 0, the result is what it returned.
  -- Neither a waiter nor the third-party owner makes the test fail.
  pub requeue_joins :
      {s : System Pc} (clock : ℤ)
      → Reach k (threads n broadcast lock_f2 timed) (thread_count third_party n) (init n) s
      → ((i : ℕ)
          → i < thread_count third_party n
          → (c : Pc) × (s.thread i ≡ running c) × (access n broadcast lock_f2 timed c ≡ halt))
      → (ret : ℤ) × (s.thread n ≡ running (ended ret)) × Verdict timed third_party n clock s ret
  requeue_joins {s} clock r over =
      let (c, at, halted) = over n (runs_below n (omega arith)) in
      let (ret, e, h) =
        halt_waker n broadcast false lock_f2 timed (left_f1 n s) c halted
          (subst (IsWaker broadcast false n (left_f1 n s)) at counted.waker) in
      (
        ret,
        at ∙ ap running e,
        timed_verdict timed clock _ (
            collect_zero (join_waiters (λ i. exit_code (s.thread i)) n 0 (pos 0))
              (exit_code (s.thread n)) (if third_party then exit_code (s.thread (suc n)) else pos 0)
              ret waiters_zero (ap exit_code (at ∙ ap running e)) blocker_zero
              (elim h [ inl f ↦ inl f | inr (sign, _) ↦ inr sign ])),
      )
    where
      no_sure :
          false ≡ true
          → (broadcast ≡ false) ⊎ ((lock_f2 ≡ true) × (timed ≡ false) × (third_party ≡ false))
      no_sure = cc

      counted : Counted broadcast false n timed s
      counted = Reach-Counted k law n broadcast false lock_f2 timed third_party small no_sure r

      runs_below : (i : ℕ) → i ≤ n → i < thread_count third_party n
      runs_below i le = ground arith

      waiter_zero : (i : ℕ) → i < n → exit_code (s.thread i) ≡ pos 0
      waiter_zero i lt =
          let (c, at, halted) = over i (runs_below i (omega arith)) in
          ap exit_code (
            at
            ∙ halt_waiter n broadcast false lock_f2 timed c halted
                (subst (IsWaiter timed) at (counted.waiters i lt)))

      blocker_zero : (if third_party then exit_code (s.thread (suc n)) else pos 0) ≡ pos 0
      blocker_zero = elim (Bool-cases third_party) [
        | inr off ↦ rw off refl
        | inl on ↦
            let (c, at, halted) = over (suc n) (ground (arith, on)) in
            rw on (
              ap exit_code (
                at
                ∙ halt_blocker n broadcast false lock_f2 timed c halted
                    (subst IsBlocker at (counted.spare (suc n) (omega arith)))))
      ]

      waiters_zero : join_waiters (λ i. exit_code (s.thread i)) n 0 (pos 0) ≡ pos 0
      waiters_zero =
          elim (join_waiters-FirstError (λ i. exit_code (s.thread i)) n 0 n (omega arith)) [
            | inl (z, _) ↦ z
            | inr (nz, (j, _, lt, e, _)) ↦ absurd (nz (e ∙ waiter_zero j lt))
          ]
