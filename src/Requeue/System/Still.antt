-- ===== src/Requeue/System/Still.antt =====
-- functional/futex_requeue_pi.c: its threads one by one, when each of them has ended or sleeps.
use futextest.Common.{
  ℕ, ◌≤◌, ◌<◌, ◌≡◌, ◌≢◌, ◌⊎◌, inl, inr, Bool, true, false, refl, arith, ◌∙◌, some, dec_lt, ap,
  subst, sym, suc, none, Bool-cases, total_full,
}
use futextest.Common.Int.{ℤ, pos, ◌≤ℤ◌}
use futextest.Logging.{ret_error}
use futextest.Pi.{PiKernel, IsPi, running, waiting, System, Reach, IsStill, halt, wait_complete, ok}
use futextest.Requeue.System.{
  Pc, exited, ended, init, threads, access, thread_count, blocker_exited, blocker_waits,
  blocker_locks, waits,
}
use futextest.Requeue.System.Rules.{holds, holds_at, is_asleep, IsPlaced, Own, rests_holds}
use futextest.Requeue.System.Safety.{Reach-Own, idle}
use futextest.Requeue.System.Codes.{IsWaiter, IsWaker, gone}
use futextest.Requeue.System.Counts.{left_f1, Counted, gone_bounded}
use futextest.Requeue.System.Runs.{Reach-Counted}
use futextest.Requeue.System.Halts.{halt_free, halt_waiter, halt_blocker, halt_waker, asleep_waker}
use futextest.Requeue.System.Blocker.{IsBlocker}
use futextest.Requeue.System.Owner.{none_or_some}

-- The blocker sleeps on wake_complete and holds f2, and the waker waits for f2 or has ended.
abbrev pub IsStuck : Bool → Bool → ℕ → System Pc → Type 0
IsStuck third_party lock_f2 n s =
    (third_party ≡ true)
    × (s.pi.owner ≡ some (suc n))
    × (s.thread (suc n) ≡ waiting blocker_waits)
    × (((lock_f2 ≡ true) × (is_asleep (s.thread n) ≡ true))
        ⊎ ((ret : ℤ) × (s.thread n ≡ running (ended ret))))

module _ (k : PiKernel) (law : IsPi k) (n : ℕ) (broadcast safe lock_f2 timed third_party : Bool)
    (small : n < 2147483648)
    (sure : safe ≡ true
      → (broadcast ≡ false) ⊎ ((lock_f2 ≡ true) × (timed ≡ false) × (third_party ≡ false))) where
  module _ {s : System Pc}
      (r : Reach k (threads n broadcast lock_f2 timed) (thread_count third_party n) (init n) s)
      (still : (i : ℕ)
        → i < thread_count third_party n
        → IsStill (threads n broadcast lock_f2 timed) s i) where
    own : (j : ℕ) → Own n broadcast lock_f2 timed s.pi j (s.thread j)
    own j = Reach-Own k law n broadcast lock_f2 timed r j

    counted : Counted broadcast safe n timed s
    counted = Reach-Counted k law n broadcast safe lock_f2 timed third_party small sure r

    runs_below : (i : ℕ) → i ≤ n → i < thread_count third_party n
    runs_below i le = ground arith

    not_at :
        (i : ℕ) (c : Pc)
        → s.thread i ≡ running c
        → holds_at n broadcast lock_f2 timed c ≡ false
        → s.pi.owner ≢ some i
    not_at i c at no_hold e =
        elim (subst (λ t. (holds n broadcast lock_f2 timed t ≡ true) ⊎ (is_asleep t ≡ true)) at
          ((own i).owns e)) [ inl a ↦ ground (arith, a, no_hold) | inr b ↦ ground (arith, b) ]

    -- Only the blocker sleeps on wake_complete.
    at_rest :
        (i : ℕ) (c : Pc)
        → s.thread i ≡ waiting c
        → access n broadcast lock_f2 timed c ≡ wait_complete
        → (n < i) × (s.thread i ≡ waiting blocker_waits) × (s.pi.owner ≡ some i)
    at_rest i c at e =
        let there = at ∙ ap waiting (rests_holds n broadcast lock_f2 timed c (ok (pos 0)) e).0 in
        (
          elim (dec_lt n i) [ yes past ↦ past | no le ↦ absurd (not_before le there) ],
          there,
          (own i).holder (subst (λ t. holds n broadcast lock_f2 timed t ≡ true) (sym there) refl),
        )
      where
        not_before : (n < i → ⊥) → s.thread i ≢ waiting blocker_waits
        not_before le there = elim (dec_lt i n) [
          | yes below ↦ subst (IsWaiter timed) there (counted.waiters i below)
          | no above ↦
              let e : i ≡ n = omega arith in
              subst (IsWaker broadcast safe n (left_f1 n s))
                (subst (λ x. s.thread x ≡ waiting blocker_waits) e there) counted.waker
        ]

    last : (i : ℕ) → n < i → i < thread_count third_party n → (third_party ≡ true) × (i ≡ suc n)
    last i past lt = ground arith

    at_start : (i : ℕ) → thread_count third_party n ≤ i → s.thread i ≡ running blocker_locks
    at_start i le = idle k law n broadcast lock_f2 timed r i le ∙ start_pc (ground arith)
      where
        start_pc : n < i → (init n).thread i ≡ running blocker_locks
        start_pc lt = ground arith

    -- A thread that holds f2 is the blocker, asleep on wake_complete.
    held :
        (i : ℕ)
        → s.pi.owner ≡ some i
        → (third_party ≡ true) × (i ≡ suc n) × (s.thread i ≡ waiting blocker_waits)
    held i e = elim (dec_lt i (thread_count third_party n)) [
      | yes lt ↦ elim (still i lt) [
        | inl (c, at, halted) ↦
            absurd (not_at i c at (halt_free n broadcast safe lock_f2 timed c halted) e)
        | inr (inl (c, at, rest, _)) ↦
            let (past, there, _) = at_rest i c at rest in
            let (third, same) = last i past lt in (third, same, there)
        | inr (inr (c, at, _, other)) ↦ absurd (other e)
      ]
      | no le ↦ absurd (not_at i blocker_locks (at_start i (omega arith)) refl e)
    ]

    waker-IsStuck :
        ((lock_f2 ≡ true) × (is_asleep (s.thread n) ≡ true))
        ⊎ ((ret : ℤ) × (s.thread n ≡ running (ended ret)))
    waker-IsStuck = elim (still n (runs_below n (omega arith))) [
      | inl (c, at, halted) ↦
          let (ret, e, _) =
            halt_waker n broadcast safe lock_f2 timed (left_f1 n s) c halted
              (subst (IsWaker broadcast safe n (left_f1 n s)) at counted.waker) in
          inr (ret, at ∙ ap running e)
      | inr (inl (c, at, rest, _)) ↦ absurd (not_self (at_rest n c at rest).0)
      | inr (inr (c, at, _, _)) ↦ inl (
        asleep_waker n broadcast safe lock_f2 timed (left_f1 n s) c
            (subst (IsWaker broadcast safe n (left_f1 n s)) at counted.waker)
            (subst (IsPlaced n broadcast lock_f2 timed) at (own n).placed),
        ap is_asleep at,
      )
    ]
      where
        not_self : n < n → ⊥
        not_self lt = omega arith

    pub free_or_IsStuck : (s.pi.owner ≡ none) ⊎ IsStuck third_party lock_f2 n s
    free_or_IsStuck = elim (none_or_some s.pi.owner) [
      | inl e ↦ inl e
      | inr (i, e) ↦
          let (third, same, there) = held i e in
          inr (
            third,
            e ∙ ap some same,
            subst (λ x. s.thread x ≡ waiting blocker_waits) same there,
            waker-IsStuck,
          )
    ]

    module _ (free : s.pi.owner ≡ none) where
      -- With f2 free, who sleeps, sleeps on f1.
      sleeper :
          (i : ℕ) (c : Pc)
          → s.thread i ≡ waiting c
          → (s.thread i ≡ waiting waits) × (s.pi.on_f1 i ≡ true)
      sleeper i c at = elim ((own i).asleep (ap is_asleep at)) [
        | inl f ↦ (((own i).one f).0, f)
        | inr (inl f) ↦ absurd (((own i).two f).2 free)
        | inr (inr mine) ↦ absurd (none_some (sym free ∙ mine))
      ]
        where
          none_some : none ≢ some i
          none_some = cc

      ends_or_sleeps :
          (i : ℕ)
          → i < thread_count third_party n
          → ((c : Pc) × (s.thread i ≡ running c) × (access n broadcast lock_f2 timed c ≡ halt))
            ⊎ ((s.thread i ≡ waiting waits) × (s.pi.on_f1 i ≡ true))
      ends_or_sleeps i lt = elim (still i lt) [
        | inl h ↦ inl h
        | inr (inl (c, at, _, _)) ↦ inr (sleeper i c at)
        | inr (inr (c, at, _, _)) ↦ inr (sleeper i c at)
      ]

      pub waiter_rests :
          (i : ℕ)
          → i < n
          → (s.thread i ≡ running (exited (pos 0)))
            ⊎ ((s.thread i ≡ waiting waits) × (s.pi.on_f1 i ≡ true))
      waiter_rests i lt = elim (ends_or_sleeps i (runs_below i (omega arith))) [
        | inl (c, at, halted) ↦ inl (
            at
            ∙ halt_waiter n broadcast safe lock_f2 timed c halted
                (subst (IsWaiter timed) at (counted.waiters i lt)))
        | inr h ↦ inr h
      ]

      -- The waker has ended: it does not sleep on f1.
      pub waker_rests :
          (ret : ℤ) × (s.thread n ≡ running (ended ret))
          × ((ret ≡ ret_error) ⊎ ((pos 0 ≤ℤ ret) × (safe ≡ true → n ≤ left_f1 n s)))
      waker_rests = elim (ends_or_sleeps n (runs_below n (omega arith))) [
        | inl (c, at, halted) ↦
            let (ret, e, h) =
              halt_waker n broadcast safe lock_f2 timed (left_f1 n s) c halted
                (subst (IsWaker broadcast safe n (left_f1 n s)) at counted.waker) in
            (ret, at ∙ ap running e, h)
        | inr (at, _) ↦ absurd (subst (IsWaker broadcast safe n (left_f1 n s)) at counted.waker)
      ]

      pub blocker_rests :
          (third_party ≡ false) ⊎ (s.thread (suc n) ≡ running (blocker_exited (pos 0)))
      blocker_rests = elim (Bool-cases third_party) [
        | inr off ↦ inl off
        | inl on ↦ inr (elim (ends_or_sleeps (suc n) (ground (arith, on))) [
          | inl (c, at, halted) ↦
              at
              ∙ halt_blocker n broadcast safe lock_f2 timed c halted
                  (subst IsBlocker at (counted.spare (suc n) (omega arith)))
          | inr (at, _) ↦ absurd (subst IsBlocker at (counted.spare (suc n) (omega arith)))
        ])
      ]

      -- With everybody gone from f1, the waiters have exited.
      pub all_exited : n ≤ left_f1 n s → (i : ℕ) → i < n → s.thread i ≡ running (exited (pos 0))
      all_exited full i lt = elim (waiter_rests i lt) [
        | inl e ↦ e
        | inr (at, f) ↦
            let one =
              total_full n (λ j. gone (s.thread j) (s.pi.on_f1 j))
                (λ j. gone_bounded (s.thread j) (s.pi.on_f1 j)) full i lt in
            absurd (
              no_one (
                subst (λ b. gone (waiting waits) b ≡ 1) f
                  (subst (λ t. gone t (s.pi.on_f1 i) ≡ 1) at one)))
      ]
        where
          no_one : ◌≡◌ {A = ℕ} 0 1 → ⊥
          no_one e = omega arith
