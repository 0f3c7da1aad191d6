-- ===== src/Requeue/System/Rest.antt =====
-- functional/futex_requeue_pi.c: what its threads have come to when each of them has ended or sleeps.
use futextest.Common.{ℕ, suc, ◌<◌, ◌≡◌, ◌⊎◌, inl, inr, Bool, true, false, refl, ◌∙◌, none, ap}
use futextest.Common.Int.{ℤ, pos, ◌≤ℤ◌}
use futextest.Logging.{ret_error}
use futextest.Pi.{PiKernel, IsPi, running, waiting, System, Reach, IsStill}
use futextest.Requeue.System.{Pc, waits, exited, ended, init, threads, thread_count, blocker_exited}
use futextest.Requeue.System.Still.{
  IsStuck, free_or_IsStuck, waker_rests, waiter_rests, all_exited, blocker_rests,
}

module _ (k : PiKernel) (law : IsPi k) (n : ℕ) (broadcast lock_f2 timed third_party : Bool)
    (small : n < 2147483648) where
  -- On a kernel whose PI calls do what futex(2) says, with fewer than 2 ^ 31 waiters: when each thread of
  -- the test has ended or sleeps in a wait that nothing ends but a timeout or a wakeup for no reason,
  -- either the third-party owner sleeps on wake_complete and holds f2, while the waker waits for f2 under
  -- -l or has ended; or f2 is free, the waker has ended with RET_ERROR or with a result that is not
  -- negative, every waiter has exited with 0 or sleeps on f1, and the third-party owner, if there is one,
  -- has exited with 0.
  pub requeue_frees :
      {s : System Pc}
      → Reach k (threads n broadcast lock_f2 timed) (thread_count third_party n) (init n) s
      → ((i : ℕ) → i < thread_count third_party n → IsStill (threads n broadcast lock_f2 timed) s i)
      → IsStuck third_party lock_f2 n s
        ⊎ ((s.pi.owner ≡ none)
            × ((ret : ℤ) × (s.thread n ≡ running (ended ret))
                × ((ret ≡ ret_error) ⊎ (pos 0 ≤ℤ ret)))
            × ((i : ℕ)
                → i < n
                → (s.thread i ≡ running (exited (pos 0)))
                  ⊎ ((s.thread i ≡ waiting waits) × (s.pi.on_f1 i ≡ true)))
            × ((third_party ≡ false) ⊎ (s.thread (suc n) ≡ running (blocker_exited (pos 0)))))
  requeue_frees {s} r still =
      elim (free_or_IsStuck k law n broadcast false lock_f2 timed third_party small no_sure r
        still) [
          | inr stuck ↦ inl stuck
          | inl free ↦
              let (ret, at, h) =
                waker_rests k law n broadcast false lock_f2 timed third_party small no_sure r still
                  free in
              inr (
                free,
                (ret, at, elim h [ inl e ↦ inl e | inr (sign, _) ↦ inr sign ]),
                waiter_rests k law n broadcast false lock_f2 timed third_party small no_sure r still
                    free,
                blocker_rests k law n broadcast false lock_f2 timed third_party small no_sure r
                    still free,
              )
        ]
    where
      no_sure :
          false ≡ true
          → (broadcast ≡ false) ⊎ ((lock_f2 ≡ true) × (timed ≡ false) × (third_party ≡ false))
      no_sure = cc

  -- With `signal_wakerfn`, or with `broadcast_wakerfn`, the option -l, no timeout and no third-party owner,
  -- the waker leaves nobody behind: on a kernel whose PI calls do what futex(2) says, with fewer than
  -- 2 ^ 31 waiters, when each thread of the test has ended or sleeps in a wait that nothing ends but a
  -- timeout or a wakeup for no reason, either the waker has ended with RET_ERROR, or every waiter has
  -- exited with 0, or the third-party owner sleeps on wake_complete and holds f2, while the waker waits
  -- for f2 under -l or has ended.
  pub requeue_rests :
      {s : System Pc}
      → (broadcast ≡ false) ⊎ ((lock_f2 ≡ true) × (timed ≡ false) × (third_party ≡ false))
      → Reach k (threads n broadcast lock_f2 timed) (thread_count third_party n) (init n) s
      → ((i : ℕ) → i < thread_count third_party n → IsStill (threads n broadcast lock_f2 timed) s i)
      → (s.thread n ≡ running (ended ret_error))
        ⊎ (((i : ℕ) → i < n → s.thread i ≡ running (exited (pos 0)))
            ⊎ IsStuck third_party lock_f2 n s)
  requeue_rests {s} style r still =
      elim (free_or_IsStuck k law n broadcast true lock_f2 timed third_party small (λ _. style) r
        still) [
          | inr stuck ↦ inr (inr stuck)
          | inl free ↦
              let (ret, at, h) =
                waker_rests k law n broadcast true lock_f2 timed third_party small (λ _. style) r
                  still free in
              elim h [
                | inl e ↦ inl (at ∙ ap (λ x. running (ended x)) e)
                | inr (sign, full) ↦ inr (
                    inl (
                      all_exited k law n broadcast true lock_f2 timed third_party small (λ _. style)
                        r still free (full refl)))
              ]
        ]
