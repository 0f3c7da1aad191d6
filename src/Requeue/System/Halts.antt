-- ===== src/Requeue/System/Halts.antt =====
-- functional/futex_requeue_pi.c: where a thread of each kind ends or sleeps.
use futextest.Common.{ℕ, ◌≤◌, ◌≡◌, ◌⊎◌, Bool, true, false, refl, ap}
use futextest.Common.Int.{ℤ, pos, ◌≤ℤ◌}
use futextest.Logging.{ret_error}
use futextest.Pi.{running, waiting, halt}
use futextest.Requeue.System.{Pc, broadcast_locks, exited, ended, access, blocker_exited, locks}
use futextest.Requeue.System.Rules.{holds_at, IsPlaced}
use futextest.Requeue.System.Codes.{IsWaiter, IsWaker}
use futextest.Requeue.System.Blocker.{IsBlocker}

module _ (n : ℕ) (broadcast safe lock_f2 timed : Bool) where
  pub halt_free :
      (c : Pc)
      → access n broadcast lock_f2 timed c ≡ halt
      → holds_at n broadcast lock_f2 timed c ≡ false
  halt_free (exited ret) e = refl
  halt_free (ended ret) e = refl
  halt_free (blocker_exited ret) e = refl
  halt_free _ e = cc

  pub halt_waiter :
      (c : Pc)
      → access n broadcast lock_f2 timed c ≡ halt
      → IsWaiter timed (running c)
      → running c ≡ running (exited (pos 0))
  halt_waiter (exited ret) e w = ap (λ r. running (exited r)) w
  halt_waiter (ended ret) e w = absurd w
  halt_waiter (blocker_exited ret) e w = absurd w
  halt_waiter _ e w = cc

  pub halt_blocker :
      (c : Pc)
      → access n broadcast lock_f2 timed c ≡ halt
      → IsBlocker (running c)
      → running c ≡ running (blocker_exited (pos 0))
  halt_blocker (blocker_exited ret) e w = ap (λ r. running (blocker_exited r)) w
  halt_blocker (exited ret) e w = absurd w
  halt_blocker (ended ret) e w = absurd w
  halt_blocker _ e w = cc

  pub halt_waker :
      (g : ℕ) (c : Pc)
      → access n broadcast lock_f2 timed c ≡ halt
      → IsWaker broadcast safe n g (running c)
      → (ret : ℤ) × (c ≡ ended ret) × ((ret ≡ ret_error) ⊎ ((pos 0 ≤ℤ ret) × (safe ≡ true → n ≤ g)))
  halt_waker g (exited ret) e w = absurd w
  halt_waker g (blocker_exited ret) e w = absurd w
  halt_waker g (ended ret) e w = (ret, refl, w)
  halt_waker g _ e w = cc

  -- The waker sleeps only on f2, under `-l`.
  pub asleep_waker :
      (g : ℕ) (c : Pc)
      → IsWaker broadcast safe n g (waiting c)
      → IsPlaced n broadcast lock_f2 timed (waiting c)
      → lock_f2 ≡ true
  asleep_waker g (locks v) w h = h
  asleep_waker g broadcast_locks w h = h
  asleep_waker g _ w h = absurd w
