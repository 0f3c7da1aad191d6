-- ===== src/Requeue/Reached.antt =====
-- functional/futex_requeue_pi.c: what `broadcast_wakerfn` has reached when it returns.
use futextest.Common.{ℕ, ◌-◌, ◌*◌, ◌≤◌, ◌≡◌, arith, Bool}
use futextest.Common.Int.{ℤ, pos, ◌≤ℤ◌, ◌<ℤ◌, ◌+ℤ◌}
use futextest.Word.{to_int, to_u32}
use futextest.Syscall.{Uapi}
use futextest.Requeue.{thread_max}
use futextest.Requeue.Waker.{World, Waker, negate, add_int}

asleep : (n : ℕ) → n ≤ thread_max → add_int (pos thread_max) (negate (pos n)) ≡ pos (thread_max - n)
unfolding add_int ◌+ℤ◌ to_int to_u32
asleep n le = ground arith

module _ (u : Uapi) (lock : Bool) (w : World) where
  -- Only the waiters sleep on f1 and raise the counters.
  pub record IsBroadcast : Type 0 where
    pub moved : (i : ℕ) → (w.reply i).res ≤ℤ pos thread_max
    pub awake : (i : ℕ) → (n : ℕ) × (w.woken i ≡ pos n) × (n ≤ thread_max)

  abbrev Within : ℤ → Type 0
  Within c = (pos 0 ≤ℤ c) × (c <ℤ pos thread_max)

  abbrev pub InCount : ℤ → Type 0
  InCount c = (pos 0 ≤ℤ c) × (c ≤ℤ pos (2 * thread_max))
