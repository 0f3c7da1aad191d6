-- ===== src/Requeue/Waker.antt =====
-- functional/futex_requeue_pi.c: the two threads that wake the waiters. A loop takes fuel: `none` means
-- that it ran out, or that the waker sleeps for ever in a FUTEX_LOCK_PI. A sum of `int`s is taken modulo
-- 2 ^ 32.
use futextest.Common.{
  ℕ, zero, suc, ◌+◌, Bool, ◌&&◌, ◌||◌, not, List, [], ◌∷◌, Option, none, some, ltb, if◌then◌else◌,
  false, true,
}
use futextest.Common.Int.{ℤ, pos, ◌+ℤ◌, ltb_ℤ, leb_ℤ, pos_part, neg_part, sub_ℕ}
use futextest.Logging.{ret_error}
use futextest.Syscall.{Uapi, Args}
use futextest.Word.{int_max, to_int, to_u32}
use futextest.Functional.{Reply}
use futextest.Requeue.{max_wake_iters, thread_max, lock_f2, unlock_f2, wake_blocker, requeue}

-- `waiters_blocked.val` and `waiters_woken.val` at the n-th read, the reply of the n-th requeue, and
-- whether the n-th FUTEX_LOCK_PI of the waker ever returns.
pub record World : Type 0 where
  pub blocked : ℕ → ℤ
  pub woken : ℕ → ℤ
  pub reply : ℕ → Reply
  pub locks : ℕ → Bool

-- `args->ret`, `task_count` and the calls made.
pub record Waker : Type 0 where
  pub ret : ℤ
  pub task_count : ℤ
  pub calls : List Args

abbrev pub idle : Waker
idle = record { ret = pos 0; task_count = pos 0; calls = [] }

abbrev pub negate : ℤ → ℤ
negate x = sub_ℕ (neg_part x) (pos_part x)

-- `if (args->ret < 0) args->ret = -errno;`
abbrev pub code_of : Reply → ℤ
code_of r = if ltb_ℤ r.res (pos 0) then negate r.errno else r.res

-- A sum of two `int`s.
unfoldable pub add_int : ℤ → ℤ → ℤ
unfolding ◌+ℤ◌ to_int to_u32
add_int a b = to_int (to_u32 (a +ℤ b))

abbrev pub locked : Bool → Args → List Args → List Args
locked lock a calls = if lock then a ∷ calls else calls

abbrev pub finished : (Waker → Waker) → Option Waker → Option Waker
finished f none = none
finished f (some s) = some (f s)

-- `while (waiters_blocked.val < THREAD_MAX)`, from the n-th read on: whether it ends
unfoldable pub wait_blocked : World → ℕ → ℕ → Bool
wait_blocked w zero n = false
wait_blocked w (suc fuel) n =
    let rest = wait_blocked w fuel (suc n) in
    if ltb_ℤ (w.blocked n) (pos thread_max) then rest else true

module _ (u : Uapi) (lock : Bool) (w : World) where
  -- The calls of one round of the signal loop: lock, requeue, unlock.
  abbrev pub signal_calls : List Args → List Args
  signal_calls calls = locked lock (unlock_f2 u) (requeue u (pos 0) ∷ locked lock (lock_f2 u) calls)

  -- The `while` loop of `signal_wakerfn`, in round `i`.
  unfoldable pub signal_loop : ℕ → ℕ → Waker → Option Waker
  unfolding add_int
  signal_loop zero i s = none
  signal_loop (suc fuel) i s =
      let ret = code_of (w.reply i) in
      let calls = signal_calls s.calls in
      let count = add_int s.task_count ret in
      let rest =
        signal_loop fuel (suc i) (record { ret = ret; task_count = count; calls = calls }) in
      if ltb_ℤ s.task_count (pos thread_max) && ltb_ℤ (w.woken i) (pos thread_max)
      then (if lock && not (w.locks i)
          then none
          else if ltb_ℤ ret (pos 0)
          then some (record s { ret = ret_error; calls = calls })
          else if ltb (max_wake_iters + thread_max) (suc i)
          then some (record { ret = ret_error; task_count = count; calls = calls })
          else rest)
      else some s

  abbrev pub signal_finish : Waker → Waker
  signal_finish s = record s {
    ret = if leb_ℤ (pos 0) s.ret then s.task_count else s.ret;
    calls = wake_blocker u ∷ s.calls;
  }

  unfoldable pub signal_wakerfn : ℕ → Option Waker
  unfolding signal_loop wait_blocked
  signal_wakerfn fuel =
      if wait_blocked w fuel 0 then finished signal_finish (signal_loop fuel 0 idle) else none

  -- From the label `continue_requeue` of `broadcast_wakerfn` on, in round `i`.
  unfoldable pub broadcast_loop : ℕ → ℕ → Waker → Option Waker
  unfolding add_int
  broadcast_loop zero i s = none
  broadcast_loop (suc fuel) i s =
      let ret = (w.reply i).res in
      let calls = requeue u (pos int_max) ∷ s.calls in
      let count = add_int s.task_count ret in
      let rest =
        broadcast_loop fuel (suc i) (record { ret = ret; task_count = count; calls = calls }) in
      if ltb_ℤ ret (pos 0)
      then some (record s { ret = ret_error; calls = calls })
      else if ltb (suc i) max_wake_iters
      then (if ltb_ℤ count (add_int (pos thread_max) (negate (w.woken i)))
          then rest
          else some (record { ret = ret; task_count = count; calls = calls }))
      else some (record s { ret = ret_error; calls = calls })

  abbrev pub broadcast_finish : Waker → Waker
  broadcast_finish s = record s {
    ret = if ltb_ℤ (pos 0) s.ret then s.task_count else s.ret;
    calls = locked lock (unlock_f2 u) (wake_blocker u ∷ s.calls);
  }

  unfoldable pub broadcast_wakerfn : ℕ → Option Waker
  unfolding broadcast_loop wait_blocked
  broadcast_wakerfn fuel =
      if wait_blocked w fuel 0 && (not lock || w.locks 0)
      then finished broadcast_finish
          (broadcast_loop fuel 0 (record idle { calls = locked lock (lock_f2 u) [] }))
      else none
