-- ===== src/Requeue/Threads.antt =====
-- functional/futex_requeue_pi.c: the creation of a thread, a waiter, and the third-party owner.
use futextest.Common.{
  Bool, true, false, ◌&&◌, ◌||◌, not, List, [], ◌∷◌, Option, none, some, if◌then◌else◌,
}
use futextest.Common.Int.{ℤ, pos, negsuc, ltb_ℤ, eqb_ℤ}
use futextest.Logging.{ret_error}
use futextest.Syscall.{Uapi, Args, Timespec, futex_wait, futex_wait_requeue_pi}
use futextest.Functional.{Reply, etimedout}
use futextest.Requeue.{f1, f2, wake_complete, lock_f2, unlock_f2}

-- What the four calls of `create_rt_thread` return: pthread_attr_setinheritsched,
-- pthread_attr_setschedpolicy, pthread_attr_setschedparam and pthread_create.
pub record Pthread : Type 0 where
  pub inheritsched : ℤ
  pub schedpolicy : ℤ
  pub schedparam : ℤ
  pub create : ℤ

unfoldable pub create_rt_thread : Pthread → ℤ
create_rt_thread p =
    if not (eqb_ℤ p.inheritsched (pos 0))
    then negsuc 0
    else if not (eqb_ℤ p.schedpolicy (pos 0))
    then negsuc 0
    else if not (eqb_ℤ p.schedparam (pos 0))
    then negsuc 0
    else if not (eqb_ℤ p.create (pos 0))
    then negsuc 0
    else pos 0

-- `args->ret` of a thread, and the futex calls that it made, the newest first.
pub record Thread : Type 0 where
  pub ret : ℤ
  pub calls : List Args

abbrev pub is_some {ℓ} : {A : Type ℓ} → Option A → Bool
is_some none = false
is_some (some _) = true

abbrev pub waiter_call : Uapi → Option Timespec → Args
waiter_call u timeout = futex_wait_requeue_pi u f1 0 f2 timeout u.futex_private_flag

-- `waiterfn`, with the reply of its wait.
unfoldable pub waiterfn : Uapi → Option Timespec → Reply → Thread
waiterfn u timeout r =
    if ltb_ℤ r.res (pos 0)
    then record {
      ret = if is_some timeout && eqb_ℤ r.errno etimedout then pos 0 else ret_error;
      calls = unlock_f2 u ∷ lock_f2 u ∷ waiter_call u timeout ∷ [];
    }
    else record { ret = r.res; calls = unlock_f2 u ∷ waiter_call u timeout ∷ [] }

-- What the lock, the wait and the unlock of `third_party_blocker` return.
pub record Blocker : Type 0 where
  pub locked : ℤ
  pub waited : ℤ
  pub unlocked : ℤ

abbrev pub blocker_wait : Uapi → Args
blocker_wait u = futex_wait u wake_complete 0 none u.futex_private_flag

unfoldable pub third_party_blocker : Uapi → Blocker → Thread
third_party_blocker u b =
    if not (eqb_ℤ b.locked (pos 0))
    then record { ret = ret_error; calls = lock_f2 u ∷ [] }
    else record {
      ret =
          if not (eqb_ℤ b.waited (pos 0)) || not (eqb_ℤ b.unlocked (pos 0))
          then ret_error
          else b.waited;
      calls = unlock_f2 u ∷ blocker_wait u ∷ lock_f2 u ∷ [];
    }
