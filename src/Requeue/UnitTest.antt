-- ===== src/Requeue/UnitTest.antt =====
-- functional/futex_requeue_pi.c: `unit_test`, which starts the threads and collects their results.
use futextest.Common.{
  ℕ, leb, ◌^◌, ◌%◌, ◌/◌, ◌-◌, zero, suc, Bool, false, true, ◌&&◌, ◌||◌, not, Option, none, some,
  if◌then◌else◌,
}
use futextest.Common.Int.{ℤ, pos, negsuc, ◌+ℤ◌, ltb_ℤ, eqb_ℤ, quot, rem}
use futextest.Logging.{ret_pass, ret_error}
use futextest.Syscall.{Uapi, Timespec}
use futextest.Functional.{Reply}
use futextest.Requeue.{thread_max}
use futextest.Requeue.Waker
use futextest.Requeue.Waker.{Waker, signal_wakerfn, broadcast_wakerfn}
use futextest.Requeue.Threads.{Pthread, create_rt_thread, waiterfn, Blocker, third_party_blocker}

abbrev pub nsec_per_sec : ℕ
nsec_per_sec = 1000000000

-- The width of `long` and `time_t`.
pub data Long : Type 0 where
  bits32 bits64 : Long

unfoldable pub modulus : Long → ℕ
modulus bits32 = 2 ^ 32
modulus bits64 = 2 ^ 64

abbrev pub long_max : Long → ℕ
long_max l = modulus l / 2 - 1

-- A sum or a difference as that integer type has it, in two's complement; in C an overflow has no meaning.
unfoldable pub wrap_long : Long → ℤ → ℤ
unfolding modulus
wrap_long l (pos n) =
    let r = n % modulus l in if leb r (long_max l) then pos r else negsuc (modulus l - 1 - r)
wrap_long l (negsuc n) =
    let r = n % modulus l in if leb r (long_max l) then negsuc r else pos (modulus l - 1 - r)

-- The absolute timeout, from the time of clock_gettime. The seconds are added as `long`, the nanoseconds
-- as `int64_t`.
unfoldable pub timeout_at : Long → Timespec → ℤ → Timespec
unfolding ◌+ℤ◌ wrap_long
timeout_at l ts timeout_ns =
    let secs = quot (wrap_long l (ts.tv_nsec +ℤ timeout_ns)) nsec_per_sec in
    record {
      tv_sec = wrap_long l (ts.tv_sec +ℤ secs);
      tv_nsec = rem (wrap_long bits64 (ts.tv_nsec +ℤ timeout_ns)) nsec_per_sec;
    }

-- The options of the test.
pub record Style : Type 0 where
  pub broadcast : Bool
  pub lock : Bool
  pub owner : Bool
  pub timeout_ns : ℤ

-- What the C library, the kernel and the threads give to `unit_test`. `waiter_ends` and `blocker_ends`
-- tell whether all calls of the thread return, so that pthread_join on it returns.
pub record World : Type 0 where
  pub clock : ℤ
  pub now : Timespec
  pub long : Long
  pub blocker_thread : Pthread
  pub blocker : Blocker
  pub blocker_ends : Bool
  pub waiter_thread : ℕ → Pthread
  pub waiter : ℕ → Reply
  pub waiter_ends : ℕ → Bool
  pub waker_thread : Pthread
  pub waker : Waker.World

-- Whether one of the `n` threads from `i` on could not be made.
unfoldable pub creation_fails : (ℕ → Pthread) → ℕ → ℕ → Bool
unfolding create_rt_thread
creation_fails thread zero i = false
creation_fails thread (suc n) i =
    not (eqb_ℤ (create_rt_thread (thread i)) (pos 0)) || creation_fails thread n (suc i)

-- The loop over pthread_join: `waiter_ret` points to the result of the last waiter joined until a
-- result is not 0.
unfoldable pub join_waiters : (ℕ → ℤ) → ℕ → ℕ → ℤ → ℤ
join_waiters ret zero i waiter_ret = waiter_ret
join_waiters ret (suc n) i waiter_ret =
    join_waiters ret n (suc i) (if eqb_ℤ waiter_ret (pos 0) then ret i else waiter_ret)

-- The result after the label `out`, if `ret` is 0 there.
abbrev pub collect : (waiter waker blocker : ℤ) → ℤ
collect waiter waker blocker =
    if not (eqb_ℤ waiter (pos 0))
    then waiter
    else if ltb_ℤ waker (pos 0)
    then waker
    else if not (eqb_ℤ blocker (pos 0))
    then blocker
    else ret_pass

abbrev pub timeout_of : Style → World → Option Timespec
timeout_of s w =
    if eqb_ℤ s.timeout_ns (pos 0) then none else some (timeout_at w.long w.now s.timeout_ns)

abbrev pub waiter_rets : Uapi → Style → World → ℕ → ℤ
waiter_rets u s w i = (waiterfn u (timeout_of s w) (w.waiter i)).ret

abbrev pub blocker_ret : Uapi → Style → World → ℤ
blocker_ret u s w = if s.owner then (third_party_blocker u w.blocker).ret else pos 0

-- All threads that the style asks for could be made.
abbrev pub starts : Style → World → Bool
starts s w =
    (not s.owner || eqb_ℤ (create_rt_thread w.blocker_thread) (pos 0))
    && (not (creation_fails w.waiter_thread thread_max 0)
        && eqb_ℤ (create_rt_thread w.waker_thread) (pos 0))

-- Whether each of the first `n` waiters ends.
unfoldable pub all_end : (ℕ → Bool) → ℕ → Bool
all_end ends zero = true
all_end ends (suc n) = ends n && all_end ends n

-- Whether pthread_join returns for each waiter, and for the blocker if there is one.
abbrev pub joins : Style → World → Bool
joins s w = all_end w.waiter_ends thread_max && (not s.owner || w.blocker_ends)

abbrev pub run_waker : Uapi → Style → World → ℕ → Option Waker
run_waker u s w fuel =
    if s.broadcast
    then broadcast_wakerfn u s.lock w.waker fuel
    else signal_wakerfn u s.lock w.waker fuel

-- `ret` at the label `out`: what clock_gettime returned, or RET_ERROR.
abbrev pub finish : Uapi → Style → World → Waker → ℤ
finish u s w k =
    let ret = if eqb_ℤ s.timeout_ns (pos 0) then ret_pass else w.clock in
    if eqb_ℤ ret (pos 0)
    then collect (join_waiters (waiter_rets u s w) thread_max 0 (pos 0)) k.ret (blocker_ret u s w)
    else ret

abbrev pub joined : Uapi → Style → World → Option Waker → Option ℤ
joined u s w none = none
joined u s w (some k) = some (finish u s w k)

-- With fuel for the waker's loop. `none` means that the fuel has run out or that `unit_test` joins a
-- thread for ever.
unfoldable pub unit_test : Uapi → Style → World → ℕ → Option ℤ
unfolding waiterfn third_party_blocker signal_wakerfn broadcast_wakerfn join_waiters creation_fails
    create_rt_thread timeout_at all_end
unit_test u s w fuel =
    if starts s w
    then (if joins s w then joined u s w (run_waker u s w fuel) else none)
    else some ret_error
