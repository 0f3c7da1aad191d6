-- ===== src/Syscall/Decode.antt =====
-- The kernel's reading of the arguments of SYS_futex, as futex(2) documents it, against the wrappers
-- of include/futextest.h.
use futextest.Common.{
  ℕ, ◌/◌, ◌%◌, ◌-◌, ◌^◌, ◌≡◌, refl, arith, Bool, true, false, Option, none, some, ◌==◌,
  if◌then◌else◌,
}
use futextest.Common.Int.{ℤ, pos, negsuc}
use futextest.Syscall.{
  Uapi, Timespec, Slot, null, timeout, count, Args, futex_wait, futex_wake, futex_wait_bitset,
  futex_wake_bitset, futex_lock_pi, futex_unlock_pi, futex_wake_op, futex_requeue,
  futex_cmp_requeue, futex_wait_requeue_pi, futex_cmp_requeue_pi,
}

-- The values of <linux/futex.h>.
pub record IsLinux (u : Uapi) : Type 0 where
  pub wait_code : u.futex_wait_op ≡ 0
  pub wake_code : u.futex_wake_op ≡ 1
  pub requeue_code : u.futex_requeue_op ≡ 3
  pub cmp_requeue_code : u.futex_cmp_requeue_op ≡ 4
  pub wake_op_code : u.futex_wake_op_op ≡ 5
  pub lock_pi_code : u.futex_lock_pi_op ≡ 6
  pub unlock_pi_code : u.futex_unlock_pi_op ≡ 7
  pub private_flag_code : u.futex_private_flag ≡ 128

abbrev pub linux : Uapi
linux = record {
  futex_wait_op = 0;
  futex_wake_op = 1;
  futex_requeue_op = 3;
  futex_cmp_requeue_op = 4;
  futex_wake_op_op = 5;
  futex_lock_pi_op = 6;
  futex_unlock_pi_op = 7;
  futex_private_flag = 128;
}

linux_lem : {u : Uapi} → IsLinux u → u ≡ linux
linux_lem h = ground arith

-- The operations of futex(2) with their operands. The kernel does not read the `detect` of
-- futex_lock_pi.
pub data Operation : Type 0 where
  wait : (val : ℕ) → Option Timespec → Operation
  wake : (nr : ℤ) → Operation
  requeue : (nr_wake nr_requeue : ℤ) → (target : ℕ) → Operation
  cmp_requeue : (nr_wake nr_requeue : ℤ) → (target expected : ℕ) → Operation
  wake_op : (nr_wake nr_wake2 : ℤ) → (target : ℕ) → (encoded : ℤ) → Operation
  lock_pi : Option Timespec → (detect : ℤ) → Operation
  unlock_pi : Operation
  wait_bitset : (val : ℕ) → Option Timespec → (bitset : ℕ) → Operation
  wake_bitset : (nr : ℤ) → (bitset : ℕ) → Operation
  wait_requeue_pi : (val : ℕ) → Option Timespec → (target : ℕ) → Operation
  cmp_requeue_pi : (nr_wake nr_requeue : ℤ) → (target expected : ℕ) → Operation

-- An operation on a futex, private to the process or shared.
pub record Request : Type 0 where
  pub addr : ℕ
  pub is_private : Bool
  pub operation : Operation

abbrev u32 : ℤ → ℕ
u32 (pos v) = v
u32 (negsuc v) = 2 ^ 32 - 1 - v

abbrev time_of : Slot → Option Timespec
time_of null = none
time_of (timeout t) = some t
time_of (count _) = none

-- With a second address, and with a count in the place of the timeout.
abbrev moving : ℕ → ℤ → ℤ → ℕ → ℤ → Option Operation
moving code nr n target val3 =
    if code == 3
    then some (requeue nr n target)
    else if code == 4
    then some (cmp_requeue nr n target (u32 val3))
    else if code == 5
    then some (wake_op nr n target val3)
    else if code == 12
    then some (cmp_requeue_pi nr n target (u32 val3))
    else none

-- With no second address.
abbrev simple : ℕ → ℤ → Option Timespec → ℤ → Option Operation
simple code val t val3 =
    if code == 0
    then some (wait (u32 val) t)
    else if code == 1
    then some (wake val)
    else if code == 6
    then some (lock_pi t val)
    else if code == 7
    then some unlock_pi
    else if code == 9
    then some (wait_bitset (u32 val) t (u32 val3))
    else if code == 10
    then some (wake_bitset val (u32 val3))
    else none

abbrev operation_of : ℕ → ℤ → Slot → Option ℕ → ℤ → Option Operation
operation_of code val (count n) (some target) val3 = moving code val n target val3
operation_of code val (count n) none val3 = none
operation_of code val slot none val3 = simple code val (time_of slot) val3
operation_of code val slot (some target) val3 =
    if code == 11 then some (wait_requeue_pi (u32 val) (time_of slot) target) else none

abbrev with_operation : ℕ → Bool → Option Operation → Option Request
with_operation a p none = none
with_operation a p (some o) = some (record { addr = a; is_private = p; operation = o })

unfoldable pub decode : Args → Option Request
decode a =
    with_operation a.uaddr (a.op / 128 % 2 == 1)
      (operation_of (a.op % 128) a.val a.slot a.uaddr2 a.val3)

-- The `opflags` of a private or shared call.
abbrev pub flags : Uapi → Bool → ℕ
flags u true = u.futex_private_flag
flags u false = 0

-- The call of a wrapper for each operation.
unfoldable pub issue : Uapi → Request → Args
unfolding futex_wait futex_wake futex_wait_bitset futex_wake_bitset futex_lock_pi futex_unlock_pi
    futex_wake_op futex_requeue futex_cmp_requeue futex_wait_requeue_pi futex_cmp_requeue_pi
issue u r = elim r.operation [
  | wait v t ↦ futex_wait u r.addr v t (flags u r.is_private)
  | wake n ↦ futex_wake u r.addr n (flags u r.is_private)
  | requeue n m b ↦ futex_requeue u r.addr b n m (flags u r.is_private)
  | cmp_requeue n m b v ↦ futex_cmp_requeue u r.addr v b n m (flags u r.is_private)
  | wake_op n m b e ↦ futex_wake_op u r.addr b n m e (flags u r.is_private)
  | lock_pi t d ↦ futex_lock_pi u r.addr t d (flags u r.is_private)
  | unlock_pi ↦ futex_unlock_pi u r.addr (flags u r.is_private)
  | wait_bitset v t b ↦ futex_wait_bitset u r.addr v t b (flags u r.is_private)
  | wake_bitset n b ↦ futex_wake_bitset u r.addr n b (flags u r.is_private)
  | wait_requeue_pi v t b ↦ futex_wait_requeue_pi u r.addr v b t (flags u r.is_private)
  | cmp_requeue_pi n m b v ↦ futex_cmp_requeue_pi u r.addr v b n m (flags u r.is_private)
]

abbrev pub request : ℕ → Bool → Operation → Request
request a p o = record { addr = a; is_private = p; operation = o }

decode-linux :
    (a : ℕ) (p : Bool) (o : Operation) → decode (issue linux (request a p o)) ≡ some (request a p o)
unfolding decode issue
decode-linux a true (wait v none) = refl
decode-linux a false (wait v none) = refl
decode-linux a true (wait v (some t)) = refl
decode-linux a false (wait v (some t)) = refl
decode-linux a true (lock_pi none d) = refl
decode-linux a false (lock_pi none d) = refl
decode-linux a true (lock_pi (some t) d) = refl
decode-linux a false (lock_pi (some t) d) = refl
decode-linux a true (wait_bitset v none b) = refl
decode-linux a false (wait_bitset v none b) = refl
decode-linux a true (wait_bitset v (some t) b) = refl
decode-linux a false (wait_bitset v (some t) b) = refl
decode-linux a true (wait_requeue_pi v none b) = refl
decode-linux a false (wait_requeue_pi v none b) = refl
decode-linux a true (wait_requeue_pi v (some t) b) = refl
decode-linux a false (wait_requeue_pi v (some t) b) = refl
decode-linux a true _ = refl
decode-linux a false _ = refl

-- The kernel reads the arguments that each of the eleven wrappers passes as the operation of its
-- name: every operand is in its place, no two wrappers are confused, and the operation is private
-- exactly when `opflags` is FUTEX_PRIVATE_FLAG and not 0.
pub decode-issue : (u : Uapi) → IsLinux u → (r : Request) → decode (issue u r) ≡ some r
decode-issue u h r = rw (linux_lem h) (decode-linux r.addr r.is_private r.operation)
