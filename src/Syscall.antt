-- ===== src/Syscall.antt =====
-- include/futextest.h, the wrappers of SYS_futex: the six arguments that each of them passes. The
-- op codes of <linux/futex.h> are a parameter; those that the header itself defines are numerals.
pub mod Decode
use futextest.Common.{ℕ, Bool, Option, none, some, bit_or}
use futextest.Common.Int.{ℤ, pos}

-- The op codes that the header takes from <linux/futex.h>.
pub record Uapi : Type 0 where
  pub futex_wait_op : ℕ
  pub futex_wake_op : ℕ
  pub futex_requeue_op : ℕ
  pub futex_cmp_requeue_op : ℕ
  pub futex_wake_op_op : ℕ
  pub futex_lock_pi_op : ℕ
  pub futex_unlock_pi_op : ℕ
  pub futex_private_flag : ℕ

-- The codes that the header defines itself where the system's header is older.
abbrev pub futex_wait_bitset_op : ℕ
futex_wait_bitset_op = 9

abbrev pub futex_wake_bitset_op : ℕ
futex_wake_bitset_op = 10

abbrev pub futex_wait_requeue_pi_op : ℕ
futex_wait_requeue_pi_op = 11

abbrev pub futex_cmp_requeue_pi_op : ℕ
futex_cmp_requeue_pi_op = 12

-- `struct timespec`
pub record Timespec : Type 0 where
  pub tv_sec : ℤ
  pub tv_nsec : ℤ

-- The fourth argument is a pointer to a timeout, or a count for some operations.
pub data Slot : Type 0 where
  null : Slot
  timeout : Timespec → Slot
  count : ℤ → Slot

abbrev pub slot_of : Option Timespec → Slot
slot_of none = null
slot_of (some t) = timeout t

-- The arguments of syscall(SYS_futex, ...); addresses are numbers, and NULL is `none`.
pub record Args : Type 0 where
  pub uaddr : ℕ
  pub op : ℕ
  pub val : ℤ
  pub slot : Slot
  pub uaddr2 : Option ℕ
  pub val3 : ℤ

-- The macro `futex`.
unfoldable pub futex : ℕ → ℕ → ℤ → Slot → Option ℕ → ℤ → ℕ → Args
futex uaddr op val slot uaddr2 val3 opflags = record {
  uaddr = uaddr;
  op = bit_or op opflags;
  val = val;
  slot = slot;
  uaddr2 = uaddr2;
  val3 = val3;
}

module _ (u : Uapi) where
  unfoldable pub futex_wait : ℕ → ℕ → Option Timespec → ℕ → Args
  unfolding futex
  futex_wait uaddr val t opflags =
      futex uaddr u.futex_wait_op (pos val) (slot_of t) none (pos 0) opflags

  unfoldable pub futex_wake : ℕ → ℤ → ℕ → Args
  unfolding futex
  futex_wake uaddr nr_wake opflags = futex uaddr u.futex_wake_op nr_wake null none (pos 0) opflags

  unfoldable pub futex_wait_bitset : ℕ → ℕ → Option Timespec → ℕ → ℕ → Args
  unfolding futex
  futex_wait_bitset uaddr val t bitset opflags =
      futex uaddr futex_wait_bitset_op (pos val) (slot_of t) none (pos bitset) opflags

  unfoldable pub futex_wake_bitset : ℕ → ℤ → ℕ → ℕ → Args
  unfolding futex
  futex_wake_bitset uaddr nr_wake bitset opflags =
      futex uaddr futex_wake_bitset_op nr_wake null none (pos bitset) opflags

  unfoldable pub futex_lock_pi : ℕ → Option Timespec → ℤ → ℕ → Args
  unfolding futex
  futex_lock_pi uaddr t detect opflags =
      futex uaddr u.futex_lock_pi_op detect (slot_of t) none (pos 0) opflags

  unfoldable pub futex_unlock_pi : ℕ → ℕ → Args
  unfolding futex
  futex_unlock_pi uaddr opflags = futex uaddr u.futex_unlock_pi_op (pos 0) null none (pos 0) opflags

  unfoldable pub futex_wake_op : ℕ → ℕ → ℤ → ℤ → ℤ → ℕ → Args
  unfolding futex
  futex_wake_op uaddr uaddr2 nr_wake nr_wake2 wake_op opflags =
      futex uaddr u.futex_wake_op_op nr_wake (count nr_wake2) (some uaddr2) wake_op opflags

  unfoldable pub futex_requeue : ℕ → ℕ → ℤ → ℤ → ℕ → Args
  unfolding futex
  futex_requeue uaddr uaddr2 nr_wake nr_requeue opflags =
      futex uaddr u.futex_requeue_op nr_wake (count nr_requeue) (some uaddr2) (pos 0) opflags

  unfoldable pub futex_cmp_requeue : ℕ → ℕ → ℕ → ℤ → ℤ → ℕ → Args
  unfolding futex
  futex_cmp_requeue uaddr val uaddr2 nr_wake nr_requeue opflags =
      futex uaddr u.futex_cmp_requeue_op nr_wake (count nr_requeue) (some uaddr2) (pos val) opflags

  unfoldable pub futex_wait_requeue_pi : ℕ → ℕ → ℕ → Option Timespec → ℕ → Args
  unfolding futex
  futex_wait_requeue_pi uaddr val uaddr2 t opflags =
      futex uaddr futex_wait_requeue_pi_op (pos val) (slot_of t) (some uaddr2) (pos 0) opflags

  unfoldable pub futex_cmp_requeue_pi : ℕ → ℕ → ℕ → ℤ → ℤ → ℕ → Args
  unfolding futex
  futex_cmp_requeue_pi uaddr val uaddr2 nr_wake nr_requeue opflags =
      futex uaddr futex_cmp_requeue_pi_op nr_wake (count nr_requeue) (some uaddr2) (pos val) opflags
