-- ===== src/Futex/Atomic.antt =====
-- include/atomic.h: `atomic_t`, a signed counter, over gcc's atomic builtins.
use futextest.Common.{if◌then◌else◌}
use futextest.Common.Int.{ℤ, pos, negsuc, ◌+ℤ◌, eqb_ℤ}
use futextest.Word.{to_u32, to_int}

pub record AtomicT : Type 0 where
  pub val : ℤ

-- ATOMIC_INITIALIZER
abbrev pub atomic_initializer : AtomicT
atomic_initializer = record { val = pos 0 }

-- The builtins add in two's complement, so a sum wraps to an `int`.
abbrev wrap : ℤ → ℤ
wrap x = to_int (to_u32 x)

unfoldable pub atomic_cmpxchg : AtomicT → ℤ → ℤ → AtomicT × ℤ
atomic_cmpxchg addr oldval newval =
    (record { val = if eqb_ℤ addr.val oldval then newval else addr.val }, addr.val)

unfoldable pub atomic_inc : AtomicT → AtomicT × ℤ
atomic_inc addr = let v = wrap (addr.val +ℤ pos 1) in (record { val = v }, v)

unfoldable pub atomic_dec : AtomicT → AtomicT × ℤ
atomic_dec addr = let v = wrap (addr.val +ℤ negsuc 0) in (record { val = v }, v)

unfoldable pub atomic_set : AtomicT → ℤ → AtomicT × ℤ
atomic_set addr newval = (record { val = newval }, newval)
