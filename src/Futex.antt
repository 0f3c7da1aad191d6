-- ===== src/Futex.antt =====
-- include/futextest.h, the operations on a futex word in user space: `futex_t` is a number below
-- 2 ^ 32, and an operation takes the word and gives the new word with the value returned.
pub mod Atomic
pub mod Laws
use futextest.Common.{ℕ, ◌+◌, ◌-◌, ◌%◌, ◌==◌, if◌then◌else◌}
use futextest.Word.{u32_mod}

-- FUTEX_INITIALIZER
abbrev pub futex_initializer : ℕ
futex_initializer = 0

-- What gcc's atomic builtins do to a word: __sync_val_compare_and_swap, and the two that give the
-- new value, __sync_add_and_fetch and __sync_sub_and_fetch.
abbrev pub val_compare_and_swap : ℕ → ℕ → ℕ → ℕ × ℕ
val_compare_and_swap word old new = (if word == old then new else word, word)

abbrev pub add_and_fetch : ℕ → ℕ → ℕ × ℕ
add_and_fetch word k = let v = (word + k) % u32_mod in (v, v)

abbrev pub sub_and_fetch : ℕ → ℕ → ℕ × ℕ
sub_and_fetch word k = let v = (word + u32_mod - k) % u32_mod in (v, v)

unfoldable pub futex_cmpxchg : ℕ → ℕ → ℕ → ℕ × ℕ
futex_cmpxchg word oldval newval = val_compare_and_swap word oldval newval

unfoldable pub futex_dec : ℕ → ℕ × ℕ
futex_dec word = sub_and_fetch word 1

unfoldable pub futex_inc : ℕ → ℕ × ℕ
futex_inc word = add_and_fetch word 1

unfoldable pub futex_set : ℕ → ℕ → ℕ × ℕ
futex_set word newval = (newval, newval)
