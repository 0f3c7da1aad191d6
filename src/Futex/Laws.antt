-- ===== src/Futex/Laws.antt =====
-- Laws of the atomic operations of include/futextest.h and include/atomic.h.
use futextest.Common.{ℕ, ◌<◌, ◌≤◌, ◌+◌, ◌≡◌, arith, ap, subst, refl, ◌≢◌, ◌⊎◌, inl, inr}
use futextest.Common.Int.{ℤ, pos, negsuc, ◌+ℤ◌, eqb_lem}
use futextest.Word.{u32_mod, to_u32, to_int, IsInt, to_int-IsInt, to_u32-lt, int_max, to_int-to_u32}
use futextest.Futex.{futex_inc, futex_dec, futex_cmpxchg, futex_set}
use futextest.Futex.Atomic.{AtomicT, atomic_inc, atomic_dec, atomic_cmpxchg, atomic_set}

-- The word after `w` : one more, and 0 after the largest.
abbrev pub IsNext : ℕ → ℕ → Type 0
IsNext w v = ((1 + w < u32_mod) × (v ≡ 1 + w)) ⊎ ((1 + w ≡ u32_mod) × (v ≡ 0))

inc-IsNext : (w : ℕ) → w < u32_mod → IsNext w (futex_inc w).0
unfolding futex_inc
inc-IsNext w h = omega arith

dec-IsNext : (w : ℕ) → w < u32_mod → IsNext (futex_dec w).0 w
unfolding futex_dec
dec-IsNext w h = omega arith

-- On every word below 2 ^ 32 futex_inc stores the word after it, 0 after the largest, and futex_dec
-- the word before it; futex_cmpxchg stores the new value exactly if the word is the old one, and
-- futex_set always. futex_cmpxchg returns the old word, the other three the word they have stored.
pub word_ops_return :
    (w oldval newval : ℕ)
    → w < u32_mod
    → (IsNext w (futex_inc w).0 × ((futex_inc w).1 ≡ (futex_inc w).0))
      × (IsNext (futex_dec w).0 w × ((futex_dec w).1 ≡ (futex_dec w).0))
      × ((w ≡ oldval → (futex_cmpxchg w oldval newval).0 ≡ newval)
          × (w ≢ oldval → (futex_cmpxchg w oldval newval).0 ≡ w)
          × ((futex_cmpxchg w oldval newval).1 ≡ w))
      × (((futex_set w newval).0 ≡ newval) × ((futex_set w newval).1 ≡ newval))
unfolding futex_inc futex_dec futex_cmpxchg futex_set
word_ops_return w oldval newval h = (
  (inc-IsNext w h, refl),
  (dec-IsNext w h, refl),
  (λ e. ground arith, λ e. ground arith, refl),
  (refl, refl),
)

wrap_sum-IsInt : (x : ℤ) → IsInt (to_int (to_u32 x))
wrap_sum-IsInt x = to_int-IsInt (to_u32 x) (to_u32-lt x)

inc_dec : (x : ℤ) → IsInt x → to_int (to_u32 (to_int (to_u32 (x +ℤ negsuc 0)) +ℤ pos 1)) ≡ x
unfolding to_int to_u32 ◌+ℤ◌
inc_dec (pos n) h = ground arith
inc_dec (negsuc n) h = ground arith

-- The `int` after `x` : one more, and INT_MIN after INT_MAX.
abbrev pub IsNextInt : ℤ → ℤ → Type 0
IsNextInt x y = ((x ≢ pos int_max) × (y ≡ x +ℤ pos 1)) ⊎ ((x ≡ pos int_max) × (y ≡ negsuc int_max))

below_or_at : (n : ℕ) → n ≤ int_max → (n < int_max) ⊎ (n ≡ int_max)
below_or_at n h = omega arith

next-IsInt : (x : ℤ) → IsInt x → x ≢ pos int_max → IsInt (x +ℤ pos 1)
unfolding ◌+ℤ◌
next-IsInt (pos n) h other =
    let below : n < int_max = elim (below_or_at n (omega arith)) [
      | inl lt ↦ lt
      | inr e ↦ absurd (other (ap pos e))
    ] in
    (ground arith)
next-IsInt (negsuc n) h other = ground arith

wrap_next : (x : ℤ) → IsInt x → IsNextInt x (to_int (to_u32 (x +ℤ pos 1)))
unfolding to_int to_u32 ◌+ℤ◌
wrap_next x h = elim (eqb_lem x (pos int_max)) [
  | inl (_, e) ↦ inr (e, rw e refl)
  | inr (_, other) ↦ inl (other, to_int-to_u32 (x +ℤ pos 1) (next-IsInt x h other))
]

-- On every `int` atomic_inc stores the `int` after it, INT_MIN after INT_MAX, and atomic_dec the `int`
-- before it; atomic_cmpxchg stores the new value exactly if the counter is the old one, and atomic_set
-- always. atomic_cmpxchg returns the old counter, the other three the `int` they have stored.
pub counter_ops_return :
    (a : AtomicT) (oldval newval : ℤ)
    → IsInt a.val
    → (IsNextInt a.val (atomic_inc a).0.val × ((atomic_inc a).1 ≡ (atomic_inc a).0.val))
      × (IsNextInt (atomic_dec a).0.val a.val × ((atomic_dec a).1 ≡ (atomic_dec a).0.val))
      × ((a.val ≡ oldval → (atomic_cmpxchg a oldval newval).0.val ≡ newval)
          × (a.val ≢ oldval → (atomic_cmpxchg a oldval newval).0.val ≡ a.val)
          × ((atomic_cmpxchg a oldval newval).1 ≡ a.val))
      × (((atomic_set a newval).0.val ≡ newval) × ((atomic_set a newval).1 ≡ newval))
unfolding atomic_inc atomic_dec atomic_cmpxchg atomic_set
counter_ops_return a oldval newval h = (
  (wrap_next a.val h, refl),
  (
    subst (IsNextInt (to_int (to_u32 (a.val +ℤ negsuc 0)))) (inc_dec a.val h)
        (wrap_next _ (wrap_sum-IsInt _)),
    refl,
  ),
  (
    λ e. elim (eqb_lem a.val oldval) [ inl (t, _) ↦ rw t refl | inr (_, other) ↦ absurd (other e) ],
    λ e. elim (eqb_lem a.val oldval) [ inl (_, same) ↦ absurd (e same) | inr (t, _) ↦ rw t refl ],
    refl,
  ),
  (refl, refl),
)
