-- ===== src/Common/Family.antt =====
-- Families indexed by thread: the change of one member, and sums over the first `n` members.
use Prim.Native.Nat.{ℕ, zero, suc, ◌+◌, ◌≤◌, ◌<◌}
use mathlib.Core.Path.{◌≡◌, refl}
use mathlib.Core.Logic.{◌≢◌, ite}
use native.Mathlib.Decide.{dec_lt, ℕ_discrete}
use native.Mathlib.Omega.{arith}

abbrev pub update {ℓ} : {A : Type ℓ} → (ℕ → A) → ℕ → A → ℕ → A
update f i a j = ite (ℕ_discrete i j) a (f j)

unfoldable pub total : ℕ → (ℕ → ℕ) → ℕ
total zero f = 0
total (suc n) f = total n f + f n

pub total_same : (n : ℕ) (f g : ℕ → ℕ) → ((j : ℕ) → j < n → g j ≡ f j) → total n g ≡ total n f
unfolding total
total_same zero f g h = refl
total_same (suc n) f g h =
    omega (arith, total_same n f g (λ j lt. h j (omega arith)), h n (omega arith))

-- Two families that differ at `i` only.
pub total_change :
    (n : ℕ) (f g : ℕ → ℕ) (i : ℕ)
    → i < n
    → ((j : ℕ) → j ≢ i → g j ≡ f j)
    → total n g + f i ≡ total n f + g i
unfolding total
total_change zero f g i lt h = absurd (omega arith)
total_change (suc n) f g i lt h = elim (dec_lt i n) [
  | yes below ↦ omega (arith, total_change n f g i below h, h n (omega arith))
  | no last ↦
      let e : i ≡ n = omega arith in
      let same : total n g ≡ total n f = total_same n f g (λ j below. h j (omega arith)) in
      rw e (omega (arith, same))
]

pub total_mono : (n : ℕ) (f g : ℕ → ℕ) → ((j : ℕ) → j < n → f j ≤ g j) → total n f ≤ total n g
unfolding total
total_mono zero f g h = omega arith
total_mono (suc n) f g h =
    omega (arith, total_mono n f g (λ j lt. h j (omega arith)), h n (omega arith))

-- A member is at most the sum, and two members are together at most the sum.
pub total_member : (n : ℕ) (f : ℕ → ℕ) (i : ℕ) → i < n → f i ≤ total n f
unfolding total
total_member zero f i lt = absurd (omega arith)
total_member (suc n) f i lt = elim (dec_lt i n) [
  | yes below ↦ omega (arith, total_member n f i below)
  | no last ↦ let e : i ≡ n = omega arith in rw e (omega arith)
]

pub total_members : (n : ℕ) (f : ℕ → ℕ) (i j : ℕ) → i < n → j < n → i ≢ j → f i + f j ≤ total n f
unfolding total
total_members zero f i j li lj ne = absurd (omega arith)
total_members (suc n) f i j li lj ne = elim (dec_lt i n) [
  | yes below ↦ elim (dec_lt j n) [
    | yes below' ↦ omega (arith, total_members n f i j below below' ne)
    | no last ↦ let e : j ≡ n = omega arith in rw e (omega (arith, total_member n f i below))
  ]
  | no last ↦ let e : i ≡ n = omega arith in rw e (omega (arith, total_member n f j (omega arith)))
]

-- A sum that is not 0 has a member that is not 0.
pub total_exists : (n : ℕ) (f : ℕ → ℕ) → 0 < total n f → (i : ℕ) × (i < n) × (0 < f i)
unfolding total
total_exists zero f h = absurd (omega arith)
total_exists (suc n) f h = elim (dec_lt 0 (f n)) [
  | yes here ↦ (n, omega arith, here)
  | no above ↦ let (i, lt, p) = total_exists n f (omega arith) in (i, omega arith, p)
]

pub total_zero : (n : ℕ) (f : ℕ → ℕ) → ((j : ℕ) → j < n → f j ≡ 0) → total n f ≡ 0
unfolding total
total_zero zero f h = refl
total_zero (suc n) f h =
    omega (arith, total_zero n f (λ j lt. h j (omega arith)), h n (omega arith))

-- With members of at most 1 the sum is at most the number of members.
pub total-le : (n : ℕ) (f : ℕ → ℕ) → ((j : ℕ) → f j ≤ 1) → total n f ≤ n
unfolding total
total-le zero f h = omega arith
total-le (suc n) f h = omega (arith, total-le n f h, h n)

pub total_ones : (n : ℕ) (f : ℕ → ℕ) → ((j : ℕ) → j < n → f j ≡ 1) → total n f ≡ n
unfolding total
total_ones zero f h = refl
total_ones (suc n) f h =
    omega (arith, total_ones n f (λ j lt. h j (omega arith)), h n (omega arith))

-- Members of at most 1 are all 1 when the sum is the number of members.
pub total_full :
    (n : ℕ) (f : ℕ → ℕ) → ((j : ℕ) → f j ≤ 1) → n ≤ total n f → (i : ℕ) → i < n → f i ≡ 1
unfolding total
total_full zero f h full i lt = absurd (omega arith)
total_full (suc n) f h full i lt = elim (dec_lt i n) [
  | yes below ↦ total_full n f h (omega (arith, h n)) i below
  | no last ↦ let e : i ≡ n = omega arith in rw e (omega (arith, h n, total-le n f h))
]

pub total_pairs :
    (n : ℕ) (f g k l : ℕ → ℕ)
    → ((j : ℕ) → j < n → f j + g j ≡ k j + l j)
    → total n f + total n g ≡ total n k + total n l
unfolding total
total_pairs zero f g k l h = refl
total_pairs (suc n) f g k l h =
    omega (arith, total_pairs n f g k l (λ j lt. h j (omega arith)), h n (omega arith))
