-- ===== src/Pi/Kernel.antt =====
-- The kernel calls on f1 and on the PI futex f2, which are not part of the repository: what the kernel
-- chooses when it requeues waiters or hands f2 over is a parameter, with the documented behaviour of
-- FUTEX_CMP_REQUEUE_PI and FUTEX_UNLOCK_PI as laws.
use futextest.Common.{
  ℕ, ◌+◌, ◌<◌, ◌≡◌, ◌≢◌, ◌⊎◌, Bool, true, false, Option, none, some, update, total, if◌then◌else◌,
}

-- Who holds f2, and who sleeps in a wait on f1 and in a wait for f2.
pub record Pi : Type 0 where
  pub owner : Option ℕ
  pub on_f1 : ℕ → Bool
  pub on_f2 : ℕ → Bool

pub record PiKernel : Type 1 where
  -- FUTEX_CMP_REQUEUE_PI with nr_wake 1 and `nr_requeue` may make the second state of the first, and
  -- return `count`.
  pub Requeues : (nr_requeue : ℕ) → (before after : Pi) → (count : ℕ) → Type 0
  -- FUTEX_UNLOCK_PI by the owner may make the second state of the first.
  pub Unlocks : (before after : Pi) → Type 0

abbrev pub one_if : Bool → ℕ
one_if b = if b then 1 else 0

-- A free f2 goes to one of the waiters that leave f1, and the others that leave it wait for f2; the
-- count is their number.
pub record Requeued (p q : Pi) (count : ℕ) : Type 0 where
  pub fewer : (j : ℕ) → q.on_f1 j ≡ true → p.on_f1 j ≡ true
  pub moved :
      (j : ℕ)
      → p.on_f1 j ≡ true
      → q.on_f1 j ≡ false
      → (q.on_f2 j ≡ true) ⊎ ((q.owner ≡ some j) × (p.owner ≡ none))
  pub kept : (j : ℕ) → p.on_f2 j ≡ true → q.on_f2 j ≡ true
  pub only :
      (j : ℕ)
      → q.on_f2 j ≡ true
      → (p.on_f2 j ≡ true) ⊎ ((p.on_f1 j ≡ true) × (q.on_f1 j ≡ false) × (q.owner ≢ some j))
  pub held : (i : ℕ) → p.owner ≡ some i → q.owner ≡ some i
  pub taken : (i : ℕ) → p.owner ≡ none → q.owner ≡ some i → (p.on_f1 i ≡ true) × (q.on_f1 i ≡ false)
  pub left : p.owner ≡ none → q.owner ≡ none → (j : ℕ) → q.on_f1 j ≡ p.on_f1 j
  pub counted :
      (n : ℕ)
      → ((j : ℕ) → p.on_f1 j ≡ true → j < n)
      → count + total n (λ j. one_if (q.on_f1 j)) ≡ total n (λ j. one_if (p.on_f1 j))

-- f2 goes to a thread that waits for it, and is free if there is none.
pub record Unlocked (p q : Pi) : Type 0 where
  pub same : (j : ℕ) → q.on_f1 j ≡ p.on_f1 j
  pub next :
      ((q.owner ≡ none) × ((j : ℕ) → (p.on_f2 j ≡ false) × (q.on_f2 j ≡ false)))
      ⊎ ((i : ℕ) × (q.owner ≡ some i)
          × (p.on_f2 i ≡ true)
          × ((j : ℕ) → q.on_f2 j ≡ update p.on_f2 i false j))

-- futex(2)
pub record IsPi (k : PiKernel) : Type 0 where
  pub requeued : {nr : ℕ} {p q : Pi} {count : ℕ} → k.Requeues nr p q count → Requeued p q count
  pub unlocked : {p q : Pi} → k.Unlocks p q → Unlocked p q
