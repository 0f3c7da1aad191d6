-- ===== src/Kernel.antt =====
-- The futex system call, which is not part of the repository: its blocking operations are a
-- parameter, with the documented behaviour of FUTEX_WAIT and FUTEX_WAKE as laws.
pub mod Plain
use futextest.Common.{ℕ, ◌≤◌, ◌≡◌, ◌≢◌, Bool, true, not, ◌&&◌, if◌then◌else◌, total}

-- The threads that sleep on one futex.
abbrev pub Sleepers : Type 0
Sleepers = ℕ → Bool

pub record Kernel : Type 1 where
  -- FUTEX_WAIT may put the caller to sleep when the futex holds `word` and `val` is expected.
  pub Blocks : (word val : ℕ) → Type 0
  -- FUTEX_WAIT may return at once.
  pub Refuses : (word val : ℕ) → Type 0
  -- FUTEX_WAKE of at most `nr_wake` threads may leave `after` of `before` asleep.
  pub Wakes : (nr_wake : ℕ) → (before after : Sleepers) → Type 0
  -- A signal or a spurious wakeup may leave `after` of `before` asleep.
  pub Disturbs : (before after : Sleepers) → Type 0

abbrev pub woken : Sleepers → Sleepers → ℕ → ℕ
woken before after i = if before i && not (after i) then 1 else 0

-- futex(2): FUTEX_WAIT sleeps only if the word has the expected value; FUTEX_WAKE wakes at most
-- `nr_wake` sleepers, and fewer only if there are no more; nobody falls asleep by either kind of
-- wakeup.
pub record IsFutex (k : Kernel) : Type 0 where
  pub blocks_equal : (word val : ℕ) → k.Blocks word val → word ≡ val
  pub refuses_unequal : (word val : ℕ) → word ≢ val → k.Refuses word val
  pub wakes_asleep :
      {nr : ℕ} {before after : Sleepers}
      → k.Wakes nr before after
      → (i : ℕ) → after i ≡ true
      → before i ≡ true
  pub wakes_at_most :
      {nr : ℕ} {before after : Sleepers}
      → k.Wakes nr before after
      → (n : ℕ) → total n (woken before after) ≤ nr
  pub wakes_enough :
      {nr : ℕ} {before after : Sleepers}
      → k.Wakes nr before after
      → (i : ℕ) → after i ≡ true
      → (n : ℕ) × (nr ≤ total n (woken before after))
  pub disturbs_asleep :
      {before after : Sleepers}
      → k.Disturbs before after
      → (i : ℕ) → after i ≡ true
      → before i ≡ true
