-- ===== src/Mutex/Invariant/Changes.antt =====
-- How one thread's step in performance/futex_wait.c changes the sums of the lock's invariant.
use futextest.Common.{
  ℕ, ◌+◌, ◌≤◌, ◌<◌, ◌≡◌, ◌≢◌, ◌⊎◌, true, false, min, refl, arith, update, total_change,
  total_members, total_mono, ℕ_discrete,
}
use mathlib.Core.Logic.{if_pos, if_neg}
use futextest.Kernel.{Sleepers}
use futextest.Machine.{Thread, running, waiting}
use futextest.Mutex.{Pc, unlock_marked}
use futextest.Mutex.Counts.{holds, helps, sleeps}
use futextest.Mutex.Invariant.Defs.{Inv, holders, helpers, sleepers, MarkedThread, IsWaiter}

-- What a step of thread `i` from `c` to `c'` gives, but for the sleepers that it leaves.
pub record Moved (w : ℕ) (c : Thread Pc) (w' : ℕ) (c' : Thread Pc) : Type 0 where
  pub small : w' ≤ 2
  pub owned : min w' 1 + holds c ≡ min w 1 + holds c'
  pub marked : MarkedThread c' w'
  pub kept : w ≡ 2 → (w' ≡ 2) ⊎ (holds c ≡ 1)

still_marked :
    {w w' : ℕ} (c d : Thread Pc)
    → (w ≡ 2 → (w' ≡ 2) ⊎ (holds c ≡ 1))
    → holds c + holds d ≤ 1
    → MarkedThread d w
    → MarkedThread d w'
still_marked c (running (unlock_marked k)) kept one m = ground arith
still_marked c (running _) kept one m = ground arith
still_marked c (waiting _) kept one m = tt

module _ {n w : ℕ} {q : Sleepers} {t : ℕ → Thread Pc} (inv : Inv n w q t) where
  -- Sleepers that leave the queue keep the invariant: they help.
  pub shrink-Inv : {q' : Sleepers} → ((i : ℕ) → q' i ≡ true → q i ≡ true) → Inv n w q' t
  shrink-Inv {q'} sub = record {
    small = inv.small;
    owned = inv.owned;
    marked = inv.marked;
    asleep = λ i e. inv.asleep i (sub i e);
    covered = λ h.
        let fewer : sleepers n q' ≤ sleepers n q =
          total_mono n _ _ (λ j _. ground (arith, sub j)) in
        let more : helpers n t q ≤ helpers n t q' =
          total_mono n _ _ (λ j _. ground (arith, sub j)) in
        ground (arith, inv.covered (omega arith), more);
  }

  module _ (i : ℕ) (lt : i < n) where
    holders_change :
        (c' : Thread Pc) → holders n (update t i c') + holds (t i) ≡ holders n t + holds c'
    holders_change c' = ground (
      arith,
      total_change n (λ j. holds (t j)) (λ j. holds (update t i c' j)) i lt (λ j ne. ground arith),
    )

    holders_pair : (j : ℕ) → j < n → i ≢ j → holds (t i) + holds (t j) ≤ 1
    holders_pair j below ne =
        omega (arith, total_members n (λ j. holds (t j)) i j lt below ne, inv.owned)

    module _ {q' : Sleepers} (agree : (j : ℕ) → j ≢ i → q' j ≡ q j) where
      pub helpers_change :
          (c' : Thread Pc)
          → helpers n (update t i c') q' + helps (t i) (q i) ≡ helpers n t q + helps c' (q' i)
      helpers_change c' = ground (
        arith,
        total_change n (λ j. helps (t j) (q j)) (λ j. helps (update t i c' j) (q' j)) i lt
            (λ j ne. ground (arith, agree j)),
      )

      pub sleepers_change : sleepers n q' + sleeps (q i) ≡ sleepers n q + sleeps (q' i)
      sleepers_change =
          total_change n (λ j. sleeps (q j)) (λ j. sleeps (q' j)) i lt
            (λ j ne. ground (arith, agree j))

    module _ {w' : ℕ} {c' : Thread Pc} (mv : Moved w (t i) w' c') where
      pub moved-owned : holders n (update t i c') ≡ min w' 1
      moved-owned = omega (arith, holders_change c', inv.owned, mv.owned)

      pub moved-marked : (j : ℕ) → j < n → MarkedThread (update t i c' j) w'
      moved-marked j below = elim (ℕ_discrete i j) [
        | yes e ↦ rw (if_pos _ e) mv.marked
        | no ne ↦
            rw (if_neg _ ne)
              (still_marked (t i) (t j) mv.kept (holders_pair j below ne) (inv.marked j below))
      ]

      -- A thread that was running and is now at `c'`, with the queue as it was.
      module _ (awake : q i ≡ false) where
        moved-asleep : (j : ℕ) → q j ≡ true → IsWaiter n (update t i c' j) j
        moved-asleep j e = ground (arith, inv.asleep j)

        pub moved-Inv :
            (helps (t i) (q i) ≤ helps c' (q i)) ⊎ (w' ≡ 2)
            → (w ≡ 2 → (w' ≡ 2) ⊎ (helps c' (q i) ≡ 1))
            → Inv n w' q (update t i c')
        moved-Inv helped kept = record {
          small = mv.small;
          owned = moved-owned;
          marked = moved-marked;
          asleep = moved-asleep;
          covered = λ h. ground (arith, inv.covered h, helpers_change (λ j _. refl) c');
        }
