-- ===== src/Kernel/Plain.antt =====
-- A kernel that meets the documented behaviour: FUTEX_WAKE wakes the sleepers of the lowest numbers.
use futextest.Common.{
  ℕ, zero, suc, ◌≤◌, ◌≡◌, ◌≢◌, true, ◌&&◌, min, arith, leb, if◌then◌else◌, total, subst,
}
use futextest.Kernel.{Kernel, IsFutex, Sleepers, woken}

asleep : Sleepers → ℕ → ℕ
asleep q i = if q i then 1 else 0

-- Sleeper `i` stays when there are `nr_wake` sleepers before it.
unfoldable pub wake_first : ℕ → Sleepers → Sleepers
unfolding asleep total
wake_first nr_wake q i = q i && leb nr_wake (total i (asleep q))

abbrev pub plain : Kernel
plain = record {
  Blocks = λ word val. word ≡ val;
  Refuses = λ word val. word ≢ val;
  Wakes = λ nr before after. after ≡ wake_first nr before;
  Disturbs = λ before after. after ≡ wake_first 1 before;
}

total-woken :
    (nr : ℕ) (q : Sleepers) (n : ℕ)
    → total n (woken q (wake_first nr q)) ≡ min nr (total n (asleep q))
unfolding total asleep wake_first
total-woken nr q zero = omega arith
total-woken nr q (suc n) = ground (arith, total-woken nr q n)

stays :
    (nr : ℕ) (q : Sleepers) (i : ℕ)
    → wake_first nr q i ≡ true
    → (q i ≡ true) × (nr ≤ total i (asleep q))
unfolding wake_first
stays nr q i e = ground arith

pub plain-IsFutex : IsFutex plain
plain-IsFutex = record {
  blocks_equal = λ word val e. e;
  refuses_unequal = λ word val ne. ne;
  wakes_asleep = λ {nr} {before} {after} w i e. (stays nr before i (subst (λ a. a i ≡ true) w e)).0;
  wakes_at_most = λ {nr} {before} {after} w n. rw w (omega (arith, total-woken nr before n));
  wakes_enough = λ {nr} {before} {after} w i e. (
    i,
    rw w (
        omega
          (arith, total-woken nr before i, (stays nr before i (subst (λ a. a i ≡ true) w e)).1)),
  );
  disturbs_asleep = λ {before} {after} w i e. (stays 1 before i (subst (λ a. a i ≡ true) w e)).0;
}
