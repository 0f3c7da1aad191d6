-- ===== src/Barrier/Sleep.antt =====
-- The barrier of performance/harness.h: its accesses and its wakeups, as they concern sleepers.
use futextest.Machine.{perform, IsLocal}
use futextest.Barrier.{unblock_store, unblock_wake, opened, wait_load, wait_wait}
use futextest.Barrier.{
  threads, unblock, sync_test, sync_wake, unblock_wake, Pc, ℕ, update, Memory, access, wait, wake,
  resume, sync_wait, int_max, wait_wait,
}
use futextest.Barrier.Rules.{WorkerOk, MainOk}
use futextest.Kernel.{Sleepers, Kernel, IsFutex, woken}
use futextest.Common.{
  refl, zero, suc, ◌≡◌, false, ◌⊎◌, ◌<◌, ◌≤◌, ◌≢◌, total, subst, arith, sym, true, suc, Bool-cases,
  dec_lt, ℕ_discrete, inl, total-le, total_exists, inr,
}
use mathlib.Core.Logic.{if_neg, if_pos}

-- The worker will wake the main thread if `threads` is 0.
abbrev pub wakes : Pc → ℕ
wakes sync_test = 1
wakes sync_wake = 1
wakes _ = 0

abbrev pub IsOpening : Pc → Type 0
IsOpening unblock_wake = Unit {0}
IsOpening _ = ⊥

abbrev pub IsEmpty : Sleepers → Type 0
IsEmpty q = (j : ℕ) → q j ≡ false

pub queue_other :
    (q : ℕ → Sleepers) (b a : ℕ) (r : Sleepers) → b ≢ a → IsEmpty (q a) → IsEmpty (update q b r a)
queue_other q b a r ne h j =
    subst (λ f. f j ≡ false) (sym (if_neg (ℕ_discrete b a) ne r (q a))) (h j)

pub queue_same :
    (q : ℕ → Sleepers) (b a : ℕ) (r : Sleepers) → b ≡ a → IsEmpty r → IsEmpty (update q b r a)
queue_same q b a r e h j = subst (λ f. f j ≡ false) (sym (if_pos (ℕ_discrete b a) e r (q a))) (h j)

module _ (value : ℕ) where
  pub act_wakes :
      (c : Pc) (m : Memory) (u : ℕ)
      → IsLocal (access value c)
      → WorkerOk u c
      → let (m', v) = perform (access value c) m in
        let c' = resume value c v in
        (0 < m' threads) ⊎ ((wakes c' ≡ 1) ⊎ ((m' threads ≡ m threads) × (wakes c ≤ wakes c')))
  unfolding perform
  act_wakes c m u l ok = ground arith

  pub act_opens :
      (spare : ℕ) (c : Pc) (m : Memory) (t u : ℕ)
      → IsLocal (access value c)
      → MainOk value spare t u c
      → let (m', v) = perform (access value c) m in
        (m' threads ≡ m threads)
        × (IsOpening (resume value c v) ⊎ ((m' unblock ≡ m unblock) × (IsOpening c → ⊥)))
  unfolding perform ℕ_discrete
  act_opens spare unblock_store m t u l ok = (refl, inl tt)
  act_opens spare wait_load m t u l ok = (refl, inr (refl, λ x. x))
  act_opens spare (wait_wait v) m t u l ok = absurd l
  act_opens spare unblock_wake m t u l ok = absurd l
  act_opens spare opened m t u l ok = absurd l
  act_opens spare _ m t u l ok = absurd ok

  pub worker_wait :
      (c : Pc) (u : ℕ) {a v : ℕ}
      → WorkerOk u c
      → access value c ≡ wait a v
      → (c ≡ sync_wait) × (unblock ≡ a) × (v ≡ 0)
  worker_wait sync_wait u ok e = (refl, cc, cc)
  worker_wait (wait_wait _) u ok e = absurd ok
  worker_wait _ u ok e = cc

  pub worker_wake :
      (c : Pc) (u : ℕ) {a nr : ℕ}
      → WorkerOk u c
      → access value c ≡ wake a nr
      → (c ≡ sync_wake) × (a ≡ threads) × (nr ≡ 1)
  worker_wake sync_wake u ok e = (refl, cc, cc)
  worker_wake unblock_wake u ok e = absurd ok
  worker_wake _ u ok e = cc

  pub main_wait :
      (spare : ℕ) (c : Pc) (t u : ℕ) {a v : ℕ}
      → MainOk value spare t u c
      → access value c ≡ wait a v
      → (a ≡ threads) × (0 < v)
  main_wait spare c t u ok e = ground arith

  pub no_wait : (c : Pc) {a v : ℕ} → access value c ≡ wait a v → IsOpening c → ⊥
  no_wait unblock_wake e o = cc
  no_wait _ e o = ground arith

  pub main_wake :
      (spare : ℕ) (c : Pc) (t u : ℕ) {a nr : ℕ}
      → MainOk value spare t u c
      → access value c ≡ wake a nr
      → (c ≡ unblock_wake) × (a ≡ unblock) × (nr ≡ int_max)
  main_wake spare unblock_wake t u ok e = (refl, cc, cc)
  main_wake spare sync_wake t u ok e = absurd ok
  main_wake spare _ t u ok e = cc

-- A wakeup of one where there is one sleeper, and of more than there are, leave nobody.
pub wake_one :
    {k : Kernel}
    → IsFutex k
    → (n : ℕ) {before after : Sleepers} → k.Wakes 1 before after
    → ((j : ℕ) → before j ≡ true → j ≡ n)
    → IsEmpty after
wake_one doc n {before} {after} w only j = elim (Bool-cases (after j)) [
  | inl e ↦
      let (m, enough) = doc.wakes_enough w j e in
      let (i, _, one) = total_exists m (woken before after) enough in
      let here : j ≡ n = only j (doc.wakes_asleep w j e) in
      let there : i ≡ n = only i (ground arith) in
      let same : after i ≡ true = subst (λ x. after x ≡ true) (omega arith) e in
      absurd (ground arith)
  | inr e ↦ e
]

total_bounded :
    (n m : ℕ) (f : ℕ → ℕ) → ((j : ℕ) → f j ≤ 1) → ((j : ℕ) → n ≤ j → f j ≡ 0) → total m f ≤ n
unfolding total
total_bounded n zero f h z = omega arith
total_bounded n (suc m) f h z = elim (dec_lt m n) [
  | yes lt ↦ omega (arith, total-le (suc m) f h)
  | no ge ↦ omega (arith, total_bounded n m f h z, z m (omega arith))
]

pub wake_all :
    {k : Kernel}
    → IsFutex k
    → (n nr : ℕ) {before after : Sleepers} → k.Wakes nr before after
    → n < nr
    → ((j : ℕ) → before j ≡ true → j < n)
    → IsEmpty after
wake_all doc n nr {before} {after} w lt only j = elim (Bool-cases (after j)) [
  | inl e ↦
      let (m, enough) = doc.wakes_enough w j e in
      absurd (
        omega (
          arith,
          total_bounded n m (woken before after) (λ i. ground arith)
              (λ i ge. ground (arith, only i)),
        ))
  | inr e ↦ e
]
