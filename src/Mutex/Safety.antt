-- ===== src/Mutex/Safety.antt =====
-- What the lock of performance/futex_wait.c guarantees in every reachable state.
use futextest.Common.{
  ℕ, ◌+◌, ◌≤◌, ◌<◌, ◌≡◌, ◌⊎◌, inl, inr, ◌↔◌, Bool, true, false, refl, ap, subst, arith,
  total_member, total_members, total_exists, total_zero, ℕ_discrete,
}
use futextest.Kernel.{Kernel, IsFutex}
use futextest.Machine.{Thread, running, waiting, System, Reach, IsQuiet, perform, halt, Memory}
use futextest.Mutex.{
  futex, Pc, unlock_load, unlock_free, unlock_marked, finished, access, resume, futex_wait_test,
  init,
}
use futextest.Mutex.Counts.{holds, helps, sleeps, Marked}
use futextest.Mutex.Invariant.{Reach-Inv, wait_lem}
use futextest.Mutex.Invariant.Defs.{Inv, sleepers, MarkedThread}

-- The thread has returned from `futex_wait_lock` and has not yet freed the word.
abbrev pub InSection : Thread Pc → Type 0
InSection (running (unlock_load _)) = Unit {0}
InSection (running (unlock_free _)) = Unit {0}
InSection (running (unlock_marked _)) = Unit {0}
InSection _ = ⊥

holds_lem : (t : Thread Pc) → InSection t → holds t ≡ 1
holds_lem (running (unlock_load k)) h = refl
holds_lem (running (unlock_free k)) h = refl
holds_lem (running (unlock_marked k)) h = refl
holds_lem (running _) h = elim h [ ]
holds_lem (waiting _) h = elim h [ ]

holds-InSection : (t : Thread Pc) → 0 < holds t → InSection t
holds-InSection (running (unlock_load k)) h = tt
holds-InSection (running _) h = ground arith
holds-InSection (waiting _) h = ground arith

which : (t : Thread Pc) (f : Bool) → 0 < holds t + helps t f → InSection t ⊎ (helps t f ≡ 1)
which (running (unlock_load _)) f p = inl tt
which (running (unlock_free _)) f p = inl tt
which (running (unlock_marked _)) f p = inl tt
which (running _) f p = inr (omega arith)
which (waiting _) true p = absurd (omega arith)
which (waiting _) false p = inr refl

halt_lem : (c : Pc) → access c ≡ halt → c ≡ finished
halt_lem finished e = refl
halt_lem _ e = cc

section_frees :
    (c : Pc) (m : Memory)
    → InSection (running c)
    → 0 < m futex
    → m futex ≤ 2
    → Marked c (m futex)
    → let (m', status) = perform (access c) m in
      InSection (running (resume c status)) ⊎ (m' futex ≡ 0)
unfolding perform
section_frees (unlock_load k) m h p q d = ground arith
section_frees (unlock_free k) m h p q d = ground arith
section_frees (unlock_marked k) m h p q d = ground arith
section_frees _ m h p q d = elim h [ ]

module _ {k : Kernel} (doc : IsFutex k) {n : ℕ} (loops : ℕ → ℕ) {s : System Pc}
    (r : Reach k futex_wait_test n (init loops) s) where
  inv : Inv n (s.mem futex) (s.queue futex) s.thread
  inv = Reach-Inv doc loops r

  -- With a kernel whose FUTEX_WAIT and FUTEX_WAKE do what futex(2) says, for any number of threads and
  -- rounds: two threads are never between the return of `futex_wait_lock` and the release at the same
  -- time.
  pub mutual_exclusion :
      (i j : ℕ) → i < n → j < n → InSection (s.thread i) → InSection (s.thread j) → i ≡ j
  mutual_exclusion i j li lj hi hj = elim (ℕ_discrete i j) [
    | yes e ↦ e
    | no ne ↦ absurd (
        omega (
          arith,
          total_members n (λ l. holds (s.thread l)) i j li lj ne,
          holds_lem (s.thread i) hi,
          holds_lem (s.thread j) hj,
          inv.owned,
        ))
  ]

  -- With a kernel whose FUTEX_WAIT and FUTEX_WAKE do what futex(2) says, in every run: the word is 0,
  -- 1 or 2, and it is 0 exactly when no thread holds the lock.
  pub word_tells :
      (s.mem futex ≤ 2) × ((s.mem futex ≡ 0) ↔ ((i : ℕ) → i < n → ¬ InSection (s.thread i)))
  word_tells = (inv.small, (none_in, freed))
    where
      none_in : s.mem futex ≡ 0 → (i : ℕ) → i < n → ¬ InSection (s.thread i)
      none_in z i lt h = omega (
        arith,
        total_member n (λ l. holds (s.thread l)) i lt,
        holds_lem (s.thread i) h,
        inv.owned,
      )

      freed : ((i : ℕ) → i < n → ¬ InSection (s.thread i)) → s.mem futex ≡ 0
      freed out = elim (ℕ_discrete (s.mem futex) 0) [
        | yes z ↦ z
        | no nz ↦
            let (i, lt, p) = total_exists n (λ l. holds (s.thread l)) (omega (arith, inv.owned)) in
            absurd (out i lt (holds-InSection (s.thread i) p))
      ]

  -- With a kernel whose FUTEX_WAIT and FUTEX_WAKE do what futex(2) says, in every run: a thread that
  -- holds the lock keeps it until the word is 0, since after its next access it still holds the lock or the word is 0, so `futex_cmpxchg_unlock` never returns with the lock taken.
  pub release_effective :
      (i : ℕ) (c : Pc)
      → i < n
      → s.thread i ≡ running c
      → InSection (running c)
      → let (m, status) = perform (access c) s.mem in
        InSection (running (resume c status)) ⊎ (m futex ≡ 0)
  release_effective i c lt e h =
      section_frees c s.mem h
        (omega (
          arith,
          total_member n (λ l. holds (s.thread l)) i lt,
          ap holds e,
          holds_lem (running c) h,
          inv.owned,
        ))
        inv.small (subst (λ d. MarkedThread d (s.mem futex)) e (inv.marked i lt))

  covering :
      0 < sleepers n (s.queue futex)
      → (j : ℕ) × (j < n) × (0 < holds (s.thread j) + helps (s.thread j) (s.queue futex j))
  covering h = elim (inv.covered h) [
    | inl two ↦
        let (j, lt, p) = total_exists n (λ l. holds (s.thread l)) (omega (arith, inv.owned)) in
        (j, lt, omega arith)
    | inr some_help ↦
        let (j, lt, p) = total_exists n (λ l. helps (s.thread l) (s.queue futex l)) some_help in
        (j, lt, omega arith)
  ]

  asleep_counts : (i : ℕ) → s.queue futex i ≡ true → 0 < sleepers n (s.queue futex)
  asleep_counts i q =
      let (lt, _) = inv.asleep i q in
      omega (arith, total_member n (λ l. sleeps (s.queue futex l)) i lt, ap sleeps q)

  -- With a kernel whose FUTEX_WAIT and FUTEX_WAKE do what futex(2) says, in every run: no wakeup is
  -- lost, since while a thread is asleep on the futex, some thread is not asleep, and it holds
  -- the lock, or will wake a thread, or is in the contended part of `futex_wait_lock`.
  pub sleeper_covered :
      (i : ℕ)
      → s.queue futex i ≡ true
      → (j : ℕ) × (j < n) × (InSection (s.thread j) ⊎ (helps (s.thread j) (s.queue futex j) ≡ 1))
  sleeper_covered i q =
      let (j, below, p) = covering (asleep_counts i q) in
      (j, below, which (s.thread j) (s.queue futex j) p)

  quiet_idle :
      IsQuiet futex_wait_test n s
      → (j : ℕ) → j < n
      → holds (s.thread j) + helps (s.thread j) (s.queue futex j) ≡ 0
  quiet_idle quiet j lt = elim (quiet j lt) [
    | inl (c, e, stop) ↦ rw (e, halt_lem c stop) refl
    | inr (c, a, v, e, at, q) ↦ rw (e, subst (λ x. s.queue x j ≡ true) (wait_lem c at).2 q) refl
  ]

  -- With a kernel whose FUTEX_WAIT and FUTEX_WAKE do what futex(2) says, in every run: when no thread
  -- can run on, every thread has finished all its rounds and the lock is free.
  pub quiet_finished :
      IsQuiet futex_wait_test n s
      → ((i : ℕ) → i < n → s.thread i ≡ running finished) × (s.mem futex ≡ 0)
  quiet_finished quiet = (
    finish,
    omega (
      arith,
      inv.owned,
      total_zero n (λ l. holds (s.thread l)) (λ j lt. omega (arith, quiet_idle quiet j lt)),
    ),
  )
    where
      finish : (i : ℕ) → i < n → s.thread i ≡ running finished
      finish i lt = elim (quiet i lt) [
        | inl (c, e, stop) ↦ rw e (ap running (halt_lem c stop))
        | inr (c, a, v, e, at, q) ↦
            let asleep : s.queue futex i ≡ true =
              subst (λ x. s.queue x i ≡ true) (wait_lem c at).2 q in
            let (j, below, p) = covering (asleep_counts i asleep) in
            absurd (omega (arith, quiet_idle quiet j below))
      ]
