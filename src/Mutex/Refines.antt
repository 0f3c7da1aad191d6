-- ===== src/Mutex/Refines.antt =====
-- The lock of performance/futex_wait.c as an implementation of an abstract lock.
use futextest.Mutex.Owner.{
  LockStep, owner, owner_cases, held, change_step, AtMostOne, in_section, in_section_lem,
  in_section-InSection, idle,
}
use futextest.Common.{◌∙◌, ℕ, ◌<◌, ◌≡◌, inl, inr, ◌↔◌, true, some, sym, subst}
use futextest.Kernel.{Kernel, IsFutex}
use futextest.Machine.{System, Step, pick, disturb, Reach, later}
use futextest.Mutex.{Pc, futex_wait_test, init}
use futextest.Mutex.Safety.{InSection, mutual_exclusion}

module _ {k : Kernel} (doc : IsFutex k) {n : ℕ} (loops : ℕ → ℕ) where
  at_most_one : {s : System Pc} → Reach k futex_wait_test n (init loops) s → AtMostOne n s.thread
  at_most_one {s} r j l lj ll f g =
      mutual_exclusion doc loops r j l lj ll (in_section-InSection (s.thread j) f)
        (in_section-InSection (s.thread l) g)

  -- The lock refines an abstract one. With a kernel whose FUTEX_WAIT and FUTEX_WAKE do what futex(2)
  -- says, in every run, each step of a thread or of the kernel leaves the owner, or makes a thread the
  -- owner of a free lock, or frees the lock; a thread is the owner exactly when it is between the
  -- return of `futex_wait_lock` and the release.
  pub lock_refines :
      {s u : System Pc}
      → Reach k futex_wait_test n (init loops) s
      → Step k futex_wait_test n s u
      → LockStep n (owner n s.thread) (owner n u.thread)
        × ((i : ℕ) → i < n → ((owner n s.thread ≡ some i) ↔ InSection (s.thread i)))
  lock_refines {s} r st = (moves r st, λ i lt. (owns i lt, held_by i lt))
    where
      moves :
          {s u : System Pc}
          → Reach k futex_wait_test n (init loops) s
          → Step k futex_wait_test n s u
          → LockStep n (owner n s.thread) (owner n u.thread)
      moves {s} r (pick i {t = d} lt mv) =
          change_step n s.thread i d lt (at_most_one r) (at_most_one (later r (pick i lt mv)))
      moves r (disturb a e) = idle

      owns : (i : ℕ) → i < n → owner n s.thread ≡ some i → InSection (s.thread i)
      owns i lt o = elim (owner_cases s.thread n) [
        | inl (e, h) ↦ cc
        | inr (j, lt', e, f) ↦
            let same : some j ≡ some i = sym e ∙ o in
            in_section-InSection (s.thread i)
              (let eq : j ≡ i = cc in subst (λ x. in_section (s.thread x) ≡ true) eq f)
      ]

      held_by : (i : ℕ) → i < n → InSection (s.thread i) → owner n s.thread ≡ some i
      held_by i lt h =
          held n s.thread i (s.thread i) lt (at_most_one r) (in_section_lem (s.thread i) h)
