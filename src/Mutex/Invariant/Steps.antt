-- ===== src/Mutex/Invariant/Steps.antt =====
-- Every move of a thread keeps the lock's invariant.
use futextest.Common.{
  ℕ, ◌<◌, ◌≡◌, ◌≢◌, ◌⊎◌, inl, inr, true, false, refl, sym, ap, subst, arith, update, total_member,
  total_exists, total_members, Bool-cases,
}
use futextest.Kernel.{Kernel, IsFutex, Sleepers, woken}
use futextest.Machine.{
  IsLocal, perform, Thread, running, waiting, Shared, Move, act, sleep, refuse, wakeup, return,
  wait, wake,
}
use futextest.Mutex.{
  futex, Pc, lock_wait, unlock_wake, lock_reload, next_round, access, resume, futex_wait_test,
}
use futextest.Mutex.Counts.{holds_at, helps_at, holds, helps, Effect, act-Effect}
use futextest.Mutex.Invariant.Defs.{
  Inv, helpers, sleepers, MarkedThread, IsWaiting, holds-next_round, Marked-next_round,
}
use futextest.Mutex.Invariant.Changes.{
  Moved, shrink-Inv, helpers_change, moved-owned, moved-marked, moved-Inv,
}

-- The only call of FUTEX_WAIT is futex_wait(futex, 2, ...), and the only FUTEX_WAKE wakes one.
pub wait_lem :
    (c : Pc) {a v : ℕ} → access c ≡ wait a v → (k : ℕ) × (c ≡ lock_wait k) × (a ≡ futex) × (v ≡ 2)
wait_lem (lock_wait k) e = (k, refl, cc, cc)
wait_lem _ e = cc

pub wake_lem :
    (c : Pc) {a nr : ℕ}
    → access c ≡ wake a nr
    → (k : ℕ) × (c ≡ unlock_wake k) × (a ≡ futex) × (nr ≡ 1)
wake_lem (unlock_wake k) e = (k, refl, cc, cc)
wake_lem _ e = cc

abbrev pub LockInv : ℕ → Shared → (ℕ → Thread Pc) → Type 0
LockInv n s t = Inv n (s.mem futex) (s.queue futex) t

module _ {n : ℕ} (s : Shared) {t : ℕ → Thread Pc} (inv : LockInv n s t) (i : ℕ) (lt : i < n) where
  running_awake : {c : Pc} → t i ≡ running c → s.queue futex i ≡ false
  running_awake e = elim (Bool-cases (s.queue futex i)) [
    | inl q ↦ absurd (subst IsWaiting e (inv.asleep i q).1)
    | inr q ↦ q
  ]

  act-Inv :
      {c : Pc}
      → t i ≡ running c
      → IsLocal (access c)
      → LockInv n
          (record s { mem = (perform (access c) s.mem).0 })
          (update t i (running (resume c (perform (access c) s.mem).1)))
  act-Inv {c} e l =
      moved-Inv inv i lt mv (running_awake e) (ground (arith, eff.helped, helping))
        (ground (arith, eff.kept))
    where
      holding : holds (t i) ≡ holds_at c
      holding = ap holds e

      helping : helps (t i) (s.queue futex i) ≡ helps_at c
      helping = ap (λ d. helps d (s.queue futex i)) e

      eff :
          Effect c s.mem
            ((perform (access c) s.mem).0 futex)
            (resume c (perform (access c) s.mem).1)
      eff =
          act-Effect c s.mem l inv.small
            (omega (arith, holding, inv.owned, total_member n (λ j. holds (t j)) i lt))
            (subst (λ d. MarkedThread d (s.mem futex)) e (inv.marked i lt))

      mv :
          Moved
            (s.mem futex)
            (t i)
            ((perform (access c) s.mem).0 futex)
            (running (resume c (perform (access c) s.mem).1))
      mv = record {
        small = eff.small;
        owned = omega (arith, eff.owned, holding);
        marked = eff.marked;
        kept = λ h. ground (arith, eff.kept h, holding);
      }

  idle-Moved :
      {c c' : Thread Pc}
      → t i ≡ c
      → holds c ≡ 0
      → holds c' ≡ 0
      → MarkedThread c' (s.mem futex)
      → Moved (s.mem futex) (t i) (s.mem futex) c'
  idle-Moved e h h' m = record {
    small = inv.small;
    owned = omega (arith, ap holds e);
    marked = m;
    kept = λ two. inl two;
  }

  sleep-Inv :
      {k : ℕ}
      → t i ≡ running (lock_wait k)
      → s.mem futex ≡ 2
      → Inv n (s.mem futex) (update (s.queue futex) i true) (update t i (waiting (lock_wait k)))
  sleep-Inv {k} e two = record {
    small = inv.small;
    owned = moved-owned inv i lt mv;
    marked = moved-marked inv i lt mv;
    asleep = λ j q. ground (arith, inv.asleep j);
    covered = λ _. inl two;
  }
    where
      mv : Moved (s.mem futex) (t i) (s.mem futex) (waiting (lock_wait k))
      mv = idle-Moved e refl refl tt

  reload-Inv :
      {k : ℕ}
      → (t i ≡ running (lock_wait k)) ⊎ (t i ≡ waiting (lock_wait k))
      → s.queue futex i ≡ false
      → LockInv n s (update t i (running (lock_reload k)))
  reload-Inv (inl e) q =
      moved-Inv inv i lt (idle-Moved e refl refl tt) q
        (inl (omega (arith, ap (λ d. helps d (s.queue futex i)) e))) (λ _. inr refl)
  reload-Inv (inr e) q =
      moved-Inv inv i lt (idle-Moved e refl refl tt) q (inl (ground arith)) (λ _. inr refl)

  -- FUTEX_WAKE of one thread leaves a sleeper behind only if it woke another.
  woken_helps :
      {k : Kernel}
      → IsFutex k
      → {after : Sleepers} → k.Wakes 1 (s.queue futex) after
      → 0 < sleepers n after
      → (j : ℕ) × (j < n) × IsWaiting (t j) × (after j ≡ false)
  woken_helps doc {after} w h =
      let (i', _, p) = total_exists n _ h in
      let (m, enough) = doc.wakes_enough w i' (ground arith) in
      let (j, _, one) = total_exists m (woken (s.queue futex) after) enough in
      (j, (inv.asleep j (ground arith)).0, (inv.asleep j (ground arith)).1, ground arith)

  wakeup-Inv :
      {k : Kernel}
      → IsFutex k
      → {c : ℕ} {after : Sleepers} → t i ≡ running (unlock_wake c)
      → k.Wakes 1 (s.queue futex) after
      → Inv n (s.mem futex) after (update t i (running (next_round c)))
  wakeup-Inv doc {c} {after} e w = record {
    small = inv.small;
    owned = moved-owned inv i lt mv;
    marked = moved-marked inv i lt mv;
    asleep = λ j q. ground (arith, shrunk.asleep j);
    covered = λ h. inr (helping h (woken_helps doc w h));
  }
    where
      mv : Moved (s.mem futex) (t i) (s.mem futex) (running (next_round c))
      mv = idle-Moved e refl (holds-next_round c) (Marked-next_round c (s.mem futex))

      shrunk : Inv n (s.mem futex) after t
      shrunk = shrink-Inv inv (doc.wakes_asleep w)

      helping :
          0 < sleepers n after
          → (j : ℕ) × (j < n) × IsWaiting (t j) × (after j ≡ false)
          → 0 < helpers n (update t i (running (next_round c))) after
      helping h (j, below, wt, out) =
          let one : helps (t i) (after i) ≡ 1 = ap (λ d. helps d (after i)) e in
          let other : helps (t j) (after j) ≡ 1 = ground arith in
          let ne : i ≢ j = λ same. subst IsWaiting e (subst (λ l. IsWaiting (t l)) (sym same) wt) in
          omega (
            arith,
            helpers_change shrunk i lt {q' = after} (λ l _. refl) (running (next_round c)),
            total_members n (λ l. helps (t l) (after l)) i j lt below ne,
          )

  queue_at :
      {w a : ℕ} {q : Sleepers} {t' : ℕ → Thread Pc}
      → a ≡ futex
      → Inv n w q t'
      → Inv n w (update s.queue a q futex) t'
  queue_at {w} {a} {q} {t'} e v = subst (λ r. Inv n w r t') (ground arith) v

  pub Move-Inv :
      {k : Kernel}
      → IsFutex k
      → {h : Shared} {c c' : Thread Pc} → Move k futex_wait_test i s c h c'
      → t i ≡ c
      → LockInv n h (update t i c')
  Move-Inv doc (act l) e = act-Inv e l
  Move-Inv doc (sleep {c = lock_wait l} {a} {v} at b) e =
      let here : a ≡ futex = cc in
      let two : s.mem futex ≡ 2 = cc (doc.blocks_equal (s.mem a) v b) in
      rw here (queue_at refl (sleep-Inv e two))
  Move-Inv doc (sleep {c = _} at b) e = cc
  Move-Inv doc (refuse {c = lock_wait l} at r) e = reload-Inv (inl e) (running_awake e)
  Move-Inv doc (refuse {c = _} at r) e = cc
  Move-Inv {k} doc (wakeup {c = unlock_wake l} {a} {nr} {after} at w) e =
      let here : a ≡ futex = cc in
      let one : nr ≡ 1 = cc in
      let w' : k.Wakes 1 (s.queue futex) after =
        subst (λ x. k.Wakes x (s.queue futex) after) one
          (subst (λ x. k.Wakes nr (s.queue x) after) here w) in
      rw here (queue_at refl (wakeup-Inv doc e w'))
  Move-Inv doc (wakeup {c = _} at w) e = cc
  Move-Inv doc (return {c = lock_wait l} {a} at out) e =
      let here : a ≡ futex = cc in reload-Inv (inr e) (subst (λ x. s.queue x i ≡ false) here out)
  Move-Inv doc (return {c = _} at out) e = cc
