-- ===== src/Barrier/Steps.antt =====
-- The barrier of performance/harness.h: what a step does to the sleepers on its two words.
use futextest.Machine.{Shared, Thread, Move, act, sleep, refuse, wakeup, return}
use futextest.Barrier.{threads, unblock, Pc, ℕ, update, int_max, barrier}
use futextest.Barrier.Rules.{pc, WorkerOk, MainOk}
use futextest.Kernel.{Kernel, IsFutex}
use futextest.Common.{refl, ◌≡◌, ◌⊎◌, ◌<◌, ◌≤◌, subst, arith, true, inl, inr}
use futextest.Barrier.Sleep.{
  wakes, IsOpening, IsEmpty, act_wakes, act_opens, worker_wait, main_wait, queue_other, no_wait,
  worker_wake, main_wake, queue_same, wake_one, wake_all,
}

-- What a step of a worker does for the main thread's sleep, and for the workers'.
pub record WorkerStep (c : Pc) (s h : Shared) (c' : Pc) : Type 0 where
  pub workers : (s.mem unblock ≡ 0) ⊎ (IsEmpty (s.queue unblock) → IsEmpty (h.queue unblock))
  pub main :
      IsEmpty (h.queue threads)
      ⊎ ((0 < h.mem threads)
          ⊎ ((wakes c' ≡ 1)
              ⊎ ((h.mem threads ≡ s.mem threads)
                  × (wakes c ≤ wakes c')
                  × (IsEmpty (s.queue threads) → IsEmpty (h.queue threads)))))

-- The same for a step of the main thread.
pub record MainStep (c : Pc) (s h : Shared) (c' : Pc) : Type 0 where
  pub workers :
      IsEmpty (h.queue unblock)
      ⊎ (IsOpening c'
          ⊎ ((h.mem unblock ≡ s.mem unblock)
              × (IsOpening c → ⊥)
              × (IsEmpty (s.queue unblock) → IsEmpty (h.queue unblock))))
  pub main :
      (0 < h.mem threads)
      ⊎ ((h.mem threads ≡ s.mem threads) × (IsEmpty (s.queue threads) → IsEmpty (h.queue threads)))

main_stays : (s : Shared) (c c' : Pc) → (IsOpening c → ⊥) → MainStep c s s c'
main_stays s c c' out = record {
  workers = inr (inr (refl, out, λ h. h));
  main = inr (refl, λ h. h);
}

module _ {k : Kernel} (doc : IsFutex k) {value n : ℕ} (s : Shared) where
  pub worker_step :
      {i : ℕ} {h : Shared} {d d' : Thread Pc}
      → ((j : ℕ) → s.queue threads j ≡ true → j ≡ n)
      → Move k (barrier value) i s d h d'
      → WorkerOk (s.mem unblock) (pc d)
      → WorkerStep (pc d) s h (pc d')
  worker_step only (act {c} l) ok = record {
    workers = inr (λ h. h);
    main = elim (act_wakes value c s.mem (s.mem unblock) l ok) [
      | inl p ↦ inr (inl p)
      | inr (inl e) ↦ inr (inr (inl e))
      | inr (inr (e, le)) ↦ inr (inr (inr (e, le, λ h. h)))
    ];
  }
  worker_step {i} only (sleep {c} {a} {v} e b) ok =
      let (_, at, z) = worker_wait value c (s.mem unblock) ok e in
      record {
        workers = inl (cc (doc.blocks_equal (s.mem a) v b));
        main = inr (
            inr (
              inr (
                refl,
                omega arith,
                queue_other s.queue a threads (update (s.queue a) i true)
                    (λ x. absurd (omega arith)),
              )));
      }
  worker_step only (refuse {c} e _) ok =
      let (at, _, _) = worker_wait value c (s.mem unblock) ok e in
      record { workers = inr (λ h. h); main = inr (inr (inr (refl, rw at (omega arith), λ h. h))) }
  worker_step only (wakeup {c} {a} {nr} {after} e w) ok =
      let (_, at, one) = worker_wake value c (s.mem unblock) ok e in
      let w' : k.Wakes 1 (s.queue threads) after =
        subst (λ x. k.Wakes x (s.queue threads) after) one
          (subst (λ x. k.Wakes nr (s.queue x) after) at w) in
      record {
        workers = inr (queue_other s.queue a unblock after (λ x. absurd (omega arith)));
        main = inl (queue_same s.queue a threads after at (wake_one doc n w' only));
      }
  worker_step only (return {c} e _) ok =
      let (at, _, _) = worker_wait value c (s.mem unblock) ok e in
      record { workers = inr (λ h. h); main = inr (inr (inr (refl, rw at (omega arith), λ h. h))) }

  pub main_step :
      (spare : ℕ) {i : ℕ} {h : Shared} {d d' : Thread Pc}
      → n < int_max
      → ((j : ℕ) → s.queue unblock j ≡ true → j < n)
      → Move k (barrier value) i s d h d'
      → MainOk value spare (s.mem threads) (s.mem unblock) (pc d)
      → MainStep (pc d) s h (pc d')
  main_step spare lt only (act {c} l) ok =
      let (same, opens) = act_opens value spare c s.mem (s.mem threads) (s.mem unblock) l ok in
      record {
        workers = elim opens [ inl o ↦ inr (inl o) | inr (e, out) ↦ inr (inr (e, out, λ h. h)) ];
        main = inr (same, λ h. h);
      }
  main_step spare {i} lt only (sleep {c} {a} {v} e b) ok =
      let (at, p) = main_wait value spare c (s.mem threads) (s.mem unblock) ok e in
      let word : s.mem a ≡ v = doc.blocks_equal (s.mem a) v b in
      record {
        workers = inr (
            inr (
              refl,
              no_wait value c e,
              queue_other s.queue a unblock (update (s.queue a) i true) (λ x. absurd (omega arith)),
            ));
        main = inl (subst (λ x. 0 < s.mem x) at (omega arith));
      }
  main_step spare lt only (refuse {c} e _) ok = main_stays s c _ (no_wait value c e)
  main_step spare lt only (wakeup {c} {a} {nr} {after} e w) ok =
      let (_, at, all) = main_wake value spare c (s.mem threads) (s.mem unblock) ok e in
      record {
        workers = inl (
            queue_same s.queue a unblock after at (
              wake_all doc n nr (subst (λ x. k.Wakes nr (s.queue x) after) at w) (omega arith)
                only));
        main = inr (refl, queue_other s.queue a threads after (λ x. absurd (omega arith)));
      }
  main_step spare lt only (return {c} e _) ok = main_stays s c _ (no_wait value c e)
