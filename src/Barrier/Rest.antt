-- ===== src/Barrier/Rest.antt =====
-- The barrier of performance/harness.h: who is asleep on its words, in every reachable state.
use futextest.Barrier.Steps.{WorkerStep, MainStep, worker_step, main_step}
use futextest.Barrier.{threads, unblock, barrier, ℕ, Pc, int_max, update, System, started}
use futextest.Barrier.Rules.{pc, WorkerOk, MainOk, Move-WorkerEffect}
use futextest.Barrier.Safety.{Inv, Reach-Inv, worker_before, threads_small}
use futextest.Machine.{start, later, pick, disturb, Shared, Thread, waiting, Step, Reach, Move}
use futextest.Kernel.{Kernel, IsFutex}
use futextest.Common.{
  refl, ◌^◌, Bool-cases, false, ◌≤◌, ◌<◌, ◌≡◌, ◌⊎◌, arith, ℕ_discrete, inl, inr, suc, subst, true,
  sym, dec_lt,
}
use futextest.Barrier.Sleep.{
  wakes, IsOpening, IsEmpty, worker_wait, main_wait, queue_same, queue_other,
}
use futextest.Machine.Asleep.{Asleep, Reach-Asleep}
use mathlib.Core.Logic.{if_pos, if_neg}

-- Workers sleep only while `unblock` is 0 or the main thread is about to wake them, and the main
-- thread sleeps only while `threads` is not 0 or a worker is about to wake it.
pub record Covered (n : ℕ) (s : Shared) (t : ℕ → Thread Pc) : Type 0 where
  pub workers : (s.mem unblock ≡ 0) ⊎ (IsOpening (pc (t n)) ⊎ IsEmpty (s.queue unblock))
  pub main :
      (0 < s.mem threads)
      ⊎ (((i : ℕ) × (i < n) × (wakes (pc (t i)) ≡ 1)) ⊎ IsEmpty (s.queue threads))

at_most : (c : Pc) → 1 ≤ wakes c → wakes c ≡ 1
at_most c le = ground arith

module _ {n : ℕ} {s h : Shared} {t : ℕ → Thread Pc} (cov : Covered n s t) where
  worker_cover :
      (i : ℕ) (d : Thread Pc)
      → i < n
      → h.mem unblock ≡ s.mem unblock
      → WorkerStep (pc (t i)) s h (pc d)
      → Covered n h (update t i d)
  worker_cover i d lt same st = record {
    workers = elim cov.workers [
      | inl z ↦ inl (cc z)
      | inr (inl o) ↦
          inr (inl (rw (if_neg (ℕ_discrete i n) (λ (e : i ≡ n). absurd (omega arith)) d (t n)) o))
      | inr (inr empty) ↦ elim st.workers [ inl z ↦ inl (cc z) | inr f ↦ inr (inr (f empty)) ]
    ];
    main = elim st.main [
      | inl empty ↦ inr (inr empty)
      | inr (inl p) ↦ inl p
      | inr (inr (inl e)) ↦ inr (inl (i, lt, rw (if_pos (ℕ_discrete i i) refl d (t i)) e))
      | inr (inr (inr (keep, le, f))) ↦ elim cov.main [
        | inl p ↦ inl (omega arith)
        | inr (inl (j, below, e)) ↦ inr (inl (j, below, still i d j le e))
        | inr (inr empty) ↦ inr (inr (f empty))
      ]
    ];
  }
    where
      still :
          (i : ℕ) (d : Thread Pc) (j : ℕ)
          → wakes (pc (t i)) ≤ wakes (pc d)
          → wakes (pc (t j)) ≡ 1
          → wakes (pc (update t i d j)) ≡ 1
      still i d j le e = elim (ℕ_discrete i j) [
        | yes here ↦
            rw (if_pos (ℕ_discrete i j) here d (t j))
              (at_most (pc d) (ground (arith, le, subst (λ x. wakes (pc (t x)) ≡ 1) (sym here) e)))
        | no ne ↦ rw (if_neg (ℕ_discrete i j) ne d (t j)) e
      ]

  main_cover : (d : Thread Pc) → MainStep (pc (t n)) s h (pc d) → Covered n h (update t n d)
  main_cover d st = record {
    workers = elim st.workers [
      | inl empty ↦ inr (inr empty)
      | inr (inl o) ↦ inr (inl (rw (if_pos (ℕ_discrete n n) refl d (t n)) o))
      | inr (inr (same, out, f)) ↦ elim cov.workers [
        | inl z ↦ inl (cc z)
        | inr (inl o) ↦ absurd (out o)
        | inr (inr empty) ↦ inr (inr (f empty))
      ]
    ];
    main = elim st.main [
      | inl p ↦ inl p
      | inr (keep, f) ↦ elim cov.main [
        | inl p ↦ inl (omega arith)
        | inr (inl (j, below, e)) ↦ inr (
            inl (
              j,
              below,
              rw (if_neg (ℕ_discrete n j) (λ (x : n ≡ j). absurd (omega arith)) d (t j)) e,
            ))
        | inr (inr empty) ↦ inr (inr (f empty))
      ]
    ];
  }

module _ {k : Kernel} (doc : IsFutex k) {value spare n : ℕ} (small : n < int_max) {s : System Pc}
    (inv : Inv value spare n s.mem s.thread) (own : Asleep (barrier value) (suc n) s) where
  pub main_sleeps : (j : ℕ) → s.queue threads j ≡ true → j ≡ n
  main_sleeps j q =
      let (lt, (c, v, at, e)) = own threads j q in
      elim (dec_lt j n) [
        | yes below ↦
            let ok : WorkerOk (s.mem unblock) c =
              subst (λ d. WorkerOk (s.mem unblock) (pc d)) at (inv.workers j below) in
            let (_, off, _) = worker_wait value c (s.mem unblock) ok e in absurd (omega arith)
        | no ge ↦ omega (arith, lt, ge)
      ]

  pub worker_sleeps : (j : ℕ) → s.queue unblock j ≡ true → j < n
  worker_sleeps j q =
      let (lt, (c, v, at, e)) = own unblock j q in
      elim (dec_lt j n) [
        | yes below ↦ below
        | no ge ↦
            let last : j ≡ n = omega arith in
            let here : s.thread n ≡ waiting c = subst (λ x. s.thread x ≡ waiting c) last at in
            let ok : MainOk value spare (s.mem threads) (s.mem unblock) c =
              subst (λ d. MainOk value spare (s.mem threads) (s.mem unblock) (pc d)) here
                inv.main in
            let (off, _) = main_wait value spare c (s.mem threads) (s.mem unblock) ok e in
            absurd (omega arith)
      ]

Step-Covered :
    {k : Kernel}
    → IsFutex k
    → {value : ℕ} (spare : ℕ) {n : ℕ} → n < int_max
    → {s u : System Pc} → Step k (barrier value) (suc n) s u
    → Inv value spare n s.mem s.thread
    → Asleep (barrier value) (suc n) s
    → Covered n s.shared s.thread
    → Covered n u.shared u.thread
Step-Covered {k} doc {value} spare {n} small {s = s} (pick i {h = h} {t = d} lt mv) inv own cov =
    let tiny : n < 2 ^ 31 = omega arith in
    elim (dec_lt i n) [
      | yes below ↦
          let ok = inv.workers i below in
          let eff =
            Move-WorkerEffect value mv ok (worker_before tiny inv i below)
              (threads_small tiny inv) in
          worker_cover cov i d below eff.same
            (worker_step doc s.shared (main_sleeps doc small inv own) mv ok)
      | no ge ↦
          let e : i ≡ n = omega (arith, lt, ge) in
          rw e (
            main_cover cov d (
              main_step doc s.shared spare small (worker_sleeps doc small inv own)
                (subst (λ x. Move k (barrier value) x s.shared (s.thread x) h d) e mv) inv.main))
    ]
Step-Covered doc {value} spare {n} small {s = s} (disturb a {after} d) inv own cov = record {
  workers = elim cov.workers [
    | inl z ↦ inl z
    | inr (inl o) ↦ inr (inl o)
    | inr (inr empty) ↦ inr (inr (fewer unblock empty))
  ];
  main = elim cov.main [
    | inl p ↦ inl p
    | inr (inl j) ↦ inr (inl j)
    | inr (inr empty) ↦ inr (inr (fewer threads empty))
  ];
}
  where
    shrunk : IsEmpty (s.queue a) → IsEmpty after
    shrunk empty j = elim (Bool-cases (after j)) [
      | inl e ↦
          let before : s.queue a j ≡ true = doc.disturbs_asleep d j e in
          let none : s.queue a j ≡ false = empty j in cc
      | inr e ↦ e
    ]

    fewer : (b : ℕ) → IsEmpty (s.queue b) → IsEmpty (update s.queue a after b)
    fewer b empty = elim (ℕ_discrete a b) [
      | yes e ↦
          queue_same s.queue a b after e (shrunk (subst (λ x. IsEmpty (s.queue x)) (sym e) empty))
      | no ne ↦ queue_other s.queue a b after ne empty
    ]

pub Reach-Covered :
    {k : Kernel}
    → IsFutex k
    → {value : ℕ} (spare : ℕ) {n : ℕ} (c : Pc) → n < int_max
    → MainOk value spare n 0 c
    → {s : System Pc} → Reach k (barrier value) (suc n) (started c n) s
    → Covered n s.shared s.thread
unfolding ℕ_discrete
Reach-Covered doc spare c small ok start = record {
  workers = inl refl;
  main = inr (inr (λ j. refl));
}
Reach-Covered doc {value} spare {n} c small ok (later r st) =
    Step-Covered doc spare small st (Reach-Inv spare c (omega arith) ok r)
      (Reach-Asleep (barrier value) doc r) (Reach-Covered doc spare c small ok r)
