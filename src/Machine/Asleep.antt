-- ===== src/Machine/Asleep.antt =====
-- Who sleeps: only a thread inside the FUTEX_WAIT of that word is on its queue.
use futextest.Common.{
  ℕ, ◌<◌, ◌≡◌, true, refl, update, ◌≢◌, ◌⊎◌, ℕ_discrete, subst, inr, inl, arith, false, sym,
}
use futextest.Machine.{
  start, later, act, sleep, refuse, wakeup, return, wait, Program, Thread, System, Kernel, waiting,
  Shared, Move, running, Step, Memory, pick, Reach, system, disturb, later,
}
use mathlib.Core.Logic.{if_pos, if_neg}
use futextest.Kernel.{IsFutex, Sleepers}

module _ {Pc : Type 0} (p : Program Pc) where
  -- A thread inside FUTEX_WAIT on the word at `a`.
  abbrev pub WaitsOn : ℕ → Thread Pc → Type 0
  WaitsOn a t = (c : Pc) × (v : ℕ) × (t ≡ waiting c) × (p.access c ≡ wait a v)

  abbrev pub Asleep : ℕ → System Pc → Type 0
  Asleep n s = (a j : ℕ) → s.queue a j ≡ true → (j < n) × WaitsOn a (s.thread j)

  running_awake : (a : ℕ) (c : Pc) → WaitsOn a (running c) → ⊥
  running_awake a c (d, v, e, w) = cc

  ap_true : {f g : Sleepers} {j : ℕ} → f ≡ g → f j ≡ true → g j ≡ true
  ap_true {j = j} e h = subst (λ x. x j ≡ true) e h

  module _ {k : Kernel} (doc : IsFutex k) (i : ℕ) (s : Shared) (a j : ℕ) where
    -- A thread on the queue after a step of thread `i`.
    abbrev Stays : Thread Pc → Type 0
    Stays t' = ((j ≢ i) × (s.queue a j ≡ true)) ⊎ ((j ≡ i) × WaitsOn a t')

    queue_cases :
        (b : ℕ) (after : Sleepers)
        → update s.queue b after a j ≡ true
        → (s.queue a j ≡ true) ⊎ ((b ≡ a) × (after j ≡ true))
    queue_cases b after q = elim (ℕ_discrete b a) [
      | yes e ↦ inr (e, ap_true (if_pos (ℕ_discrete b a) e after (s.queue a)) q)
      | no ne ↦ inl (ap_true (if_neg (ℕ_discrete b a) ne after (s.queue a)) q)
    ]

    awake-Stays :
        (c : Pc) (t' : Thread Pc)
        → (s.queue a i ≡ true → WaitsOn a (running c))
        → s.queue a j ≡ true
        → Stays t'
    awake-Stays c t' own q = elim (ℕ_discrete j i) [
      | yes e ↦ absurd (running_awake a c (own (subst (λ x. s.queue a x ≡ true) e q)))
      | no ne ↦ inl (ne, q)
    ]

    Move-Stays :
        {h : Shared} {t t' : Thread Pc}
        → Move k p i s t h t'
        → (s.queue a i ≡ true → WaitsOn a t)
        → h.queue a j ≡ true
        → Stays t'
    Move-Stays (act {c} l) own q = awake-Stays c _ own q
    Move-Stays (sleep {c} {a = b} {v} e _) own q = elim (ℕ_discrete j i) [
      | yes here ↦ elim (ℕ_discrete b a) [
        | yes at ↦ inr (here, (c, v, refl, subst (λ x. p.access c ≡ wait x v) at e))
        | no off ↦ awake-Stays c _ own (ground arith)
      ]
      | no ne ↦ inl (
        ne,
        elim (queue_cases b (update (s.queue b) i true) q) [
          | inl h ↦ h
          | inr (at, h) ↦ subst (λ x. s.queue x j ≡ true) at (ground arith)
        ],
      )
    ]
    Move-Stays (refuse {c} e _) own q = awake-Stays c _ own q
    Move-Stays (wakeup {c} {a = b} {nr} {after} e w) own q =
        awake-Stays c _ own (elim (queue_cases b after q) [
          | inl h ↦ h
          | inr (at, h) ↦ subst (λ x. s.queue x j ≡ true) at (doc.wakes_asleep w j h)
        ])
    Move-Stays (return {c} {a = b} {v} e out) own q = elim (ℕ_discrete j i) [
      | yes here ↦
          let (d, u, g, f) = own (subst (λ x. s.queue a x ≡ true) here q) in
          let same : b ≡ a = cc in
          let asleep : s.queue a i ≡ true = subst (λ x. s.queue a x ≡ true) here q in
          let awake : s.queue a i ≡ false = subst (λ x. s.queue x i ≡ false) same out in cc
      | no ne ↦ inl (ne, q)
    ]

  Step-Asleep :
      {k : Kernel}
      → IsFutex k
      → {n : ℕ} {s u : System Pc} → Step k p n s u
      → Asleep n s
      → Asleep n u
  Step-Asleep doc {s = s} (pick i {t = t'} lt mv) own a j q =
      elim (Move-Stays doc i s.shared a j mv (λ h. (own a i h).1) q) [
        | inl (ne, h) ↦ (
          (own a j h).0,
          rw (if_neg (ℕ_discrete i j) (λ e. ne (sym e)) t' (s.thread j)) (own a j h).1,
        )
        | inr (e, w) ↦ (omega arith, rw (if_pos (ℕ_discrete i j) (sym e) t' (s.thread j)) w)
      ]
  Step-Asleep doc {s = s} (disturb b {after} d) own a j q =
      elim (queue_cases doc 0 s.shared a j b after q) [
        | inl h ↦ own a j h
        | inr (at, h) ↦ own a j (subst (λ x. s.queue x j ≡ true) at (doc.disturbs_asleep d j h))
      ]

  -- Every sleeper on a queue is a thread inside the FUTEX_WAIT of that word.
  pub Reach-Asleep :
      {k : Kernel}
      → IsFutex k
      → {n : ℕ} {m : Memory} {pc : ℕ → Pc} {s : System Pc} → Reach k p n (system m pc) s
      → Asleep n s
  Reach-Asleep doc start = λ a j q. cc
  Reach-Asleep doc (later r st) = Step-Asleep doc st (Reach-Asleep doc r)
