-- ===== src/Requeue/System/Counts.antt =====
-- functional/futex_requeue_pi.c: the two counters and the task count in every state of the threads.
use futextest.Common.{
  ℕ, suc, ◌+◌, ◌≤◌, ◌<◌, ◌≡◌, Bool, true, arith, total, false, total_mono, ◌≢◌, subst, update, sym,
  ◌∙◌, dec_lt, total_change, total_pairs, ap, total-le, inl, inr, total_same,
}
use futextest.Common.Int.{pos, ◌+ℤ◌, ltb_ℤ}
use futextest.Futex.Atomic.{atomic_inc, AtomicT}
use futextest.Pi.{
  Thread, waiting, System, one_if, PiKernel, IsPi, Shared, Move, blocks, times_out, unlocks,
  requeues, Requeued,
}
use futextest.Requeue.System.{Pc, waits, threads}
use futextest.Requeue.System.Codes.{gone, out, IsWaiter, IsWaker}
use futextest.Word.{to_u32, to_int}
use futextest.Requeue.System.Rules.{Own}
use futextest.Requeue.System.Blocker.{IsBlocker}
use futextest.Requeue.System.Moves.{Went}
use futextest.Requeue.System.Owner.{updated, away, here}

-- How many of the first `n` threads have left f1, and how many have counted themselves as woken.
abbrev pub left_f1 : ℕ → System Pc → ℕ
left_f1 n s = total n (λ j. gone (s.thread j) (s.pi.on_f1 j))

abbrev pub counted_out : ℕ → System Pc → ℕ
counted_out n s = total n (λ j. out (s.thread j))

gone_fewer : (t : Thread Pc) (a b : Bool) → (b ≡ true → a ≡ true) → gone t a ≤ gone t b
gone_fewer t a b h = ground arith

out-gone : (t : Thread Pc) (b : Bool) → out t ≤ gone t b
out-gone t b = ground arith

out_bounded : (t : Thread Pc) → out t ≤ 1
out_bounded t = ground arith

pub gone_bounded : (t : Thread Pc) (b : Bool) → gone t b ≤ 1
gone_bounded t b = ground arith

-- A waiter that a requeue takes from f1 is one more that has left it.
gone_moved :
    (t : Thread Pc) (a b : Bool)
    → (b ≡ true → a ≡ true)
    → (a ≡ true → t ≡ waiting waits)
    → gone t a + one_if a ≡ gone t b + one_if b
gone_moved t a b fewer f1 = ground arith

inc_woken_lem :
    (a : AtomicT) (w : ℕ) → a.val ≡ pos w → suc w < 2147483648 → (atomic_inc a).0.val ≡ pos (suc w)
unfolding atomic_inc to_u32 to_int ◌+ℤ◌
inc_woken_lem a w e lt = ground (arith, e, lt)

pub record Counted (broadcast safe : Bool) (n : ℕ) (timed : Bool) (s : System Pc) : Type 0 where
  pub waiters : (j : ℕ) → j < n → IsWaiter timed (s.thread j)
  pub waker : IsWaker broadcast safe n (left_f1 n s) (s.thread n)
  pub woken : s.woken.val ≡ pos (counted_out n s)
  pub spare : (j : ℕ) → n < j → IsBlocker (s.thread j)

module _ (k : PiKernel) (law : IsPi k) (n : ℕ) (broadcast safe lock_f2 timed : Bool)
    (small : n < 2147483648) where
  Move-fewer :
      {i : ℕ} {s h : Shared} {t u : Thread Pc}
      → Move k (threads n broadcast lock_f2 timed) i s t h u
      → (j : ℕ) → j ≢ i
      → h.pi.on_f1 j ≡ true
      → s.pi.on_f1 j ≡ true
  Move-fewer {i} {s} (blocks _) j ne f = sym (away s.pi.on_f1 i j true ne) ∙ f
  Move-fewer {i} {s} (times_out _ _ _) j ne f = sym (away s.pi.on_f1 i j false ne) ∙ f
  Move-fewer (unlocks _ _ un) j ne f = sym ((law.unlocked un).same j) ∙ f
  Move-fewer (requeues _ re) j ne f = (law.requeued re).fewer j f
  Move-fewer _ j ne f = f

  -- A counter that is at least `n` counts every waiter.
  pub past_all :
      (s : System Pc)
      → Counted broadcast safe n timed s
      → ltb_ℤ s.woken.val (pos n) ≡ false
      → n ≤ left_f1 n s
  past_all s c big =
      let all : counted_out n s ≤ left_f1 n s =
        total_mono n (λ j. out (s.thread j)) (λ j. gone (s.thread j) (s.pi.on_f1 j))
          (λ j lt. out-gone (s.thread j) (s.pi.on_f1 j)) in
      let w = subst (λ x. ltb_ℤ x (pos n) ≡ false) c.woken big in ground (arith, all, w)

  pub left_more :
      (s : System Pc) (i : ℕ) (h : Shared) (u : Thread Pc)
      → Move k (threads n broadcast lock_f2 timed) i s.shared (s.thread i) h u
      → (i < n → (a b : Bool) → gone (s.thread i) a ≤ gone u b)
      → left_f1 n s ≤ left_f1 n (record { shared = h; thread = update s.thread i u })
  left_more s i h u m leaves =
      let t : ℕ → Thread Pc = update s.thread i u in
      total_mono n (λ j. gone (s.thread j) (s.pi.on_f1 j)) (λ j. gone (t j) (h.pi.on_f1 j))
        (updated (λ j y. j < n → gone (s.thread j) (s.pi.on_f1 j) ≤ gone y (h.pi.on_f1 j)) s.thread
          i u (λ lt. leaves lt (s.pi.on_f1 i) (h.pi.on_f1 i))
          (λ j ne lt. gone_fewer (s.thread j) (s.pi.on_f1 j) (h.pi.on_f1 j) (Move-fewer m j ne)))

  -- waiters_woken after a step of a waiter
  pub woken_more :
      (s : System Pc) (i : ℕ) (h : Shared) (u : Thread Pc)
      → i < n
      → Went n broadcast lock_f2 timed s.shared h (s.thread i) u
      → s.woken.val ≡ pos (counted_out n s)
      → h.woken.val ≡ pos (counted_out n (record { shared = h; thread = update s.thread i u }))
  woken_more s i h u lt went e =
      let t : ℕ → Thread Pc = update s.thread i u in
      let change =
        total_change n (λ j. out (s.thread j)) (λ j. out (t j)) i lt
          (λ j ne. ap out (away s.thread i j u ne)) in
      let new : out (t i) ≡ out u = ap out (here s.thread i u) in
      let most = total-le n (λ j. out (t j)) (λ j. out_bounded (t j)) in
      elim went.counted [
        | inl (same, w) ↦ ap (λ a. a.val) w ∙ e ∙ ap pos (omega (arith, change, new, same))
        | inr (was, now, w) ↦
            ap (λ a. a.val) w
            ∙ inc_woken_lem s.woken (counted_out n s) e (omega (arith, change, new, was, now, most))
            ∙ ap pos (omega (arith, change, new, was, now))
      ]

  -- Who sleeps on f1 is a waiter.
  f1_waiter :
      {s : System Pc}
      → ((j : ℕ) → Own n broadcast lock_f2 timed s.pi j (s.thread j))
      → Counted broadcast safe n timed s
      → (j : ℕ) → s.pi.on_f1 j ≡ true
      → j < n
  f1_waiter {s} own c j f = elim (dec_lt j n) [
    | yes below ↦ below
    | no above ↦ absurd (elim (dec_lt n j) [
      | yes past ↦ subst IsBlocker at (c.spare j past)
      | no same ↦
          let e : j ≡ n = omega arith in
          subst (IsWaker broadcast safe n (left_f1 n s))
            (subst (λ x. s.thread x ≡ waiting waits) e at) c.waker
    ])
  ]
    where
      at : s.thread j ≡ waiting waits
      at = ((own j).one f).0

  pub requeue_moved :
      (s : System Pc) (h : Shared) (u : Thread Pc) {count : ℕ}
      → ((j : ℕ) → Own n broadcast lock_f2 timed s.pi j (s.thread j))
      → Counted broadcast safe n timed s
      → Requeued s.pi h.pi count
      → left_f1 n s + count ≤ left_f1 n (record { shared = h; thread = update s.thread n u })
  requeue_moved s h u own c re =
      let t : ℕ → Thread Pc = update s.thread n u in
      let pairs =
        total_pairs n (λ j. gone (t j) (h.pi.on_f1 j)) (λ j. one_if (h.pi.on_f1 j))
          (λ j. gone (s.thread j) (s.pi.on_f1 j)) (λ j. one_if (s.pi.on_f1 j))
          (updated
            (λ j y.
              j < n
              → gone y (h.pi.on_f1 j) + one_if (h.pi.on_f1 j)
                ≡ gone (s.thread j) (s.pi.on_f1 j) + one_if (s.pi.on_f1 j))
            s.thread n u (λ f. absurd (omega arith))
            (λ j ne lt. sym (
              gone_moved (s.thread j) (s.pi.on_f1 j) (h.pi.on_f1 j) (re.fewer j)
                (λ f. ((own j).one f).0)))) in
      omega (arith, pairs, re.counted n (f1_waiter own c))

  -- The number of the waiters that are counted as woken, after a step of another thread.
  pub others_woken :
      (s : System Pc) (i : ℕ) (h : Shared) (u : Thread Pc)
      → n ≤ i
      → h.woken ≡ s.woken
      → s.woken.val ≡ pos (counted_out n s)
      → h.woken.val ≡ pos (counted_out n (record { shared = h; thread = update s.thread i u }))
  others_woken s i h u le same e =
      let s' : System Pc = record { shared = h; thread = update s.thread i u } in
      ap (λ a. a.val) same
      ∙ e
      ∙ ap pos (
          total_same n (λ j. out (s'.thread j)) (λ j. out (s.thread j))
            (λ j lt. ap out (sym (away s.thread i j u (ground arith)))))
