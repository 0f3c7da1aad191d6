-- ===== src/Requeue/Started.antt =====
-- functional/futex_requeue_pi.c: which threads `unit_test` could make, and which it joins for ever.
use futextest.Common.{
  ℕ, zero, suc, ◌+◌, ◌≤◌, ◌<◌, ◌≡◌, refl, arith, ◌↔◌, false, true, Bool, ℕ_discrete, not, subst,
  ◌||◌, ◌&&◌,
}
use futextest.Common.Int.{ℤ, pos, eqb_ℤ}
use futextest.Requeue.Threads.{Pthread, create_rt_thread}
use futextest.Requeue.UnitTest.{Style, creation_fails, World, starts, all_end, joins}
use futextest.Requeue.{thread_max}

abbrev pub IsMade : Pthread → Type 0
IsMade p =
    (p.inheritsched ≡ pos 0) × (p.schedpolicy ≡ pos 0) × (p.schedparam ≡ pos 0) × (p.create ≡ pos 0)

-- The threads that the style asks for could all be made.
pub record Started (s : Style) (w : World) : Type 0 where
  pub blocker : s.owner ≡ true → IsMade w.blocker_thread
  pub waiters : (i : ℕ) → i < thread_max → IsMade (w.waiter_thread i)
  pub waker : IsMade w.waker_thread

create_rt_thread-IsMade : (p : Pthread) → (create_rt_thread p ≡ pos 0) ↔ IsMade p
unfolding create_rt_thread
create_rt_thread-IsMade p = (λ h. ground arith, λ h. ground arith)

or_false : (x : ℤ) (b : Bool) → not (eqb_ℤ x (pos 0)) || b ≡ false → (x ≡ pos 0) × (b ≡ false)
or_false x b h = ground arith

and_true : (a b : Bool) → a && b ≡ true → (a ≡ true) × (b ≡ true)
and_true a b h = ground arith

both_false : (x : ℤ) (b : Bool) → x ≡ pos 0 → b ≡ false → not (eqb_ℤ x (pos 0)) || b ≡ false
both_false x b e f = rw (e, f) refl

creation_fails-IsMade :
    (thread : ℕ → Pthread) (n i end : ℕ)
    → end ≡ i + n
    → (creation_fails thread n i ≡ false) ↔ ((k : ℕ) → i ≤ k → k < end → IsMade (thread k))
unfolding creation_fails
creation_fails-IsMade thread zero i end e = (λ h k a b. absurd (omega arith), λ h. refl)
creation_fails-IsMade thread (suc n) i end e =
    let (forth, back) = creation_fails-IsMade thread n (suc i) end (omega arith) in
    let (made, create) = create_rt_thread-IsMade (thread i) in
    (
      λ h k a b. elim (ℕ_discrete i k) [
        | yes same ↦
            subst (λ j. IsMade (thread j)) same
              (made (or_false (create_rt_thread (thread i)) (creation_fails thread n (suc i)) h).0)
        | no other ↦
            forth (or_false (create_rt_thread (thread i)) (creation_fails thread n (suc i)) h).1 k
              (grind arith) b
      ],
      λ h.
          both_false (create_rt_thread (thread i)) (creation_fails thread n (suc i))
            (create (h i (omega arith) (omega arith))) (back (λ k a b. h k (omega arith) b)),
    )

starts_parts :
    (owner fails : Bool) (b k : ℤ)
    → ((not owner || eqb_ℤ b (pos 0)) && (not fails && eqb_ℤ k (pos 0)) ≡ true)
      ↔ ((owner ≡ true → b ≡ pos 0) × (fails ≡ false) × (k ≡ pos 0))
starts_parts owner fails b k = (λ h. ground arith, λ h. ground arith)

pub starts-Started : (s : Style) (w : World) → (starts s w ≡ true) ↔ Started s w
starts-Started s w =
    let (forth, back) = creation_fails-IsMade w.waiter_thread thread_max 0 thread_max refl in
    let (blocker, create_blocker) = create_rt_thread-IsMade w.blocker_thread in
    let (waker, create_waker) = create_rt_thread-IsMade w.waker_thread in
    let (split, join) =
      starts_parts s.owner (creation_fails w.waiter_thread thread_max 0)
        (create_rt_thread w.blocker_thread) (create_rt_thread w.waker_thread) in
    (
      λ h. record {
        blocker = λ o. blocker ((split h).0 o);
        waiters = λ i lt. forth (split h).1 i (omega arith) lt;
        waker = waker (split h).2;
      },
      λ p.
          join (
            λ o. create_blocker (p.blocker o),
            back (λ k a b. p.waiters k b),
            create_waker p.waker,
          ),
    )

-- All calls of the waiters, and of the blocker if there is one, return.
abbrev pub Ended : Style → World → Type 0
Ended s w =
    ((i : ℕ) → i < thread_max → w.waiter_ends i ≡ true) × (s.owner ≡ true → w.blocker_ends ≡ true)

all_end-Ended :
    (ends : ℕ → Bool) (n : ℕ) → (all_end ends n ≡ true) ↔ ((i : ℕ) → i < n → ends i ≡ true)
unfolding all_end
all_end-Ended ends zero = (λ h i lt. absurd (omega arith), λ h. refl)
all_end-Ended ends (suc n) =
    let (forth, back) = all_end-Ended ends n in
    (
      λ h i lt. elim (ℕ_discrete n i) [
        | yes same ↦ subst (λ j. ends j ≡ true) same (and_true (ends n) (all_end ends n) h).0
        | no other ↦ forth (and_true (ends n) (all_end ends n) h).1 i (grind arith)
      ],
      λ h. rw (h n (omega arith), back (λ i lt. h i (omega arith))) refl,
    )

owner_ends :
    (all owner b : Bool)
    → ((all && (not owner || b)) ≡ true) ↔ ((all ≡ true) × (owner ≡ true → b ≡ true))
owner_ends all owner b = (λ h. ground arith, λ h. ground arith)

pub joins-Ended : (s : Style) (w : World) → (joins s w ≡ true) ↔ Ended s w
joins-Ended s w =
    let (waiters, all) = all_end-Ended w.waiter_ends thread_max in
    let (split, join) = owner_ends (all_end w.waiter_ends thread_max) s.owner w.blocker_ends in
    (λ h. (waiters (split h).0, (split h).1), λ p. join (all p.0, p.1))
