-- ===== src/Requeue/System/Steps.antt =====
-- functional/futex_requeue_pi.c: what a step of a thread makes of the thread itself.
use futextest.Common.{
  ℕ, ◌≡◌, ◌≢◌, inl, inr, Bool, true, false, none, some, update, sym, arith, ◌∙◌, ap, subst,
  ℕ_discrete,
}
use mathlib.Core.Option.{some-injective}
use mathlib.Core.Logic.{if_neg}
use futextest.Common.Int.{pos}
use futextest.Pi.{
  Pi, Unlocked, Requeued, dropped, running, waiting, wait_requeue, wait_complete, ok,
}
use futextest.Requeue.System.{Pc, access, resume, blocker_waits, Reply}
use futextest.Requeue.System.Rules.{
  Own, holds_at, IsPlaced, gets_holds, waits_lem, rests_holds, holds,
}
use futextest.Requeue.System.Owner.{here, none_or_some}

module _ (n : ℕ) (broadcast lock_f2 timed : Bool) (p : Pi) (i : ℕ) (c : Pc)
    (own : Own n broadcast lock_f2 timed p i (running c)) where
  pub runs_on :
      (d : Pc)
      → (holds_at n broadcast lock_f2 timed d ≡ holds_at n broadcast lock_f2 timed c)
        × IsPlaced n broadcast lock_f2 timed (running d)
      → Own n broadcast lock_f2 timed p i (running d)
  runs_on d (same, placed) = record {
    owns = ground (arith, own.owns);
    holder = ground (arith, own.holder);
    one = ground (arith, own.one);
    two = ground (arith, own.two);
    asleep = ground (arith);
    placed = placed;
  }

  pub blocks_own :
      access n broadcast lock_f2 timed c ≡ wait_requeue
      → Own n broadcast lock_f2 timed (record p { on_f1 = update p.on_f1 i true }) i (waiting c)
  blocks_own e =
      let f = here p.on_f1 i true in
      let (w, h, placed) = waits_lem n broadcast lock_f2 timed c e in
      record {
        owns = ground (arith);
        holder = ground (arith);
        one = λ _. (ap waiting w, ground (arith, own.owns), ground (arith, own.two));
        two = ground (arith, own.two);
        asleep = λ _. inl f;
        placed = placed;
      }

  pub takes_own :
      (d : Pc)
      → (holds_at n broadcast lock_f2 timed d ≡ true)
        × IsPlaced n broadcast lock_f2 timed (running d)
      → p.owner ≡ none
      → Own n broadcast lock_f2 timed (record p { owner = some i }) i (running d)
  takes_own d (h, placed) free = record {
    owns = ground (arith);
    holder = ground (arith);
    one = ground (arith, own.one);
    two = ground (arith, own.two);
    asleep = ground (arith);
    placed = placed;
  }

  pub queues_own :
      holds_at n broadcast lock_f2 timed c ≡ false
      → IsPlaced n broadcast lock_f2 timed (waiting c)
      → p.owner ≢ none
      → Own n broadcast lock_f2 timed (record p { on_f2 = update p.on_f2 i true }) i (waiting c)
  queues_own h placed busy =
      let f = here p.on_f2 i true in
      record {
        owns = ground (arith);
        holder = ground (arith);
        one = ground (arith, own.one);
        two = ground (arith, own.owns);
        asleep = ground (arith, f);
        placed = placed;
      }

  pub unlocks_own :
      (q : Pi) (d : Pc)
      → (holds_at n broadcast lock_f2 timed d ≡ false)
        × IsPlaced n broadcast lock_f2 timed (running d)
      → p.owner ≡ some i
      → Unlocked p q
      → Own n broadcast lock_f2 timed q i (running d)
  unlocks_own q d (h, placed) mine un = elim un.next [
    | inl (free, none_there) ↦ record {
      owns = ground (arith);
      holder = ground (arith);
      one = ground (arith, un.same i, own.one);
      two = ground (arith, none_there i);
      asleep = ground (arith);
      placed = placed;
    }
    | inr (l, e, was, now) ↦
        let other : l ≢ i = λ same. handed (subst (λ x. p.on_f2 x ≡ true) same was) in
        let f : q.on_f2 i ≡ p.on_f2 i = now i ∙ if_neg (ℕ_discrete l i) other false (p.on_f2 i) in
        let o : q.owner ≢ some i = λ g. other (some-injective l i (sym e ∙ g)) in
        record {
          owns = ground (arith);
          holder = ground (arith);
          one = ground (arith, un.same i, own.one);
          two = ground (arith, own.two);
          asleep = ground (arith);
          placed = placed;
        }
  ]
    where
      handed : p.on_f2 i ≢ true
      handed = ground (arith, own.two)

  pub requeues_own :
      (q : Pi) (d : Pc)
      → (holds_at n broadcast lock_f2 timed d ≡ holds_at n broadcast lock_f2 timed c)
        × IsPlaced n broadcast lock_f2 timed (running d)
      → {count : ℕ} → Requeued p q count
      → Own n broadcast lock_f2 timed q i (running d)
  requeues_own q d (h, placed) re = elim (none_or_some p.owner) [
    | inl free ↦ record {
      owns = ground (arith, re.taken i, own.one);
      holder = ground (arith, own.holder);
      one = ground (arith, re.fewer i, own.one);
      two = ground (arith, re.only i, own.one, own.two);
      asleep = ground (arith);
      placed = placed;
    }
    | inr (k, e) ↦ record {
      owns = ground (arith, re.held k, own.owns);
      holder = ground (arith, re.held k, own.holder);
      one = ground (arith, re.fewer i, own.one);
      two = ground (arith, re.only i, own.one, own.two);
      asleep = ground (arith);
      placed = placed;
    }
  ]

  pub rests_own :
      access n broadcast lock_f2 timed c ≡ wait_complete
      → Own n broadcast lock_f2 timed p i (waiting c)
  rests_own e =
      let at = (rests_holds n broadcast lock_f2 timed c (ok (pos 0)) e).0 in
      subst (λ d. Own n broadcast lock_f2 timed p i (waiting d)) (sym at)
        (rests (subst (λ d. Own n broadcast lock_f2 timed p i (running d)) at own))
    where
      rests :
          Own n broadcast lock_f2 timed p i (running blocker_waits)
          → Own n broadcast lock_f2 timed p i (waiting blocker_waits)
      rests o = record {
        owns = λ _. inl (λ x. true);
        holder = λ _. o.holder (λ x. true);
        one = ground (arith, o.one);
        two = ground (arith, o.two);
        asleep = λ _. inr (inr (o.holder (λ x. true)));
        placed = tt;
      }

module _ (n : ℕ) (broadcast lock_f2 timed : Bool) (p : Pi) (i : ℕ) (c : Pc)
    (own : Own n broadcast lock_f2 timed p i (waiting c)) where
  pub returns_own :
      (r : Reply)
      → access n broadcast lock_f2 timed c ≡ wait_complete
      → Own n broadcast lock_f2 timed p i (running (resume n broadcast lock_f2 timed c r))
  returns_own r e =
      let (at, h, placed) = rests_holds n broadcast lock_f2 timed c r e in
      let mine =
        own.holder
          (subst (λ d. holds n broadcast lock_f2 timed (waiting d) ≡ true) (sym at) (λ x. true)) in
      record {
        owns = λ _. inl h;
        holder = λ _. mine;
        one = ground (arith, own.one);
        two = ground (arith, own.two, mine);
        asleep = ground (arith);
        placed = placed;
      }

  pub drops_own :
      (d : Pc)
      → (holds_at n broadcast lock_f2 timed d ≡ false)
        × IsPlaced n broadcast lock_f2 timed (running d)
      → p.owner ≢ some i
      → Own n broadcast lock_f2 timed (dropped i p) i (running d)
  drops_own d (h, placed) out =
      let f = here p.on_f1 i false in
      let g = here p.on_f2 i false in
      record {
        owns = ground (arith);
        holder = ground (arith);
        one = ground (arith, f);
        two = ground (arith, g);
        asleep = ground (arith);
        placed = placed;
      }

  pub gets_own :
      access n broadcast lock_f2 timed c ≢ wait_complete
      → p.owner ≡ some i
      → Own n broadcast lock_f2 timed p i
          (running (resume n broadcast lock_f2 timed c (ok (pos 0))))
  gets_own ne mine =
      let (h, placed) = gets_holds n broadcast lock_f2 timed c ne own.placed in
      record {
        owns = ground (arith);
        holder = ground (arith);
        one = ground (arith, own.one);
        two = ground (arith, own.two);
        asleep = ground (arith);
        placed = placed;
      }
