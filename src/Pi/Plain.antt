-- ===== src/Pi/Plain.antt =====
-- A kernel for the PI futexes that meets the laws: a requeue takes one waiter from f1, and an unlock gives
-- f2 to one of the threads that wait for it.
use futextest.Common.{
  ℕ, ◌+◌, ◌<◌, ◌≡◌, ◌≢◌, inl, inr, Bool, true, false, refl, sym, arith, ◌∙◌, total, none, some,
  update, total_change, ap, subst, ℕ_discrete,
}
use mathlib.Core.Option.{some-injective}
use futextest.Pi.{Pi, PiKernel, IsPi, Requeued, Unlocked, one_if}
use futextest.Requeue.System.Owner.{away, here}

pub data Signal (p : Pi) : Pi → ℕ → Type 0 where
  nobody : ((j : ℕ) → p.on_f1 j ≡ false) → Signal p p 0
  hands :
      (j : ℕ)
      → p.on_f1 j ≡ true
      → p.owner ≡ none
      → Signal p (record p { owner = some j; on_f1 = update p.on_f1 j false }) 1
  moves :
      (j i : ℕ)
      → p.on_f1 j ≡ true
      → p.owner ≡ some i
      → i ≢ j
      → Signal p (record p { on_f1 = update p.on_f1 j false; on_f2 = update p.on_f2 j true }) 1

pub data Handover (p : Pi) : Pi → Type 0 where
  frees : ((j : ℕ) → p.on_f2 j ≡ false) → Handover p (record p { owner = none })
  passes :
      (i : ℕ)
      → p.on_f2 i ≡ true
      → Handover p (record p { owner = some i; on_f2 = update p.on_f2 i false })

abbrev pub plain_pi : PiKernel
plain_pi = record { Requeues = λ _ p q count. Signal p q count; Unlocks = Handover }

one_less :
    (f : ℕ → Bool) (j : ℕ)
    → f j ≡ true
    → (n : ℕ) → ((i : ℕ) → f i ≡ true → i < n)
    → 1 + total n (λ i. one_if (update f j false i)) ≡ total n (λ i. one_if (f i))
one_less f j e n bound =
    let change =
      total_change n (λ i. one_if (f i)) (λ i. one_if (update f j false i)) j (bound j e)
        (λ i ne. ap one_if (away f j i false ne)) in
    let was = ap one_if e in let now = ap one_if (here f j false) in omega (arith, change, was, now)

fewer_lem : (f : ℕ → Bool) (j x : ℕ) → update f j false x ≡ true → f x ≡ true
fewer_lem f j x h = ground arith

moved_lem : (f : ℕ → Bool) (j x : ℕ) → f x ≡ true → update f j false x ≡ false → j ≡ x
moved_lem f j x a b = ground arith

Signal-Requeued : {p q : Pi} {count : ℕ} → Signal p q count → Requeued p q count
Signal-Requeued {p} (nobody none_there) = record {
  fewer = λ j h. h;
  moved = ground (arith);
  kept = λ j h. h;
  only = λ j h. inl h;
  held = λ i h. h;
  taken = ground (arith);
  left = λ a b j. refl;
  counted = λ n b. omega arith;
}
Signal-Requeued {p} (hands j f free) = record {
  fewer = fewer_lem p.on_f1 j;
  moved = λ x a b. inr (ap some (moved_lem p.on_f1 j x a b), free);
  kept = λ x h. h;
  only = λ x h. inl h;
  held = ground (arith, free);
  taken = λ i _ h.
      subst (λ x. (p.on_f1 x ≡ true) × (update p.on_f1 j false x ≡ false)) (some-injective j i h)
        (f, here p.on_f1 j false);
  left = ground (arith);
  counted = one_less p.on_f1 j f;
}
Signal-Requeued {p} (moves j i f busy other) = record {
  fewer = fewer_lem p.on_f1 j;
  moved = λ x a b. inl (
      subst (λ y. update p.on_f2 j true y ≡ true) (moved_lem p.on_f1 j x a b)
        (here p.on_f2 j true));
  kept = λ x h. ground (arith, h);
  only = λ x h. elim (ℕ_discrete x j) [
    | yes same ↦
        let mine : p.owner ≢ some x = λ g. other (some-injective i x (sym busy ∙ g) ∙ same) in
        inr (ap p.on_f1 same ∙ f, ap (update p.on_f1 j false) same ∙ here p.on_f1 j false, mine)
    | no ne ↦ inl (sym (away p.on_f2 j x true ne) ∙ h)
  ];
  held = λ x h. h;
  taken = λ x free h. ground (arith, busy, free);
  left = ground (arith, busy);
  counted = one_less p.on_f1 j f;
}

Handover-Unlocked : {p q : Pi} → Handover p q → Unlocked p q
Handover-Unlocked (frees h) = record { same = λ j. refl; next = inl (refl, λ j. (h j, h j)) }
Handover-Unlocked (passes i e) = record { same = λ j. refl; next = inr (i, refl, e, λ j. refl) }

pub plain_pi-IsPi : IsPi plain_pi
plain_pi-IsPi = record { requeued = Signal-Requeued; unlocked = Handover-Unlocked }
