-- ===== src/Requeue/System/Owner.antt =====
-- functional/futex_requeue_pi.c: every step of its threads keeps who holds f2 and who sleeps.
use futextest.Common.{
  ℕ, ◌≡◌, ◌≢◌, inl, inr, Bool, true, update, refl, sym, ℕ_discrete, ◌∙◌, none, false, some, arith,
  subst, Option, ◌⊎◌,
}
use mathlib.Core.Logic.{if_pos, if_neg}
use mathlib.Core.Option.{some-injective}
use futextest.Pi.{Pi, Thread, dropped, Unlocked, Requeued}
use futextest.Requeue.System.{Pc}
use futextest.Requeue.System.Rules.{Own}

pub away {ℓ} : {A : Type ℓ} (f : ℕ → A) (i j : ℕ) (b : A) → j ≢ i → update f i b j ≡ f j
away f i j b ne = if_neg (ℕ_discrete i j) (λ e. ne (sym e)) b (f j)

pub here {ℓ} : {A : Type ℓ} (f : ℕ → A) (i : ℕ) (b : A) → update f i b i ≡ b
here f i b = if_pos (ℕ_discrete i i) refl b (f i)

-- A property of every member after one has changed.
pub updated {ℓ κ} :
    {A : Type ℓ} (P : ℕ → A → Type κ) (f : ℕ → A) (i : ℕ) (a : A)
    → P i a
    → ((j : ℕ) → j ≢ i → P j (f j))
    → (j : ℕ) → P j (update f i a j)
updated P f i a own other j = elim (ℕ_discrete j i) [
  | yes same ↦ subst (λ x. P x (update f i a x)) (sym same) (subst (P i) (sym (here f i a)) own)
  | no ne ↦ subst (P j) (sym (away f i j a ne)) (other j ne)
]

pub none_or_some : (o : Option ℕ) → (o ≡ none) ⊎ ((k : ℕ) × (o ≡ some k))
none_or_some none = inl refl
none_or_some (some k) = inr (k, refl)

module _ (n : ℕ) (broadcast lock_f2 timed : Bool) (p q : Pi) (i j : ℕ) (ne : j ≢ i) (u : Thread Pc)
    (own : Own n broadcast lock_f2 timed p j u) where
  pub blocks_other : Own n broadcast lock_f2 timed (record p { on_f1 = update p.on_f1 i true }) j u
  blocks_other =
      let f = away p.on_f1 i j true ne in
      record {
        owns = own.owns;
        holder = own.holder;
        one = λ h. own.one (sym f ∙ h);
        two = own.two;
        asleep = λ h. elim (own.asleep h) [ inl a ↦ inl (f ∙ a) | inr b ↦ inr b ];
        placed = own.placed;
      }

  pub dropped_other : Own n broadcast lock_f2 timed (dropped i p) j u
  dropped_other =
      let f = away p.on_f1 i j false ne in
      let g = away p.on_f2 i j false ne in
      record {
        owns = own.owns;
        holder = own.holder;
        one = ground (arith, f, g, own.one);
        two = ground (arith, f, g, own.two);
        asleep = ground (arith, f, g, own.asleep);
        placed = own.placed;
      }

  pub takes_other : p.owner ≡ none → Own n broadcast lock_f2 timed (record p { owner = some i }) j u
  takes_other free = record {
    owns = ground (arith, ne);
    holder = ground (arith, own.holder);
    one = ground (arith, own.one);
    two = ground (arith, own.two);
    asleep = ground (arith, own.asleep);
    placed = own.placed;
  }

  pub queues_other : Own n broadcast lock_f2 timed (record p { on_f2 = update p.on_f2 i true }) j u
  queues_other =
      let f = away p.on_f2 i j true ne in
      record {
        owns = own.owns;
        holder = own.holder;
        one = ground (arith, f, own.one);
        two = ground (arith, f, own.two);
        asleep = ground (arith, f, own.asleep);
        placed = own.placed;
      }

  pub unlocks_other : p.owner ≡ some i → Unlocked p q → Own n broadcast lock_f2 timed q j u
  unlocks_other mine un = elim un.next [
    | inl (free, none_there) ↦ record {
      owns = ground (arith, ne);
      holder = ground (arith, ne, own.holder);
      one = ground (arith, un.same j, own.one, none_there j);
      two = ground (arith, none_there j);
      asleep = ground (arith, un.same j, none_there j, own.asleep);
      placed = own.placed;
    }
    | inr (l, e, was, now) ↦ handed l e was (now j)
  ]
    where
      handed :
          (l : ℕ)
          → q.owner ≡ some l
          → p.on_f2 l ≡ true
          → q.on_f2 j ≡ update p.on_f2 l false j
          → Own n broadcast lock_f2 timed q j u
      handed l e was now = elim (ℕ_discrete l j) [
        | yes same ↦
            let f : q.on_f2 j ≡ false = now ∙ if_pos (ℕ_discrete l j) same false (p.on_f2 j) in
            let g : p.on_f2 j ≡ true = subst (λ x. p.on_f2 x ≡ true) same was in
            let o : q.owner ≡ some j = subst (λ x. q.owner ≡ some x) same e in
            record {
              owns = ground (arith, own.two);
              holder = ground (arith);
              one = ground (arith, un.same j, own.one);
              two = ground (arith);
              asleep = ground (arith);
              placed = own.placed;
            }
        | no other ↦
            let f : q.on_f2 j ≡ p.on_f2 j = now ∙ if_neg (ℕ_discrete l j) other false (p.on_f2 j) in
            let o : q.owner ≢ some j = λ h. other (some-injective l j (sym e ∙ h)) in
            record {
              owns = ground (arith);
              holder = ground (arith, own.holder);
              one = ground (arith, un.same j, own.one);
              two = ground (arith, own.two);
              asleep = ground (arith, un.same j, own.asleep);
              placed = own.placed;
            }
      ]

  pub requeues_other : {count : ℕ} → Requeued p q count → Own n broadcast lock_f2 timed q j u
  requeues_other re = elim (none_or_some p.owner) [
    | inl free ↦
        let unmoved : q.owner ≡ none → q.on_f1 j ≡ p.on_f1 j = λ h. re.left free h j in
        record {
          owns = ground (arith, re.taken j, own.one);
          holder = ground (arith, own.holder);
          one = ground (arith, re.fewer j, re.taken j, re.only j, own.one);
          two = ground (arith, re.only j, unmoved, own.one, own.two);
          asleep = ground (arith, re.moved j, re.kept j, own.asleep);
          placed = own.placed;
        }
    | inr (k, e) ↦ record {
      owns = ground (arith, re.held k, own.owns);
      holder = ground (arith, re.held k, own.holder);
      one = ground (arith, re.held k, re.fewer j, re.only j, own.one);
      two = ground (arith, re.held k, re.only j, own.one, own.two);
      asleep = ground (arith, re.held j, re.moved j, re.kept j, own.asleep);
      placed = own.placed;
    }
  ]
