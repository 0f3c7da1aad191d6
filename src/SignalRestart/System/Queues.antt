-- ===== src/SignalRestart/System/Queues.antt =====
-- functional/futex_requeue_pi_signal_restart.c: the futexes f1 and f2 while only the waiter sleeps there.
use futextest.Common.{
  refl, ℕ, ◌+◌, ◌<◌, ◌≡◌, ◌≢◌, ◌⊎◌, inl, inr, Bool, true, false, sym, arith, ◌∙◌, none, some,
  update, total, ℕ_discrete, subst, Bool-cases, Option,
}
use futextest.Pi.{Pi, Requeued, Unlocked, one_if}
use futextest.Requeue.System.Owner.{away, here}

pub record Queues (p : Pi) (f1 f2 : Bool) : Type 0 where
  pub first : p.on_f1 1 ≡ f1
  pub second : p.on_f2 1 ≡ f2
  pub no_first : (j : ℕ) → j ≢ 1 → p.on_f1 j ≡ false
  pub no_second : (j : ℕ) → j ≢ 1 → p.on_f2 j ≡ false

pub first_set :
    {p : Pi} {f1 f2 : Bool} (b : Bool)
    → Queues p f1 f2
    → Queues (record p { on_f1 = update p.on_f1 1 b }) b f2
first_set {p} b w = record {
  first = here p.on_f1 1 b;
  second = w.second;
  no_first = λ j ne. away p.on_f1 1 j b ne ∙ w.no_first j ne;
  no_second = w.no_second;
}

pub second_set :
    {p : Pi} {f1 f2 : Bool} (b : Bool)
    → Queues p f1 f2
    → Queues (record p { on_f2 = update p.on_f2 1 b }) f1 b
second_set {p} b w = record {
  first = w.first;
  second = here p.on_f2 1 b;
  no_first = w.no_first;
  no_second = λ j ne. away p.on_f2 1 j b ne ∙ w.no_second j ne;
}

counted_two :
    {p q : Pi} {count : ℕ} {f1 f2 : Bool}
    → Queues p f1 f2
    → Requeued p q count
    → count + one_if (q.on_f1 0) + one_if (q.on_f1 1) ≡ one_if (p.on_f1 0) + one_if (p.on_f1 1)
unfolding total
counted_two {p} w re = omega (arith, re.counted 2 below)
  where
    below : (j : ℕ) → p.on_f1 j ≡ true → j < 2
    below j f = elim (ℕ_discrete j 1) [
      | yes e ↦ omega (arith, e)
      | no ne ↦ ground (arith, w.no_first j ne, f)
    ]

-- A requeue by the owner of f2 leaves f1 as it is, or makes its waiter wait for f2.
pub requeue_moves :
    {p q : Pi} {count : ℕ} {f1 : Bool}
    → Queues p f1 false
    → p.owner ≡ some 0
    → Requeued p q count
    → (q.owner ≡ some 0)
      × (((count ≡ 0) × Queues q f1 false) ⊎ ((count ≡ 1) × (f1 ≡ true) × Queues q false true))
requeue_moves {p} {q} {count} {f1} w own re = (
  re.held 0 own,
  elim (Bool-cases (q.on_f1 1)) [
    | inl on ↦ inl (stays (re.fewer 1 on ∙ sym on))
    | inr off ↦ elim (Bool-cases (p.on_f1 1)) [
      | inl was ↦ inr (
        one was off,
        sym w.first ∙ was,
        record {
          first = off;
          second = elim (re.moved 1 was off) [
            | inl e ↦ e
            | inr (_, free) ↦ ground (arith, own, free)
          ];
          no_first = out1;
          no_second = out2;
        },
      )
      | inr was ↦ inl (stays (was ∙ sym off))
    ]
  ],
)
  where
    out1 : (j : ℕ) → j ≢ 1 → q.on_f1 j ≡ false
    out1 j ne = ground (arith, re.fewer j, w.no_first j ne)

    out2 : (j : ℕ) → j ≢ 1 → q.on_f2 j ≡ false
    out2 j ne = ground (arith, re.only j, w.no_first j ne, w.no_second j ne)

    counts :
        count + one_if (q.on_f1 0) + one_if (q.on_f1 1) ≡ one_if (p.on_f1 0) + one_if (p.on_f1 1)
    counts = counted_two w re

    zero_ne : ◌≡◌ {A = ℕ} 0 1 → ⊥
    zero_ne e = omega arith

    one : p.on_f1 1 ≡ true → q.on_f1 1 ≡ false → count ≡ 1
    one was off = ground (arith, counts, out1 0 zero_ne, w.no_first 0 zero_ne)

    stays : p.on_f1 1 ≡ q.on_f1 1 → (count ≡ 0) × Queues q f1 false
    stays e = (
      ground (arith, counts, out1 0 zero_ne, w.no_first 0 zero_ne),
      record {
        first = sym e ∙ w.first;
        second = ground (arith, re.only 1, w.second);
        no_first = out1;
        no_second = out2;
      },
    )

pub second_free :
    {p : Pi} {f1 f2 : Bool} → Queues p f1 f2 → f2 ≡ false → (j : ℕ) → p.on_f2 j ≡ false
second_free {p} w off j = elim (ℕ_discrete j 1) [
  | yes e ↦ subst (λ x. p.on_f2 x ≡ false) (sym e) (w.second ∙ off)
  | no ne ↦ w.no_second j ne
]

pub unlock_frees :
    {p q : Pi} → Queues p false false → Unlocked p q → (q.owner ≡ none) × Queues q false false
unlock_frees {p} {q} w un = elim un.next [
  | inl (free, off) ↦ (
    free,
    record {
      first = un.same 1 ∙ w.first;
      second = (off 1).1;
      no_first = λ j ne. un.same j ∙ w.no_first j ne;
      no_second = λ j ne. (off j).1;
    },
  )
  | inr (i, _, on, _) ↦ absurd (nobody i on)
]
  where
    nobody : (i : ℕ) → p.on_f2 i ≢ true
    nobody i on = ground (arith, second_free w refl i, on)

pub owner_set :
    {p : Pi} {f1 f2 : Bool} (o : Option ℕ) → Queues p f1 f2 → Queues (record p { owner = o }) f1 f2
owner_set o w = record {
  first = w.first;
  second = w.second;
  no_first = w.no_first;
  no_second = w.no_second;
}
