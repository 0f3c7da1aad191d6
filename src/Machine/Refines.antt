-- ===== src/Machine/Refines.antt =====
-- Runs of a program seen through one of its parts.
use futextest.Common.{
  ℕ, ◌+◌, ◌-◌, ◌<◌, ◌≡◌, ◌⊎◌, inl, inr, refl, sym, ap, subst, update, ◌∙◌, arith, ℕ_discrete,
  dec_lt, true,
}
use futextest.Kernel.{Kernel}
use futextest.Machine.{
  Access, Program, System, Step, pick, disturb, Reach, start, later, halt, Thread, wait, running,
  waiting, IsStill,
}
use futextest.Machine.Project.{
  Part, Place, own, other, shift, waits_at, view_shared, view_thread, view_system,
}
use futextest.Machine.Simulation.{Move-Follows, same_queue, queue_path, queue_at, own_wait}
use mathlib.Core.Logic.{if_pos, if_neg}
use futextest.Machine.Positions.{position}

map_update {ℓ κ} :
    {A : Type ℓ} {B : Type κ} (f : A → B) (g : ℕ → A) (i : ℕ) (a : A) (j : ℕ)
    → update (λ x. f (g x)) i (f a) j ≡ f (update g i a j)
map_update f g i a j = elim (ℕ_discrete i j) [
  | yes e ↦ rw (if_pos (ℕ_discrete i j) e (f a) (f (g j)), if_pos (ℕ_discrete i j) e a (g j)) refl
  | no ne ↦ rw (if_neg (ℕ_discrete i j) ne (f a) (f (g j)), if_neg (ℕ_discrete i j) ne a (g j)) refl
]

same_update {ℓ κ} :
    {A : Type ℓ} {B : Type κ} (f : A → B) (g : ℕ → A) (i : ℕ) (a : A) (j : ℕ)
    → f (g i) ≡ f a
    → f (g j) ≡ f (update g i a j)
same_update f g i a j e = elim (ℕ_discrete i j) [
  | yes same ↦ rw (if_pos (ℕ_discrete i j) same a (g j)) (ap (λ x. f (g x)) (sym same) ∙ e)
  | no ne ↦ rw (if_neg (ℕ_discrete i j) ne a (g j)) refl
]

module _ {Pc Pd : Type 0} {p : Program Pc} {q : Program Pd} {b w : ℕ} (part : Part p q b w)
    {k : Kernel} {n : ℕ} where
  Step-Follows :
      {s u : System Pc}
      → Step k p n s u
      → Step k q n (view_system part s) (view_system part u)
        ⊎ (view_system part s ≡ view_system part u)
  Step-Follows {s} (pick i {h = h} {t = t} lt mv) = elim (Move-Follows part k i s.shared mv) [
    | inl m ↦ inl (
        subst
          (λ f. Step k q n (view_system part s) (record { shared = view_shared b w h; thread = f }))
          (λ l j. map_update (view_thread part) s.thread i t j l) (pick i lt m))
    | inr (e, f) ↦ inr (λ l. record {
      shared = e l;
      thread = λ j. same_update (view_thread part) s.thread i t j f l;
    })
  ]
  Step-Follows {s} (disturb a {after} d) = elim (dec_lt a b) [
    | yes below ↦ inr (
        ap (λ x. record (view_system part s) { shared = x })
          (same_queue b w s.shared after (inl below)))
    | no above ↦ elim (dec_lt a (b + w)) [
      | yes inside ↦
          let lt : a - b < w = omega (arith, above) in
          let off : a ≡ a - b + b = omega (arith, above) in
          inl (
            subst
              (λ x. Step k q n (view_system part s) (record (view_system part s) { shared = x }))
              (queue_path b w s.shared after lt off)
              (disturb (a - b) (queue_at b w s.shared (λ r. k.Disturbs r after) lt off d)))
      | no past ↦ inr (
          ap (λ x. record (view_system part s) { shared = x })
            (same_queue b w s.shared after (inr (omega (arith, past)))))
    ]
  ]

  -- A reachable state of the program is a reachable state of the part.
  pub Reach-Follows :
      {s u : System Pc} → Reach k p n s u → Reach k q n (view_system part s) (view_system part u)
  Reach-Follows start = start
  Reach-Follows {s} (later r st) = elim (Step-Follows st) [
    | inl st' ↦ later (Reach-Follows r) st'
    | inr e ↦ subst (λ x. Reach k q n (view_system part s) x) e (Reach-Follows r)
  ]

-- Outside the part, the position in the part is an end of it.
abbrev pub AtEnd :
    {Pc Pd : Type 0} {p : Program Pc} {q : Program Pd} {b w : ℕ} {view : Pc → Pd} {c : Pc}
    → Place p q b w view c
    → Type 0
AtEnd (own _ _ _) = Unit {0}
AtEnd {q = q} {view = view} {c = c} (other _ _) = q.access (view c) ≡ halt

shift_halt : (b : ℕ) (a : Access) → shift b a ≡ halt → a ≡ halt
shift_halt b halt e = refl
shift_halt b _ e = cc

module _ {Pc Pd : Type 0} {p : Program Pc} {q : Program Pd} {b w : ℕ} (part : Part p q b w)
    (s : System Pc) (i : ℕ) where
  abbrev Rests : Thread Pd → Type 0
  Rests t =
      ((c : Pd) × (t ≡ running c) × (q.access c ≡ halt))
      ⊎ ((c : Pd) × (a : ℕ) × (v : ℕ) × (t ≡ waiting c)
          × (q.access c ≡ wait a v)
          × ((view_shared b w s.shared).queue a i ≡ true))

  halt-Rests :
      (c : Pc) (pl : Place p q b w part.view c)
      → AtEnd pl
      → p.access c ≡ halt
      → Rests (running (part.view c))
  halt-Rests c (own e inside next) end h =
      inl (part.view c, refl, shift_halt b (q.access (part.view c)) (sym e ∙ h))
  halt-Rests c (other apart stays) end h = inl (part.view c, refl, end)

  wait-Rests :
      (c : Pc) (pl : Place p q b w part.view c) {a v : ℕ}
      → AtEnd pl
      → p.access c ≡ wait a v
      → s.queue a i ≡ true
      → Rests (waits_at pl)
  wait-Rests c (own e inside next) {a} {v} end h asleep =
      let (y, lt, at, off) = own_wait part c e inside h in
      inr (part.view c, y, v, refl, at, queue_at b w s.shared (λ r. r i ≡ true) lt off asleep)
  wait-Rests c (other apart stays) end h asleep = inl (part.view c, refl, end)

-- A thread that cannot run on, and is in the part or has come to its end there, cannot run on in the part.
pub view-IsStill :
    {Pc Pd : Type 0} {p : Program Pc} {q : Program Pd} {b w : ℕ} (part : Part p q b w)
    (s : System Pc) (i : ℕ)
    → IsStill p s i
    → AtEnd (part.place (position (s.thread i)))
    → IsStill q (view_system part s) i
view-IsStill part s i still end = elim still [
  | inl (c, e, h) ↦
      subst (Rests part s i) (ap (view_thread part) (sym e)) (
        halt-Rests part s i c (part.place c) (subst (λ t. AtEnd (part.place (position t))) e end) h)
  | inr (c, a, v, e, h, asleep) ↦ subst (Rests part s i) (ap (view_thread part) (sym e)) (
      wait-Rests part s i c (part.place c) (subst (λ t. AtEnd (part.place (position t))) e end) h
        asleep)
]
