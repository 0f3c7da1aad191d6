-- ===== src/Mutex/Owner.antt =====
-- An abstract lock, which knows its owner and nothing else, and the owner of the lock of
-- performance/futex_wait.c.
use mathlib.Core.Logic.{if_pos, if_neg}
use futextest.Common.{
  ◌∙◌, ℕ, zero, suc, ◌<◌, ◌≡◌, ◌≢◌, ◌⊎◌, inl, inr, Bool, true, false, Option, none, some,
  if◌then◌else◌, refl, sym, ap, subst, arith, update, ℕ_discrete, Bool-cases,
}
use futextest.Machine.{Thread, running, waiting}
use futextest.Mutex.{Pc, unlock_load, unlock_free, unlock_marked}
use futextest.Mutex.Safety.{InSection}

-- A free lock is taken by one of the `n` threads, or its owner gives it back.
pub data LockStep (n : ℕ) : Option ℕ → Option ℕ → Type 0 where
  idle : {o : Option ℕ} → LockStep n o o
  acquire : {i : ℕ} → i < n → LockStep n none (some i)
  release : {i : ℕ} → LockStep n (some i) none

abbrev pub in_section : Thread Pc → Bool
in_section (running (unlock_load _)) = true
in_section (running (unlock_free _)) = true
in_section (running (unlock_marked _)) = true
in_section _ = false

-- The last of the first `n` threads that holds the lock.
unfoldable pub owner : ℕ → (ℕ → Thread Pc) → Option ℕ
owner zero t = none
owner (suc n) t = let rest = owner n t in if in_section (t n) then some n else rest

pub in_section_lem : (t : Thread Pc) → InSection t → in_section t ≡ true
in_section_lem (running (unlock_load _)) h = refl
in_section_lem (running (unlock_free _)) h = refl
in_section_lem (running (unlock_marked _)) h = refl
in_section_lem (running _) h = elim h [ ]
in_section_lem (waiting _) h = elim h [ ]

pub in_section-InSection : (t : Thread Pc) → in_section t ≡ true → InSection t
in_section-InSection (running (unlock_load _)) e = tt
in_section-InSection (running (unlock_free _)) e = tt
in_section-InSection (running (unlock_marked _)) e = tt
in_section-InSection (running _) e = cc
in_section-InSection (waiting _) e = cc

module _ (t : ℕ → Thread Pc) where
  owner-none : (n : ℕ) → ((j : ℕ) → j < n → in_section (t j) ≡ false) → owner n t ≡ none
  unfolding owner
  owner-none zero h = refl
  owner-none (suc n) h = rw (h n (omega arith)) (owner-none n (λ j lt. h j (omega arith)))

  owner-some :
      (n i : ℕ)
      → i < n
      → in_section (t i) ≡ true
      → ((j : ℕ) → j < n → in_section (t j) ≡ true → j ≡ i)
      → owner n t ≡ some i
  unfolding owner
  owner-some zero i lt e h = absurd (omega arith)
  owner-some (suc n) i lt e h = elim (Bool-cases (in_section (t n))) [
    | inl f ↦ rw f (ap some (h n (omega arith) f))
    | inr f ↦ rw f (owner-some n i (below f) e (λ j lt' g. h j (omega arith) g))
  ]
    where
      below : in_section (t n) ≡ false → i < n
      below f = elim (ℕ_discrete i n) [
        | yes same ↦
            let g : in_section (t n) ≡ true = subst (λ x. in_section (t x) ≡ true) same e in cc
        | no ne ↦ omega (arith, ne)
      ]

  -- What the owner tells.
  pub owner_cases :
      (n : ℕ)
      → ((owner n t ≡ none) × ((j : ℕ) → j < n → in_section (t j) ≡ false))
        ⊎ ((i : ℕ) × (i < n) × (owner n t ≡ some i) × (in_section (t i) ≡ true))
  unfolding owner
  owner_cases zero = inl (refl, λ j lt. absurd (omega arith))
  owner_cases (suc n) = elim (Bool-cases (in_section (t n))) [
    | inl f ↦ inr (n, omega arith, rw f refl, f)
    | inr f ↦ elim (owner_cases n) [
      | inl (e, h) ↦ inl (rw f e, λ j lt. earlier f h j lt)
      | inr (i, lt, e, g) ↦ inr (i, omega arith, rw f e, g)
    ]
  ]
    where
      earlier :
          in_section (t n) ≡ false
          → ((j : ℕ) → j < n → in_section (t j) ≡ false)
          → (j : ℕ) → j < suc n
          → in_section (t j) ≡ false
      earlier f h j lt = elim (ℕ_discrete j n) [
        | yes same ↦ subst (λ x. in_section (t x) ≡ false) (sym same) f
        | no ne ↦ h j (omega (arith, lt, ne))
      ]

step_at : {n : ℕ} {a b o u : Option ℕ} → o ≡ a → u ≡ b → LockStep n a b → LockStep n o u
step_at e f st = rw (e, f) st

abbrev pub AtMostOne : ℕ → (ℕ → Thread Pc) → Type 0
AtMostOne n f =
    (j l : ℕ) → j < n → l < n → in_section (f j) ≡ true → in_section (f l) ≡ true → j ≡ l

-- The change of one thread `i` to `d`, where at most one thread is in its section before and after.
module _ (n : ℕ) (t : ℕ → Thread Pc) (i : ℕ) (d : Thread Pc) (lt : i < n) where
  abbrev pub changed : ℕ → Thread Pc
  changed = update t i d

  here : in_section (changed i) ≡ in_section d
  here = ap in_section (if_pos (ℕ_discrete i i) refl d (t i))

  there : (j : ℕ) → j ≢ i → in_section (changed j) ≡ in_section (t j)
  there j ne = ap in_section (if_neg (ℕ_discrete i j) (λ (e : i ≡ j). ne (sym e)) d (t j))

  differs : (j : ℕ) → in_section (t j) ≡ true → in_section (t i) ≡ false → j ≢ i
  differs j f e same =
      let g : in_section (t i) ≡ true = subst (λ x. in_section (t x) ≡ true) same f in cc

  taken : AtMostOne n changed → in_section d ≡ true → owner n changed ≡ some i
  taken one e = owner-some changed n i lt (here ∙ e) (λ j lt' f. one j i lt' lt f (here ∙ e))

  pub held : AtMostOne n t → in_section (t i) ≡ true → owner n t ≡ some i
  held one e = owner-some t n i lt e (λ j lt' f. one j i lt' lt f e)

  was_free : AtMostOne n changed → in_section d ≡ true → in_section (t i) ≡ false → owner n t ≡ none
  was_free one e' e = owner-none t n (λ j lt'. elim (Bool-cases (in_section (t j))) [
    | inl f ↦
        let ne : j ≢ i = differs j f e in absurd (ne (one j i lt' lt (there j ne ∙ f) (here ∙ e')))
    | inr f ↦ f
  ])

  gets_free :
      AtMostOne n t → in_section d ≡ false → in_section (t i) ≡ true → owner n changed ≡ none
  gets_free one e' e = owner-none changed n (λ j lt'. elim (ℕ_discrete j i) [
    | yes same ↦ subst (λ x. in_section (changed x) ≡ false) (sym same) (here ∙ e')
    | no ne ↦ elim (Bool-cases (in_section (t j))) [
      | inl f ↦ absurd (ne (one j i lt' lt f e))
      | inr f ↦ there j ne ∙ f
    ]
  ])

  stays :
      AtMostOne n changed
      → in_section d ≡ false
      → in_section (t i) ≡ false
      → owner n changed ≡ owner n t
  stays one e' e = elim (owner_cases t n) [
    | inl (o, h) ↦
        owner-none changed n (λ j lt'. elim (ℕ_discrete j i) [
          | yes same ↦ subst (λ x. in_section (changed x) ≡ false) (sym same) (here ∙ e')
          | no ne ↦ there j ne ∙ h j lt'
        ])
        ∙ sym o
    | inr (j, lt', o, f) ↦
        let g : in_section (changed j) ≡ true = there j (differs j f e) ∙ f in
        owner-some changed n j lt' g (λ l below h. one l j below lt' h g) ∙ sym o
  ]

  pub change_step : AtMostOne n t → AtMostOne n changed → LockStep n (owner n t) (owner n changed)
  change_step one one' = elim (Bool-cases (in_section d)) [
    | inl e' ↦ elim (Bool-cases (in_section (t i))) [
      | inl e ↦ step_at (held one e) (taken one' e') idle
      | inr e ↦ step_at (was_free one' e' e) (taken one' e') (acquire lt)
    ]
    | inr e' ↦ elim (Bool-cases (in_section (t i))) [
      | inl e ↦ step_at (held one e) (gets_free one e' e) release
      | inr e ↦ step_at refl (stays one' e' e) idle
    ]
  ]
