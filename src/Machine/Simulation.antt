-- ===== src/Machine/Simulation.antt =====
-- A step of a program is a step of its part, or no step.
use futextest.Common.{
  ◌∙◌, ℕ, ◌+◌, ◌<◌, ◌≡◌, refl, sym, false, subst, update, ◌⊎◌, inl, true, ap, inr,
}
use futextest.Common.Window.{IsApart, window, window_at, window-update, window_apart}
use futextest.Machine.{
  Access, load, store, cmpxchg, dec, wait, wake, halt, Memory, IsLocal, perform, Program, Kernel,
  Shared, Thread, Move, running, Sleepers, act, sleep, refuse, wakeup, return,
}
use futextest.Machine.Project.{
  shift, AtAddress, Part, view_shared, Place, own, waits_at, view_thread, other,
}

module _ (b w : ℕ) where
  abbrev words : Memory → Memory
  words = window b w 0

  -- A local access inside the window and its access of the part do the same.
  perform_window :
      (a : Access) (m : Memory)
      → AtAddress (λ x. x < w) a
      → let (m', v) = perform (shift b a) m in
        (words m' ≡ (perform a (words m)).0) × (IsLocal a → v ≡ (perform a (words m)).1)
  unfolding perform
  perform_window (load a) m i = (refl, λ l. sym (window_at b w 0 m a i))
  perform_window (store a v) m i = (window-update b w 0 m a v i, λ l. refl)
  perform_window (cmpxchg a o n) m i =
      rw (window_at b w 0 m a i) (window-update b w 0 m a _ i, λ l. refl)
  perform_window (dec a) m i = rw (window_at b w 0 m a i) (window-update b w 0 m a _ i, λ l. refl)
  perform_window (wait a v) m i = (refl, λ l. refl)
  perform_window (wake a n) m i = (refl, λ l. refl)
  perform_window halt m i = (refl, λ l. refl)

  perform_apart :
      (a : Access) (m : Memory) → AtAddress (IsApart b w) a → words (perform a m).0 ≡ words m
  unfolding perform
  perform_apart (load a) m i = refl
  perform_apart (store a v) m i = window_apart b w 0 m a _ i
  perform_apart (cmpxchg a o n) m i = window_apart b w 0 m a _ i
  perform_apart (dec a) m i = window_apart b w 0 m a _ i
  perform_apart (wait a v) m i = refl
  perform_apart (wake a n) m i = refl
  perform_apart halt m i = refl

  IsLocal-shift : (a : Access) → IsLocal (shift b a) → IsLocal a
  IsLocal-shift (load a) l = tt
  IsLocal-shift (store a v) l = tt
  IsLocal-shift (cmpxchg a o n) l = tt
  IsLocal-shift (dec a) l = tt
  IsLocal-shift (wait a v) l = l
  IsLocal-shift (wake a n) l = l
  IsLocal-shift halt l = l

  shift_wait :
      (a : Access) {x v : ℕ} → shift b a ≡ wait x v → (y : ℕ) × (a ≡ wait y v) × (x ≡ y + b)
  shift_wait (wait a v) e = (a, cc, cc)
  shift_wait _ e = cc

  shift_wake :
      (a : Access) {x v : ℕ} → shift b a ≡ wake x v → (y : ℕ) × (a ≡ wake y v) × (x ≡ y + b)
  shift_wake (wake a v) e = (a, cc, cc)
  shift_wake _ e = cc

module _ (b w : ℕ) (s : Shared) where
  pub same_queue :
      {a : ℕ} (r : Sleepers)
      → IsApart b w a
      → view_shared b w s ≡ view_shared b w (record s { queue = update s.queue a r })
  same_queue {a} r out =
      ap (λ f. record (view_shared b w s) { queue = f })
        (sym (window_apart b w (λ _. false) s.queue a r out))

  word_at :
      (P : ℕ → Type 0) {a y : ℕ} → y < w → a ≡ y + b → P (s.mem a) → P ((view_shared b w s).mem y)
  word_at P {a} {y} lt off h = subst P (ap s.mem off ∙ sym (window_at b w 0 s.mem y lt)) h

  pub queue_at :
      (P : Sleepers → Type 0) {a y : ℕ}
      → y < w
      → a ≡ y + b
      → P (s.queue a)
      → P ((view_shared b w s).queue y)
  queue_at P {a} {y} lt off h =
      subst P (ap s.queue off ∙ sym (window_at b w (λ _. false) s.queue y lt)) h

  pub queue_path :
      {a y : ℕ} (r : Sleepers)
      → y < w
      → a ≡ y + b
      → record (view_shared b w s) { queue = update (view_shared b w s).queue y r }
        ≡ view_shared b w (record s { queue = update s.queue a r })
  queue_path {a} {y} r lt off = rw off (
      ap (λ f. record (view_shared b w s) { queue = f })
        (sym (window-update b w (λ _. false) s.queue y r lt)))

module _ {Pc Pd : Type 0} {p : Program Pc} {q : Program Pd} {b w : ℕ} (part : Part p q b w) where
  -- The word of a call that is the part's own.
  pub own_wait :
      (c : Pc) {a v : ℕ}
      → p.access c ≡ shift b (q.access (part.view c))
      → AtAddress (λ x. x < w) (q.access (part.view c))
      → p.access c ≡ wait a v
      → (y : ℕ) × (y < w) × (q.access (part.view c) ≡ wait y v) × (a ≡ y + b)
  own_wait c e inside f =
      let (y, at, off) = shift_wait b w (q.access (part.view c)) (sym e ∙ f) in
      (y, subst (AtAddress (λ x. x < w)) at inside, at, off)

  own_wake :
      (c : Pc) {a nr : ℕ}
      → p.access c ≡ shift b (q.access (part.view c))
      → AtAddress (λ x. x < w) (q.access (part.view c))
      → p.access c ≡ wake a nr
      → (y : ℕ) × (y < w) × (q.access (part.view c) ≡ wake y nr) × (a ≡ y + b)
  own_wake c e inside f =
      let (y, at, off) = shift_wake b w (q.access (part.view c)) (sym e ∙ f) in
      (y, subst (AtAddress (λ x. x < w)) at inside, at, off)

module _ {Pc Pd : Type 0} {p : Program Pc} {q : Program Pd} {b w : ℕ} (part : Part p q b w)
    (k : Kernel) (i : ℕ) (s : Shared) where
  abbrev seen : Shared → Shared
  seen = view_shared b w

  -- The part makes the step of thread `i`, or it stays as it is.
  abbrev pub Follows : Thread Pd → Shared → Thread Pd → Type 0
  Follows t h t' = Move k q i (seen s) t (seen h) t' ⊎ ((seen s ≡ seen h) × (t ≡ t'))

  into :
      {h h' : Shared} {t t' t'' : Thread Pd}
      → Move k q i (seen s) t h t'
      → h ≡ h'
      → t' ≡ t''
      → Move k q i (seen s) t h' t''
  into {h} {h'} {t} {t'} {t''} mv e f =
      subst (λ x. Move k q i (seen s) t x t'') e (subst (λ x. Move k q i (seen s) t h x) f mv)

  act-Follows :
      (c : Pc) (pl : Place p q b w part.view c)
      → IsLocal (p.access c)
      → Follows
          (running (part.view c))
          (record s { mem = (perform (p.access c) s.mem).0 })
          (running (part.view (p.resume c (perform (p.access c) s.mem).1)))
  act-Follows c (own e inside next) l =
      let a = q.access (part.view c) in
      let l' : IsLocal a = IsLocal-shift b w a (subst IsLocal e l) in
      let (mem, value) = perform_window b w a s.mem inside in
      rw e (
        inl (
          into (act {c = part.view c} l') (ap (λ m. record (seen s) { mem = m }) (sym mem))
            (ap running (ap (q.resume (part.view c)) (sym (value l')) ∙ sym (next _)))))
  act-Follows c (other apart stays) l = inr (
    ap (λ m. record (seen s) { mem = m }) (sym (perform_apart b w (p.access c) s.mem apart)),
    ap running (sym (stays _)),
  )

  sleep-Follows :
      (c : Pc) (pl : Place p q b w part.view c) {a v : ℕ}
      → p.access c ≡ wait a v
      → k.Blocks (s.mem a) v
      → Follows
          (running (part.view c))
          (record s { queue = update s.queue a (update (s.queue a) i true) })
          (waits_at pl)
  sleep-Follows c (own e inside next) {a} {v} f blocks =
      let (y, lt, at, off) = own_wait part c e inside f in
      let grown = λ (r : Sleepers). update r i true in
      inl (
        into (sleep at (word_at b w s (λ x. k.Blocks x v) lt off blocks))
          (ap (λ r. record (seen s) { queue = update (seen s).queue y (grown r) })
              (window_at b w (λ _. false) s.queue y lt ∙ ap s.queue (sym off))
            ∙ queue_path b w s (grown (s.queue a)) lt off)
          refl)
  sleep-Follows c (other apart stays) f blocks =
      inr (same_queue b w s _ (subst (AtAddress (IsApart b w)) f apart), refl)

  refuse-Follows :
      (c : Pc) (pl : Place p q b w part.view c) {a v : ℕ}
      → p.access c ≡ wait a v
      → k.Refuses (s.mem a) v
      → Follows (running (part.view c)) s (running (part.view (p.resume c 0)))
  refuse-Follows c (own e inside next) {a} {v} f refuses =
      let (y, lt, at, off) = own_wait part c e inside f in
      inl (
        into (refuse at (word_at b w s (λ x. k.Refuses x v) lt off refuses)) refl
          (ap running (sym (next 0))))
  refuse-Follows c (other apart stays) f refuses = inr (refl, ap running (sym (stays 0)))

  wakeup-Follows :
      (c : Pc) (pl : Place p q b w part.view c) {a nr : ℕ} {after : Sleepers}
      → p.access c ≡ wake a nr
      → k.Wakes nr (s.queue a) after
      → Follows
          (running (part.view c))
          (record s { queue = update s.queue a after })
          (running (part.view (p.resume c 0)))
  wakeup-Follows c (own e inside next) {a} {nr} {after} f wakes =
      let (y, lt, at, off) = own_wake part c e inside f in
      inl (
        into (wakeup at (queue_at b w s (λ r. k.Wakes nr r after) lt off wakes))
          (queue_path b w s after lt off) (ap running (sym (next 0))))
  wakeup-Follows c (other apart stays) f wakes =
      inr (same_queue b w s _ (subst (AtAddress (IsApart b w)) f apart), ap running (sym (stays 0)))

  return-Follows :
      (c : Pc) (pl : Place p q b w part.view c) {a v : ℕ}
      → p.access c ≡ wait a v
      → s.queue a i ≡ false
      → Follows (waits_at pl) s (running (part.view (p.resume c 0)))
  return-Follows c (own e inside next) f out =
      let (y, lt, at, off) = own_wait part c e inside f in
      inl (
        into (return at (queue_at b w s (λ r. r i ≡ false) lt off out)) refl
          (ap running (sym (next 0))))
  return-Follows c (other apart stays) f out = inr (refl, ap running (sym (stays 0)))

  pub Move-Follows :
      {h : Shared} {t t' : Thread Pc}
      → Move k p i s t h t'
      → Follows (view_thread part t) h (view_thread part t')
  Move-Follows (act {c} l) = act-Follows c (part.place c) l
  Move-Follows (sleep {c} e bl) = sleep-Follows c (part.place c) e bl
  Move-Follows (refuse {c} e r) = refuse-Follows c (part.place c) e r
  Move-Follows (wakeup {c} e wk) = wakeup-Follows c (part.place c) e wk
  Move-Follows (return {c} e out) = return-Follows c (part.place c) e out
