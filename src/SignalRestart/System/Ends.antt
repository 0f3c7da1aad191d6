-- ===== src/SignalRestart/System/Ends.antt =====
-- functional/futex_requeue_pi_signal_restart.c: the course of its two threads after the loop.
use futextest.Common.{
  refl, inl, inr, arith, ℕ, ◌+◌, if◌then◌else◌, Bool, ◌≡◌, false, true, subst, ◌<◌, sym, ◌∙◌, suc,
  ◌≤◌, some, ◌⊎◌,
}
use futextest.SignalRestart.System.{
  releases, Reach, later, MainPc, locks, kills, requeues, sets, kills_again, joins, unlocks, ends,
  WaiterPc, waits, reads, main_takes, main_queues, main_gets, main_kills, main_requeues, main_fails,
  main_sets, main_kills_again, main_joins, main_unlocks, main_refused, main_ends, waiter_blocks,
  waiter_gets, waiter_reads, waiter_unlocks, waiter_refused, restarts, interrupts, handles,
  after_wait, Step, State, PiKernel, ℤ, Reply, AtomicT, returned, exited,
}
use futextest.SignalRestart.System.Stages.{
  Inv, IsStage, at_waiter, owner_not, at_main, returned_at_unlock,
}
use futextest.SignalRestart.System.Runs.{Reach-Inv}
use futextest.SignalRestart.System.Moves.{waiter_asleep}
use futextest.Common.Int.{ℤ}
use futextest.Pi.{PiKernel, IsPi, Pi}
use futextest.SignalRestart.System.Queues.{second_free}

-- A requeue has reported a task.
abbrev pub IsAfter : MainPc → Type 0
IsAfter locks = ⊥
IsAfter kills = ⊥
IsAfter requeues = ⊥
IsAfter _ = Unit {0}

-- Bounds for the steps that are left to each.
abbrev main_left : MainPc → ℕ
main_left sets = 10
main_left (kills_again _) = 8
main_left (joins _) = 6
main_left (unlocks _) = 4
main_left (ends _) = 2
main_left _ = 0

abbrev waiter_left : WaiterPc → ℕ
waiter_left waits = 2
waiter_left (reads _) = 1
waiter_left _ = 0

abbrev left : State → ℕ
left s = main_left s.main + waiter_left s.waiter + (if s.pending then 1 else 0)

pub left_bounded : (s : State) → left s ≤ 13
left_bounded s = ground arith

module _ (k : PiKernel) (prompt : Bool) where
  awake_waits :
      (m : MainPc) (asleep f1 f2 pending : Bool) (ret : ℤ)
      → IsAfter m
      → asleep ≡ false
      → IsStage prompt m waits asleep f1 f2 pending ret
      → ⊥
  awake_waits m asleep f1 f2 pending ret a e h = ground (arith, a, e, h)

  no_first :
      (m : MainPc) (asleep f1 f2 pending : Bool) (ret : ℤ)
      → IsAfter m
      → f1 ≡ true
      → IsStage prompt m waits asleep f1 f2 pending ret
      → ⊥
  no_first m asleep f1 f2 pending ret a e h = ground (arith, a, e, h)

  after_not : {A : Type 0} (x m : MainPc) → x ≡ m → (IsAfter m → ⊥) → IsAfter x → A
  after_not x m e out a = absurd (out (subst IsAfter e a))

  reads_left : (r : Reply) (a : AtomicT) → waiter_left (after_wait r a) ≡ 0
  reads_left r a = ground (arith)

  -- Every step after the loop is one of those that are left.
  Step-left :
      {s t : State}
      → Inv prompt s
      → IsAfter s.main
      → Step k prompt s t
      → IsAfter t.main × (left t < left s)
  Step-left {s} v a (main_takes e free) = after_not s.main locks e (λ x. x) a
  Step-left {s} v a (main_queues e busy) = after_not s.main locks e (λ x. x) a
  Step-left {s} v a (main_gets e mine) = after_not s.main locks e (λ x. x) a
  Step-left {s} v a (main_kills e) = after_not s.main kills e (λ x. x) a
  Step-left {s} v a (main_requeues e calm re) = after_not s.main requeues e (λ x. x) a
  Step-left {s} v a (main_fails e) = after_not s.main requeues e (λ x. x) a
  Step-left v a (main_sets e) = ground (arith, e)
  Step-left v a (main_kills_again e) = ground (arith, e)
  Step-left v a (main_joins e f) = ground (arith, e)
  Step-left v a (main_unlocks e mine un) = ground (arith, e)
  Step-left v a (main_refused e out_) = ground (arith, e)
  Step-left v a (main_ends e) = ground (arith, e)
  Step-left {s} v a (waiter_blocks e awake) =
      let i = at_waiter prompt e v in
      absurd (awake_waits s.main s.asleep i.f1 i.f2 s.pending s.waiter_ret a awake i.stage)
  Step-left {s} v a (waiter_gets e sleeping mine) = absurd (owner_not prompt s.main v.owner mine)
  Step-left {s} v a (waiter_reads {r} e) = (a, ground (arith, e, reads_left r s.requeued))
  Step-left v a (waiter_unlocks e mine un) = absurd (at_waiter prompt e v).stage
  Step-left v a (waiter_refused e out_) = absurd (at_waiter prompt e v).stage
  Step-left {s} v a (restarts on sleeping f) =
      let e =
        waiter_asleep prompt s.main s.asleep v.f1 v.f2 s.pending s.waiter_ret s.waiter sleeping
          v.stage in
      let i = at_waiter prompt e v in
      absurd (
        no_first s.main s.asleep i.f1 i.f2 s.pending s.waiter_ret a (sym i.queues.first ∙ f)
          i.stage)
  Step-left {s} v a (interrupts on sleeping f) =
      let e =
        waiter_asleep prompt s.main s.asleep v.f1 v.f2 s.pending s.waiter_ret s.waiter sleeping
          v.stage in
      (a, ground (arith, e, on))
  Step-left v a (handles on awake) = (a, ground (arith, on))

  pub data Steps (s : State) : ℕ → State → Type 0 where
    stays : Steps s 0 s
    more : {n : ℕ} {t u : State} → Steps s n t → Step k prompt t u → Steps s (suc n) u

  module _ (law : IsPi k) where
    pub Steps-left :
        {s t : State} {n : ℕ}
        → Reach k prompt s
        → IsAfter s.main
        → Steps s n t
        → Reach k prompt t × IsAfter t.main × (n + left t ≤ left s)
    Steps-left r a stays = (r, a, omega arith)
    Steps-left r a (more {n} st step) =
        let (reached, after, le) = Steps-left r a st in
        let (after', less) = Step-left (Reach-Inv k law prompt reached) after step in
        (later reached step, after', omega (arith, le, less))

    waiter_goes :
        (s : State) (ret : ℤ)
        → s.main ≡ joins ret
        → (f1 f2 : Bool) (w : WaiterPc) → s.waiter ≡ w
        → IsStage prompt (joins ret) w s.asleep f1 f2 s.pending s.waiter_ret
        → s.pi.on_f2 1 ≡ f2
        → (t : State) × Step k prompt s t
    waiter_goes s ret e f1 f2 waits f (_, sleep, (off, on, pending)) second =
        (_, interrupts pending (ground (arith, sleep, on)) (second ∙ on))
    waiter_goes s ret e f1 f2 (reads r) f h second = (_, waiter_reads f)
    waiter_goes s ret e f1 f2 releases f h second = absurd h
    waiter_goes s ret e f1 f2 (returned r) f h second = (_, main_joins e f)

    pub goes_on :
        ((p : Pi) → p.owner ≡ some 0 → ((j : ℕ) → p.on_f2 j ≡ false) → (q : Pi) × k.Unlocks p q)
        → (s : State) → Inv prompt s
        → (m : MainPc) → s.main ≡ m
        → IsAfter m
        → ((ret : ℤ) × (s.main ≡ exited ret)) ⊎ ((t : State) × Step k prompt s t)
    goes_on unlock s v sets e a = inr (_, main_sets e)
    goes_on unlock s v (kills_again ret) e a = inr (_, main_kills_again e)
    goes_on unlock s v (joins ret) e a =
        let i = at_main prompt e v in
        inr (waiter_goes s ret e i.f1 i.f2 s.waiter refl i.stage i.queues.second)
    goes_on unlock s v (unlocks ret) e a =
        let i = at_main prompt e v in
        let (_, off) =
          returned_at_unlock prompt s.asleep i.f1 i.f2 s.pending s.waiter_ret ret s.waiter
            i.stage in
        let (q, un) = unlock s.pi i.owner (second_free i.queues off) in
        inr (_, main_unlocks e i.owner un)
    goes_on unlock s v (ends ret) e a = inr (_, main_ends e)
    goes_on unlock s v (exited ret) e a = inl (ret, e)
    goes_on unlock s v _ e a = absurd a
