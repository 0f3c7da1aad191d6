-- ===== src/Locktest/Abort.antt =====
-- `locktest` of performance/harness.h when a thread could not be made. A thread that was not made is one
-- that takes no step; nothing here asks whether it does.
use futextest.Common.{
  ℕ, ◌≡◌, false, refl, arith, ◌≢◌, ◌<◌, inl, ap, inr, suc, sym, dec_lt, ◌∙◌, subst,
}
use futextest.Machine.{halt, System, Thread, running, waiting, IsStill, Reach}
use futextest.Machine.Positions.{position}
use futextest.Machine.Project.{view_thread, view_system}
use futextest.Mutex.{next_round}
use futextest.Mutex.Safety.{InSection, word_tells}
use futextest.Barrier
use futextest.Barrier.{unblock_store, synced, opened, threads, unblock, barrier}
use futextest.Barrier.Rules.{MainOk}
use futextest.Locktest.{
  Pc, before, locking, after, returned, measured, joining, access, locktest, init, lock_word,
  value_of,
}
use futextest.Locktest.Parts.{
  lock_part, lock_place, at_before, rounds_of, before_place, before_part,
}
use futextest.Locktest.Phases.{IsPlaced, Reach-IsPlaced, pc_before}
use futextest.Kernel.{Kernel, IsFutex}
use futextest.Word.{int_max}
use futextest.Locktest.Runs.{part_runs, rounds}
use futextest.Machine.Refines.{view-IsStill}
use futextest.Locktest.Quiet.{before_end}
use futextest.Barrier.Abort.{abort_passed, abort_syncs}
use futextest.Common.Window.{window_at}
use futextest.Barrier.Safety.{Reach-Inv}

-- A thread at barrier_before, or past it without a round.
abbrev pub IsOut : Pc → Type 0
IsOut (before _) = Unit {0}
IsOut (returned v) = v ≡ value_of false
IsOut joining = Unit {0}
IsOut _ = ⊥

module _ (loops : ℕ) where
  worker-IsOut :
      (c : Pc)
      → IsPlaced false c
      → ((v : ℕ) → at_before false loops c ≡ synced v → v ≡ value_of false)
      → IsOut c
  worker-IsOut (before _) ok h = tt
  worker-IsOut (locking u c) ok h = let e : u ≡ value_of false = h u refl in absurd (ground arith)
  worker-IsOut (after u c) ok h = let e : u ≡ value_of false = h u refl in absurd (ground arith)
  worker-IsOut (returned u) ok h = h u refl
  worker-IsOut (measured c) ok h = cc
  worker-IsOut joining ok h = tt

  main-IsOut :
      (spare t u : ℕ) (c : Pc)
      → IsPlaced false c
      → MainOk (value_of false) spare t u (at_before false loops c)
      → IsOut c
  main-IsOut spare t u (before _) ok h = tt
  main-IsOut spare t u (locking _ _) ok h = absurd h
  main-IsOut spare t u (after _ _) ok h = absurd h
  main-IsOut spare t u (returned _) ok h = absurd h
  main-IsOut spare t u (measured c) ok h = cc
  main-IsOut spare t u joining ok h = tt

  not_started : (n : ℕ) → ¬ InSection (running (next_round n))
  not_started n h = ground arith

  not_yet : (c : Barrier.Pc) → ¬ InSection (running (rounds_of false loops c))
  not_yet c h = ground arith

  out_of_section :
      (t : Thread Pc) → IsOut (position t) → ¬ InSection (view_thread (lock_part false loops) t)
  unfolding lock_place
  out_of_section (running (before c)) o h = not_yet c h
  out_of_section (running (returned v)) o h = not_started loops h
  out_of_section (running joining) o h = h
  out_of_section (waiting (before c)) o h = not_yet c h
  out_of_section (waiting (returned v)) o h = not_started loops h
  out_of_section (waiting joining) o h = h
  out_of_section (running (locking _ _)) o h = o
  out_of_section (running (after _ _)) o h = o
  out_of_section (running (measured _)) o h = o
  out_of_section (waiting (locking _ _)) o h = o
  out_of_section (waiting (after _ _)) o h = o
  out_of_section (waiting (measured _)) o h = o

  -- The end of a worker, and of the calling thread.
  worker_ended :
      (t : Thread Pc)
      → IsOut (position t)
      → IsPlaced false (position t)
      → ((c : Pc) → t ≡ waiting c → access false loops c ≢ halt)
      → view_thread (before_part false loops) t ≡ running (synced (value_of false))
      → t ≡ running (returned (value_of false))
  unfolding before_place
  worker_ended (running (returned v)) o ok w e = ap (λ x. running (returned x)) o
  worker_ended (running (before (synced v))) o ok w e = absurd ok
  worker_ended (running (before _)) o ok w e = cc
  worker_ended (running joining) o ok w e = cc
  worker_ended (waiting (returned v)) o ok w e = absurd (w (returned v) refl refl)
  worker_ended (waiting joining) o ok w e = absurd (w joining refl refl)
  worker_ended (waiting (before c)) o ok w e = cc
  worker_ended (running (locking _ _)) o ok w e = absurd o
  worker_ended (running (after _ _)) o ok w e = absurd o
  worker_ended (running (measured _)) o ok w e = absurd o
  worker_ended (waiting (locking _ _)) o ok w e = absurd o
  worker_ended (waiting (after _ _)) o ok w e = absurd o
  worker_ended (waiting (measured _)) o ok w e = absurd o

  main_ended :
      (t : Thread Pc)
      → IsOut (position t)
      → IsPlaced false (position t)
      → ((c : Pc) → t ≡ waiting c → access false loops c ≢ halt)
      → view_thread (before_part false loops) t ≡ running opened
      → t ≡ running joining
  unfolding before_place
  main_ended (running (returned v)) o ok w e = cc
  main_ended (running (before opened)) o ok w e = absurd ok
  main_ended (running (before _)) o ok w e = cc
  main_ended (running joining) o ok w e = refl
  main_ended (waiting (returned v)) o ok w e = absurd (w (returned v) refl refl)
  main_ended (waiting joining) o ok w e = absurd (w joining refl refl)
  main_ended (waiting (before c)) o ok w e = cc
  main_ended (running (locking _ _)) o ok w e = absurd o
  main_ended (running (after _ _)) o ok w e = absurd o
  main_ended (running (measured _)) o ok w e = absurd o
  main_ended (waiting (locking _ _)) o ok w e = absurd o
  main_ended (waiting (after _ _)) o ok w e = absurd o
  main_ended (waiting (measured _)) o ok w e = absurd o

  waits_still :
      (s : System Pc) (i : ℕ)
      → IsStill (locktest false loops) s i
      → (c : Pc) → s.thread i ≡ waiting c
      → access false loops c ≢ halt
  waits_still s i still c e h = elim still [ inl (d, f, g) ↦ cc | inr (d, a, v, f, g, q) ↦ cc ]

module _ {k : Kernel} (doc : IsFutex k) {n : ℕ} (small : n < int_max) (loops : ℕ) {s : System Pc}
    (r : Reach k (locktest false loops) (suc n) (init false n) s) where
  placed : (i : ℕ) → IsPlaced false (position (s.thread i))
  placed = Reach-IsPlaced false loops r

  all-IsOut : (i : ℕ) → i < suc n → IsOut (position (s.thread i))
  all-IsOut i lt =
      let (run, _, _) = part_runs false loops r in
      elim (dec_lt i n) [
        | yes below ↦
            worker-IsOut loops (position (s.thread i)) (placed i)
              (λ v e. abort_syncs small run i v below (pc_before false loops (s.thread i) ∙ e))
        | no above ↦
            let main = (Reach-Inv n unblock_store (omega arith) (refl, omega arith) run).main in
            subst (λ x. IsOut (position (s.thread x))) (omega (arith, lt, above))
              (main-IsOut loops n _ _ (position (s.thread n)) (placed n)
                (subst (MainOk (value_of false) n _ _) (pc_before false loops (s.thread n)) main))
      ]

  -- With fewer than INT_MAX workers and a kernel whose FUTEX_WAIT and FUTEX_WAKE do what futex(2)
  -- says: when a thread could not be made, nobody does a round, on any schedule. Each thread is at
  -- barrier_before or got -1 from it, or is the calling thread at its `pthread_join`, and the lock
  -- stays free.
  pub abort-IsOut : (i : ℕ) → i < suc n → IsOut (position (s.thread i)) × (s.mem lock_word ≡ 0)
  abort-IsOut i lt =
      let (_, _, run) = part_runs false loops r in
      let (_, free) = (word_tells doc (rounds loops n) run).1 in
      (
        all-IsOut i lt,
        sym (window_at 4 1 0 s.mem 0 (omega arith))
            ∙ free (λ j lt'. out_of_section loops (s.thread j) (all-IsOut j lt')),
      )

  before-IsStill :
      (i : ℕ)
      → IsStill (locktest false loops) s i
      → IsStill (barrier (value_of false)) (view_system (before_part false loops) s) i
  before-IsStill i still =
      view-IsStill (before_part false loops) s i still
        (before_end loops false (position (s.thread i)))

  -- With fewer than INT_MAX workers and a kernel whose FUTEX_WAIT and FUTEX_WAKE do what futex(2)
  -- says: when a thread could not be made and the calling thread and a worker cannot run on, the one
  -- has come to its `pthread_join` and the other has returned, with -1 from its `barrier_sync`: the
  -- abort waits for nobody who sleeps.
  pub abort_joins :
      (i : ℕ)
      → i < n
      → IsStill (locktest false loops) s n
      → IsStill (locktest false loops) s i
      → (s.thread n ≡ running joining) × (s.thread i ≡ running (returned (value_of false)))
  abort_joins i lt main still =
      let (run, _, _) = part_runs false loops r in
      let (m, w) =
        abort_passed small run doc i lt (λ e. absurd (omega arith)) (before-IsStill n main)
          (before-IsStill i still) in
      (
        main_ended loops (s.thread n) (all-IsOut n (omega arith)) (placed n)
            (waits_still loops s n main) m,
        worker_ended loops (s.thread i) (all-IsOut i (omega arith)) (placed i)
            (waits_still loops s i still) w,
      )
