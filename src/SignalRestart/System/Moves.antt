-- ===== src/SignalRestart/System/Moves.antt =====
-- functional/futex_requeue_pi_signal_restart.c: what a step of `main` leaves of the places of the two threads.
use futextest.Common.{ap, ◌≡◌, Bool, true, false, arith, refl, ◌∙◌, ℕ, subst, inl, sym, inr}
use futextest.Common.Int.{negsuc, ℤ, pos}
use futextest.Functional.{ewouldblock, Reply}
use futextest.Futex.Atomic.{AtomicT}
use futextest.Pi.{Pi, Unlocked, Requeued}
use futextest.SignalRestart.System.{
  requeues, unlocks, MainPc, WaiterPc, waits, reads, releases, returned, State, start, after_wait,
  ends, after_requeue, kills, sets, result_of,
}
use futextest.SignalRestart.System.Stages.{
  Inv, IsOwner, IsResult, IsStage, IsReading, value_at, at_main, returned_at_unlock,
  waits_at_requeue, main_goes, waits_handles,
}
use futextest.SignalRestart.System.Queues.{Queues, requeue_moves, unlock_frees}

reads-IsStage :
    (prompt : Bool) (m : MainPc) (r : Reply) (a : AtomicT) (asleep f1 f2 pending : Bool) (w : ℤ)
    → a.val ≡ value_at m
    → IsStage prompt m (reads r) asleep f1 f2 pending w
    → IsStage prompt m (after_wait r a) asleep f1 f2 pending (result_of (after_wait r a) w)
reads-IsStage prompt m r a asleep f1 f2 pending w e (pass, reply, awake, off1, off2, at) =
    let (code, err) : (r.res ≡ negsuc 0) × (r.errno ≡ ewouldblock) =
      (ap (λ x. x.res) reply, ap (λ x. x.errno) reply) in
    ground (arith, e, pass, code, err, awake, off1, off2, at)

reads-IsResult :
    (prompt : Bool) (m : MainPc) (w w' : ℤ) → IsReading prompt m → IsResult m w → IsResult m w'
reads-IsResult prompt m w w' h e = ground (arith, h, e)

module _ (prompt : Bool) where
  pub waiter_asleep :
      (m : MainPc) (asleep f1 f2 pending : Bool) (ret : ℤ) (w : WaiterPc)
      → asleep ≡ true
      → IsStage prompt m w asleep f1 f2 pending ret
      → w ≡ waits
  waiter_asleep m asleep f1 f2 pending ret waits e h = refl
  waiter_asleep m asleep f1 f2 pending ret (reads r) e h = ground (arith, e, h.2)
  waiter_asleep m asleep f1 f2 pending ret releases e h = absurd h
  waiter_asleep m asleep f1 f2 pending ret (returned r) e h = ground (arith, e, h.2)

  pub Start-Inv : Inv prompt start
  Start-Inv = record {
    owner = refl;
    value = refl;
    result = tt;
    f1 = false;
    f2 = false;
    queues = record {
      first = refl;
      second = refl;
      no_first = λ _ _. refl;
      no_second = λ _ _. refl;
    };
    stage = (refl, refl, refl);
  }

  module _ (s : State) (v : Inv prompt s) where
    -- A step of `main` that leaves the futexes as they are.
    pub goes :
        (m m' : MainPc)
        → s.main ≡ m
        → (IsOwner m s.pi.owner → IsOwner m' s.pi.owner)
        → value_at m ≡ value_at m'
        → IsResult m' s.waiter_ret
        → ((f1 f2 pending : Bool) (w : WaiterPc)
            → IsStage prompt m w s.asleep f1 f2 pending s.waiter_ret
            → IsStage prompt m' w s.asleep f1 f2 pending s.waiter_ret)
        → Inv prompt (record s { main = m' })
    goes m m' e o same res stage =
        let i = at_main prompt e v in
        record {
          owner = o i.owner;
          value = i.value ∙ same;
          result = res;
          f1 = i.f1;
          f2 = i.f2;
          queues = i.queues;
          stage = stage i.f1 i.f2 s.pending s.waiter i.stage;
        }

  -- After a requeue that has reported `count` tasks
  pub requeued :
      {q : Pi} {count : ℕ} (s : State)
      → Inv prompt (record s { main = requeues })
      → (prompt ≡ true → s.pending ≡ false)
      → Requeued s.pi q count
      → Inv prompt (record s { pi = q; main = after_requeue (pos count) })
  requeued {q} {count} s v calm re =
      let (w, pass, sleep, off) =
        waits_at_requeue prompt s.asleep v.f1 v.f2 s.pending s.waiter_ret s.waiter v.stage in
      let queues = subst (λ x. Queues s.pi v.f1 x) off v.queues in
      let (owned, moved) = requeue_moves queues v.owner re in
      elim moved [
        | inl (none_moved, q0) ↦
            subst (λ x. Inv prompt (record s { pi = q; main = after_requeue (pos x) }))
              (sym none_moved)
              (record {
                owner = owned;
                value = v.value;
                result = tt;
                f1 = v.f1;
                f2 = false;
                queues = q0;
                stage =
                    subst (λ x. IsStage prompt kills x s.asleep v.f1 false s.pending s.waiter_ret)
                      (sym w) (pass, ground (arith, sleep), refl);
              })
        | inr (one_moved, was, q1) ↦
            subst (λ x. Inv prompt (record s { pi = q; main = after_requeue (pos x) }))
              (sym one_moved)
              (record {
                owner = owned;
                value = v.value;
                result = tt;
                f1 = false;
                f2 = true;
                queues = q1;
                stage =
                    subst (λ x. IsStage prompt sets x s.asleep false true s.pending s.waiter_ret)
                      (sym w) (pass, sleep ∙ was, (refl, refl, calm));
              })
      ]

  pub unlocked :
      {q : Pi} (s : State) (ret : ℤ)
      → Inv prompt (record s { main = unlocks ret })
      → Unlocked s.pi q
      → Inv prompt (record s { pi = q; main = ends ret })
  unlocked {q} s ret v un =
      let (off1, off2) =
        returned_at_unlock prompt s.asleep v.f1 v.f2 s.pending s.waiter_ret ret s.waiter v.stage in
      let queues =
        subst (λ x. Queues s.pi x false) off1 (subst (λ x. Queues s.pi v.f1 x) off2 v.queues) in
      let (free, q0) = unlock_frees queues un in
      record {
        owner = free;
        value = v.value;
        result = v.result;
        f1 = false;
        f2 = false;
        queues = q0;
        stage =
            subst (λ x. IsStage prompt (ends ret) s.waiter s.asleep x false s.pending s.waiter_ret)
              off1
              (subst
                (λ x. IsStage prompt (ends ret) s.waiter s.asleep v.f1 x s.pending s.waiter_ret)
                off2
                (main_goes prompt (unlocks ret) (ends ret) s.asleep v.f1 v.f2 s.pending s.pending
                  s.waiter_ret s.waiter (λ h. h) (λ h. h) (λ h. h) v.stage));
      }

  pub back :
      {s : State} {w : WaiterPc}
      → s.waiter ≡ w
      → Inv prompt (record s { waiter = w })
      → Inv prompt s
  back {s} e = subst (λ w. Inv prompt (record s { waiter = w })) (sym e)

  pub handles-IsStage :
      (m : MainPc) (asleep f1 f2 pending : Bool) (ret : ℤ) (w : WaiterPc)
      → asleep ≡ false
      → IsStage prompt m w asleep f1 f2 pending ret
      → IsStage prompt m w asleep f1 f2 false ret
  handles-IsStage m asleep f1 f2 pending ret waits e (x, y, z) =
      (x, y, waits_handles prompt m f1 f2 pending (sym e ∙ y) z)
  handles-IsStage m asleep f1 f2 pending ret (reads r) e h = h
  handles-IsStage m asleep f1 f2 pending ret releases e h = h
  handles-IsStage m asleep f1 f2 pending ret (returned r) e h = h

  pub read :
      (s : State) (r : Reply)
      → Inv prompt (record s { waiter = reads r })
      → Inv prompt (record s {
        waiter_ret = result_of (after_wait r s.requeued) s.waiter_ret;
        waiter = after_wait r s.requeued;
      })
  read s r v = record {
    owner = v.owner;
    value = v.value;
    result =
        reads-IsResult prompt s.main s.waiter_ret (result_of (after_wait r s.requeued) s.waiter_ret)
          v.stage.5 v.result;
    f1 = v.f1;
    f2 = v.f2;
    queues = v.queues;
    stage =
        reads-IsStage prompt s.main r s.requeued s.asleep v.f1 v.f2 s.pending s.waiter_ret v.value
          v.stage;
  }
