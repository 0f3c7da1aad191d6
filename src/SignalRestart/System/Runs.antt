-- ===== src/SignalRestart/System/Runs.antt =====
-- functional/futex_requeue_pi_signal_restart.c: what holds in every state of `main` and the waiter.
use futextest.Common.{◌≢◌, Bool, true, none, some, arith, refl, sym, ◌∙◌, Option, ℕ, false}
use futextest.Common.Int.{pos}
use futextest.Futex.Atomic.{atomic_set}
use futextest.Pi.{PiKernel, IsPi, later}
use futextest.SignalRestart.{out}
use futextest.SignalRestart.System.{
  begins, later, Reach, locks, kills, requeues, sets, kills_again, joins, ends, exited, State, Step,
  main_takes, main_queues, main_gets, main_kills, main_requeues, main_fails, main_sets,
  main_kills_again, main_joins, main_unlocks, main_refused, main_ends, waiter_blocks, waiter_gets,
  waiter_reads, waiter_unlocks, waiter_refused, restarts, interrupts, handles,
}
use futextest.SignalRestart.System.Queues.{owner_set, first_set, second_set}
use futextest.SignalRestart.System.Stages.{
  Inv, at_main, at_waiter, main_goes, waits_blocks, owner_not, waits_restarts, waits_interrupted,
}
use futextest.SignalRestart.System.Moves.{
  handles-IsStage, goes, requeued, unlocked, back, Start-Inv, read, waiter_asleep, handles-IsStage,
}

module _ (k : PiKernel) (law : IsPi k) (prompt : Bool) where
  same : {A : Type 0} → A → A
  same x = x

  Step-Inv : {s t : State} → Step k prompt s t → Inv prompt s → Inv prompt t
  unfolding atomic_set
  Step-Inv {s} (main_takes e free) v =
      let i = at_main prompt e v in
      record {
        owner = refl;
        value = i.value;
        result = tt;
        f1 = i.f1;
        f2 = i.f2;
        queues = owner_set (some 0) i.queues;
        stage =
            main_goes prompt locks kills s.asleep i.f1 i.f2 s.pending s.pending s.waiter_ret
              s.waiter same same same i.stage;
      }
  Step-Inv {s} (main_queues e busy) v = absurd (busy (at_main prompt e v).owner)
  Step-Inv {s} (main_gets e mine) v = absurd (both (sym (at_main prompt e v).owner ∙ mine))
    where
      both : ◌≢◌ {A = Option ℕ} none (some 0)
      both = cc
  Step-Inv {s} (main_kills e) v =
      let i = at_main prompt e v in
      record {
        owner = i.owner;
        value = i.value;
        result = tt;
        f1 = i.f1;
        f2 = i.f2;
        queues = i.queues;
        stage =
            main_goes prompt kills requeues s.asleep i.f1 i.f2 s.pending true s.waiter_ret s.waiter
              same same same i.stage;
      }
  Step-Inv {s} (main_requeues e calm re) v =
      requeued prompt s (at_main prompt e v) calm (law.requeued re)
  Step-Inv {s} (main_fails e) v = goes prompt s v requeues kills e same refl tt (λ f1 f2 pending w.
      main_goes prompt requeues kills s.asleep f1 f2 pending pending s.waiter_ret w same same same)
  Step-Inv {s} (main_sets e) v =
      let i = at_main prompt e v in
      record {
        owner = i.owner;
        value = refl;
        result = refl;
        f1 = i.f1;
        f2 = i.f2;
        queues = i.queues;
        stage =
            main_goes prompt sets (kills_again (pos 0)) s.asleep i.f1 i.f2 s.pending s.pending
              s.waiter_ret s.waiter same same same i.stage;
      }
  Step-Inv {s} (main_kills_again {ret} e) v =
      let i = at_main prompt e v in
      record {
        owner = i.owner;
        value = i.value;
        result = i.result;
        f1 = i.f1;
        f2 = i.f2;
        queues = i.queues;
        stage =
            main_goes prompt (kills_again ret) (joins ret) s.asleep i.f1 i.f2 s.pending true
              s.waiter_ret s.waiter (λ h. (h.0, h.1, refl)) (λ _. tt) (λ _. tt) i.stage;
      }
  Step-Inv {s} (main_joins {ret} {r} e f) v =
      let i = at_waiter prompt f (at_main prompt e v) in
      back prompt f (record {
        owner = i.owner;
        value = i.value;
        result = i.result;
        f1 = i.f1;
        f2 = i.f2;
        queues = i.queues;
        stage = i.stage;
      })
  Step-Inv {s} (main_unlocks {ret} e mine un) v =
      unlocked prompt s ret (at_main prompt e v) (law.unlocked un)
  Step-Inv {s} (main_refused e out_) v = absurd (out_ (at_main prompt e v).owner)
  Step-Inv {s} (main_ends {ret} e) v =
      let i = at_main prompt e v in
      goes prompt s v (ends ret) (exited (out ret s.waiter_ret)) e same refl
        (ground (arith, i.result))
        (λ f1 f2 pending w.
          main_goes prompt (ends ret) (exited (out ret s.waiter_ret)) s.asleep f1 f2 pending pending
            s.waiter_ret w same same same)
  Step-Inv {s} (waiter_blocks e awake) v =
      let i = at_waiter prompt e v in
      let (pass, sleep, at) = i.stage in
      back prompt e (record {
        owner = i.owner;
        value = i.value;
        result = i.result;
        f1 = true;
        f2 = i.f2;
        queues = first_set true i.queues;
        stage =
            let (x, y) = waits_blocks prompt s.main i.f1 i.f2 s.pending (sym awake ∙ sleep) at in
            (pass, x, y);
      })
  Step-Inv {s} (waiter_gets e sleeping mine) v = absurd (owner_not prompt s.main v.owner mine)
  Step-Inv {s} (waiter_reads {r} e) v = read prompt s r (at_waiter prompt e v)
  Step-Inv {s} (waiter_unlocks e mine un) v = absurd (at_waiter prompt e v).stage
  Step-Inv {s} (waiter_refused e out_) v = absurd (at_waiter prompt e v).stage
  Step-Inv {s} (restarts on sleeping f) v =
      let e =
        waiter_asleep prompt s.main s.asleep v.f1 v.f2 s.pending s.waiter_ret s.waiter sleeping
          v.stage in
      let i = at_waiter prompt e v in
      let (pass, sleep, at) = i.stage in
      back prompt e (record {
        owner = i.owner;
        value = i.value;
        result = i.result;
        f1 = false;
        f2 = i.f2;
        queues = first_set false i.queues;
        stage =
            let (x, y) =
              waits_restarts prompt s.main i.f1 i.f2 s.pending (sym i.queues.first ∙ f) at in
            (pass, x, y);
      })
  Step-Inv {s} (interrupts on sleeping f) v =
      let e =
        waiter_asleep prompt s.main s.asleep v.f1 v.f2 s.pending s.waiter_ret s.waiter sleeping
          v.stage in
      let i = at_waiter prompt e v in
      let (pass, sleep, at) = i.stage in
      let (off, reading) =
        waits_interrupted prompt s.main i.f1 i.f2 s.pending (sym i.queues.second ∙ f) on at in
      record {
        owner = i.owner;
        value = i.value;
        result = i.result;
        f1 = i.f1;
        f2 = false;
        queues = second_set false i.queues;
        stage = (pass, refl, refl, off, refl, reading);
      }
  Step-Inv {s} (handles on awake) v = record {
    owner = v.owner;
    value = v.value;
    result = v.result;
    f1 = v.f1;
    f2 = v.f2;
    queues = v.queues;
    stage =
        handles-IsStage prompt s.main s.asleep v.f1 v.f2 s.pending s.waiter_ret s.waiter awake
          v.stage;
  }

  pub Reach-Inv : {s : State} → Reach k prompt s → Inv prompt s
  Reach-Inv begins = Start-Inv prompt
  Reach-Inv (later r st) = Step-Inv st (Reach-Inv r)
