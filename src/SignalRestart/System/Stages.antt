-- ===== src/SignalRestart/System/Stages.antt =====
-- functional/futex_requeue_pi_signal_restart.c: where `main` and the waiter can be at one time.
use futextest.Common.{
  ℕ, ◌≡◌, ◌≢◌, ◌⊎◌, Bool, true, false, Option, none, some, ◌||◌, arith, refl, subst,
}
use futextest.Common.Int.{ℤ, pos}
use futextest.Logging.{ret_pass, ret_fail}
use futextest.Functional.{ewouldblock}
use futextest.Pi.{failed}
use futextest.SignalRestart.System.{
  MainPc, locks, kills, requeues, sets, kills_again, joins, unlocks, ends, exited, WaiterPc, waits,
  reads, releases, returned, State,
}
use futextest.SignalRestart.System.Queues.{Queues}

abbrev pub IsOwner : MainPc → Option ℕ → Type 0
IsOwner locks o = o ≡ none
IsOwner (ends _) o = o ≡ none
IsOwner (exited _) o = o ≡ none
IsOwner _ o = o ≡ some 0

-- The value of `requeued`.
abbrev pub value_at : MainPc → ℤ
value_at locks = pos 0
value_at kills = pos 0
value_at requeues = pos 0
value_at sets = pos 0
value_at _ = pos 1

-- `ret` of `main`, with the value of `waiter_ret`
abbrev pub IsResult : MainPc → ℤ → Type 0
IsResult (kills_again ret) w = ret ≡ ret_pass
IsResult (joins ret) w = ret ≡ ret_pass
IsResult (unlocks ret) w = ret ≡ ret_pass
IsResult (ends ret) w = ret ≡ ret_pass
IsResult (exited ret) w = ret ≡ w
IsResult _ w = Unit {0}

module _ (prompt : Bool) where
  -- A waiter in its wait: `f1` and `f2` say whether it sleeps on f1 and whether it waits for f2.
  abbrev pub IsWaiting : MainPc → (f1 f2 pending : Bool) → Type 0
  IsWaiting locks f1 f2 pending = f2 ≡ false
  IsWaiting kills f1 f2 pending = f2 ≡ false
  IsWaiting requeues f1 f2 pending = f2 ≡ false
  IsWaiting sets f1 f2 pending = (f1 ≡ false) × (f2 ≡ true) × (prompt ≡ true → pending ≡ false)
  IsWaiting (kills_again _) f1 f2 pending =
      (f1 ≡ false) × (f2 ≡ true) × (prompt ≡ true → pending ≡ false)
  IsWaiting (joins _) f1 f2 pending = (f1 ≡ false) × (f2 ≡ true) × (pending ≡ true)
  IsWaiting _ f1 f2 pending = ⊥

  -- A waiter between its wait and its read of `requeued`, and after it
  abbrev pub IsReading : MainPc → Type 0
  IsReading sets = prompt ≡ false
  IsReading (kills_again _) = prompt ≡ false
  IsReading (joins _) = Unit {0}
  IsReading _ = ⊥

  abbrev pub IsReturned : MainPc → Type 0
  IsReturned locks = ⊥
  IsReturned kills = ⊥
  IsReturned requeues = ⊥
  IsReturned sets = prompt ≡ false
  IsReturned (kills_again _) = prompt ≡ false
  IsReturned _ = Unit {0}

  abbrev pub IsStage : MainPc → WaiterPc → (asleep f1 f2 pending : Bool) → ℤ → Type 0
  IsStage m waits asleep f1 f2 pending w =
      (w ≡ ret_pass) × (asleep ≡ f1 || f2) × IsWaiting m f1 f2 pending
  IsStage m (reads r) asleep f1 f2 pending w =
      (w ≡ ret_pass)
      × (r ≡ failed ewouldblock)
      × (asleep ≡ false)
      × (f1 ≡ false)
      × (f2 ≡ false)
      × IsReading m
  IsStage m releases asleep f1 f2 pending w = ⊥
  IsStage m (returned r) asleep f1 f2 pending w =
      (w ≡ r)
      × ((r ≡ ret_pass) ⊎ ((r ≡ ret_fail) × (prompt ≡ false)))
      × (asleep ≡ false)
      × (f1 ≡ false)
      × (f2 ≡ false)
      × IsReturned m

  pub record Inv (s : State) : Type 0 where
    pub owner : IsOwner s.main s.pi.owner
    pub value : s.requeued.val ≡ value_at s.main
    pub result : IsResult s.main s.waiter_ret
    pub f1 : Bool
    pub f2 : Bool
    pub queues : Queues s.pi f1 f2
    pub stage : IsStage s.main s.waiter s.asleep f1 f2 s.pending s.waiter_ret

  pub at_main : {s : State} {m : MainPc} → s.main ≡ m → Inv s → Inv (record s { main = m })
  at_main {s} e v = subst (λ m. Inv (record s { main = m })) e v

  pub at_waiter : {s : State} {w : WaiterPc} → s.waiter ≡ w → Inv s → Inv (record s { waiter = w })
  at_waiter {s} e v = subst (λ w. Inv (record s { waiter = w })) e v

  -- A step of `main` that leaves the waiter where it is.
  pub main_goes :
      (m m' : MainPc) (asleep f1 f2 pending pending' : Bool) (ret : ℤ) (w : WaiterPc)
      → (IsWaiting m f1 f2 pending → IsWaiting m' f1 f2 pending')
      → (IsReading m → IsReading m')
      → (IsReturned m → IsReturned m')
      → IsStage m w asleep f1 f2 pending ret
      → IsStage m' w asleep f1 f2 pending' ret
  main_goes m m' asleep f1 f2 pending pending' ret waits a b c (x, y, z) = (x, y, a z)
  main_goes m m' asleep f1 f2 pending pending' ret (reads r) a b c (x, e, y, f, g, z) =
      (x, e, y, f, g, b z)
  main_goes m m' asleep f1 f2 pending pending' ret releases a b c h = h
  main_goes m m' asleep f1 f2 pending pending' ret (returned r) a b c (x, e, y, f, g, z) =
      (x, e, y, f, g, c z)

  pub waits_at_requeue :
      (asleep f1 f2 pending : Bool) (ret : ℤ) (w : WaiterPc)
      → IsStage requeues w asleep f1 f2 pending ret
      → (w ≡ waits) × (ret ≡ ret_pass) × (asleep ≡ f1) × (f2 ≡ false)
  waits_at_requeue asleep f1 f2 pending ret waits (x, y, z) = (refl, x, ground (arith, y, z), z)
  waits_at_requeue asleep f1 f2 pending ret (reads r) h = absurd h.5
  waits_at_requeue asleep f1 f2 pending ret releases h = absurd h
  waits_at_requeue asleep f1 f2 pending ret (returned r) h = absurd h.5

  pub returned_at_unlock :
      (asleep f1 f2 pending : Bool) (ret r : ℤ) (w : WaiterPc)
      → IsStage (unlocks r) w asleep f1 f2 pending ret
      → (f1 ≡ false) × (f2 ≡ false)
  returned_at_unlock asleep f1 f2 pending ret r waits (x, y, z) = absurd z
  returned_at_unlock asleep f1 f2 pending ret r (reads q) h = absurd h.5
  returned_at_unlock asleep f1 f2 pending ret r releases h = absurd h
  returned_at_unlock asleep f1 f2 pending ret r (returned q) h = (h.3, h.4)

  pub owner_not : (m : MainPc) {o : Option ℕ} → IsOwner m o → o ≢ some 1
  owner_not m h e = ground (arith, h, e)

  -- A step of the waiter in its wait, wherever `main` is.
  pub waits_blocks :
      (m : MainPc) (f1 f2 pending : Bool)
      → false ≡ f1 || f2
      → IsWaiting m f1 f2 pending
      → (true ≡ true || f2) × IsWaiting m true f2 pending
  waits_blocks m f1 f2 pending e h = ground (arith, e, h)

  pub waits_restarts :
      (m : MainPc) (f1 f2 pending : Bool)
      → f1 ≡ true
      → IsWaiting m f1 f2 pending
      → (false ≡ false || f2) × IsWaiting m false f2 false
  waits_restarts m f1 f2 pending e h = ground (arith, e, h)

  pub waits_handles :
      (m : MainPc) (f1 f2 pending : Bool)
      → false ≡ f1 || f2
      → IsWaiting m f1 f2 pending
      → IsWaiting m f1 f2 false
  waits_handles m f1 f2 pending e h = ground (arith, e, h)

  pub waits_interrupted :
      (m : MainPc) (f1 f2 pending : Bool)
      → f2 ≡ true
      → pending ≡ true
      → IsWaiting m f1 f2 pending
      → (f1 ≡ false) × IsReading m
  waits_interrupted m f1 f2 pending e p h = ground (arith, e, p, h)
