-- ===== src/Machine/Schedule.antt =====
-- Reachable states by evaluation: the threads take turns in a given order, over the plain kernel.
use futextest.Common.{
  ℕ, ◌≡◌, refl, sym, subst, Bool, true, false, Option, none, some, List, [], ◌∷◌, dec_lt,
  ℕ_discrete,
}
use futextest.Kernel.Plain.{plain, wake_first}
use futextest.Machine.{
  Access, load, store, cmpxchg, dec, wait, wake, halt, Program, IsLocal, perform, Thread, running,
  waiting, Shared, Move, act, sleep, refuse, wakeup, return, System, pick, Reach, start, later,
}

module _ {Pc : Type 0} (p : Program Pc) (i : ℕ) (s : Shared) where
  abbrev Next : Thread Pc → Type 0
  Next t = Option ((h : Shared) × (t' : Thread Pc) × Move plain p i s t h t')

  next_act : (c : Pc) (a : Access) → p.access c ≡ a → IsLocal a → Next (running c)
  next_act c a e l = some (_, _, act (subst IsLocal (sym e) l))

  next_running : (c : Pc) (a : Access) → p.access c ≡ a → Next (running c)
  unfolding next_act ℕ_discrete
  next_running c (wait a v) e = elim (ℕ_discrete (s.mem a) v) [
    | yes eq ↦ some (_, _, sleep e eq)
    | no ne ↦ some (_, _, refuse e ne)
  ]
  next_running c (wake a nr) e = some (_, _, wakeup e refl)
  next_running c halt e = none
  next_running c (load a) e = next_act c (load a) e tt
  next_running c (store a v) e = next_act c (store a v) e tt
  next_running c (cmpxchg a o w) e = next_act c (cmpxchg a o w) e tt
  next_running c (dec a) e = next_act c (dec a) e tt

  next_awake :
      (c : Pc) (a v : ℕ) (q : Bool) → p.access c ≡ wait a v → s.queue a i ≡ q → Next (waiting c)
  next_awake c a v true e f = none
  next_awake c a v false e f = some (_, _, return e f)

  next_waiting : (c : Pc) (a : Access) → p.access c ≡ a → Next (waiting c)
  unfolding next_awake
  next_waiting c (wait a v) e = next_awake c a v (s.queue a i) e refl
  next_waiting c _ e = none

  next : (t : Thread Pc) → Next t
  unfolding next_running next_waiting
  next (running c) = next_running c (p.access c) refl
  next (waiting c) = next_waiting c (p.access c) refl

pub record Run {Pc : Type 0} (p : Program Pc) (n : ℕ) (s : System Pc) : Type 0 where
  pub last : System Pc
  pub open last use *
  pub reach : Reach plain p n s last

-- Thread `i` takes a step, if it can.
turn : {Pc : Type 0} {p : Program Pc} {n : ℕ} {s : System Pc} → Run p n s → ℕ → Run p n s
unfolding next dec_lt
turn {p = p} {n = n} r i = elim (dec_lt i n) [
  | no _ ↦ r
  | yes lt ↦ elim (next p i r.last.shared (r.last.thread i)) [
    | none ↦ r
    | some (h, t, mv) ↦ record { last = _; reach = later r.reach (pick i lt mv) }
  ]
]

turns : {Pc : Type 0} {p : Program Pc} {n : ℕ} {s : System Pc} → Run p n s → List ℕ → Run p n s
unfolding turn
turns r [] = r
turns r (i ∷ is) = turns (turn r i) is

unfoldable pub run : {Pc : Type 0} (p : Program Pc) (n : ℕ) (s : System Pc) → List ℕ → Run p n s
unfolding turns wake_first perform
run p n s = turns (record { last = s; reach = start })
