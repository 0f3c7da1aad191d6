-- ===== src/Machine/Positions.antt =====
-- What the positions of the threads keep in every run.
use futextest.Common.{ℕ, ℕ_discrete}
use futextest.Machine.{
  Program, Thread, running, waiting, Shared, Move, act, sleep, refuse, wakeup, return, System, pick,
  disturb, Reach, start, later,
}
use futextest.Kernel.{Kernel}
use mathlib.Core.Logic.{if_pos, if_neg}

abbrev pub position : {Pc : Type 0} → Thread Pc → Pc
position (running c) = c
position (waiting c) = c

module _ {Pc : Type 0} (p : Program Pc) (P : Pc → Type 0)
    (keep : (c : Pc) (v : ℕ) → P c → P (p.resume c v)) where
  Move-keeps :
      {k : Kernel} {i : ℕ} {s h : Shared} {t t' : Thread Pc}
      → Move k p i s t h t'
      → P (position t)
      → P (position t')
  Move-keeps (act {c} l) ok = keep c _ ok
  Move-keeps (sleep e b) ok = ok
  Move-keeps (refuse {c} e r) ok = keep c 0 ok
  Move-keeps (wakeup {c} e w) ok = keep c 0 ok
  Move-keeps (return {c} e out) ok = keep c 0 ok

  pub Reach-keeps :
      {k : Kernel} {n : ℕ} {s u : System Pc}
      → Reach k p n s u
      → ((i : ℕ) → P (position (s.thread i)))
      → (i : ℕ) → P (position (u.thread i))
  Reach-keeps start ok i = ok i
  Reach-keeps (later {t = s'} r (pick j {t = d} lt mv)) ok i = elim (ℕ_discrete j i) [
    | yes e ↦ rw (if_pos (ℕ_discrete j i) e d (s'.thread i)) (Move-keeps mv (Reach-keeps r ok j))
    | no ne ↦ rw (if_neg (ℕ_discrete j i) ne d (s'.thread i)) (Reach-keeps r ok i)
  ]
  Reach-keeps (later r (disturb a d)) ok i = Reach-keeps r ok i
