-- ===== src/Locktest/Phases.antt =====
-- The phases of `locktest` of performance/harness.h.
use futextest.Common.{
  ℕ, suc, ◌≡◌, inl, inr, refl, Bool, true, false, ltb, if◌then◌else◌, Bool-cases,
}
use futextest.Kernel.{Kernel}
use futextest.Machine.{Thread, System, Reach, running, waiting}
use futextest.Machine.Positions.{position, Reach-keeps}
use futextest.Machine.Project.{view_thread}
use futextest.Mutex
use futextest.Mutex.{finished, next_round}
use futextest.Barrier
use futextest.Barrier.{barrier, sync_dec, synced, wait_load, opened}
use futextest.Barrier.Rules
use futextest.Barrier.Rules.{WorkerOk}
use futextest.Locktest.{
  joining, Pc, before, locking, after, returned, measured, in_lock, is_positive, from_before,
  resume, locktest, init, value_of, main_start,
}
use futextest.Locktest.Parts.{
  before_part, after_part, before_place, after_place, at_before, at_after,
}

abbrev pub IsGoing : Mutex.Pc → Type 0
IsGoing finished = ⊥
IsGoing _ = Unit {0}

-- The positions between which no access stands are not kept, and what a thread has read decides where it
-- is.
abbrev pub IsPlaced : Bool → Pc → Type 0
IsPlaced all (before (synced _)) = ⊥
IsPlaced all (before opened) = ⊥
IsPlaced all (locking v c) = (is_positive v ≡ true) × IsGoing c
IsPlaced all (after v _) = is_positive v ≡ true
IsPlaced all (measured _) = all ≡ true
IsPlaced all joining = all ≡ false
IsPlaced all (returned v) = is_positive v ≡ false
IsPlaced all _ = Unit {0}

in_lock-IsPlaced :
    (all : Bool) (v : ℕ) (c : Mutex.Pc) → is_positive v ≡ true → IsPlaced all (in_lock v c)
in_lock-IsPlaced all v finished e = e
in_lock-IsPlaced all v _ e = (e, tt)

from_before-IsPlaced :
    (all : Bool) (loops : ℕ) (c : Barrier.Pc) → IsPlaced all (from_before all loops c)
from_before-IsPlaced all loops (synced v) = elim (Bool-cases (is_positive v)) [
  | inl e ↦ rw e (in_lock-IsPlaced all v (next_round loops) e)
  | inr e ↦ rw e e
]
from_before-IsPlaced all loops opened = elim (Bool-cases all) [
  | inl e ↦ rw e refl
  | inr e ↦ rw e refl
]
from_before-IsPlaced all loops _ = tt

resume-IsPlaced :
    (all : Bool) (loops : ℕ) (c : Pc) (v : ℕ) → IsPlaced all c → IsPlaced all (resume all loops c v)
resume-IsPlaced all loops (before c) v ok =
    from_before-IsPlaced all loops (Barrier.resume (value_of all) c v)
resume-IsPlaced all loops (locking u c) v ok = in_lock-IsPlaced all u (Mutex.resume c v) ok.0
resume-IsPlaced all loops (after u c) v ok = ok
resume-IsPlaced all loops (returned u) v ok = ok
resume-IsPlaced all loops (measured c) v ok = ok
resume-IsPlaced all loops joining v ok = ok

init-IsPlaced : (all b : Bool) → IsPlaced all (before (if b then sync_dec else main_start all))
init-IsPlaced true true = tt
init-IsPlaced true false = tt
init-IsPlaced false true = tt
init-IsPlaced false false = tt

pub Reach-IsPlaced :
    {k : Kernel} {n : ℕ} (all : Bool) (loops : ℕ) {s : System Pc}
    → Reach k (locktest all loops) (suc n) (init all n) s
    → (i : ℕ) → IsPlaced all (position (s.thread i))
Reach-IsPlaced {n = n} all loops r =
    Reach-keeps (locktest all loops) (IsPlaced all) (resume-IsPlaced all loops) r
      (λ i. init-IsPlaced all (ltb i n))

module _ (all : Bool) (loops : ℕ) where
  -- A thread's position in a part, from its position.
  pub pc_before :
      (t : Thread Pc)
      → Rules.pc (view_thread (before_part all loops) t) ≡ at_before all loops (position t)
  unfolding before_place
  pc_before (running c) = refl
  pc_before (waiting (before c)) = refl
  pc_before (waiting _) = refl

  pub pc_after :
      (t : Thread Pc)
      → Rules.pc (view_thread (after_part all loops) t) ≡ at_after all loops (position t)
  unfolding after_place
  pc_after (running c) = refl
  pc_after (waiting (before c)) = refl
  pc_after (waiting _) = refl
