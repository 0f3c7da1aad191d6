-- ===== src/Machine/Project.antt =====
-- Part of a program: a program whose threads run another one on some of the words, for a time. Its
-- reachable states, seen through the part, are reachable states of the part.
use futextest.Common.{ℕ, ◌+◌, ◌<◌, ◌≡◌, false}
use futextest.Common.Window.{IsApart, window}
use futextest.Machine.{
  Access, load, store, cmpxchg, dec, wait, wake, halt, Program, Thread, running, waiting, Shared,
  System,
}

-- An access of the part, at the addresses from `b` on.
abbrev pub shift : ℕ → Access → Access
shift b (load a) = load (a + b)
shift b (store a v) = store (a + b) v
shift b (cmpxchg a o n) = cmpxchg (a + b) o n
shift b (dec a) = dec (a + b)
shift b (wait a v) = wait (a + b) v
shift b (wake a n) = wake (a + b) n
shift b halt = halt

-- What the access is to: `P` of its address.
abbrev pub AtAddress : (ℕ → Type 0) → Access → Type 0
AtAddress P (load a) = P a
AtAddress P (store a _) = P a
AtAddress P (cmpxchg a _ _) = P a
AtAddress P (dec a) = P a
AtAddress P (wait a _) = P a
AtAddress P (wake a _) = P a
AtAddress P halt = Unit {0}

module _ {Pc Pd : Type 0} (p : Program Pc) (q : Program Pd) (b w : ℕ) where
  -- Where a position of the whole program stands in the part: at its own access, or outside, so that
  -- the access is to other words and the position in the part stays.
  pub data Place (view : Pc → Pd) (c : Pc) : Type 0 where
    own :
        p.access c ≡ shift b (q.access (view c))
        → AtAddress (λ a. a < w) (q.access (view c))
        → ((v : ℕ) → view (p.resume c v) ≡ q.resume (view c) v)
        → Place view c
    other :
        AtAddress (IsApart b w) (p.access c)
        → ((v : ℕ) → view (p.resume c v) ≡ view c)
        → Place view c

  pub record Part : Type 0 where
    pub view : Pc → Pd
    pub place : (c : Pc) → Place view c

-- The words and the queues of the part.
abbrev pub view_shared : (b w : ℕ) → Shared → Shared
view_shared b w s = record { mem = window b w 0 s.mem; queue = window b w (λ _. false) s.queue }

-- A thread that waits outside the part stands at its position in the part.
abbrev pub waits_at :
    {Pc Pd : Type 0} {p : Program Pc} {q : Program Pd} {b w : ℕ} {view : Pc → Pd} {c : Pc}
    → Place p q b w view c
    → Thread Pd
waits_at {view = view} {c} (own _ _ _) = waiting (view c)
waits_at {view = view} {c} (other _ _) = running (view c)

module _ {Pc Pd : Type 0} {p : Program Pc} {q : Program Pd} {b w : ℕ} (part : Part p q b w) where
  abbrev pub view_thread : Thread Pc → Thread Pd
  view_thread (running c) = running (part.view c)
  view_thread (waiting c) = waits_at (part.place c)

  abbrev pub view_system : System Pc → System Pd
  view_system s = record {
    shared = view_shared b w s.shared;
    thread = λ i. view_thread (s.thread i);
  }
