-- ===== src/Machine.antt =====
-- Threads that share futex words: each runs a program of atomic accesses and futex calls, and the
-- kernel and the scheduler choose the interleaving. A program is a transition system, `access` and
-- `resume`, that a component's file reads off the C function.
pub mod Schedule
pub mod Asleep
pub mod Positions
pub mod Project
pub mod Simulation
pub mod Refines
use futextest.Common.{zero, Option, none, some, ℕ, ◌<◌, ◌≡◌, true, false, update, ◌⊎◌, suc}
use futextest.Futex.{futex_cmpxchg, futex_dec, futex_set}
use futextest.Kernel.{Kernel, Sleepers}

-- One access to shared memory, or one call of the kernel; the first argument is the address.
pub data Access : Type 0 where
  load : ℕ → Access
  store : ℕ → ℕ → Access
  cmpxchg : ℕ → ℕ → ℕ → Access
  dec : ℕ → Access
  wait : ℕ → ℕ → Access
  wake : ℕ → ℕ → Access
  halt : Access

pub record Program (Pc : Type 0) : Type 0 where
  pub access : Pc → Access
  pub resume : Pc → ℕ → Pc

abbrev pub Memory : Type 0
Memory = ℕ → ℕ

-- An access that is no call of the kernel.
abbrev pub IsLocal : Access → Type 0
IsLocal (wait _ _) = ⊥
IsLocal (wake _ _) = ⊥
IsLocal halt = ⊥
IsLocal _ = Unit {0}

abbrev at : ℕ → (ℕ → ℕ × ℕ) → Memory → Memory × ℕ
at a f m = let (w, v) = f (m a) in (update m a w, v)

-- The new memory, and the value that the thread gets back.
unfoldable pub perform : Access → Memory → Memory × ℕ
unfolding futex_cmpxchg futex_dec futex_set
perform (load a) m = (m, m a)
perform (store a v) m = at a (λ w. futex_set w v) m
perform (cmpxchg a old new) m = at a (λ w. futex_cmpxchg w old new) m
perform (dec a) m = at a futex_dec m
perform (wait _ _) m = (m, 0)
perform (wake _ _) m = (m, 0)
perform halt m = (m, 0)

-- One thread by itself, until it halts: `none` if it calls the kernel or the fuel runs out.
unfoldable pub solo : {Pc : Type 0} → Program Pc → ℕ → Pc → Memory → Option (Pc × Memory)
unfolding perform
solo p zero c m = none
solo p (suc fuel) c m = elim (p.access c) [
  | wait _ _ ↦ none
  | wake _ _ ↦ none
  | halt ↦ some (c, m)
  | a ↦ let (m', v) = perform a m in solo p fuel (p.resume c v) m'
]

-- A thread runs, or it is inside FUTEX_WAIT.
pub data Thread (Pc : Type 0) : Type 0 where
  running : Pc → Thread Pc
  waiting : Pc → Thread Pc

-- The futex words, and who sleeps on each of them.
pub record Shared : Type 0 where
  pub mem : Memory
  pub queue : ℕ → Sleepers

-- A step of thread `i`. The return value of a futex call is not used by the programs here: 0.
pub data Move (k : Kernel) {Pc : Type 0} (p : Program Pc) (i : ℕ) (s : Shared)
    : Thread Pc → Shared → Thread Pc → Type 0 where
  act :
      {c : Pc}
      → IsLocal (p.access c)
      → Move k p i s
          (running c)
          (record s { mem = (perform (p.access c) s.mem).0 })
          (running (p.resume c (perform (p.access c) s.mem).1))
  sleep :
      {c : Pc} {a v : ℕ}
      → p.access c ≡ wait a v
      → k.Blocks (s.mem a) v
      → Move k p i s
          (running c)
          (record s { queue = update s.queue a (update (s.queue a) i true) })
          (waiting c)
  refuse :
      {c : Pc} {a v : ℕ}
      → p.access c ≡ wait a v
      → k.Refuses (s.mem a) v
      → Move k p i s (running c) s (running (p.resume c 0))
  wakeup :
      {c : Pc} {a nr : ℕ} {after : Sleepers}
      → p.access c ≡ wake a nr
      → k.Wakes nr (s.queue a) after
      → Move k p i s
          (running c)
          (record s { queue = update s.queue a after })
          (running (p.resume c 0))
  return :
      {c : Pc} {a v : ℕ}
      → p.access c ≡ wait a v
      → s.queue a i ≡ false
      → Move k p i s (waiting c) s (running (p.resume c 0))

pub record System (Pc : Type 0) : Type 0 where
  pub shared : Shared
  pub open shared use *
  pub thread : ℕ → Thread Pc

-- A step of one of the first `n` threads, or of the kernel on its own.
pub data Step (k : Kernel) {Pc : Type 0} (p : Program Pc) (n : ℕ) (s : System Pc)
    : System Pc → Type 0 where
  pick :
      (i : ℕ) {h : Shared} {t : Thread Pc}
      → i < n
      → Move k p i s.shared (s.thread i) h t
      → Step k p n s (record { shared = h; thread = update s.thread i t })
  disturb :
      (a : ℕ) {after : Sleepers}
      → k.Disturbs (s.queue a) after
      → Step k p n s (record s { shared = record { mem = s.mem; queue = update s.queue a after } })

pub data Reach (k : Kernel) {Pc : Type 0} (p : Program Pc) (n : ℕ) (s : System Pc)
    : System Pc → Type 0 where
  start : Reach k p n s s
  later : {t u : System Pc} → Reach k p n s t → Step k p n t u → Reach k p n s u

-- Memory `m`, nobody asleep, and thread `i` at `pc i`.
abbrev pub system : {Pc : Type 0} → Memory → (ℕ → Pc) → System Pc
system m pc = record {
  shared = record { mem = m; queue = λ _ _. false };
  thread = λ i. running (pc i);
}

-- Thread `i` cannot run on: it has come to its end or sleeps in the kernel.
abbrev pub IsStill : {Pc : Type 0} → Program Pc → System Pc → ℕ → Type 0
IsStill {Pc} p s i =
    ((c : Pc) × (s.thread i ≡ running c) × (p.access c ≡ halt))
    ⊎ ((c : Pc) × (a : ℕ) × (v : ℕ) × (s.thread i ≡ waiting c)
        × (p.access c ≡ wait a v)
        × (s.queue a i ≡ true))

-- No thread can run on.
abbrev pub IsQuiet : {Pc : Type 0} → Program Pc → ℕ → System Pc → Type 0
IsQuiet p n s = (i : ℕ) → i < n → IsStill p s i
