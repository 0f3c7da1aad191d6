-- ===== src/Pi.antt =====
-- Threads that share the counters of functional/futex_requeue_pi.c, the futexes f1 and wake_complete and
-- the PI futex f2. The threads run programs of accesses, as in Machine.antt, over the kernel calls of
-- Pi/Kernel.antt.
pub mod Kernel
pub mod Plain
use futextest.Common.{ℕ, ◌<◌, ◌≡◌, ◌≢◌, ◌⊎◌, Bool, true, false, none, some, update}
use futextest.Common.Int.{ℤ, pos, negsuc, ◌<ℤ◌}
use futextest.Futex.Atomic.{AtomicT, atomic_initializer, atomic_inc}
use futextest.Functional.{Reply, etimedout}
pub use futextest.Pi.Kernel.{Pi, PiKernel, Requeued, Unlocked, IsPi, one_if}

pub data Access : Type 0 where
  load_blocked : Access  -- waiters_blocked.val
  load_woken : Access  -- waiters_woken.val
  inc_blocked : Access  -- atomic_inc(&waiters_blocked)
  inc_woken : Access  -- atomic_inc(&waiters_woken)
  wait_requeue : Access  -- FUTEX_WAIT_REQUEUE_PI from f1 to f2
  lock : Access  -- FUTEX_LOCK_PI of f2
  unlock : Access  -- FUTEX_UNLOCK_PI of f2
  requeue : ℕ → Access  -- FUTEX_CMP_REQUEUE_PI from f1 to f2
  wait_complete : Access  -- FUTEX_WAIT of wake_complete, whose word never changes
  wake_complete : Access  -- FUTEX_WAKE of wake_complete, for one thread
  halt : Access

pub record Program (Pc : Type 0) : Type 0 where
  pub access : Pc → Access
  pub resume : Pc → Reply → Pc
  -- Whether a wait on f1 has a timeout.
  pub timed : Bool

pub record Shared : Type 0 where
  pub blocked : AtomicT
  pub woken : AtomicT
  pub pi : Pi
  -- Who sleeps in a wait on wake_complete.
  pub on_complete : ℕ → Bool

pub data Thread (Pc : Type 0) : Type 0 where
  running : Pc → Thread Pc
  waiting : Pc → Thread Pc

abbrev pub ok : ℤ → Reply
ok r = record { res = r; errno = pos 0 }

abbrev pub failed : ℤ → Reply
failed e = record { res = negsuc 0; errno = e }

-- Thread `i` leaves the queue that it sleeps on.
abbrev pub dropped : ℕ → Pi → Pi
dropped i p = record p { on_f1 = update p.on_f1 i false; on_f2 = update p.on_f2 i false }

-- A step of thread `i`. A wait on f1 ends when the thread has got f2, or by its timeout.
pub data Move (k : PiKernel) {Pc : Type 0} (p : Program Pc) (i : ℕ) (s : Shared)
    : Thread Pc → Shared → Thread Pc → Type 0 where
  reads_blocked :
      {c : Pc}
      → p.access c ≡ load_blocked
      → Move k p i s (running c) s (running (p.resume c (ok s.blocked.val)))
  reads_woken :
      {c : Pc}
      → p.access c ≡ load_woken
      → Move k p i s (running c) s (running (p.resume c (ok s.woken.val)))
  adds_blocked :
      {c : Pc}
      → p.access c ≡ inc_blocked
      → Move k p i s
          (running c)
          (record s { blocked = (atomic_inc s.blocked).0 })
          (running (p.resume c (ok (atomic_inc s.blocked).1)))
  adds_woken :
      {c : Pc}
      → p.access c ≡ inc_woken
      → Move k p i s
          (running c)
          (record s { woken = (atomic_inc s.woken).0 })
          (running (p.resume c (ok (atomic_inc s.woken).1)))
  blocks :
      {c : Pc}
      → p.access c ≡ wait_requeue
      → Move k p i s
          (running c)
          (record s { pi = record s.pi { on_f1 = update s.pi.on_f1 i true } })
          (waiting c)
  times_out :
      {c : Pc}
      → p.access c ≡ wait_requeue
      → p.timed ≡ true
      → s.pi.owner ≢ some i
      → Move k p i s
          (waiting c)
          (record s { pi = dropped i s.pi })
          (running (p.resume c (failed etimedout)))
  takes :
      {c : Pc}
      → p.access c ≡ lock
      → s.pi.owner ≡ none
      → Move k p i s
          (running c)
          (record s { pi = record s.pi { owner = some i } })
          (running (p.resume c (ok (pos 0))))
  queues :
      {c : Pc}
      → p.access c ≡ lock
      → s.pi.owner ≢ none
      → Move k p i s
          (running c)
          (record s { pi = record s.pi { on_f2 = update s.pi.on_f2 i true } })
          (waiting c)
  -- A wait on f1 or for f2 ends with f2 held.
  gets :
      {c : Pc}
      → p.access c ≢ wait_complete
      → s.pi.owner ≡ some i
      → Move k p i s (waiting c) s (running (p.resume c (ok (pos 0))))
  unlocks :
      {c : Pc} {q : Pi}
      → p.access c ≡ unlock
      → s.pi.owner ≡ some i
      → k.Unlocks s.pi q
      → Move k p i s (running c) (record s { pi = q }) (running (p.resume c (ok (pos 0))))
  -- FUTEX_UNLOCK_PI of a futex that the caller does not hold
  refuses :
      {c : Pc}
      → p.access c ≡ unlock
      → s.pi.owner ≢ some i
      → Move k p i s (running c) s (running (p.resume c (failed (pos 1))))
  requeues :
      {c : Pc} {nr : ℕ} {q : Pi} {count : ℕ}
      → p.access c ≡ requeue nr
      → k.Requeues nr s.pi q count
      → Move k p i s (running c) (record s { pi = q }) (running (p.resume c (ok (pos count))))
  -- FUTEX_CMP_REQUEUE_PI may fail at any time.
  fails :
      {c : Pc} {nr : ℕ} {e : ℤ}
      → p.access c ≡ requeue nr
      → pos 0 <ℤ e
      → Move k p i s (running c) s (running (p.resume c (failed e)))
  -- FUTEX_WAIT of wake_complete, and its return, after a wakeup or for no reason.
  rests :
      {c : Pc}
      → p.access c ≡ wait_complete
      → Move k p i s
          (running c)
          (record s { on_complete = update s.on_complete i true })
          (waiting c)
  returns :
      {c : Pc}
      → p.access c ≡ wait_complete
      → s.on_complete i ≡ false
      → Move k p i s (waiting c) s (running (p.resume c (ok (pos 0))))
  stirs :
      {c : Pc}
      → p.access c ≡ wait_complete
      → Move k p i s
          (waiting c)
          (record s { on_complete = update s.on_complete i false })
          (waiting c)
  -- FUTEX_WAKE of wake_complete finds nobody, or wakes thread `j`.
  wakes :
      {c : Pc}
      → p.access c ≡ wake_complete
      → ((j : ℕ) → s.on_complete j ≡ false)
      → Move k p i s (running c) s (running (p.resume c (ok (pos 0))))
  wakes_one :
      {c : Pc} (j : ℕ)
      → p.access c ≡ wake_complete
      → s.on_complete j ≡ true
      → Move k p i s
          (running c)
          (record s { on_complete = update s.on_complete j false })
          (running (p.resume c (ok (pos 1))))

pub record System (Pc : Type 0) : Type 0 where
  pub shared : Shared
  pub open shared use *
  pub thread : ℕ → Thread Pc

pub data Step (k : PiKernel) {Pc : Type 0} (p : Program Pc) (n : ℕ) (s : System Pc)
    : System Pc → Type 0 where
  pick :
      (i : ℕ) {h : Shared} {t : Thread Pc}
      → i < n
      → Move k p i s.shared (s.thread i) h t
      → Step k p n s (record { shared = h; thread = update s.thread i t })

pub data Reach (k : PiKernel) {Pc : Type 0} (p : Program Pc) (n : ℕ) (s : System Pc)
    : System Pc → Type 0 where
  start : Reach k p n s s
  later : {t u : System Pc} → Reach k p n s t → Step k p n t u → Reach k p n s u

-- The counters at their initial values, f1 and f2 free, nobody on wake_complete, and thread `i` at `pc i`.
abbrev pub system : {Pc : Type 0} → (ℕ → Pc) → System Pc
system pc = record {
  shared = record {
    blocked = atomic_initializer;
    woken = atomic_initializer;
    pi = record { owner = none; on_f1 = λ _. false; on_f2 = λ _. false };
    on_complete = λ _. false;
  };
  thread = λ i. running (pc i);
}

-- Thread `i` has come to its end, or it sleeps, on wake_complete, or in another wait and without f2: only
-- a timeout, or a wakeup for no reason, would let it run on.
abbrev pub IsStill : {Pc : Type 0} → Program Pc → System Pc → ℕ → Type 0
IsStill {Pc} p s i =
    ((c : Pc) × (s.thread i ≡ running c) × (p.access c ≡ halt))
    ⊎ (((c : Pc) × (s.thread i ≡ waiting c)
          × (p.access c ≡ wait_complete)
          × (s.on_complete i ≡ true))
        ⊎ ((c : Pc) × (s.thread i ≡ waiting c)
            × (p.access c ≢ wait_complete)
            × (s.pi.owner ≢ some i)))
