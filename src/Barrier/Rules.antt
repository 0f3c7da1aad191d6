-- ===== src/Barrier/Rules.antt =====
-- What one access of a thread of the barrier of performance/harness.h does to its words.
use futextest.Barrier.{
  threads, unblock, access, resume, Pc, sync_dec, sync_test, sync_wake, sync_load, sync_wait,
  sync_return, synced, wait_load, wait_wait, unblock_store, unblock_wake, opened, ℕ, Memory, Access,
  wait, wake, barrier,
}
use futextest.Common.{refl, ◌≢◌, ◌≡◌, ◌+◌, ◌⊎◌, ◌<◌, ◌≤◌, ◌^◌, arith, subst, sym}
use futextest.Machine.{
  perform, IsLocal, Thread, running, Shared, waiting, Move, act, sleep, refuse, wakeup, return,
}
use futextest.Kernel.{Kernel}

abbrev pub pc : Thread Pc → Pc
pc (running c) = c
pc (waiting c) = c

-- The worker has not yet counted itself off.
abbrev pub before : Pc → ℕ
before sync_dec = 1
before _ = 0

-- A worker's position, when `unblock` holds `u`: it has seen the word set where it leaves the loop.
abbrev pub WorkerOk : ℕ → Pc → Type 0
WorkerOk u sync_return = u ≢ 0
WorkerOk u (synced v) = (v ≡ u) × (u ≢ 0)
WorkerOk u sync_dec = Unit {0}
WorkerOk u sync_test = Unit {0}
WorkerOk u sync_wake = Unit {0}
WorkerOk u sync_load = Unit {0}
WorkerOk u sync_wait = Unit {0}
WorkerOk u _ = ⊥

-- The main thread's position, when `threads` holds `t` and `unblock` holds `u`; it opens the barrier when
-- `threads` is at most `spare`.
abbrev pub MainOk : (value spare t u : ℕ) → Pc → Type 0
MainOk value spare t u wait_load = u ≡ 0
MainOk value spare t u (wait_wait v) = (u ≡ 0) × (0 < v)
MainOk value spare t u unblock_store = (u ≡ 0) × (t ≤ spare)
MainOk value spare t u unblock_wake = (u ≡ value) × (t ≤ spare)
MainOk value spare t u opened = (u ≡ value) × (t ≤ spare)
MainOk value spare t u _ = ⊥

-- An access of a worker at `c`, with memory `m` before and `m'` after.
pub record WorkerEffect (c : Pc) (m m' : Memory) (c' : Pc) : Type 0 where
  pub same : m' unblock ≡ m unblock
  pub down : m' threads ≤ m threads
  pub counted : m' threads + before c ≡ m threads + before c'
  pub ok : WorkerOk (m unblock) c'

pub record MainEffect (value spare : ℕ) (m m' : Memory) (c' : Pc) : Type 0 where
  pub same : m' threads ≡ m threads
  pub changed : (m unblock ≡ 0) ⊎ (m' unblock ≡ m unblock)
  pub uncounted : before c' ≡ 0
  pub ok : MainOk value spare (m' threads) (m' unblock) c'

module _ (value : ℕ) where
  pub worker-WorkerEffect :
      (c : Pc) (m : Memory)
      → IsLocal (access value c)
      → WorkerOk (m unblock) c
      → before c ≤ m threads
      → m threads < 2 ^ 31
      → let (m', v) = perform (access value c) m in WorkerEffect c m m' (resume value c v)
  unfolding perform
  worker-WorkerEffect sync_dec m l ok b t = ground arith
  worker-WorkerEffect _ m l ok b t = ground arith

  pub main-MainEffect :
      (spare : ℕ) (c : Pc) (m : Memory)
      → IsLocal (access value c)
      → MainOk value spare (m threads) (m unblock) c
      → m threads < 2 ^ 31
      → let (m', v) = perform (access value c) m in MainEffect value spare m m' (resume value c v)
  unfolding perform
  main-MainEffect spare c m l ok t = ground arith

-- FUTEX_WAIT or FUTEX_WAKE
abbrev pub IsCall : Access → Type 0
IsCall (wait _ _) = Unit {0}
IsCall (wake _ _) = Unit {0}
IsCall _ = ⊥

module _ (value : ℕ) where
  pub worker_call :
      (c : Pc) (m : Memory)
      → IsCall (access value c)
      → WorkerOk (m unblock) c
      → WorkerEffect c m m (resume value c 0)
  worker_call c m l ok = ground arith

  pub main_call :
      (spare : ℕ) (c : Pc) (m : Memory)
      → IsCall (access value c)
      → MainOk value spare (m threads) (m unblock) c
      → MainEffect value spare m m (resume value c 0)
  main_call spare c m l ok = ground arith

  main_stays :
      (spare : ℕ) (c : Pc) (m : Memory)
      → MainOk value spare (m threads) (m unblock) c
      → MainEffect value spare m m c
  main_stays spare c m ok = ground arith

  pub Move-WorkerEffect :
      {k : Kernel} {i : ℕ} {s h : Shared} {d d' : Thread Pc}
      → Move k (barrier value) i s d h d'
      → WorkerOk (s.mem unblock) (pc d)
      → before (pc d) ≤ s.mem threads
      → s.mem threads < 2 ^ 31
      → WorkerEffect (pc d) s.mem h.mem (pc d')
  Move-WorkerEffect {s = s} (act {c} l) ok b t = worker-WorkerEffect value c s.mem l ok b t
  Move-WorkerEffect {s = s} (sleep e _) ok b t = record {
    same = refl;
    down = omega arith;
    counted = refl;
    ok = ok;
  }
  Move-WorkerEffect {s = s} (refuse {c} e _) ok b t =
      worker_call c s.mem (subst IsCall (sym e) tt) ok
  Move-WorkerEffect {s = s} (wakeup {c} e _) ok b t =
      worker_call c s.mem (subst IsCall (sym e) tt) ok
  Move-WorkerEffect {s = s} (return {c} e _) ok b t =
      worker_call c s.mem (subst IsCall (sym e) tt) ok

  pub Move-MainEffect :
      (spare : ℕ) {k : Kernel} {i : ℕ} {s h : Shared} {d d' : Thread Pc}
      → Move k (barrier value) i s d h d'
      → MainOk value spare (s.mem threads) (s.mem unblock) (pc d)
      → s.mem threads < 2 ^ 31
      → MainEffect value spare s.mem h.mem (pc d')
  Move-MainEffect spare {s = s} (act {c} l) ok t = main-MainEffect value spare c s.mem l ok t
  Move-MainEffect spare {s = s} (sleep {c} e _) ok t = main_stays spare c s.mem ok
  Move-MainEffect spare {s = s} (refuse {c} e _) ok t =
      main_call spare c s.mem (subst IsCall (sym e) tt) ok
  Move-MainEffect spare {s = s} (wakeup {c} e _) ok t =
      main_call spare c s.mem (subst IsCall (sym e) tt) ok
  Move-MainEffect spare {s = s} (return {c} e _) ok t =
      main_call spare c s.mem (subst IsCall (sym e) tt) ok
