-- ===== src/Barrier/Safety.antt =====
-- The barrier of performance/harness.h: its words and the positions of its threads.
use futextest.Common.{
  ℕ, ◌<◌, ◌≡◌, refl, update, ◌^◌, total, ◌≤◌, arith, total-le, total_member, total_change,
  ℕ_discrete, sym, ◌⊎◌, total_same, suc, ◌≢◌, dec_lt, total_ones, ap, subst,
}
use futextest.Machine.{start, later, pick, disturb}
use futextest.Barrier.{
  unblock_store, unblock_wake, opened, sync_dec, synced, threads, unblock, barrier, init, Memory,
  Pc, System, sync_dec, synced, started, wait_load,
}
use futextest.Barrier.Rules.{
  pc, before, WorkerOk, MainOk, WorkerEffect, MainEffect, Move-WorkerEffect, Move-MainEffect,
}
use mathlib.Core.Logic.{if_pos, if_neg}
use futextest.Machine.{Thread, Step, Reach, pick, later, disturb}
use futextest.Kernel.{Kernel}

-- How many workers have not yet counted themselves off.
abbrev pub missing : ℕ → (ℕ → Thread Pc) → ℕ
missing n t = total n (λ i. before (pc (t i)))

pub record Inv (value spare n : ℕ) (m : Memory) (t : ℕ → Thread Pc) : Type 0 where
  pub counted : m threads ≡ missing n t
  pub workers : (i : ℕ) → i < n → WorkerOk (m unblock) (pc (t i))
  pub main : MainOk value spare (m threads) (m unblock) (pc (t n))

before-le : (c : Pc) → before c ≤ 1
before-le c = ground arith

main_down :
    (value spare u : ℕ) {t t' : ℕ} (c : Pc)
    → MainOk value spare t u c
    → t' ≤ t
    → MainOk value spare t' u c
main_down value spare u c ok le = ground arith

worker_later : {u u' : ℕ} (c : Pc) → WorkerOk u c → (u ≡ 0) ⊎ (u' ≡ u) → WorkerOk u' c
worker_later c ok h = ground arith

module _ {value spare n : ℕ} (small : n < 2 ^ 31) {m : Memory} {t : ℕ → Thread Pc}
    (inv : Inv value spare n m t) where
  pub threads_small : m threads < 2 ^ 31
  threads_small =
      omega (arith, inv.counted, total-le n (λ i. before (pc (t i))) (λ j. before-le (pc (t j))))

  pub worker_before : (i : ℕ) → i < n → before (pc (t i)) ≤ m threads
  worker_before i lt = omega (arith, inv.counted, total_member n (λ j. before (pc (t j))) i lt)

  pub worker-Inv :
      {m' : Memory} (d : Thread Pc) (i : ℕ)
      → i < n
      → WorkerEffect (pc (t i)) m m' (pc d)
      → Inv value spare n m' (update t i d)
  worker-Inv {m'} d i lt eff = record {
    counted = ground (
      arith,
      eff.counted,
      inv.counted,
      total_change n (λ j. before (pc (t j))) (λ j. before (pc (update t i d j))) i lt
          (λ j ne. ground arith),
    );
    workers = λ j below. elim (ℕ_discrete i j) [
      | yes e ↦ rw (if_pos _ e) (rw eff.same eff.ok)
      | no ne ↦ rw (if_neg _ ne) (rw eff.same (inv.workers j below))
    ];
    main =
        rw (if_neg _ (λ (e : i ≡ n). absurd (omega arith)))
          (rw eff.same (main_down value spare (m unblock) (pc (t n)) inv.main eff.down));
  }

  main-Inv :
      {m' : Memory} (d : Thread Pc)
      → MainEffect value spare m m' (pc d)
      → Inv value spare n m' (update t n d)
  main-Inv {m'} d eff = record {
    counted = sym (
        omega (
          arith,
          inv.counted,
          eff.same,
          total_same n (λ j. before (pc (t j))) (λ j. before (pc (update t n d j)))
              (λ j below. ground arith),
        ));
    workers = λ j below.
        rw (if_neg _ (λ (e : n ≡ j). absurd (omega arith)))
          (worker_later (pc (t j)) (inv.workers j below) eff.changed);
    main = rw (if_pos _ refl) eff.ok;
  }

Inv-init :
    (value spare n : ℕ) (c : Pc)
    → MainOk value spare n 0 c
    → let s = started c n in Inv value spare n s.mem s.thread
unfolding ℕ_discrete
Inv-init value spare n c ok = record {
  counted = sym (total_ones n (λ i. before (pc ((started c n).thread i))) (λ i lt. ground arith));
  workers = λ i lt. ground arith;
  main = ground (arith, ok);
}

pub Step-Inv :
    {value : ℕ} (spare : ℕ) {n : ℕ}
    → n < 2 ^ 31
    → {k : Kernel} {s u : System Pc} → Step k (barrier value) (suc n) s u
    → Inv value spare n s.mem s.thread
    → Inv value spare n u.mem u.thread
Step-Inv {value} spare {n} small {s = s} (pick i {t = d} lt mv) inv = elim (dec_lt i n) [
  | yes below ↦ worker-Inv small inv d i below (
      Move-WorkerEffect value mv (inv.workers i below) (worker_before small inv i below)
        (threads_small small inv))
  | no last ↦
      let e : i ≡ n = omega arith in
      rw e (
        main-Inv small inv d
          (Move-MainEffect value spare mv (rw e inv.main) (threads_small small inv)))
]
Step-Inv spare small (disturb a d) inv = inv

pub Reach-Inv :
    {value : ℕ} (spare : ℕ) {n : ℕ} (c : Pc)
    → n < 2 ^ 31
    → MainOk value spare n 0 c
    → {k : Kernel} {s : System Pc} → Reach k (barrier value) (suc n) (started c n) s
    → Inv value spare n s.mem s.thread
Reach-Inv {value} spare {n} c small ok start = Inv-init value spare n c ok
Reach-Inv spare c small ok (later r st) = Step-Inv spare small st (Reach-Inv spare c small ok r)

-- `barrier_wait` has returned.
abbrev pub HasWaited : Pc → Type 0
HasWaited unblock_store = Unit {0}
HasWaited unblock_wake = Unit {0}
HasWaited opened = Unit {0}
HasWaited _ = ⊥

waited : (value u : ℕ) {t : ℕ} (c : Pc) → MainOk value 0 t u c → HasWaited c → t ≡ 0
waited value u c ok h = ground arith

pub released :
    (value spare u : ℕ) {t : ℕ} (c : Pc)
    → MainOk value spare t u c
    → u ≢ 0
    → (u ≡ value) × (t ≤ spare)
released value spare u c ok nz = ground arith

module _ {k : Kernel} {value n : ℕ} (small : n < 2 ^ 31) {s : System Pc}
    (r : Reach k (barrier value) (suc n) (init n) s) where
  inv : Inv value 0 n s.mem s.thread
  inv = Reach-Inv 0 wait_load small refl r

  arrived : s.mem threads ≤ 0 → (i : ℕ) → i < n → pc (s.thread i) ≢ sync_dec
  arrived z i lt e =
      let one : before (pc (s.thread i)) ≡ 1 = ap before e in
      omega (arith, one, inv.counted, total_member n (λ j. before (pc (s.thread j))) i lt)

  -- For fewer than 2 ^ 31 workers, on any schedule and any kernel: once `barrier_wait` has returned to
  -- the main thread, every worker has counted itself off.
  pub barrier_wait_holds :
      (i : ℕ) → i < n → HasWaited (pc (s.thread n)) → pc (s.thread i) ≢ sync_dec
  barrier_wait_holds i lt h =
      arrived (omega (arith, waited value (s.mem unblock) (pc (s.thread n)) inv.main h)) i lt

  -- For fewer than 2 ^ 31 workers, on any schedule and any kernel: once `barrier_sync` has returned to
  -- a worker, it has returned the value that the main thread gives to `barrier_unblock`, and
  -- every worker has counted itself off.
  pub barrier_sync_holds :
      (i j v : ℕ)
      → i < n
      → j < n
      → pc (s.thread j) ≡ synced v
      → (v ≡ value) × (pc (s.thread i) ≢ sync_dec)
  barrier_sync_holds i j v li lj e =
      let (same, nz) = subst (WorkerOk (s.mem unblock)) e (inv.workers j lj) in
      let (set, z) = released value 0 (s.mem unblock) (pc (s.thread n)) inv.main nz in
      (cc, arrived z i li)
