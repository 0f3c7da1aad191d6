-- ===== src/SignalRestart/Rounds.antt =====
-- functional/futex_requeue_pi_signal_restart.c: the rounds of the requeue loop.
use futextest.Common.{ℕ, zero, suc, ◌+◌, ◌≤◌, ◌<◌, ◌≡◌, refl, arith, List, some, none, subst}
use futextest.Common.Int.{pos, ◌≤ℤ◌, ◌<ℤ◌}
use futextest.Syscall.{Uapi}
use futextest.Functional.{Reply}
use futextest.SignalRestart.{Event, Main, round_events, requeue_loop}

-- The events of `k` rounds: a signal and a requeue each.
abbrev pub rounds : Uapi → ℕ → List Event → List Event
rounds u zero es = es
rounds u (suc k) es = rounds u k (round_events u es)

module _ (u : Uapi) (reply : ℕ → Reply) where
  -- From round `i` on, round `k` is the first that reports a task.
  pub record IsFirst (i k : ℕ) : Type 0 where
    pub here : pos 0 <ℤ (reply k).res
    pub before : (j : ℕ) → i ≤ j → j < k → (reply j).res ≤ℤ pos 0

  pub loop-rounds :
      (fuel i n k : ℕ) (m : Main)
      → k ≡ i + n
      → n < fuel
      → IsFirst i k
      → requeue_loop u reply fuel i m
        ≡ some (record m { requeued = record { val = pos 1 }; events = rounds u (suc n) m.events })
  unfolding requeue_loop
  loop-rounds zero i n k m e lt f = absurd (omega arith)
  loop-rounds (suc fuel) i zero k m e lt f =
      let here : pos 0 <ℤ (reply i).res =
        subst (λ j. pos 0 <ℤ (reply j).res) (omega arith) f.here in
      ground arith
  loop-rounds (suc fuel) i (suc n) k m e lt f =
      let m' : Main = record m { events = round_events u m.events } in
      let next : IsFirst (suc i) k = record {
        here = f.here;
        before = λ j le below. f.before j (omega arith) below;
      } in
      let step : (reply i).res ≤ℤ pos 0 = f.before i (omega arith) (omega arith) in
      let rest = loop-rounds fuel (suc i) n k m' (omega arith) (omega arith) next in
      ground (arith, step, rest)

  pub loop-none :
      (fuel i : ℕ) (m : Main)
      → ((j : ℕ) → (reply j).res ≤ℤ pos 0)
      → requeue_loop u reply fuel i m ≡ none
  unfolding requeue_loop
  loop-none zero i m all = refl
  loop-none (suc fuel) i m all =
      ground
        (arith, all i, loop-none fuel (suc i) (record m { events = round_events u m.events }) all)
