-- ===== src/Mutex/Invariant.antt =====
-- What holds of the lock of performance/futex_wait.c in every reachable state.
mod Changes
mod Steps
mod Runs
pub mod Defs
pub use Steps.{wait_lem}
pub use Runs.{Reach-Inv}
