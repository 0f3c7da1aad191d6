-- ===== src/Functional.antt =====
-- What the programs under functional/ share: the replies of system calls, and the end of a program.
-- The addresses of the futexes f1 and f2 of a program are 1 and 2.
pub mod WaitTimeout
pub mod WaitWouldblock
pub mod MismatchedOps
pub mod UninitializedHeap
pub mod MappedFile
pub mod Report
pub mod MappedReport
mod Tests
use futextest.Common.{ℕ, Bool, ◌≡◌}
use futextest.Common.Int.{ℤ, pos}
use futextest.Logging.{Console, print_result}
use futextest.Getopt.{Flow, go, exit}
use futextest.Syscall.{Args}

-- What a system call returns, and `errno` after it.
pub record Reply : Type 0 where
  pub res : ℤ
  pub errno : ℤ

-- The futex system call of the kernel under test.
abbrev pub Futex : Type 0
Futex = Args → Reply

-- <errno.h>
abbrev pub ewouldblock : ℤ
ewouldblock = pos 11

abbrev pub einval : ℤ
einval = pos 22

abbrev pub etimedout : ℤ
etimedout = pos 110

abbrev pub f1 : ℕ
f1 = 1

abbrev pub f2 : ℕ
f2 = 2

-- The exit status of a program, and what it has printed.
pub record Outcome : Type 0 where
  pub status : ℤ
  pub console : Console

-- `print_result(ret); return ret;`
abbrev pub finish : ℤ → Console → Outcome
finish ret c = record { status = ret; console = print_result ret c }

-- The rest of `main` after the options, unless they called `exit`.
abbrev pub after_options : {S : Type 0} → Flow S → (S → Outcome) → Outcome
after_options (go s) rest = rest s
after_options (exit r c) rest = record { status = r; console = c }
