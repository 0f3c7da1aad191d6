-- ===== src/SignalRestart/Threads.antt =====
-- functional/futex_requeue_pi_signal_restart.c: the program's own `create_rt_thread`.
use futextest.Common.{not, if◌then◌else◌}
use futextest.Common.Int.{ℤ, pos, negsuc, eqb_ℤ}
use futextest.Requeue.Threads.{Pthread}

unfoldable pub create_rt_thread : Pthread → ℤ
create_rt_thread p =
    if not (eqb_ℤ p.inheritsched (pos 0))
    then negsuc 0
    else if not (eqb_ℤ p.schedpolicy (pos 0))
    then negsuc 0
    else if not (eqb_ℤ p.schedparam (pos 0))
    then negsuc 0
    else if not (eqb_ℤ p.create (pos 0))
    then negsuc 0
    else pos 0
