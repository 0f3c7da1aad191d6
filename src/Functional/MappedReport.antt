-- ===== src/Functional/MappedReport.antt =====
-- How functional/futex_wait_private_mapped_file.c judges the kernel.
use futextest.Common.{
  ◌≡◌, inl, inr, refl, Bool, true, false, ◌&&◌, not, if◌then◌else◌, Bool-cases, subst, sym,
}
use futextest.Common.Int.{ℤ, pos, eqb_ℤ}
use futextest.Logging.{
  Console, print_result, ret_pass, ret_error, ret_fail, info, fail, print, title,
}
use futextest.Getopt.{Flow, go, exit}
use futextest.Syscall.{Uapi}
use futextest.Functional.{Futex, Reply, Outcome, ewouldblock, etimedout}
use futextest.Functional.Report.{IsReported}
use futextest.Functional.MappedFile
use futextest.Functional.MappedFile.{
  thr_futex_wait, join, woken, wake_result, rest_of_main, run_test,
}

-- The reply makes the waiter end the process.
abbrev pub ends_process : Reply → Bool
ends_process r =
    not (eqb_ℤ r.res (pos 0)) && (not (eqb_ℤ r.errno ewouldblock) && not (eqb_ℤ r.errno etimedout))

-- The waiter ends the process with an error that it reports, or it returns.
abbrev Exits : Flow Console → Type 0
Exits (go _) = ⊥
Exits (exit r c) = (r ≡ ret_error) × (c' : Console) × (c ≡ print_result ret_error c')

abbrev Goes : Flow Console → Type 0
Goes (go _) = Unit {0}
Goes (exit _ _) = ⊥

waiter-Exits : (r : Reply) → ends_process r ≡ true → (c : Console) → Exits (thr_futex_wait r c)
unfolding thr_futex_wait
waiter-Exits r h c = rw h (refl, _, refl)

waiter-Goes : (r : Reply) → ends_process r ≡ false → (c : Console) → Goes (thr_futex_wait r c)
unfolding thr_futex_wait
waiter-Goes r h c = rw h tt

join-Exits :
    (ret : ℤ) (f : Flow Console)
    → Exits f
    → ((join ret f).status ≡ ret_error) × IsReported (join ret f)
join-Exits ret (go c) h = absurd h
join-Exits ret (exit r c) (e, c', p) = (e, (c', rw (p, e) refl))

join-Goes :
    (ret : ℤ) (f : Flow Console) → Goes f → ((join ret f).status ≡ ret) × IsReported (join ret f)
join-Goes ret (go c) h = (refl, (c, refl))
join-Goes ret (exit r c) h = absurd h

abbrev Ended : ℤ → Outcome → Type 0
Ended ret o = (o.status ≡ ret) × IsReported o

early-Exits :
    (early : Bool) (f : Flow Console) (o : Outcome)
    → Exits f
    → Ended ret_error o
    → Ended ret_error (if early && MappedFile.is_exit f then join (pos 0) f else o)
early-Exits true (go c) o h k = absurd h
early-Exits true (exit r c) o h k = join-Exits (pos 0) (exit r c) h
early-Exits false f o h k = k

early-Goes :
    (early : Bool) (f : Flow Console) (o o' : Outcome)
    → Goes f
    → (if early && MappedFile.is_exit f then o' else o) ≡ o
early-Goes true (go c) o o' h = refl
early-Goes true (exit r c) o o' h = absurd h
early-Goes false f o o' h = refl

woken-Goes :
    (w : Reply) (child : Console → Flow Console) (c : Console)
    → ((d : Console) → Goes (child d))
    → Ended
        (if eqb_ℤ w.res (pos 1) then ret_pass else ret_fail)
        (woken (pos 0) (wake_result w c) child)
woken-Goes w child c h = elim (Bool-cases (eqb_ℤ w.res (pos 1))) [
  | inl a ↦ rw a (join-Goes (pos 0) (child (info "join" c)) (h _))
  | inr a ↦ rw a (
      join-Goes ret_fail (child (info "join" (fail "FUTEX_WAKE didn't find the waiting thread." c)))
        (h _))
]

rest-Exits :
    (w : Reply) (early : Bool) (child : Console → Flow Console) (c : Console)
    → ((d : Console) → Exits (child d))
    → Ended ret_error (rest_of_main w (pos 0) early child c)
rest-Exits w early child c h = early-Exits early (child c) _ (h c) (join-Exits _ _ (h _))

rest-Goes :
    (w : Reply) (early : Bool) (child : Console → Flow Console) (c : Console)
    → ((d : Console) → Goes (child d))
    → Ended
        (if eqb_ℤ w.res (pos 1) then ret_pass else ret_fail)
        (rest_of_main w (pos 0) early child c)
rest-Goes w early child c h =
    subst (Ended _) (sym (early-Goes early (child c) _ _ (h c)))
      (woken-Goes w child (info "futex_wake %d" c) h)

abbrev pub mapped_verdict : Reply → Reply → ℤ
mapped_verdict r w =
    if ends_process r then ret_error else if eqb_ℤ w.res (pos 1) then ret_pass else ret_fail

mapped_lem :
    (r w : Reply) (early : Bool) (c : Console)
    → Ended (mapped_verdict r w) (rest_of_main w (pos 0) early (thr_futex_wait r) c)
mapped_lem r w early c = elim (Bool-cases (ends_process r)) [
  | inl a ↦ rw a (rest-Exits w early (thr_futex_wait r) c (waiter-Exits r a))
  | inr a ↦ rw a (rest-Goes w early (thr_futex_wait r) c (waiter-Goes r a))
]

-- When its thread could be made, the mapped-file test ends with an error if the waiter's call fails
-- with an errno other than EWOULDBLOCK and ETIMEDOUT, and otherwise passes exactly when FUTEX_WAKE
-- finds one waiter: a waiter that timed out does not make it fail.
pub mapped_file_judges :
    (u : Uapi) (futex : Futex) (early : Bool) (c : Console)
    → let o = run_test u futex (pos 0) early c in
      (o.status ≡ mapped_verdict (futex (MappedFile.wait_call u)) (futex (MappedFile.wake_call u)))
      × IsReported o
unfolding run_test
mapped_file_judges u futex early c =
    mapped_lem (futex (MappedFile.wait_call u)) (futex (MappedFile.wake_call u)) early (
      info "wait a while"
        (print (title "%s: Test the futex value of private file mappings in FUTEX_WAIT") c))
