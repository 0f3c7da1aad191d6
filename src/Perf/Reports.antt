-- ===== src/Perf/Reports.antt =====
-- performance/futex_wait.c and performance/harness.h: the course of `locktest`, and how `main` ends.
use native.Mathlib.Nat.{div-mul-le_self, lt-div-mul-add}
use futextest.Common.{
  ℕ, zero, suc, Option, none, some, ◌+◌, ◌*◌, ◌/◌, ◌<◌, ◌≤◌, ◌≡◌, ◌⊎◌, inl, inr, refl, arith, true,
  false, List, Bool-cases, ◌==◌, ℕ_discrete, subst,
}
use futextest.Common.Int.{sub_ℕ, ℤ, pos, negsuc, ◌≤ℤ◌, ◌<ℤ◌}
use futextest.Logging.{Console, print, title, error, print_result, ret_pass, ret_error}
use futextest.Getopt.{Opt, Flow, go, exit, getopt_loop, atoi}
use futextest.Perf.{usage_lines, Course}
use futextest.Getopt.Laws.{
  IsConsole, Ends, IsUsage, if-Ends, log_color-IsConsole, log_verbosity-IsConsole, getopt_loop-Ends,
  fresh-IsConsole,
}
use futextest.Functional.{Outcome}
use futextest.Perf.{
  Settings, World, complete, aborted, switch, defaults, quot, create, course_of, course, report,
  banner, run_test, after_options, main,
}

-- `pthread_create` gives the threads from `a` up to `b`.
abbrev pub AllMade : World → ℕ → ℕ → Type 0
AllMade w a b = (j : ℕ) → a ≤ j → j < b → w.creates j ≡ true

-- The first thread of `n` that `pthread_create` does not give.
abbrev pub IsFirstMissing : World → ℕ → ℕ → Type 0
IsFirstMissing w n i = (i < n) × (w.creates i ≡ false) × AllMade w 0 i

abbrev Created : World → ℕ → ℕ → Option ℕ → Type 0
Created w a left none = AllMade w a (a + left)
Created w a left (some i) = (a ≤ i) × (i < a + left) × (w.creates i ≡ false) × AllMade w a i

made_next : (w : World) (a b : ℕ) → w.creates a ≡ true → AllMade w (suc a) b → AllMade w a b
made_next w a b e all j le lt = elim (ℕ_discrete a j) [
  | yes same ↦ subst (λ x. w.creates x ≡ true) same e
  | no ne ↦ all j (omega (arith, le, ne)) lt
]

Created-next :
    (w : World) (a left : ℕ) (r : Option ℕ)
    → w.creates a ≡ true
    → Created w (suc a) left r
    → Created w a (suc left) r
Created-next w a left none e all =
    subst (AllMade w a) (omega arith) (made_next w a (suc a + left) e all)
Created-next w a left (some i) e (le, lt, f, all) =
    (omega arith, omega arith, f, made_next w a i e all)

create-Created : (w : World) (a left : ℕ) → Created w a left (create w a left)
unfolding create
create-Created w a zero = λ j le lt. absurd (omega (arith, le, lt))
create-Created w a (suc left) = elim (Bool-cases (w.creates a)) [
  | inl e ↦ rw e (Created-next w a left (create w (suc a) left) e (create-Created w (suc a) left))
  | inr e ↦ rw e (omega arith, omega arith, e, λ j le lt. absurd (omega (arith, le, lt)))
]

-- The courses of `n` threads that do `loops` rounds each.
abbrev IsCourse : World → ℕ → ℤ → Option Course → Type 0
IsCourse w n loops r =
    (AllMade w 0 n × (pos 0 ≤ℤ loops) × (r ≡ some (complete loops)))
    ⊎ (AllMade w 0 n × (loops <ℤ pos 0) × (r ≡ none))
    ⊎ ((i : ℕ) × IsFirstMissing w n i × (r ≡ some (aborted i)))

Created-IsCourse :
    (w : World) (n : ℕ) (loops : ℤ) (r : Option ℕ)
    → Created w 0 n r
    → IsCourse w n loops (course_of loops r)
Created-IsCourse w n (pos q) none all =
    inl ((λ j le lt. all j le (omega (arith, lt))), omega arith, refl)
Created-IsCourse w n (negsuc q) none all =
    inr (inl ((λ j le lt. all j le (omega (arith, lt))), omega arith, refl))
Created-IsCourse w n loops (some i) (_, lt, e, all) =
    inr (inr (i, (omega (arith, lt), e, all), refl))

course-IsCourse :
    (w : World) (it : ℤ) (n : ℕ) → IsCourse w (suc n) (quot it (suc n)) (course w it (pos (suc n)))
unfolding course
course-IsCourse w it n = Created-IsCourse w (suc n) (quot it (suc n)) _ (create-Created w 0 (suc n))

negative_factor : (q n a : ℕ) → sub_ℕ 0 q <ℤ pos 0 → q * n ≤ a → n ≤ a
negative_factor zero n a h le = absurd (omega (arith, h))
negative_factor (suc q) n a h le = omega (arith, le)

no_factor : (q n a : ℕ) → pos 0 ≤ℤ sub_ℕ 0 q → a < q * n + n → a < n
no_factor zero n a h lt = omega (arith, lt)
no_factor (suc q) n a h lt = absurd (ground arith)

quot_negative : (a n : ℕ) → quot (negsuc a) (suc n) <ℤ pos 0 → suc n ≤ suc a
quot_negative a n h =
    negative_factor (suc a / suc n) (suc n) (suc a) h (div-mul-le_self (suc a) (suc n))

quot_nonneg : (a n : ℕ) → pos 0 ≤ℤ quot (negsuc a) (suc n) → suc a < suc n
quot_nonneg a n h =
    no_factor (suc a / suc n) (suc n) (suc a) h (lt-div-mul-add {a = suc a} (omega arith))

-- The quotient by `threads` is negative exactly if the iterations are at most minus `threads`.
quot_sign :
    (it : ℤ) (n : ℕ)
    → (quot it (suc n) <ℤ pos 0 → it ≤ℤ negsuc n) × (pos 0 ≤ℤ quot it (suc n) → negsuc n <ℤ it)
quot_sign (pos a) n = (λ h. absurd (omega (arith, h)), λ h. omega arith)
quot_sign (negsuc a) n =
    (λ h. omega (arith, quot_negative a n h), λ h. omega (arith, quot_nonneg a n h))

-- For at least one thread and iterations that are not negative: when `pthread_create` gives all
-- threads, each does the same number of rounds, all together at most `iterations` of them and more
-- than `iterations` minus `threads`; when it does not, the threads before the first missing one are
-- made and the test is aborted.
pub locktest_course :
    (w : World) (it n : ℕ)
    → 0 < n
    → (AllMade w 0 n
        × ((q : ℕ) × (course w (pos it) (pos n) ≡ some (complete (pos q)))
            × (q * n ≤ it)
            × (it < q * n + n)))
      ⊎ ((i : ℕ) × IsFirstMissing w n i × (course w (pos it) (pos n) ≡ some (aborted i)))
locktest_course w it zero p = absurd (omega arith)
locktest_course w it (suc n) p = elim (course-IsCourse w (pos it) n) [
  | inl (all, _, e) ↦ inl (all, (it / suc n, e, div-mul-le_self it (suc n), lt-div-mul-add p))
  | inr (inl (_, negative, _)) ↦ absurd (omega (arith, negative))
  | inr (inr h) ↦ inr h
]

abbrev HasConsole : Settings → Type 0
HasConsole s = IsConsole s.console

switch-Ends :
    (o : Opt) (s : Settings)
    → IsConsole s.console
    → Ends HasConsole (IsUsage usage_lines) (switch o s)
unfolding switch
switch-Ends o s h =
    let over = if-Ends HasConsole (IsUsage usage_lines) in
    over (o.code == b'c') _ _ (log_color-IsConsole s.console h) (
      over (o.code == b'h') _ _ (inl refl, s.console, h, refl)
        (over (o.code == b'i') _ _ h (
          over (o.code == b'n') _ _ h (
            over (o.code == b'v') _ _ (log_verbosity-IsConsole (atoi o.optarg) s.console h)
              (inr refl, s.console, h, refl)))))

-- The end of a run with `n` threads.
abbrev pub IsReport : World → Console → ℕ → Outcome → Type 0
IsReport w c n o =
    (AllMade w 0 n
      × (o.status ≡ ret_pass)
      × ((c' : Console) × (o.console ≡ print (title "Result: %.0f Kiter/s") c')))
    ⊎ (((i : ℕ) × IsFirstMissing w n i)
        × (o.status ≡ ret_error)
        × (o.console ≡ print_result ret_error (error "pthread_create" w.errno (banner c))))

-- What `n` threads and these settings lead to: all threads are made and the number of rounds of each is
-- negative, where the code has no meaning, or a report.
abbrev pub IsEnd : World → Settings → ℕ → Option Outcome → Type 0
IsEnd w s n r =
    (AllMade w 0 (suc n) × (s.iterations ≤ℤ negsuc n) × (r ≡ none))
    ⊎ ((o : Outcome) × (r ≡ some o)
        × IsReport w s.console (suc n) o
        × ((negsuc n <ℤ s.iterations) ⊎ (o.status ≡ ret_error)))

run_lem : (w : World) (s : Settings) (n : ℕ) → s.threads ≡ pos (suc n) → IsEnd w s n (run_test w s)
run_lem w s n e =
    let (negative, positive) = quot_sign s.iterations n in
    elim (course-IsCourse w s.iterations n) [
      | inl (all, p, f) ↦ inr (
        report w (banner s.console) (complete (quot s.iterations (suc n))),
        rw (e, f) refl,
        inl (all, refl, (_, refl)),
        inl (positive p),
      )
      | inr (inl (all, p, f)) ↦ inl (all, negative p, rw (e, f) refl)
      | inr (inr (i, missing, f)) ↦ inr (
        report w (banner s.console) (aborted i),
        rw (e, f) refl,
        inr ((i, missing), refl, refl),
        inr refl,
      )
    ]

-- What `main` gives when the options end in `f`.
abbrev pub Finishes : World → Flow Settings → Option Outcome → Type 0
Finishes w f r =
    ((o : Outcome) × (r ≡ some o) × IsUsage usage_lines o.status o.console)
    ⊎ ((s : Settings) × (f ≡ go s)
        × IsConsole s.console
        × (((s.threads ≤ℤ pos 0) × (r ≡ none))
            ⊎ ((n : ℕ) × (s.threads ≡ pos (suc n)) × IsEnd w s n r)))

few_threads : (w : World) (s : Settings) → s.threads ≤ℤ pos 0 → run_test w s ≡ none
unfolding course
few_threads w s h = ground arith

threads_cases : (t : ℤ) → (t ≤ℤ pos 0) ⊎ ((n : ℕ) × (t ≡ pos (suc n)))
threads_cases (pos zero) = inl (omega arith)
threads_cases (pos (suc n)) = inr (n, refl)
threads_cases (negsuc n) = inl (omega arith)

after_options_lem :
    (w : World) (f : Flow Settings)
    → Ends HasConsole (IsUsage usage_lines) f
    → Finishes w f (after_options f (run_test w))
after_options_lem w (exit r c) h = inl (record { status = r; console = c }, refl, h)
after_options_lem w (go s) h = elim (threads_cases s.threads) [
  | inl few ↦ inr (s, refl, h, inl (few, few_threads w s few))
  | inr (n, e) ↦ inr (s, refl, h, inr (n, e, run_lem w s n e))
]

-- `main` exits with the usage as its last output and status 0 or 1; or the options leave `threads`
-- below 1, or all threads are made and `iterations` is at most minus `threads`, so that each thread counts
-- down a negative number of rounds, and in both the code has no meaning; or `iterations` is above that and it
-- ends with status RET_PASS and the measured speed as its last output, and `pthread_create` has given all
-- threads; or it ends with status RET_ERROR, the message about `pthread_create`, where the verbosity shows
-- it, and then the line of that result, and a thread is missing.
pub main-Finishes :
    (w : World) (os : List Opt) → Finishes w (getopt_loop switch os defaults) (main w os)
unfolding main
main-Finishes w os = after_options_lem w (getopt_loop switch os defaults) (
    getopt_loop-Ends HasConsole (IsUsage usage_lines) switch switch-Ends os defaults
      fresh-IsConsole)
