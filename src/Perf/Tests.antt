-- ===== src/Perf/Tests.antt =====
-- Runs of performance/futex_wait.c, and its theorems at them.
use futextest.Common.{ℕ, ◌≡◌, ◌⊎◌, refl, arith, none, some, [], ◌∷◌, ltb, ◌*◌, ◌+◌, ◌<◌, ◌≤◌, List}
use futextest.Common.Int.{pos, negsuc}
use futextest.Getopt.{Opt, getopt_loop}
use futextest.Perf.{World, switch, defaults, complete, aborted, course, main}
use futextest.Perf.Reports.{locktest_course, main-Finishes, AllMade, IsFirstMissing, Finishes}

-- Memory for three threads.
abbrev small : World
small = record { creates = λ i. ltb i 3; errno = pos 11 }

-- -n2 -i7
abbrev two_threads : List Opt
two_threads =
    record { code = b'n'; optarg = b'2' ∷ [] } ∷ record { code = b'i'; optarg = b'7' ∷ [] } ∷ []

course_two : course small (pos 7) (pos 2) ≡ some (complete (pos 3))
unfolding course
course_two = refl

course_four : course small (pos 7) (pos 4) ≡ some (aborted 3)
unfolding course
course_four = refl

course_zero : course small (pos 7) (pos 0) ≡ none
unfolding course
course_zero = refl

-- -i -5 -n 1
course_negative : course small (negsuc 4) (pos 1) ≡ none
unfolding course
course_negative = refl

locktest_course_example :
    (AllMade small 0 2
      × ((q : ℕ) × (course small (pos 7) (pos 2) ≡ some (complete (pos q)))
          × (q * 2 ≤ 7)
          × (7 < q * 2 + 2)))
    ⊎ ((i : ℕ) × IsFirstMissing small 2 i × (course small (pos 7) (pos 2) ≡ some (aborted i)))
locktest_course_example = locktest_course small 7 2 (omega arith)

main-Finishes_example :
    Finishes small (getopt_loop switch two_threads defaults) (main small two_threads)
main-Finishes_example = main-Finishes small two_threads
