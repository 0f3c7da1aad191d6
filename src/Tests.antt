-- ===== src/Tests.antt =====
-- The laws of the headers under include/ at concrete values.
use futextest.Common.{◌≡◌, ◌≢◌, arith, some, if◌then◌else◌, none, ℕ}
use futextest.Common.Int.{pos, negsuc, leb_ℤ, eqb_ℤ}
use futextest.Futex.{futex_inc, futex_dec, futex_cmpxchg, futex_set}
use futextest.Futex.Atomic.{AtomicT, atomic_inc, atomic_dec, atomic_cmpxchg, atomic_set}
use futextest.Word.{int_max}
use futextest.Logging.{
  log_verbosity, fresh, info, vinfo, print, message, info_normal, fail, vcritical, fail_normal,
  error, error_normal,
}
use futextest.Futex.Laws.{IsNext, IsNextInt, counter_ops_return, word_ops_return}
use futextest.Logging.Laws.{messages_by_level}

abbrev first_word : ℕ
first_word = 0

word_ops_return_example :
    (IsNext first_word (futex_inc first_word).0
      × ((futex_inc first_word).1 ≡ (futex_inc first_word).0))
    × (IsNext (futex_dec first_word).0 first_word
        × ((futex_dec first_word).1 ≡ (futex_dec first_word).0))
    × ((first_word ≡ 0 → (futex_cmpxchg first_word 0 2).0 ≡ 2)
        × (first_word ≢ 0 → (futex_cmpxchg first_word 0 2).0 ≡ first_word)
        × ((futex_cmpxchg first_word 0 2).1 ≡ first_word))
    × (((futex_set first_word 2).0 ≡ 2) × ((futex_set first_word 2).1 ≡ 2))
word_ops_return_example = word_ops_return first_word 0 2 (omega arith)

abbrev largest : AtomicT
largest = record { val = pos int_max }

counter_ops_return_example :
    (IsNextInt (pos int_max) (atomic_inc largest).0.val
      × ((atomic_inc largest).1 ≡ (atomic_inc largest).0.val))
    × (IsNextInt (atomic_dec largest).0.val (pos int_max)
        × ((atomic_dec largest).1 ≡ (atomic_dec largest).0.val))
    × ((pos int_max ≡ pos 0 → (atomic_cmpxchg largest (pos 0) (pos 5)).0.val ≡ pos 5)
        × (pos int_max ≢ pos 0 → (atomic_cmpxchg largest (pos 0) (pos 5)).0.val ≡ pos int_max)
        × ((atomic_cmpxchg largest (pos 0) (pos 5)).1 ≡ pos int_max))
    × (((atomic_set largest (pos 5)).0.val ≡ pos 5) × ((atomic_set largest (pos 5)).1 ≡ pos 5))
counter_ops_return_example = counter_ops_return largest (pos 0) (pos 5) (omega arith)

messages_by_level_example :
    let c' = log_verbosity (negsuc 0) fresh in
    (info "m" c' ≡ (if leb_ℤ vinfo (negsuc 0) then print (message info_normal none "m") c' else c'))
    × (fail "m" c'
        ≡ (if leb_ℤ vcritical (negsuc 0) then print (message fail_normal none "m") c' else c'))
    × (error "m" (pos 4) c' ≡ (
        if leb_ℤ vcritical (negsuc 0)
        then print
            (message error_normal (if eqb_ℤ (pos 4) (pos 0) then none else some (pos 4)) "m")
            c'
        else c'))
messages_by_level_example = messages_by_level (negsuc 0) (pos 4) "m" fresh
