-- ===== src/Logging/Laws.antt =====
-- What include/logging.h shows, and the labels of a result.
use Prim.Native.String.{String}
use futextest.Common.{◌≡◌, ◌⊎◌, arith, Bool, true, false, none, some, if◌then◌else◌}
use futextest.Common.Int.{ℤ, pos, negsuc, ◌≤ℤ◌, ◌<ℤ◌, leb_ℤ, eqb_ℤ}
use futextest.Logging.{
  Console, message, labelled, unknown_return_code, vcritical, vinfo, vmax, ret_pass, ret_error,
  ret_fail, log_color, log_verbosity, print_result, info, error, fail, verdict, print, info_normal,
}

-- The verbosity after `log_verbosity` is the level nearest to the argument in 0 to VMAX.
log_verbosity_clamps :
    (level : ℤ) (c : Console)
    → let v = (log_verbosity level c).verbose in
      (pos 0 ≤ℤ v)
      × (v ≤ℤ vmax)
      × ((v ≡ level) ⊎ ((level <ℤ pos 0) × (v ≡ pos 0)) ⊎ ((vmax <ℤ level) × (v ≡ vmax)))
unfolding log_verbosity
log_verbosity_clamps (pos n) c = ground arith
log_verbosity_clamps (negsuc n) c = ground arith

-- After `log_verbosity level` an INFO message is printed if the level is 2 or more, an ERROR or FAIL
-- message if it is 1 or more, and otherwise nothing; an ERROR names the error code unless it is 0.
pub messages_by_level :
    (level err : ℤ) (m : String) (c : Console)
    → let c' = log_verbosity level c in
      (info m c' ≡ (if leb_ℤ vinfo level then print (message info_normal none m) c' else c'))
      × (fail m c' ≡ (if leb_ℤ vcritical level then print (message c.fail_label none m) c' else c'))
      × (error m err c' ≡ (
          if leb_ℤ vcritical level
          then print (message c.error_label (if eqb_ℤ err (pos 0) then none else some err) m) c'
          else c'))
unfolding log_verbosity info fail error
messages_by_level (pos n) err m c = ground arith
messages_by_level (negsuc n) err m c = ground arith

verdict_one_of :
    (r : ℤ) (c : Console)
    → ((r ≡ ret_pass) × (verdict r c ≡ labelled c.pass))
      ⊎ ((r ≡ ret_error) × (verdict r c ≡ labelled c.error_label))
      ⊎ ((r ≡ ret_fail) × (verdict r c ≡ labelled c.fail_label))
      ⊎ (verdict r c ≡ unknown_return_code)
verdict_one_of (pos n) c = ground arith
verdict_one_of (negsuc n) c = ground arith

-- Of two return values `print_result` prints the same verdict only if both are equal or neither is one
-- of the three codes, with color and without.
print_result_distinguishes :
    (use_color : Bool) (c : Console) (r r' : ℤ)
    → let c' = log_color use_color c in
      (print_result r c').lines ≡ (print_result r' c').lines
      → (r ≡ r') ⊎ ((verdict r c' ≡ unknown_return_code) × (verdict r' c' ≡ unknown_return_code))
unfolding log_color print_result
print_result_distinguishes true c r r' e =
    ground (arith, verdict_one_of r (log_color true c), verdict_one_of r' (log_color true c))
print_result_distinguishes false c r r' e =
    ground (arith, verdict_one_of r (log_color false c), verdict_one_of r' (log_color false c))
