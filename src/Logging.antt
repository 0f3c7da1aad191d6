-- ===== src/Logging.antt =====
-- include/logging.h: the labels, the verbosity and the messages of a test. A console holds the global
-- variables of the header and the lines printed, the newest first. A message is its format string.
pub mod Laws
use Prim.Native.String.{String}
use futextest.Common.{ℕ, Bool, List, [], ◌∷◌, ◌++◌, Option, none, some, if◌then◌else◌}
use futextest.Common.Int.{ℤ, pos, negsuc, ltb_ℤ, leb_ℤ, eqb_ℤ}

-- The bytes of a label.
abbrev pub Label : Type 0
Label = List ℕ

abbrev esc : Label
esc = 0x1B ∷ b'[' ∷ []

abbrev reset_color : Label
reset_color = esc ++ b'0' ∷ b'm' ∷ []

-- BRIGHT_GREEN, BRIGHT_YELLOW and BRIGHT_RED, from the last digit of the color.
abbrev bright : ℕ → Label
bright color = esc ++ b'1' ∷ b';' ∷ b'3' ∷ color ∷ b'm' ∷ []

abbrev pub pass_normal : Label
pass_normal = b' ' ∷ b'P' ∷ b'A' ∷ b'S' ∷ b'S' ∷ []

abbrev pub error_normal : Label
error_normal = b'E' ∷ b'R' ∷ b'R' ∷ b'O' ∷ b'R' ∷ []

abbrev pub fail_normal : Label
fail_normal = b' ' ∷ b'F' ∷ b'A' ∷ b'I' ∷ b'L' ∷ []

abbrev pub info_normal : Label
info_normal = b' ' ∷ b'I' ∷ b'N' ∷ b'F' ∷ b'O' ∷ []

abbrev pub pass_color : Label
pass_color = bright b'2' ++ b' ' ∷ b'P' ∷ b'A' ∷ b'S' ∷ b'S' ∷ reset_color

abbrev pub error_color : Label
error_color = bright b'3' ++ b'E' ∷ b'R' ∷ b'R' ∷ b'O' ∷ b'R' ∷ reset_color

abbrev pub fail_color : Label
fail_color = bright b'1' ++ b' ' ∷ b'F' ∷ b'A' ∷ b'I' ∷ b'L' ∷ reset_color

-- What `print_result` prints after `Result: `.
pub data Verdict : Type 0 where
  labelled : Label → Verdict
  unknown_return_code : Verdict

pub data Line : Type 0 where
  usage : List String → Line  -- what `usage` prints
  title : String → Line
  message : Label → Option ℤ → String → Line
  result : Verdict → Line

pub record Console : Type 0 where
  pub pass : Label
  pub error_label : Label
  pub fail_label : Label
  pub verbose : ℤ
  pub lines : List Line

-- VQUIET, VCRITICAL, VINFO and VMAX
abbrev pub vquiet : ℤ
vquiet = pos 0

abbrev pub vcritical : ℤ
vcritical = pos 1

abbrev pub vinfo : ℤ
vinfo = pos 2

abbrev pub vmax : ℤ
vmax = vinfo

-- The globals as they are initialised.
abbrev pub fresh : Console
fresh = record {
  pass = pass_normal;
  error_label = error_normal;
  fail_label = fail_normal;
  verbose = vcritical;
  lines = [];
}

-- RET_PASS, RET_ERROR and RET_FAIL
abbrev pub ret_pass : ℤ
ret_pass = pos 0

abbrev pub ret_error : ℤ
ret_error = negsuc 0

abbrev pub ret_fail : ℤ
ret_fail = negsuc 1

abbrev pub print : Line → Console → Console
print l c = record c { lines = l ∷ c.lines }

unfoldable pub log_color : Bool → Console → Console
log_color use_color c =
    if use_color
    then record c { pass = pass_color; error_label = error_color; fail_label = fail_color }
    else record c { pass = pass_normal; error_label = error_normal; fail_label = fail_normal }

unfoldable pub log_verbosity : ℤ → Console → Console
log_verbosity level c = record c {
  verbose = if ltb_ℤ vmax level then vmax else if ltb_ℤ level (pos 0) then pos 0 else level;
}

abbrev pub verdict : ℤ → Console → Verdict
verdict ret c =
    if eqb_ℤ ret ret_pass
    then labelled c.pass
    else if eqb_ℤ ret ret_error
    then labelled c.error_label
    else if eqb_ℤ ret ret_fail
    then labelled c.fail_label
    else unknown_return_code

unfoldable pub print_result : ℤ → Console → Console
print_result ret c = print (result (verdict ret c)) c

unfoldable pub info : String → Console → Console
info m c = if leb_ℤ vinfo c.verbose then print (message info_normal none m) c else c

unfoldable pub error : String → ℤ → Console → Console
error m err c =
    if leb_ℤ vcritical c.verbose
    then (if eqb_ℤ err (pos 0)
        then print (message c.error_label none m) c
        else print (message c.error_label (some err) m) c)
    else c

unfoldable pub fail : String → Console → Console
fail m c = if leb_ℤ vcritical c.verbose then print (message c.fail_label none m) c else c
