-- ===== src/Getopt/Laws.antt =====
-- What every option loop keeps, and how it ends.
use futextest.Common.{
  ◌≡◌, ◌⊎◌, inl, inr, refl, arith, Bool, true, false, List, [], ◌∷◌, if◌then◌else◌, ◌==◌,
}
use futextest.Common.Int.{ℤ, pos, negsuc, ◌≤ℤ◌}
use futextest.Logging.{
  Console, pass_normal, error_normal, fail_normal, pass_color, error_color, fail_color, vmax,
  log_color, log_verbosity, print, usage, fresh,
}
use futextest.Getopt.{
  usage_lines, Opt, Flow, go, exit, getopt_loop, switch_chv, atoi, and_then, String,
}

-- The console that the options may leave: a verbosity in range, and labels that are all plain or all
-- colored.
pub record IsConsole (c : Console) : Type 0 where
  pub low : pos 0 ≤ℤ c.verbose
  pub high : c.verbose ≤ℤ vmax
  pub labels :
      ((c.pass ≡ pass_normal) × (c.error_label ≡ error_normal) × (c.fail_label ≡ fail_normal))
      ⊎ ((c.pass ≡ pass_color) × (c.error_label ≡ error_color) × (c.fail_label ≡ fail_color))

pub fresh-IsConsole : IsConsole fresh
fresh-IsConsole = record { low = omega arith; high = omega arith; labels = inl (refl, refl, refl) }

-- `P` of the settings that the loop goes on with, `Q` of the status and the console of an exit.
abbrev pub Ends : {S : Type 0} → (S → Type 0) → (ℤ → Console → Type 0) → Flow S → Type 0
Ends P Q (go s) = P s
Ends P Q (exit r c) = Q r c

then-Ends :
    {S : Type 0} (P : S → Type 0) (Q : ℤ → Console → Type 0) (r : Flow S) (next : S → Flow S)
    → Ends P Q r
    → ((s : S) → P s → Ends P Q (next s))
    → Ends P Q (and_then r next)
then-Ends P Q (go s) next k all = all s k
then-Ends P Q (exit x c) next k all = k

pub if-Ends :
    {S : Type 0} (P : S → Type 0) (Q : ℤ → Console → Type 0) (b : Bool) (x y : Flow S)
    → Ends P Q x
    → Ends P Q y
    → Ends P Q (if b then x else y)
if-Ends P Q true x y h k = h
if-Ends P Q false x y h k = k

pub getopt_loop-Ends :
    {S : Type 0} (P : S → Type 0) (Q : ℤ → Console → Type 0) (switch : Opt → S → Flow S)
    → ((o : Opt) (s : S) → P s → Ends P Q (switch o s))
    → (os : List Opt) (s : S) → P s
    → Ends P Q (getopt_loop switch os s)
unfolding getopt_loop
getopt_loop-Ends P Q switch keep [] s h = h
getopt_loop-Ends P Q switch keep (o ∷ os) s h =
    then-Ends P Q (switch o s) (getopt_loop switch os) (keep o s h)
      (getopt_loop-Ends P Q switch keep os)

pub log_verbosity-IsConsole :
    (level : ℤ) (c : Console) → IsConsole c → IsConsole (log_verbosity level c)
unfolding log_verbosity
log_verbosity-IsConsole (pos n) c h = ground arith
log_verbosity-IsConsole (negsuc n) c h = ground arith

pub log_color-IsConsole : (c : Console) → IsConsole c → IsConsole (log_color true c)
unfolding log_color
log_color-IsConsole c h = ground arith

-- An exit prints the usage last, and its status is 0 (for -h) or 1 (for an unknown option).
abbrev pub IsUsage : List String → ℤ → Console → Type 0
IsUsage ls r c =
    ((r ≡ pos 0) ⊎ (r ≡ pos 1)) × (c' : Console) × IsConsole c' × (c ≡ print (usage ls) c')

pub switch_chv-Ends :
    (o : Opt) (c : Console) → IsConsole c → Ends IsConsole (IsUsage usage_lines) (switch_chv o c)
unfolding switch_chv
switch_chv-Ends o c h =
    if-Ends IsConsole (IsUsage usage_lines) (o.code == b'c') _ _ (log_color-IsConsole c h) (
      if-Ends IsConsole (IsUsage usage_lines) (o.code == b'h') _ _ (inl refl, c, h, refl)
        (if-Ends IsConsole (IsUsage usage_lines) (o.code == b'v') _ _
          (log_verbosity-IsConsole (atoi o.optarg) c h) (inr refl, c, h, refl)))

-- Whatever the arguments of a program with the options -c, -h and -v, it goes on with a verbosity in 0
-- to VMAX and with labels that are all plain or all colored, or it exits with status 0 or 1 right
-- after printing the usage.
pub options-IsConsole :
    (os : List Opt) (c : Console)
    → IsConsole c
    → Ends IsConsole (IsUsage usage_lines) (getopt_loop switch_chv os c)
options-IsConsole = getopt_loop-Ends IsConsole (IsUsage usage_lines) switch_chv switch_chv-Ends
