-- ===== src/Getopt.antt =====
-- The option loops of the programs: `getopt` of the C library gives a list of option characters with
-- their arguments, and each program switches on the character.
pub mod Laws
use futextest.Common.{
  ℕ, ◌+◌, ◌-◌, ◌*◌, Bool, true, false, ◌&&◌, ◌||◌, List, [], ◌∷◌, leb, ◌==◌, if◌then◌else◌,
}
use futextest.Common.Int.{ℤ, pos, negsuc, sub_ℕ}
use futextest.Logging.{Console, Line, usage, print, log_color, log_verbosity}
use Prim.Native.String.{String}

-- What one call of `getopt` returns, and `optarg`; an unknown option is the character `?`.
pub record Opt : Type 0 where
  pub code : ℕ
  pub optarg : List ℕ

-- A program goes on with its settings, or `exit` is called.
pub data Flow (S : Type 0) : Type 0 where
  go : S → Flow S
  exit : ℤ → Console → Flow S

module _ {S : Type 0} where
  abbrev pub and_then : Flow S → (S → Flow S) → Flow S
  and_then (go s) next = next s
  and_then (exit r c) next = exit r c

  -- `while ((c = getopt(...)) != -1) switch (c) ...`
  unfoldable pub getopt_loop : (Opt → S → Flow S) → List Opt → S → Flow S
  getopt_loop switch [] s = go s
  getopt_loop switch (o ∷ os) s = and_then (switch o s) (getopt_loop switch os)

abbrev is_digit : ℕ → Bool
is_digit c = leb b'0' c && leb c b'9'

-- ' ' and '\t' to '\r'
abbrev is_space : ℕ → Bool
is_space c = c == b' ' || (leb 9 c && leb c 13)

digits : ℕ → List ℕ → ℕ
digits n [] = n
digits n (c ∷ cs) = if is_digit c then digits (n * 10 + (c - b'0')) cs else n

signed : List ℕ → ℤ
unfolding digits
signed [] = pos 0
signed (c ∷ cs) =
    if c == b'-'
    then sub_ℕ 0 (digits 0 cs)
    else if c == b'+'
    then pos (digits 0 cs)
    else pos (digits 0 (c ∷ cs))

-- The C library's `atoi`, for a number that an `int` holds.
unfoldable pub atoi : List ℕ → ℤ
unfolding signed
atoi [] = pos 0
atoi (c ∷ cs) = if is_space c then atoi cs else signed (c ∷ cs)

-- What `usage` prints in a program with these options only
abbrev pub usage_lines : List String
usage_lines =
    "Usage: %s" ∷ "  -c\tUse color" ∷ "  -h\tDisplay this help message"
    ∷ "  -v L\tVerbosity level: %d=QUIET %d=CRITICAL %d=INFO" ∷ []

-- The cases -c, -h, -v and default that every program has.
unfoldable pub switch_chv : Opt → Console → Flow Console
switch_chv o c =
    if o.code == b'c'
    then go (log_color true c)
    else if o.code == b'h'
    then exit (pos 0) (print (usage usage_lines) c)
    else if o.code == b'v'
    then go (log_verbosity (atoi o.optarg) c)
    else exit (pos 1) (print (usage usage_lines) c)
