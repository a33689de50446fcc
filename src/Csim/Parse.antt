-- ===== src/Csim/Parse.antt =====
-- The command line of csim.c: `parseArg` over the options that `getopt` returns.
pub mod Accepts
use computer_systems_practic.Prelude.{
  ℕ, ◌+◌, Option, none, some, List, [], ◌∷◌, ltb, if◌then◌else◌, ◌>>=◌,
}

-- The fields v, s, E, b and the counters. `lines` is the field E. The ints s, E and b are their words
-- of 32 bits: a negative one is 2 ^ 31 or more.
pub record Param : Type 0 where
  pub v : ℕ
  pub s : ℕ
  pub lines : ℕ
  pub b : ℕ
  pub hits : ℕ
  pub misses : ℕ
  pub evicts : ℕ

-- What one call of `getopt` returns, with its argument's text.
pub data Opt : Type 0 where
  opt_v opt_h opt_other : Opt
  opt_s opt_lines opt_b opt_t : List ℕ → Opt

pub data Parsed : Type 0 where
  parsed : Param → List ℕ → Parsed
  exits : ℕ → Parsed
  overruns : Parsed

-- strncpy(dst, src, strlen(src)): the characters of src and no NUL behind them. `none` is a write past
-- the end of dst.
unfoldable pub strncpy_len : List ℕ → List ℕ → Option (List ℕ)
strncpy_len dst [] = some dst
strncpy_len [] (c ∷ src) = none
strncpy_len (d ∷ dst) (c ∷ src) = strncpy_len dst src >>= λ rest. some (c ∷ rest)

-- The switch loop with `argNum` options seen. `atoi` gives the word of the int.
unfoldable pub parse_opts : (atoi : List ℕ → ℕ) → List Opt → ℕ → Param → List ℕ → Parsed
unfolding strncpy_len
parse_opts atoi [] n p file = if ltb n 4 then exits 1 else parsed p file
parse_opts atoi (opt_v ∷ os) n p file = parse_opts atoi os n (record p { v = 1 }) file
parse_opts atoi (opt_s a ∷ os) n p file = parse_opts atoi os (n + 1) (record p { s = atoi a }) file
parse_opts atoi (opt_lines a ∷ os) n p file =
    parse_opts atoi os (n + 1) (record p { lines = atoi a }) file
parse_opts atoi (opt_b a ∷ os) n p file = parse_opts atoi os (n + 1) (record p { b = atoi a }) file
parse_opts atoi (opt_t a ∷ os) n p file = elim (strncpy_len file a) [
  | none ↦ overruns
  | some file' ↦ parse_opts atoi os (n + 1) p file'
]
parse_opts atoi (opt_h ∷ os) n p file = exits 0
parse_opts atoi (opt_other ∷ os) n p file = exits 1

-- `parseArg`: the parameters and the file name's buffer come with what they held before.
unfoldable pub parse_arg : (atoi : List ℕ → ℕ) → List Opt → Param → List ℕ → Parsed
unfolding parse_opts
parse_arg atoi opts p file =
    parse_opts atoi opts 0 (record p { v = 0; hits = 0; misses = 0; evicts = 0 }) file
