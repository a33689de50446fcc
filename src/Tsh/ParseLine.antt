-- ===== src/Tsh/ParseLine.antt =====
-- `parseline` of shell lab/tsh.c. A command line is the list of its characters, without the NUL; the
-- callers pass what `fgets` left of at most 1023 characters, which fits the array that it is copied
-- to. The pointers of `tok` into that array are the strings that they point to.
pub mod Total
pub mod Words
use computer_systems_practic.Prelude.{
  ℕ, zero, suc, ◌+◌, ◌-◌, Bool, true, false, ◌||◌, ◌&&◌, Option, none, some, List, [], ◌∷◌, ◌++◌,
  ◌==◌, ltb, leb, if◌then◌else◌, length, is_some, str_beq, codes,
}

abbrev pub Str : Type 0
Str = List ℕ

abbrev pub max_args : ℕ
max_args = 128

pub data Builtin : Type 0 where
  builtin_none builtin_quit builtin_jobs builtin_bg builtin_fg : Builtin

pub record Tokens : Type 0 where
  pub argv : List Str
  pub infile : Option Str
  pub outfile : Option Str

-- The bits ST_INFILE and ST_OUTFILE of `parsing_state`; ST_NORMAL is neither.
pub record ParsingState : Type 0 where
  pub st_infile : Bool
  pub st_outfile : Bool

abbrev pub st_normal : ParsingState
st_normal = record { st_infile = false; st_outfile = false }

abbrev pub is_normal : ParsingState → Bool
is_normal st = if st.st_infile || st.st_outfile then false else true

-- The messages that go with -1.
pub data ParseError : Type 0 where
  ambiguous : ParseError
  unmatched : ℕ → ParseError
  no_file_name : ParseError

-- How the loop ends: at the end of the line or with a full argv, with an error, or out of fuel.
pub data Scanned : Type 0 where
  ended : ParsingState → Tokens → Scanned
  failed : ParseError → Scanned
  out_of_fuel : Scanned

-- Space, tab, carriage return, newline.
abbrev pub is_delim : ℕ → Bool
is_delim c = (c == 32) || (c == 9) || (c == 13) || (c == 10)

abbrev pub is_quote : ℕ → Bool
is_quote c = (c == 39) || (c == 34)

-- buf + strspn(buf, delims)
unfoldable pub skip_delims : Str → Str
skip_delims [] = []
skip_delims (c ∷ s) = let rest = skip_delims s in if is_delim c then rest else c ∷ s

-- The token up to a character that ends it, and what follows that character.
abbrev pub cons_token : ℕ → Str × Str → Str × Str
cons_token c (token, rest) = (c ∷ token, rest)

-- strcspn(buf, delims); a token may also end with the line.
unfoldable pub split_delim : Str → Str × Str
split_delim [] = ([], [])
split_delim (c ∷ s) =
    let rest = cons_token c (split_delim s) in if is_delim c then ([], s) else rest

-- strchr(buf, quote)
unfoldable pub split_quote : ℕ → Str → Option (Str × Str)
split_quote q [] = none
split_quote q (c ∷ s) =
    let rest = split_quote q s in
    if c == q then some ([], s) else elim rest [ none ↦ none | some r ↦ some (cons_token c r) ]

-- The switch that records a token; `none` is the ambiguous state with both bits.
unfoldable pub record_token : ParsingState → Str → Tokens → Option Tokens
record_token st token tok =
    if st.st_infile
    then (if st.st_outfile then none else some (record tok { infile = some token }))
    else (if st.st_outfile
        then some (record tok { outfile = some token })
        else some (record tok { argv = tok.argv ++ (token ∷ []) }))

-- The rest of a round, once the token is found; `next` is the loop from `next + 1` on.
unfoldable pub take_token :
    (next : Str → ParsingState → Tokens → Scanned) → Str × Str → ParsingState → Tokens → Scanned
take_token next (token, rest) st tok = elim (record_token st token tok) [
  | none ↦ failed ambiguous
  | some tok' ↦
      if leb (max_args - 1) (length tok'.argv)
      then ended st_normal tok'
      else next rest st_normal tok'
]

-- One round of the loop from a character that is no white space.
unfoldable pub round :
    (next : Str → ParsingState → Tokens → Scanned) → Str → ParsingState → Tokens → Scanned
round next [] st tok = ended st tok
round next (c ∷ s) st tok =
    if c == b'<'
    then (if is_some tok.infile
        then failed ambiguous
        else next s (record st { st_infile = true }) tok)
    else if c == b'>'
    then (if is_some tok.outfile
        then failed ambiguous
        else next s (record st { st_outfile = true }) tok)
    else if is_quote c
    then elim (split_quote c s) [ none ↦ failed (unmatched c) | some r ↦ take_token next r st tok ]
    else take_token next (split_delim (c ∷ s)) st tok

-- The loop. Each round takes at least one character.
unfoldable pub scan : ℕ → Str → ParsingState → Tokens → Scanned
scan zero s st tok = out_of_fuel
scan (suc fuel) s st tok = round (scan fuel) (skip_delims s) st tok

unfoldable pub builtin_of : Str → Builtin
builtin_of s =
    if str_beq s (codes "quit")
    then builtin_quit
    else if str_beq s (codes "jobs")
    then builtin_jobs
    else if str_beq s (codes "bg")
    then builtin_bg
    else if str_beq s (codes "fg")
    then builtin_fg
    else builtin_none

-- What `parseline` returns: -1 with its message, or the tokens with 1 for background. The kind of
-- command is set only where there is an argument.
pub data Parsed : Type 0 where
  parsed : (bg : Bool) → Tokens → Option Builtin → Parsed
  refused : ParseError → Parsed
  stuck : Parsed

-- Does the last argument begin with '&', and the arguments without it.
unfoldable pub ends_in_amp : List Str → Bool
ends_in_amp [] = false
ends_in_amp ([] ∷ []) = false
ends_in_amp ((c ∷ s) ∷ []) = c == b'&'
ends_in_amp (a ∷ b ∷ rest) = ends_in_amp (b ∷ rest)

unfoldable pub drop_last : List Str → List Str
drop_last [] = []
drop_last (a ∷ []) = []
drop_last (a ∷ b ∷ rest) = a ∷ drop_last (b ∷ rest)

unfoldable pub finish_args : List Str → Tokens → Parsed
finish_args [] tok = parsed true tok none
finish_args (a ∷ rest) tok =
    if ends_in_amp (a ∷ rest)
    then parsed true (record tok { argv = drop_last (a ∷ rest) }) (some (builtin_of a))
    else parsed false tok (some (builtin_of a))

unfoldable pub finish : Scanned → Parsed
finish out_of_fuel = stuck
finish (failed e) = refused e
finish (ended st tok) = if is_normal st then finish_args tok.argv tok else refused no_file_name

unfoldable pub parse_line : Str → Parsed
unfolding scan finish
parse_line cmdline = finish (
    scan (length cmdline + 1) cmdline st_normal
      (record { argv = []; infile = none; outfile = none }))
