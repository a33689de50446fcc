-- ===== src/Tsh/ParseLine/Words.antt =====
-- `parseline` of tsh.c reads back plain words that are written with a space between them.
use mathlib.Core.List.{append_assoc, append-nil}
use computer_systems_practic.Prelude.{
  ℕ, zero, suc, ◌+◌, ◌-◌, ◌≤◌, ◌<◌, ◌≡◌, refl, true, false, none, some, List, [], ◌∷◌, ◌++◌, arith,
  ◌==◌, leb, length, length-append, All, ap, ◌∙◌,
}
use computer_systems_practic.Tsh.ParseLine.{
  Str, max_args, Tokens, ParsingState, st_normal, Scanned, ended, is_delim, is_quote, skip_delims,
  split_delim, record_token, take_token, round, scan, parsed, ends_in_amp, drop_last, finish_args,
  finish, parse_line, builtin_of,
}

-- A character that is no white space.
abbrev pub IsPlain : ℕ → Type 0
IsPlain c = is_delim c ≡ false

-- A word: not empty, no white space, and its first character neither a quote nor a redirection.
abbrev pub IsWord : Str → Type 0
IsWord [] = ⊥
IsWord (c ∷ s) =
    ((c == b'<') ≡ false) × ((c == b'>') ≡ false) × (is_quote c ≡ false) × IsPlain c × All IsPlain s

-- White space.
abbrev pub IsBlank : ℕ → Type 0
IsBlank c = is_delim c ≡ true

-- One space before each word.
abbrev spaced : List Str → Str
spaced [] = []
spaced (w ∷ ws) = 32 ∷ (w ++ spaced ws)

-- The words with one space between them.
abbrev pub write_words : List Str → Str
write_words [] = []
write_words (w ∷ ws) = w ++ spaced ws

split_delim-word :
    (w : Str) (ws : List Str) → All IsPlain w → split_delim (w ++ spaced ws) ≡ (w, write_words ws)
unfolding split_delim
split_delim-word [] [] a = refl
split_delim-word [] (w ∷ ws) a = refl
split_delim-word (c ∷ s) ws (p, a) = rw (p, split_delim-word s ws a)

skip_delims-word : (w : Str) (s : Str) → IsWord w → skip_delims (w ++ s) ≡ w ++ s
unfolding skip_delims
skip_delims-word [] s h = absurd h
skip_delims-word (c ∷ w) s h = rw (h.3)

skip_delims-write_words :
    (ws : List Str) → All IsWord ws → skip_delims (write_words ws) ≡ write_words ws
unfolding skip_delims
skip_delims-write_words [] a = refl
skip_delims-write_words (w ∷ ws) (h, a) = skip_delims-word w (spaced ws) h

skip_delims-blank : (lead s : Str) → All IsBlank lead → skip_delims (lead ++ s) ≡ skip_delims s
unfolding skip_delims
skip_delims-blank [] s a = refl
skip_delims-blank (c ∷ lead) s (h, a) = rw (h, skip_delims-blank lead s a)

abbrev with_args : Tokens → List Str → Tokens
with_args tok l = record tok { argv = l }

-- One round over a word adds it to the arguments.
round-word :
    (next : Str → ParsingState → Tokens → Scanned) (w : Str) (ws : List Str) (tok : Tokens)
    → IsWord w
    → length tok.argv + 1 < max_args - 1
    → round next (w ++ spaced ws) st_normal tok
      ≡ next (write_words ws) st_normal (with_args tok (tok.argv ++ (w ∷ [])))
unfolding round take_token record_token
round-word next [] ws tok h few = absurd h
round-word next (c ∷ w) ws tok (lt, gt, quote, plain, rest) few =
    let room : leb (max_args - 1) (length (tok.argv ++ ((c ∷ w) ∷ []))) ≡ false =
      ground (arith, length-append tok.argv ((c ∷ w) ∷ [])) in
    rw (lt, gt, quote, split_delim-word (c ∷ w) ws (plain, rest)) (rw room)

scan-words :
    (fuel : ℕ) (ws : List Str) (tok : Tokens)
    → length ws < fuel
    → All IsWord ws
    → length tok.argv + length ws < max_args - 1
    → scan fuel (write_words ws) st_normal tok ≡ ended st_normal (with_args tok (tok.argv ++ ws))
unfolding scan round skip_delims
scan-words zero ws tok f a few = absurd (omega arith)
scan-words (suc fuel) [] tok f a few = rw append-nil
scan-words (suc fuel) (w ∷ ws) tok f (h, a) few = rw (skip_delims-word w (spaced ws) h) (
    round-word (scan fuel) w ws tok h (omega arith)
    ∙ scan-words fuel ws (with_args tok (tok.argv ++ (w ∷ []))) (omega arith) a
        (omega (arith, length-append tok.argv (w ∷ [])))
    ∙ ap (λ (l : List Str). ended st_normal (with_args tok l)) (append_assoc tok.argv (w ∷ []) ws))

length-le-spaced : (ws : List Str) → length ws ≤ length (spaced ws)
length-le-spaced [] = omega arith
length-le-spaced (w ∷ ws) = omega (arith, length-append w (spaced ws), length-le-spaced ws)

length-le-write_words : (ws : List Str) → All IsWord ws → length ws ≤ length (write_words ws)
length-le-write_words [] a = omega arith
length-le-write_words ([] ∷ ws) (h, a) = absurd h
length-le-write_words ((c ∷ w) ∷ ws) a =
    omega (arith, length-append w (spaced ws), length-le-spaced ws)

-- The tokens of plain words.
abbrev pub plain_tokens : List Str → Tokens
plain_tokens ws = record { argv = ws; infile = none; outfile = none }

-- The whole function on words behind white space, up to the test for '&'.
parse_line-words :
    (lead : Str) (ws : List Str)
    → All IsBlank lead
    → All IsWord ws
    → length ws < max_args - 1
    → parse_line (lead ++ write_words ws) ≡ finish_args ws (plain_tokens ws)
unfolding parse_line scan finish
parse_line-words lead ws blank a few =
    let line = lead ++ write_words ws in
    let n = length line in
    let fuel : n + 1 ≡ suc n = omega arith in
    ap finish (
      ap (λ (k : ℕ). scan k line st_normal (plain_tokens [])) fuel
      ∙ ap (λ (s : Str). round (scan n) s st_normal (plain_tokens []))
          (skip_delims-blank lead (write_words ws) blank)
      ∙ scan-words (suc n) ws (plain_tokens [])
          (omega (arith, length-append lead (write_words ws), length-le-write_words ws a)) a
          (omega arith))

ends_in_amp-amp : (a : Str) (ws : List Str) → ends_in_amp (a ∷ (ws ++ ((b'&' ∷ []) ∷ []))) ≡ true
unfolding ends_in_amp
ends_in_amp-amp a [] = refl
ends_in_amp-amp a (w ∷ ws) = ends_in_amp-amp w ws

drop_last-append : (a x : Str) (ws : List Str) → drop_last (a ∷ (ws ++ (x ∷ []))) ≡ a ∷ ws
unfolding drop_last
drop_last-append a x [] = refl
drop_last-append a x (w ∷ ws) = rw (drop_last-append w x ws)

-- `parseline` of any white space, or none, and then a command and its arguments, plain words with one
-- space between them, few enough for argv, of which the last does not begin with '&': a foreground job
-- with exactly these arguments and no redirection. With a further word '&' the same arguments make a
-- background job.
pub parse_line-write_words :
    (lead : Str) (w : Str) (ws : List Str)
    → All IsBlank lead
    → All IsWord (w ∷ ws)
    → length ws + 3 < max_args
    → ends_in_amp (w ∷ ws) ≡ false
    → (parse_line (lead ++ write_words (w ∷ ws))
        ≡ parsed false (plain_tokens (w ∷ ws)) (some (builtin_of w)))
      × (parse_line (lead ++ write_words (w ∷ (ws ++ ((b'&' ∷ []) ∷ []))))
          ≡ parsed true (plain_tokens (w ∷ ws)) (some (builtin_of w)))
unfolding finish_args
parse_line-write_words lead w ws blank a few no_amp = (
  parse_line-words lead (w ∷ ws) blank a (omega arith) ∙ (rw no_amp),
  parse_line-words lead (w ∷ (ws ++ (amp ∷ []))) blank (a.0, All-snoc ws a.1)
        (omega (arith, length-append ws (amp ∷ [])))
      ∙ (rw (ends_in_amp-amp w ws, drop_last-append w amp ws)),
)
  where
    amp : Str
    amp = b'&' ∷ []

    All-snoc : (l : List Str) → All IsWord l → All IsWord (l ++ ((b'&' ∷ []) ∷ []))
    All-snoc [] b = ((refl, refl, refl, refl, tt), tt)
    All-snoc (x ∷ l) (h, b) = (h, All-snoc l b)
