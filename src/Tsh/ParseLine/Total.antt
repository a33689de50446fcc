-- ===== src/Tsh/ParseLine/Total.antt =====
-- The loop of `parseline` in tsh.c ends, and its argument vector keeps room for the NULL.
use computer_systems_practic.Prelude.{
  ℕ, zero, suc, ◌+◌, ◌-◌, ◌≤◌, ◌<◌, ◌≡◌, refl, inl, inr, Bool, true, false, Option, none, some,
  List, [], ◌∷◌, arith, ◌==◌, leb, if◌then◌else◌, length, length-append, is_some, Bool-cases,
  Option-cases, sym, ap,
}
use computer_systems_practic.Tsh.ParseLine.{
  Str, max_args, Tokens, ParsingState, st_normal, is_normal, ParseError, unmatched, Scanned, ended,
  failed, out_of_fuel, is_quote, skip_delims, split_delim, split_quote, record_token, take_token,
  round, scan, Builtin, builtin_of, Parsed, parsed, refused, ends_in_amp, drop_last, finish_args,
  finish, parse_line,
}

-- A loop that has ended, with at most MAXARGS - 1 arguments.
pub data IsDone : Scanned → Type 0 where
  ends : {st : ParsingState} {tok : Tokens} → length tok.argv ≤ max_args - 1 → IsDone (ended st tok)
  fails : {e : ParseError} → IsDone (failed e)

if-IsDone : (b : Bool) (x y : Scanned) → IsDone x → IsDone y → IsDone (if b then x else y)
if-IsDone true x y p q = p
if-IsDone false x y p q = q

length-skip_delims : (s : Str) → length (skip_delims s) ≤ length s
unfolding skip_delims
length-skip_delims [] = omega arith
length-skip_delims (c ∷ s) = ground (arith, length-skip_delims s)

length-split_delim : (c : ℕ) (s : Str) → length ((split_delim (c ∷ s)).1) ≤ length s
unfolding split_delim
length-split_delim c [] = ground arith
length-split_delim c (d ∷ s) = ground (arith, length-split_delim d s)

length-split_quote :
    (q : ℕ) (s : Str) {r : Str × Str} → split_quote q s ≡ some r → length (r.1) < length s
unfolding split_quote
length-split_quote q [] h = cc
length-split_quote q (c ∷ s) h = elim (Option-cases (split_quote q s)) [
  | inl gone ↦ ground arith
  | inr (r', e) ↦ ground (arith, length-split_quote q s e)
]

module _ (next : Str → ParsingState → Tokens → Scanned) (n : ℕ)
    (ih : (s : Str) (st : ParsingState) (tok : Tokens)
      → length s < n
      → length tok.argv < max_args - 1
      → IsDone (next s st tok)) where
  take_token-IsDone :
      (r : Str × Str) (st : ParsingState) (tok : Tokens)
      → length (r.1) < n
      → length tok.argv < max_args - 1
      → IsDone (take_token next r st tok)
  unfolding take_token record_token
  take_token-IsDone (token, rest) st tok h few = elim (Option-cases (record_token st token tok)) [
    | inl gone ↦ rw (gone, take_token) fails
    | inr (tok', e) ↦
        let bound : length tok'.argv ≤ length tok.argv + 1 =
          ground (arith, length-append tok.argv (token ∷ [])) in
        elim (Bool-cases (leb (max_args - 1) (length tok'.argv))) [
          | inl full ↦ rw (e, take_token) (rw full (ends (omega arith)))
          | inr room ↦ rw (e, take_token) (rw room (ih rest st_normal tok' h (ground arith)))
        ]
  ]

  quoted-IsDone :
      (c : ℕ) (s : Str) (st : ParsingState) (tok : Tokens)
      → length s < n
      → length tok.argv < max_args - 1
      → (o : Option (Str × Str)) → o ≡ split_quote c s
      → IsDone (elim o [ none ↦ failed (unmatched c) | some r ↦ take_token next r st tok ])
  quoted-IsDone c s st tok h few none e = fails
  quoted-IsDone c s st tok h few (some r) e =
      take_token-IsDone r st tok (omega (arith, length-split_quote c s (sym e))) few

  round-IsDone :
      (s : Str) (st : ParsingState) (tok : Tokens)
      → length s ≤ n
      → length tok.argv < max_args - 1
      → IsDone (round next s st tok)
  unfolding round
  round-IsDone [] st tok h few = ends (omega arith)
  round-IsDone (c ∷ s) st tok h few =
      if-IsDone (c == b'<') _ _ (if-IsDone (is_some tok.infile) _ _ fails (ih s _ tok h few)) (
        if-IsDone (c == b'>') _ _ (if-IsDone (is_some tok.outfile) _ _ fails (ih s _ tok h few)) (
          if-IsDone (is_quote c) _ _ (quoted-IsDone c s st tok h few (split_quote c s) refl) (
            take_token-IsDone (split_delim (c ∷ s)) st tok (omega (arith, length-split_delim c s))
              few)))

scan-IsDone :
    (fuel : ℕ) (s : Str) (st : ParsingState) (tok : Tokens)
    → length s < fuel
    → length tok.argv < max_args - 1
    → IsDone (scan fuel s st tok)
unfolding scan
scan-IsDone zero s st tok h few = absurd (omega arith)
scan-IsDone (suc fuel) s st tok h few =
    round-IsDone (scan fuel) fuel (scan-IsDone fuel) (skip_delims s) st tok
      (omega (arith, length-skip_delims s)) few

-- What `parseline` gives back: a refusal, or tokens with at most MAXARGS - 1 arguments, whose
-- command is classified when there is one.
pub data IsParsed : Parsed → Type 0 where
  refuses : {e : ParseError} → IsParsed (refused e)
  blank : {tok : Tokens} → tok.argv ≡ [] → IsParsed (parsed true tok none)
  command :
      {bg : Bool} {tok : Tokens} (b : Builtin)
      → length tok.argv ≤ max_args - 1
      → IsParsed (parsed bg tok (some b))

length-drop_last : (l : List Str) → length (drop_last l) ≤ length l
unfolding drop_last
length-drop_last [] = omega arith
length-drop_last (a ∷ []) = omega arith
length-drop_last (a ∷ b ∷ l) = omega (arith, length-drop_last (b ∷ l))

finish_args-IsParsed :
    (l : List Str) (tok : Tokens)
    → l ≡ tok.argv
    → length tok.argv ≤ max_args - 1
    → IsParsed (finish_args l tok)
unfolding finish_args
finish_args-IsParsed [] tok e h = blank (sym e)
finish_args-IsParsed (a ∷ l) tok e h = elim (Bool-cases (ends_in_amp (a ∷ l))) [
  | inl amp ↦ rw amp (
      command (builtin_of a)
        (let same = ap (λ (x : List Str). length x) e in omega (arith, length-drop_last (a ∷ l))))
  | inr no_amp ↦ rw no_amp (command (builtin_of a) h)
]

finish-IsParsed : (r : Scanned) → IsDone r → IsParsed (finish r)
unfolding finish
finish-IsParsed (ended st tok) (ends h) = elim (Bool-cases (is_normal st)) [
  | inl normal ↦ rw normal (finish_args-IsParsed tok.argv tok refl h)
  | inr pending ↦ rw pending refuses
]
finish-IsParsed (failed e) fails = refuses
finish-IsParsed out_of_fuel d = elim d [ ]

-- `parseline` returns for every command line, whatever its characters, and leaves room for the
-- NULL that ends argv.
pub parse_line-IsParsed : (cmdline : Str) → IsParsed (parse_line cmdline)
unfolding parse_line
parse_line-IsParsed cmdline =
    finish-IsParsed _ (scan-IsDone (length cmdline + 1) cmdline _ _ (omega arith) (omega arith))
