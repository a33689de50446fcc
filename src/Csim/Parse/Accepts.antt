-- ===== src/Csim/Parse/Accepts.antt =====
-- Which command lines `parseArg` of csim.c lets through.
use mathlib.Core.Path.{subst}
use computer_systems_practic.Prelude.{
  ℕ, ◌+◌, ◌≤◌, ◌<◌, ◌≡◌, refl, sym, ap, Option, none, some, length, List, [], ◌∷◌, arith, All, ltb,
  Bool-cases, ◌⊎◌, inl, inr,
}
use computer_systems_practic.Csim.Parse.{
  Param, Opt, opt_v, opt_h, opt_other, opt_s, opt_lines, opt_b, opt_t, Parsed, parsed, exits,
  overruns, strncpy_len, parse_opts, parse_arg,
}

-- The options that count: -s, -E, -b and -t, also when one is repeated.
abbrev pub counts : Opt → ℕ
counts opt_v = 0
counts opt_h = 0
counts opt_other = 0
counts _ = 1

abbrev pub count : List Opt → ℕ
count [] = 0
count (o ∷ os) = counts o + count os

-- Neither help nor an option that getopt refuses.
abbrev pub IsPlain : Opt → Type 0
IsPlain opt_h = ⊥
IsPlain opt_other = ⊥
IsPlain _ = Unit

-- The result is a set of parameters with the counters of p.
abbrev pub Accepted : Param → Parsed → Type 0
Accepted p r =
    (p' : Param) × (file' : List ℕ) × (r ≡ parsed p' file')
    × (p'.hits ≡ p.hits)
    × (p'.misses ≡ p.misses)
    × (p'.evicts ≡ p.evicts)

-- The text of -t is longer than the buffer of n characters.
abbrev pub IsLong : ℕ → Opt → Type 0
IsLong n (opt_t a) = n < length a
IsLong n _ = ⊥

-- Some text of -t is too long; and none is.
abbrev pub Overlong : ℕ → List Opt → Type 0
Overlong n [] = ⊥
Overlong n (o ∷ os) = IsLong n o ⊎ Overlong n os

abbrev pub AllFit : ℕ → List Opt → Type 0
AllFit n os = All (λ o. ¬ IsLong n o) os

strncpy_len-fits :
    (dst src : List ℕ)
    → length src ≤ length dst
    → (dst' : List ℕ) × (strncpy_len dst src ≡ some dst') × (length dst' ≡ length dst)
unfolding strncpy_len
strncpy_len-fits dst [] h = (dst, refl, refl)
strncpy_len-fits [] (c ∷ src) h = absurd (omega arith)
strncpy_len-fits (d ∷ dst) (c ∷ src) h =
    let (rest, e, n) = strncpy_len-fits dst src (omega arith) in (c ∷ rest, rw e refl, omega arith)

strncpy_len-long : (dst src : List ℕ) → length dst < length src → strncpy_len dst src ≡ none
unfolding strncpy_len
strncpy_len-long dst [] h = absurd (omega arith)
strncpy_len-long [] (c ∷ src) h = refl
strncpy_len-long (d ∷ dst) (c ∷ src) h = rw (strncpy_len-long dst src (omega arith)) refl

-- What the loop makes of the options with n of them seen before: a write past the buffer of the size,
-- an exit with too few of them, or parameters.
pub data Judged (size n : ℕ) (os : List Opt) (p : Param) (r : Parsed) : Type 0 where
  past_end : Overlong size os → r ≡ overruns → Judged size n os p r
  too_few : AllFit size os → n + count os < 4 → r ≡ exits 1 → Judged size n os p r
  enough : AllFit size os → 4 ≤ n + count os → Accepted p r → Judged size n os p r

-- One option before the others.
Judged-cons :
    {size n k : ℕ} {os : List Opt} {p p' : Param} {r : Parsed} (o : Opt)
    → counts o + n ≡ k
    → ¬ IsLong size o
    → (Accepted p' r → Accepted p r)
    → Judged size k os p' r
    → Judged size n (o ∷ os) p r
Judged-cons o c fits back (past_end long e) = past_end (inr long) e
Judged-cons o c fits back (too_few all few e) = too_few (fits, all) (omega arith) e
Judged-cons o c fits back (enough all many a) = enough (fits, all) (omega arith) (back a)

module _ (atoi : List ℕ → ℕ) where
  parse_opts-Judged :
      (os : List Opt) (n : ℕ) (p : Param) (file : List ℕ)
      → All IsPlain os
      → Judged (length file) n os p (parse_opts atoi os n p file)
  unfolding parse_opts
  parse_opts-Judged [] n p file ok = elim (Bool-cases (ltb n 4)) [
    | inl e ↦ too_few tt (ground arith) (rw e refl)
    | inr e ↦ enough tt (ground arith) (p, file, rw e refl, refl, refl, refl)
  ]
  parse_opts-Judged (opt_v ∷ os) n p file ok =
      Judged-cons (opt_v) (omega arith) (λ x. x) (λ x. x)
        (parse_opts-Judged os n (record p { v = 1 }) file ok.1)
  parse_opts-Judged (opt_h ∷ os) n p file ok = absurd ok.0
  parse_opts-Judged (opt_other ∷ os) n p file ok = absurd ok.0
  parse_opts-Judged (opt_s a ∷ os) n p file ok =
      Judged-cons (opt_s a) (omega arith) (λ x. x) (λ x. x)
        (parse_opts-Judged os (n + 1) (record p { s = atoi a }) file ok.1)
  parse_opts-Judged (opt_lines a ∷ os) n p file ok =
      Judged-cons (opt_lines a) (omega arith) (λ x. x) (λ x. x)
        (parse_opts-Judged os (n + 1) (record p { lines = atoi a }) file ok.1)
  parse_opts-Judged (opt_b a ∷ os) n p file ok =
      Judged-cons (opt_b a) (omega arith) (λ x. x) (λ x. x)
        (parse_opts-Judged os (n + 1) (record p { b = atoi a }) file ok.1)
  parse_opts-Judged (opt_t a ∷ os) n p file ok = elim (Bool-cases (ltb (length file) (length a))) [
    | inl long ↦
        past_end (inl (ground arith)) (copied none (strncpy_len-long file a (ground arith)))
    | inr short ↦
        let (file', e, same) = strncpy_len-fits file a (ground arith) in
        let rest : Judged (length file) (n + 1) os p (parse_opts atoi os (n + 1) p file') =
          subst (λ (z : ℕ). Judged z (n + 1) os p (parse_opts atoi os (n + 1) p file')) same
            (parse_opts-Judged os (n + 1) p file' ok.1) in
        subst (Judged (length file) n (opt_t a ∷ os) p) (sym (copied (some file') e))
          (Judged-cons (opt_t a) (omega arith) (λ x. absurd (ground arith)) (λ x. x) rest)
  ]
    where
      -- What the loop does with the result of the copy.
      copied :
          (o : Option (List ℕ))
          → strncpy_len file a ≡ o
          → parse_opts atoi (opt_t a ∷ os) n p file
            ≡ (elim o [ none ↦ overruns | some file' ↦ parse_opts atoi os (n + 1) p file' ])
      copied o e =
          ap
            (λ r. elim r as (λ x. Parsed) [
              | none ↦ overruns
              | some file' ↦ parse_opts atoi os (n + 1) p file'
            ])
            e

  -- Without help or an unknown option, `parseArg` writes past the buffer of the file name when the
  -- text of some -t is longer than the buffer. When each fits, it exits with status 1 where fewer than
  -- four of the valued options stand on the command line, and otherwise accepts it with all counters
  -- at 0. Options are counted, not told apart: four times -s is accepted.
  pub parse_arg_counts :
      (opts : List Opt) (p : Param) (file : List ℕ)
      → All IsPlain opts
      → Judged
          (length file)
          0
          opts
          (record p { v = 0; hits = 0; misses = 0; evicts = 0 })
          (parse_arg atoi opts p file)
  unfolding parse_arg
  parse_arg_counts opts p file ok =
      parse_opts-Judged opts 0 (record p { v = 0; hits = 0; misses = 0; evicts = 0 }) file ok
