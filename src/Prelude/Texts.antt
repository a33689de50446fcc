-- ===== src/Prelude/Texts.antt =====
-- C strings as lists of character codes.
use Prim.Native.Nat.{ℕ, zero, suc}
use Prim.Native.Char.{code}
use Prim.Native.String.{String}
use mathlib.Core.Path.{◌≡◌, refl}
use mathlib.Core.Logic.{◌≢◌}
use mathlib.Core.Bool.{Bool, true, false, ◌&&◌}
use mathlib.Core.Option.{Option, none, some}
use mathlib.Core.List.{List, [], ◌∷◌, ◌++◌}
use native.Mathlib.Omega.{arith}
use computer_systems_practic.Prelude.Tests.{◌==◌, if◌then◌else◌}
use computer_systems_practic.Prelude.Lists.{All, length}

abbrev pub codes : String → List ℕ
codes String.[] = []
codes (String.◌∷◌ c s) = code c ∷ codes s

abbrev pub is_some {ℓ} : {A : Type ℓ} → Option A → Bool
is_some none = false
is_some (some x) = true

-- strcmp(s, t) == 0
abbrev pub str_beq : List ℕ → List ℕ → Bool
str_beq [] [] = true
str_beq [] (d ∷ t) = false
str_beq (c ∷ s) [] = false
str_beq (c ∷ s) (d ∷ t) = (c == d) && str_beq s t

pub str_beq_refl : (s : List ℕ) → str_beq s s ≡ true
str_beq_refl [] = refl
str_beq_refl (c ∷ s) = ground (arith, str_beq_refl s)

pub str_beq_eq : (s t : List ℕ) → str_beq s t ≡ true → s ≡ t
str_beq_eq [] [] h = refl
str_beq_eq [] (d ∷ t) h = cc
str_beq_eq (c ∷ s) [] h = cc
str_beq_eq (c ∷ s) (d ∷ t) h = ground (arith, str_beq_eq s t)

-- The string that a buffer holds: what stands before its first zero.
unfoldable pub c_str : List ℕ → List ℕ
c_str [] = []
c_str (c ∷ s) = let rest = c_str s in if c == 0 then [] else c ∷ rest

-- strchr(s, c), as an index; the string has no zero.
unfoldable pub index_of : ℕ → List ℕ → Option ℕ
index_of c [] = none
index_of c (d ∷ s) =
    let rest = index_of c s in
    if d == c then some zero else elim rest [ none ↦ none | some i ↦ some (suc i) ]

abbrev pub Without : ℕ → List ℕ → Type 0
Without c s = All (λ d. d ≢ c) s

pub c_str-append : (s t : List ℕ) → Without 0 s → c_str (s ++ 0 ∷ t) ≡ s
unfolding c_str
c_str-append [] t a = refl
c_str-append (c ∷ s) t (ne, a) = ground (arith, c_str-append s t a)

pub c_str-Without : (s : List ℕ) → Without 0 s → c_str s ≡ s
unfolding c_str
c_str-Without [] a = refl
c_str-Without (c ∷ s) (ne, a) = ground (arith, c_str-Without s a)

pub index_of-append :
    (c : ℕ) (s t : List ℕ) → Without c s → index_of c (s ++ c ∷ t) ≡ some (length s)
unfolding index_of
index_of-append c [] t a = ground arith
index_of-append c (d ∷ s) t (ne, a) = ground (arith, index_of-append c s t a)

pub index_of-Without : (c : ℕ) (s : List ℕ) → Without c s → index_of c s ≡ none
unfolding index_of
index_of-Without c [] a = refl
index_of-Without c (d ∷ s) (ne, a) = ground (arith, index_of-Without c s a)
