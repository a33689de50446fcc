-- ===== src/Csim/Recency.antt =====
-- The replacement order of csim.c is not that of least recent use: a hit adds one to a line's mark,
-- which need not lift it above the others.
use computer_systems_practic.Prelude.{ℕ, ◌≡◌, ◌≢◌, Option, none, some, List, [], ◌∷◌, arith}
use computer_systems_practic.Csim.{
  Line, Set, Param, Inst, empty_line, access_set, search_step, on_hit, on_miss, on_evict,
}

-- Serve references to the given blocks in turn.
abbrev pub access_all : List ℕ → Inst → Set → Param → Option Set
access_all [] inst ls param = some ls
access_all (tag ∷ tags) inst ls param = elim (access_set tag inst ls param) [
  | none ↦ none
  | some (ls', param', state) ↦ access_all tags inst ls' param'
]

-- A line that holds a block with the given mark.
abbrev pub held : ℕ → ℕ → Line
held tag mark = record { valid = 1; tag = tag; accessed = mark }

-- In a set of two lines, references to blocks a, b, a and then to a third block c leave c and b:
-- the line of a, the more recently used one, is the victim. Both marks are 2 at that point, and
-- the first line with the least mark is taken.
pub access_all_drops_recent :
    (a b c : ℕ) (inst : Inst) (param : Param)
    → a ≢ b
    → a ≢ c
    → b ≢ c
    → access_all (a ∷ b ∷ a ∷ c ∷ []) inst (empty_line ∷ empty_line ∷ []) param
      ≡ some (held c 3 ∷ held b 2 ∷ [])
unfolding access_set search_step on_hit on_miss on_evict
access_all_drops_recent a b c inst param ab ac bc = ground arith
