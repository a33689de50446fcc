-- ===== src/Csim/Shape.antt =====
-- The three ways in which `executeInst` treats a set, and the shape of the cache.
use computer_systems_practic.Prelude.{
  ℕ, ◌+◌, ◌≤◌, ◌<◌, ◌≡◌, refl, ◌≢◌, inl, inr, true, false, Option, some, [], ◌∷◌, arith, Bool-cases,
  length, get_elem?, set, All, if◌then◌else◌, sym,
}
use mathlib.Core.Path.{subst}
use computer_systems_practic.Csim.{
  Line, Set, Param, State, miss, hit, miss_evict, miss_hit, miss_evict_hit, Inst, Search, Found,
  hit_at, no_hit, is_modify, on_hit, on_miss, on_evict, access_set,
}
use computer_systems_practic.Csim.Scan.{
  Holds, NoMatch, Before, Marked, Searched, Outcome, search_lines-Outcome,
}

-- The line written for a block on a miss.
abbrev pub fresh_line : ℕ → ℕ → Line
fresh_line tag m = record { valid = 1; tag = tag; accessed = m + 1 }

-- How an access to the block `tag` changes the set ls: a line that holds the block is marked once
-- more; or the block goes into the first empty line; or, if no line is empty, over the first line that
-- has the least mark. A line that is filled gets a mark one above the greatest.
pub data Access (tag : ℕ) (inst : Inst) (ls : Set) (param : Param)
    (r : Option (Set × Param × State)) : Type 0 where
  touches :
      (k : ℕ) (h : Holds tag ls k)
      → r
        ≡ some (
          set ls k (record (h.line) { accessed = h.line.accessed + 1 }),
          record param { hits = if is_modify inst then param.hits + 2 else param.hits + 1 },
          hit,
        )
      → Access tag inst ls param r
  fills :
      NoMatch tag ls
      → (k : ℕ) (old : Line) → get_elem? ls k ≡ some old
      → old.valid ≡ 0
      → Before (λ l. l.valid ≢ 0) ls k
      → (m : ℕ) → All (λ l. l.accessed ≤ m) ls
      → Marked m ls
      → r
        ≡ some (
          set ls k (fresh_line tag m),
          record param {
            hits = if is_modify inst then param.hits + 1 else param.hits;
            misses = param.misses + 1;
          },
          if is_modify inst then miss_hit else miss,
        )
      → Access tag inst ls param r
  evicts :
      NoMatch tag ls
      → All (λ l. l.valid ≢ 0) ls
      → (k : ℕ) (old : Line) → get_elem? ls k ≡ some old
      → All (λ l. old.accessed ≤ l.accessed) ls
      → Before (λ l. old.accessed < l.accessed) ls k
      → (m : ℕ) → All (λ l. l.accessed ≤ m) ls
      → Marked m ls
      → r
        ≡ some (
          set ls k (record old { tag = tag; accessed = m + 1 }),
          record param {
            hits = if is_modify inst then param.hits + 1 else param.hits;
            misses = param.misses + 1;
            evicts = param.evicts + 1;
          },
          if is_modify inst then miss_evict_hit else miss_evict,
        )
      → Access tag inst ls param r

abbrev start_search : Line → Search
start_search l = record {
  full = true;
  empty_idx = 0;
  evict_idx = 0;
  max_access = l.accessed;
  min_access = l.accessed;
}

module _ (tag : ℕ) (inst : Inst) (l : Line) (ls : Set) (param : Param) where
  -- The branch that follows the search.
  abbrev after : Found → Option (Set × Param × State)
  after f = elim f [
    | hit_at i ↦ on_hit i inst (l ∷ ls) param
    | no_hit st ↦
        if st.full then on_evict tag st inst (l ∷ ls) param else on_miss tag st inst (l ∷ ls) param
  ]

  -- The victim of the search is the first line of the set with the least mark.
  victim_line :
      (st : Search)
      → Searched tag 0 (start_search l) (l ∷ ls) st
      → (old : Line) × (get_elem? (l ∷ ls) st.evict_idx ≡ some old)
        × (old.accessed ≡ st.min_access)
        × Before (λ x. st.min_access < x.accessed) (l ∷ ls) st.evict_idx
  victim_line st s = elim (s.victim) [
    | inl (e, m) ↦ (l, rw e, sym m, rw e tt)
    | inr (k, old, e, g, m, less, first) ↦
        let e' : st.evict_idx ≡ k = omega arith in (old, rw e' g, m, rw e' first)
  ]

  -- The greatest mark of the search is that of a line.
  top_line :
      (st : Search) → Searched tag 0 (start_search l) (l ∷ ls) st → Marked st.max_access (l ∷ ls)
  top_line st s = elim (s.top) [ inl e ↦ (0, l, refl, sym e) | inr at ↦ at ]

  -- A set that the search calls full has no empty line; otherwise it names one.
  no_empty_line :
      (st : Search)
      → Searched tag 0 (start_search l) (l ∷ ls) st
      → st.full ≡ true
      → All (λ x. x.valid ≢ 0) (l ∷ ls)
  no_empty_line st s h = elim (s.empty) [
    | inl (f, e, a) ↦ a refl
    | inr (k, old, room, f, e, g, z, first) ↦ cc
  ]

  empty_line_at :
      (st : Search)
      → Searched tag 0 (start_search l) (l ∷ ls) st
      → st.full ≡ false
      → (old : Line) × (get_elem? (l ∷ ls) st.empty_idx ≡ some old)
        × (old.valid ≡ 0)
        × Before (λ x. x.valid ≢ 0) (l ∷ ls) st.empty_idx
  empty_line_at st s h = elim (s.empty) [
    | inl (f, e, a) ↦ cc
    | inr (k, old, room, f, e, g, z, first) ↦
        let e' : st.empty_idx ≡ k = omega arith in (old, rw e' g, z, rw e' first)
  ]

  no_hit-Access :
      (st : Search)
      → Searched tag 0 (start_search l) (l ∷ ls) st
      → Access tag inst (l ∷ ls) param (after (no_hit st))
  unfolding on_miss on_evict
  no_hit-Access st s = elim (Bool-cases st.full) [
    | inl full ↦
        let (old, g, m, first) = victim_line st s in
        simp full (
          evicts s.unmatched (no_empty_line st s full) st.evict_idx old g
            (subst (λ (n : ℕ). All (λ x. n ≤ x.accessed) (l ∷ ls)) (sym m) s.least)
            (subst (λ (n : ℕ). Before (λ x. n < x.accessed) (l ∷ ls) st.evict_idx) (sym m) first)
            st.max_access s.greatest (top_line st s) (rw (g, on_evict)))
    | inr room ↦
        let (old, g, z, first) = empty_line_at st s room in
        simp room (
          fills s.unmatched st.empty_idx old g z first st.max_access s.greatest (top_line st s)
            refl)
  ]

  after-Access :
      (f : Found)
      → Outcome tag 0 (start_search l) (l ∷ ls) f
      → Access tag inst (l ∷ ls) param (after f)
  unfolding on_hit
  after-Access (hit_at j) (k, e, h) =
      let e' : j ≡ k = omega arith in touches k h (rw e' (rw (h.at, on_hit)))
  after-Access (no_hit st) s = no_hit-Access st s

-- Every access to a set with a line is a hit on a line that holds the block, which is marked once more,
-- or, where no line holds it, a fill of the first empty line, or, where none is empty either, an
-- eviction of the first line with the least mark. The new mark is one more than the greatest,
-- and the counters and the state are those of a hit, a miss or an eviction, with a further hit for M.
pub access_set-Access :
    (tag : ℕ) (inst : Inst) (ls : Set) (param : Param)
    → 0 < length ls
    → Access tag inst ls param (access_set tag inst ls param)
unfolding access_set
access_set-Access tag inst [] param h = absurd (omega arith)
access_set-Access tag inst (l ∷ ls) param h =
    after-Access tag inst l ls param _
      (search_lines-Outcome tag 0 (start_search l) (l ∷ ls) (omega arith))
