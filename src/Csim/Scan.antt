-- ===== src/Csim/Scan.antt =====
-- What the search loop of `executeInst` computes over the lines of a set.
use computer_systems_practic.Prelude.{
  ℕ, zero, suc, ◌+◌, ◌≤◌, ◌<◌, ◌≡◌, refl, sym, ◌≢◌, ◌⊎◌, inl, inr, Bool, true, false, ◌&&◌, some,
  [], ◌∷◌, arith, ◌==◌, Bool-cases, get_elem?, All, ◌∙◌,
}
use computer_systems_practic.Csim.{
  Line, Set, Search, search_step, Found, hit_at, no_hit, search_lines,
}

abbrev pub matches : ℕ → Line → Bool
matches tag l = (l.valid == 1) && (l.tag == tag)

-- Every line before line k.
abbrev pub Before : (P : Line → Type 0) → Set → ℕ → Type 0
Before P [] k = Unit
Before P (l ∷ ls) zero = Unit
Before P (l ∷ ls) (suc k) = P l × Before P ls k

-- Line k of the set holds the block.
pub record Holds (tag : ℕ) (ls : Set) (k : ℕ) : Type 0 where
  pub line : Line
  pub at : get_elem? ls k ≡ some line
  pub matched : matches tag line ≡ true

abbrev pub NoMatch : ℕ → Set → Type 0
NoMatch tag ls = All (λ l. matches tag l ≡ false) ls

-- The victim is the start's, or the first line of the set with the least mark, if that is below the
-- start's.
abbrev Victim : ℕ → Search → Set → Search → Type 0
Victim i st ls st' =
    ((st'.evict_idx ≡ st.evict_idx) × (st'.min_access ≡ st.min_access))
    ⊎ ((k : ℕ) × (l : Line) × (st'.evict_idx ≡ i + k)
        × (get_elem? ls k ≡ some l)
        × (l.accessed ≡ st'.min_access)
        × (st'.min_access < st.min_access)
        × Before (λ x. st'.min_access < x.accessed) ls k)

-- A line of the set has the mark m.
abbrev pub Marked : ℕ → Set → Type 0
Marked m ls = (k : ℕ) × (l : Line) × (get_elem? ls k ≡ some l) × (l.accessed ≡ m)

-- The greatest mark is the start's, or one of a line of the set.
abbrev Top : Search → Set → Search → Type 0
Top st ls st' = (st'.max_access ≡ st.max_access) ⊎ Marked st'.max_access ls

-- The first empty line, if none was seen before.
abbrev Empty : ℕ → Search → Set → Search → Type 0
Empty i st ls st' =
    ((st'.full ≡ st.full)
      × (st'.empty_idx ≡ st.empty_idx)
      × (st.full ≡ true → All (λ l. l.valid ≢ 0) ls))
    ⊎ ((k : ℕ) × (l : Line) × (st.full ≡ true)
        × (st'.full ≡ false)
        × (st'.empty_idx ≡ i + k)
        × (get_elem? ls k ≡ some l)
        × (l.valid ≡ 0)
        × Before (λ x. x.valid ≢ 0) ls k)

-- The search variables after the lines ls, from st before them, at index i.
pub record Searched (tag i : ℕ) (st : Search) (ls : Set) (st' : Search) : Type 0 where
  pub unmatched : NoMatch tag ls
  pub least : All (λ l. st'.min_access ≤ l.accessed) ls
  pub min_le : st'.min_access ≤ st.min_access
  pub greatest : All (λ l. l.accessed ≤ st'.max_access) ls
  pub max_ge : st.max_access ≤ st'.max_access
  pub top : Top st ls st'
  pub victim : Victim i st ls st'
  pub empty : Empty i st ls st'

abbrev pub Outcome : ℕ → ℕ → Search → Set → Found → Type 0
Outcome tag i st ls (hit_at j) = (k : ℕ) × (j ≡ i + k) × Holds tag ls k
Outcome tag i st ls (no_hit st') = Searched tag i st ls st'

-- One round widens the range of marks.
step_bounds :
    (i : ℕ) (l : Line) (st : Search)
    → st.min_access ≤ st.max_access
    → let st' = search_step i l st in
      (st'.min_access ≤ st.min_access)
      × (st'.min_access ≤ l.accessed)
      × (st.max_access ≤ st'.max_access)
      × (l.accessed ≤ st'.max_access)
      × (st'.min_access ≤ st'.max_access)
unfolding search_step
step_bounds i l st h = ground arith

step_top :
    (i : ℕ) (l : Line) (st : Search)
    → let st' = search_step i l st in
      (st'.max_access ≡ st.max_access) ⊎ (l.accessed ≡ st'.max_access)
unfolding search_step
step_top i l st = ground arith

step_victim :
    (i : ℕ) (l : Line) (st : Search)
    → let st' = search_step i l st in
      ((st'.evict_idx ≡ st.evict_idx) × (st'.min_access ≡ st.min_access))
      ⊎ ((st'.evict_idx ≡ i) × (l.accessed ≡ st'.min_access) × (st'.min_access < st.min_access))
unfolding search_step
step_victim i l st = ground arith

step_empty :
    (i : ℕ) (l : Line) (st : Search)
    → let st' = search_step i l st in
      ((st'.full ≡ st.full) × (st'.empty_idx ≡ st.empty_idx) × (st.full ≡ true → l.valid ≢ 0))
      ⊎ ((st.full ≡ true) × (st'.full ≡ false) × (st'.empty_idx ≡ i) × (l.valid ≡ 0))
unfolding search_step
step_empty i l st = ground arith

-- Moving an index from the rest of the set to the whole.
Holds-suc : {tag k : ℕ} {l : Line} {ls : Set} → Holds tag ls k → Holds tag (l ∷ ls) (suc k)
Holds-suc h = record { line = h.line; at = h.at; matched = h.matched }

module _ (tag i : ℕ) (l : Line) (ls : Set) (st : Search) where
  Outcome-cons :
      (f : Found)
      → matches tag l ≡ false
      → st.min_access ≤ st.max_access
      → Outcome tag (i + 1) (search_step i l st) ls f
      → Outcome tag i st (l ∷ ls) f
  Outcome-cons (hit_at j) miss mm (k, e, h) = (suc k, omega arith, Holds-suc h)
  Outcome-cons (no_hit st') miss mm o = record {
    unmatched = (miss, o.unmatched);
    least = (omega (arith, bounds), o.least);
    min_le = omega (arith, bounds);
    greatest = (omega (arith, bounds), o.greatest);
    max_ge = omega (arith, bounds);
    top = top_of o.top (step_top i l st);
    victim = victim_of o.victim (step_victim i l st);
    empty = empty_of o.empty (step_empty i l st);
  }
    where
      bounds :
          let st1 = search_step i l st in
          (st1.min_access ≤ st.min_access)
          × (st1.min_access ≤ l.accessed)
          × (st.max_access ≤ st1.max_access)
          × (l.accessed ≤ st1.max_access)
          × (st1.min_access ≤ st1.max_access)
      bounds = step_bounds i l st mm

      top_of :
          Top (search_step i l st) ls st'
          → ((search_step i l st).max_access ≡ st.max_access)
            ⊎ (l.accessed ≡ (search_step i l st).max_access)
          → Top st (l ∷ ls) st'
      top_of (inr (k, x, g, m)) s = inr (suc k, x, g, m)
      top_of (inl e) (inl e') = inl (e ∙ e')
      top_of (inl e) (inr e') = inr (0, l, refl, omega arith)

      victim_of :
          Victim (i + 1) (search_step i l st) ls st'
          → ((search_step i l st).evict_idx ≡ st.evict_idx)
              × ((search_step i l st).min_access ≡ st.min_access)
            ⊎ ((search_step i l st).evict_idx ≡ i)
              × (l.accessed ≡ (search_step i l st).min_access)
              × ((search_step i l st).min_access < st.min_access)
          → Victim i st (l ∷ ls) st'
      victim_of (inr (k, x, e, g, m, less, first)) s =
          inr (suc k, x, omega arith, g, m, omega (arith, bounds), (omega (arith, bounds), first))
      victim_of (inl (e, m)) (inl (e', m')) = inl (e ∙ e', m ∙ m')
      victim_of (inl (e, m)) (inr (e', m', less)) =
          inr (0, l, omega arith, refl, omega arith, omega arith, tt)

      empty_of :
          Empty (i + 1) (search_step i l st) ls st'
          → ((search_step i l st).full ≡ st.full)
              × ((search_step i l st).empty_idx ≡ st.empty_idx)
              × (st.full ≡ true → l.valid ≢ 0)
            ⊎ (st.full ≡ true)
              × ((search_step i l st).full ≡ false)
              × ((search_step i l st).empty_idx ≡ i)
              × (l.valid ≡ 0)
          → Empty i st (l ∷ ls) st'
      empty_of (inr (k, x, room, f, e, g, z, first)) (inl (f', e', a')) =
          let was = sym f' ∙ room in inr (suc k, x, was, f, omega arith, g, z, (a' was, first))
      empty_of (inr (k, x, room, f, e, g, z, first)) (inr (was, f', e', z')) = cc
      empty_of (inl (f, e, a)) (inl (f', e', a')) = inl (f ∙ f', e ∙ e', λ h. (a' h, a (f' ∙ h)))
      empty_of (inl (f, e, a)) (inr (was, f', e', z)) =
          inr (0, l, was, f ∙ f', omega arith, refl, z, tt)

-- The loop returns a line that holds the block, or has seen that none does.
pub search_lines-Outcome :
    (tag i : ℕ) (st : Search) (ls : Set)
    → st.min_access ≤ st.max_access
    → Outcome tag i st ls (search_lines tag i st ls)
unfolding search_lines
search_lines-Outcome tag i st [] mm = record {
  unmatched = tt;
  least = tt;
  min_le = omega arith;
  greatest = tt;
  max_ge = omega arith;
  top = inl refl;
  victim = inl (refl, refl);
  empty = inl (refl, refl, λ h. tt);
}
search_lines-Outcome tag i st (l ∷ ls) mm = elim (Bool-cases (matches tag l)) [
  | inl yes_hit ↦ rw yes_hit (0, omega arith, record { line = l; at = refl; matched = yes_hit })
  | inr miss ↦ rw miss (
      Outcome-cons tag i l ls st _ miss mm
        (search_lines-Outcome tag (i + 1) (search_step i l st) ls (step_bounds i l st mm).4))
]
