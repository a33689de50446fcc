-- ===== src/Csim/Invariant.antt =====
-- The well-formed cache of csim.c: its shape, and no block twice in a set.
use native.Mathlib.Nat
use computer_systems_practic.Prelude.{
  pow-lt, ◌%◌, ℕ, ◌^◌, ◌≤◌, ◌<◌, ◌≡◌, refl, ◌≢◌, inl, inr, false, Option, some, arith, length,
  get_elem?, get_elem?-some, get_elem?-set_cases, set, length-set, All, All-get, All-set, replicate,
  All-replicate, length-replicate, ◌∙◌, sym,
}
use computer_systems_practic.Csim.{
  Line, Set, Cache, Param, State, Inst, access_set, execute_inst, set_index, tag_of, create_cache,
  empty_line,
}
use computer_systems_practic.Csim.Index.{Fits, set_index-lt}
use computer_systems_practic.Csim.Scan.{matches, Holds, NoMatch}
use computer_systems_practic.Csim.Shape.{Access, touches, fills, evicts, access_set-Access}

-- No two valid lines of a set hold the same block.
abbrev pub IsUnique : Set → Type 0
IsUnique ls =
    (j k : ℕ) (a b : Line)
    → get_elem? ls j ≡ some a
    → get_elem? ls k ≡ some b
    → a.valid ≡ 1
    → b.valid ≡ 1
    → a.tag ≡ b.tag
    → j ≡ k

pub record IsGoodSet (lines : ℕ) (ls : Set) : Type 0 where
  pub size : length ls ≡ lines
  pub flags : All (λ l. l.valid ≤ 1) ls
  pub unique : IsUnique ls

pub record IsCache (param : Param) (cache : Cache) : Type 0 where
  pub sets : length cache ≡ 2 ^ param.s
  pub good : All (IsGoodSet param.lines) cache

-- The geometry is that of the command line, and no operation changes it.
pub record SameGeometry (p q : Param) : Type 0 where
  pub same_s : q.s ≡ p.s
  pub same_lines : q.lines ≡ p.lines
  pub same_b : q.b ≡ p.b

pub Fits-same : {p q : Param} → SameGeometry p q → Fits p → Fits q
Fits-same {p} {q} same fits = record {
  s_pos = rw (same.same_s) (fits.s_pos);
  s_small = rw (same.same_s) (fits.s_small);
  below_64 = rw (same.same_s, same.same_b) (fits.below_64);
}

module _ (tag : ℕ) (ls : Set) (k : ℕ) where
  -- A write of a line for a block that no other line holds keeps the blocks apart.
  IsUnique-set :
      (x : Line)
      → ((j : ℕ) (a : Line) → get_elem? ls j ≡ some a → j ≢ k → a.valid ≡ 1 → a.tag ≢ x.tag)
      → IsUnique ls
      → IsUnique (set ls k x)
  IsUnique-set x apart u j n a b ga gb va vb e = elim (get_elem?-set_cases ls k j ga) [
    | inl (ja, ea) ↦ elim (get_elem?-set_cases ls k n gb) [
      | inl (jb, eb) ↦ ja ∙ sym jb
      | inr (nb, hb) ↦ absurd (apart n b hb nb vb (omega (arith, ap_tag ea)))
    ]
    | inr (na, ha) ↦ elim (get_elem?-set_cases ls k n gb) [
      | inl (jb, eb) ↦ absurd (apart j a ha na va (omega (arith, ap_tag eb)))
      | inr (nb, hb) ↦ u j n a b ha hb va vb e
    ]
  ]
    where
      ap_tag : {y : Line} → y ≡ x → y.tag ≡ x.tag
      ap_tag e i = (e i).tag

  NoMatch-apart :
      NoMatch tag ls
      → (j : ℕ) (a : Line) → get_elem? ls j ≡ some a
      → j ≢ k
      → a.valid ≡ 1
      → a.tag ≢ tag
  NoMatch-apart none_held j a g ne v e =
      let m : matches tag a ≡ false = All-get (λ l. matches tag l ≡ false) ls j none_held g in
      ground arith

-- The line that holds a block is the only one.
Holds-apart :
    {tag k : ℕ} (ls : Set) (h : Holds tag ls k)
    → IsUnique ls
    → (j : ℕ) (a : Line) → get_elem? ls j ≡ some a
    → j ≢ k
    → a.valid ≡ 1
    → a.tag ≢ h.line.tag
Holds-apart {k} ls h u j a g ne v e =
    let v' : h.line.valid ≡ 1 = ground (arith, h.matched) in ne (u j k a h.line g h.at v v' e)

-- The result keeps the set and the geometry.
abbrev pub KeepsSet : ℕ → Param → Option (Set × Param × State) → Type 0
KeepsSet lines param r =
    (ls' : Set) × (param' : Param) × (state : State) × (r ≡ some (ls', param', state))
    × IsGoodSet lines ls'
    × SameGeometry param param'

module _ {lines : ℕ} {ls : Set} (g : IsGoodSet lines ls) where
  set-IsGoodSet :
      (k : ℕ) (x : Line)
      → x.valid ≤ 1
      → ((j : ℕ) (a : Line) → get_elem? ls j ≡ some a → j ≢ k → a.valid ≡ 1 → a.tag ≢ x.tag)
      → IsGoodSet lines (set ls k x)
  set-IsGoodSet k x v apart = record {
    size = length-set ls k x ∙ g.size;
    flags = All-set (λ l. l.valid ≤ 1) ls k g.flags v;
    unique = IsUnique-set 0 ls k x apart g.unique;
  }

  Access-KeepsSet :
      {tag : ℕ} {inst : Inst} {param : Param} (r : Option (Set × Param × State))
      → Access tag inst ls param r
      → KeepsSet lines param r
  Access-KeepsSet r (touches k h e) = (
    _,
    _,
    _,
    e,
    set-IsGoodSet k _ (All-get (λ l. l.valid ≤ 1) ls k g.flags h.at) (Holds-apart ls h g.unique),
    record { same_s = refl; same_lines = refl; same_b = refl },
  )
  Access-KeepsSet {tag} r (fills none_held k old at z first m top at_top e) = (
    _,
    _,
    _,
    e,
    set-IsGoodSet k _ (omega arith) (NoMatch-apart tag ls k none_held),
    record { same_s = refl; same_lines = refl; same_b = refl },
  )
  Access-KeepsSet {tag} r (evicts none_held full k old at least first m top at_top e) = (
    _,
    _,
    _,
    e,
    set-IsGoodSet k _ (All-get (λ l. l.valid ≤ 1) ls k g.flags at)
        (NoMatch-apart tag ls k none_held),
    record { same_s = refl; same_lines = refl; same_b = refl },
  )

-- An access to a well-formed set with a line reads inside it and keeps it well formed.
pub access_set-KeepsSet :
    (tag : ℕ) (inst : Inst) (ls : Set) (param : Param)
    → IsGoodSet param.lines ls
    → 0 < param.lines
    → KeepsSet param.lines param (access_set tag inst ls param)
access_set-KeepsSet tag inst ls param good pos =
    Access-KeepsSet good _ (access_set-Access tag inst ls param (rw (good.size) pos))

-- The result keeps the cache and the geometry.
abbrev pub KeepsCache : Param → Option (Cache × Param × State) → Type 0
KeepsCache param r =
    (cache' : Cache) × (param' : Param) × (state : State) × (r ≡ some (cache', param', state))
    × IsCache param' cache'
    × SameGeometry param param'

-- `executeInst` through its access to the set.
pub execute_inst-access_set :
    (cache : Cache) (inst : Inst) (param : Param) {ls ls' : Set} {param' : Param} {state : State}
    → get_elem? cache (set_index param inst.addr) ≡ some ls
    → access_set (tag_of param inst.addr) inst ls param ≡ some (ls', param', state)
    → execute_inst cache inst param
      ≡ some (set cache (set_index param inst.addr) ls', param', state)
unfolding execute_inst
execute_inst-access_set cache inst param at e = rw (at, execute_inst) (rw e)

-- With at least one line in a set, 0 < s < 32 and s + b < 64, `executeInst` on a well-formed cache
-- reads inside the arrays and leaves a well-formed cache of the same geometry.
pub execute_inst-IsCache :
    (cache : Cache) (inst : Inst) (param : Param)
    → 0 < param.lines
    → Fits param
    → IsCache param cache
    → KeepsCache param (execute_inst cache inst param)
execute_inst-IsCache cache inst param pos fits c =
    let i = set_index param inst.addr in
    let in_range : i < length cache = rw (c.sets) (set_index-lt param inst.addr fits) in
    let (ls, at) = get_elem?-some cache i in_range in
    let good : IsGoodSet param.lines ls = All-get (IsGoodSet param.lines) cache i c.good at in
    let (ls', param', state, e, good', same) =
      access_set-KeepsSet (tag_of param inst.addr) inst ls param good pos in
    (
      set cache i ls',
      param',
      state,
      execute_inst-access_set cache inst param at e,
      record {
        sets = rw (length-set, same.same_s) (c.sets);
        good = rw (same.same_lines) (All-set (IsGoodSet param.lines) cache i c.good good');
      },
      same,
    )

-- `createCache` makes a well-formed cache.
pub create_cache-IsCache : (param : Param) → Fits param → IsCache param (create_cache param)
unfolding create_cache
create_cache-IsCache param fits = record {
  sets = length-replicate _ _ ∙ sets_fit;
  good = All-replicate (IsGoodSet param.lines) (2 ^ param.s % 2 ^ 32) (record {
    size = length-replicate param.lines empty_line;
    flags = All-replicate (λ l. l.valid ≤ 1) param.lines (omega arith);
    unique = λ j k a b ga gb va vb e. absurd (not_valid j a ga va);
  });
}
  where
    sets_fit : 2 ^ param.s % 2 ^ 32 ≡ 2 ^ param.s
    sets_fit = Nat.mod-eq_of_lt (pow-lt param.s 32 (fits.s_small))

    not_valid :
        (j : ℕ) (a : Line)
        → get_elem? (replicate param.lines empty_line) j ≡ some a
        → a.valid ≡ 1
        → ⊥
    not_valid j a ga va = omega (
      arith,
      All-get (λ l. l.valid ≡ 0) (replicate param.lines empty_line) j
          (All-replicate (λ l. l.valid ≡ 0) param.lines refl) ga,
    )
