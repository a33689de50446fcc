-- ===== src/Csim/Reuse.antt =====
-- What the cache remembers: a block that was just referenced hits, and what a full set drops.
use native.Mathlib.Nat
use mathlib.Core.Path.{subst}
use computer_systems_practic.Prelude.{
  ℕ, ◌+◌, ◌/◌, ◌%◌, ◌^◌, ◌≤◌, ◌<◌, ◌≡◌, ◌≢◌, refl, false, Option, some, arith, get_elem?,
  get_elem?-lt, get_elem?-set_self, set, length, All-get, ap, ◌∙◌, sym, pow-add,
}
use computer_systems_practic.Csim.{
  Set, Cache, Param, State, hit, Inst, execute_inst, set_index, tag_of,
}
use computer_systems_practic.Csim.Index.{Fits, set_index_lem}
use computer_systems_practic.Csim.Scan.{matches, Holds}
use computer_systems_practic.Csim.Shape.{
  Access, touches, fills, evicts, access_set-Access, fresh_line,
}
use computer_systems_practic.Csim.Invariant.{
  IsCache, IsGoodSet, SameGeometry, execute_inst-access_set, access_set-KeepsSet,
}
use computer_systems_practic.Csim.Counts.{indexed_set}

-- Two addresses of one block.
abbrev pub SameBlock : Param → ℕ → ℕ → Type 0
SameBlock param a a' = a / 2 ^ param.b ≡ a' / 2 ^ param.b

module _ (param : Param) (a a' : ℕ) (same : SameBlock param a a') where
  SameBlock-tag : tag_of param a ≡ tag_of param a'
  unfolding tag_of
  SameBlock-tag =
      let split : (x : ℕ) → x / 2 ^ (param.s + param.b) ≡ x / 2 ^ param.b / 2 ^ param.s = λ x.
        rw (Nat.add_comm param.s param.b, pow-add param.b param.s)
          (sym (Nat.div-div-eq-div-mul x (2 ^ param.b) (2 ^ param.s))) in
      split a ∙ ap (λ (t : ℕ). t / 2 ^ param.s) same ∙ sym (split a')

  SameBlock-set_index : Fits param → set_index param a ≡ set_index param a'
  SameBlock-set_index fits =
      set_index_lem param a fits
      ∙ ap (λ (t : ℕ). t % 2 ^ param.s) same
      ∙ sym (set_index_lem param a' fits)

-- After an access the block is in the set.
Access-Holds :
    {tag : ℕ} {inst : Inst} {ls ls' : Set} {param param' : Param} {state : State}
    (r : Option (Set × Param × State)) (lines : ℕ)
    → Access tag inst ls param r
    → IsGoodSet lines ls
    → r ≡ some (ls', param', state)
    → (k : ℕ) × Holds tag ls' k
Access-Holds {tag} {ls} r lines (touches k h e) good e' =
    subst (λ s. (j : ℕ) × Holds tag s j) (cc)
      (
        k,
        record {
          line = record (h.line) { accessed = h.line.accessed + 1 };
          at = get_elem?-set_self ls k _ (get_elem?-lt ls k h.at);
          matched = h.matched;
        },
      )
Access-Holds {tag} {ls} r lines (fills n k old at z first m top at_top e) good e' =
    subst (λ s. (j : ℕ) × Holds tag s j) (cc)
      (
        k,
        record {
          line = fresh_line tag m;
          at = get_elem?-set_self ls k _ (get_elem?-lt ls k at);
          matched = ground arith;
        },
      )
Access-Holds {tag} {ls} r lines (evicts n full k old at least first m top at_top e) good e' =
    let one : old.valid ≡ 1 = omega (
      arith,
      All-get (λ l. l.valid ≢ 0) ls k full at,
      All-get (λ l. l.valid ≤ 1) ls k good.flags at,
    ) in
    subst (λ s. (j : ℕ) × Holds tag s j) (cc)
      (
        k,
        record {
          line = record old { tag = tag; accessed = m + 1 };
          at = get_elem?-set_self ls k _ (get_elem?-lt ls k at);
          matched = ground arith;
        },
      )

-- An access to a block that the set holds is a hit.
Holds-hit :
    {tag k : ℕ} {inst : Inst} {ls : Set} {param : Param} (r : Option (Set × Param × State))
    → Access tag inst ls param r
    → Holds tag ls k
    → (ls' : Set) × (param' : Param) × (r ≡ some (ls', param', hit))
      × (param'.misses ≡ param.misses)
      × (param'.evicts ≡ param.evicts)
Holds-hit r (touches k h e) held = (_, _, e, refl, refl)
Holds-hit {tag} {k} {ls} r (fills n j old at z first m top at_top e) held =
    cc (held.matched, All-get (λ l. matches tag l ≡ false) ls k n held.at)
Holds-hit {tag} {k} {ls} r (evicts n full j old at least first m top at_top e) held =
    cc (held.matched, All-get (λ l. matches tag l ≡ false) ls k n held.at)

-- The geometry alone decides the set and the tag.
module _ {p q : Param} (same : SameGeometry p q) (addr : ℕ) where
  SameGeometry-set_index : set_index q addr ≡ set_index p addr
  unfolding set_index
  SameGeometry-set_index = rw (same.same_s, same.same_b)

  SameGeometry-tag : tag_of q addr ≡ tag_of p addr
  unfolding tag_of
  SameGeometry-tag = rw (same.same_s, same.same_b)

-- `executeInst` hits when the set of the address holds its block.
execute_inst-hit :
    (cache : Cache) (inst : Inst) (param : Param) (ls : Set) {k : ℕ}
    → get_elem? cache (set_index param inst.addr) ≡ some ls
    → Holds (tag_of param inst.addr) ls k
    → (cache' : Cache) × (param' : Param) × (execute_inst cache inst param
        ≡ some (cache', param', hit))
      × (param'.misses ≡ param.misses)
      × (param'.evicts ≡ param.evicts)
execute_inst-hit cache inst param ls at held =
    let lines : 0 < length ls = omega (arith, get_elem?-lt ls _ held.at) in
    let (ls', param', e, m, v) =
      Holds-hit _ (access_set-Access (tag_of param inst.addr) inst ls param lines) held in
    (_, param', execute_inst-access_set cache inst param at e, m, v)

-- With at least one line in a set, 0 < s < 32 and s + b < 64: when `executeInst` has served a
-- reference on a well-formed cache, a second reference to the same block is a hit that adds no miss
-- and no eviction.
pub execute_inst_again :
    (cache : Cache) (inst inst' : Inst) (param : Param) {cache1 : Cache} {param1 : Param}
    {state : State}
    → 0 < param.lines
    → Fits param
    → IsCache param cache
    → SameBlock param inst.addr inst'.addr
    → execute_inst cache inst param ≡ some (cache1, param1, state)
    → (cache2 : Cache) × (param2 : Param) × (execute_inst cache1 inst' param1
        ≡ some (cache2, param2, hit))
      × (param2.misses ≡ param1.misses)
      × (param2.evicts ≡ param1.evicts)
execute_inst_again cache inst inst' param {cache1} {param1} pos fits c same run =
    let i = set_index param inst.addr in
    let (ls, at, good) = indexed_set cache inst param pos fits c in
    let tag = tag_of param inst.addr in
    let (ls', param', state', e, good', geo) = access_set-KeepsSet tag inst ls param good pos in
    let (k, held) =
      Access-Holds _ param.lines (access_set-Access tag inst ls param (rw (good.size) pos)) good
        e in
    let run' = execute_inst-access_set cache inst param at e in
    let same_param : param' ≡ param1 = cc in
    let same_cache : set cache i ls' ≡ cache1 = cc in
    let geo1 : SameGeometry param param1 = subst (SameGeometry param) same_param geo in
    let same_index : set_index param1 inst'.addr ≡ i =
      SameGeometry-set_index geo1 inst'.addr
      ∙ sym (SameBlock-set_index param inst.addr inst'.addr same fits) in
    let same_tag : tag ≡ tag_of param1 inst'.addr =
      SameBlock-tag param inst.addr inst'.addr same ∙ sym (SameGeometry-tag geo1 inst'.addr) in
    execute_inst-hit cache1 inst' param1 ls'
      (rw same_index (
        subst (λ s. get_elem? s i ≡ some ls') same_cache
          (get_elem?-set_self cache i ls' (get_elem?-lt cache i at))))
      (subst (λ t. Holds t ls' k) same_tag held)
