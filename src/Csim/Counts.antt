-- ===== src/Csim/Counts.antt =====
-- The counters of csim.c over a whole trace.
use computer_systems_practic.Prelude.{
  ℕ, ◌+◌, ◌≤◌, ◌<◌, ◌≡◌, refl, true, Option, some, List, [], ◌∷◌, arith, ◌==◌, inl, inr, Bool-cases,
  if◌then◌else◌, get_elem?, get_elem?-some, All-get, ◌∙◌,
}
use mathlib.Core.Path.{subst}
use computer_systems_practic.Csim.{
  Set, Cache, Param, State, Inst, is_modify, execute_inst, run_trace, create_cache, set_index,
  tag_of,
}
use computer_systems_practic.Csim.Shape.{Access, touches, fills, evicts, access_set-Access}
use computer_systems_practic.Csim.Invariant.{
  Fits-same, IsCache, SameGeometry, execute_inst-IsCache, create_cache-IsCache, IsGoodSet,
  execute_inst-access_set,
}
use computer_systems_practic.Csim.Index.{Fits, set_index-lt}

-- A modify is a load and a store.
abbrev pub weight : Inst → ℕ
weight inst = if is_modify inst then 2 else 1

-- The references of a trace: its lines that begin with a space.
abbrev pub references : (scan : List ℕ → Inst) → List (List ℕ) → ℕ
references scan [] = 0
references scan ([] ∷ rest) = references scan rest
references scan ((c ∷ line) ∷ rest) =
    let n = references scan rest in if c == b' ' then weight (scan (c ∷ line)) + n else n

-- How the counters move by n references.
pub record Counted (n : ℕ) (p q : Param) : Type 0 where
  pub total : q.hits + q.misses ≡ p.hits + p.misses + n
  pub evicted : q.evicts + p.misses ≤ p.evicts + q.misses

Access-Counted :
    {tag : ℕ} {inst : Inst} {ls : Set} {param : Param} (r : Option (Set × Param × State))
    → Access tag inst ls param r
    → (ls' : Set) × (param' : Param) × (state : State) × (r ≡ some (ls', param', state))
      × Counted (weight inst) param param'
Access-Counted {inst} r (touches k h e) = (_, _, _, e, ground arith)
Access-Counted {inst} r (fills n k old at z first m top at_top e) = (_, _, _, e, ground arith)
Access-Counted {inst} r (evicts n full k old at least first m top at_top e) =
    (_, _, _, e, ground arith)

-- The set that an access reads, when the cache is well formed.
pub indexed_set :
    (cache : Cache) (inst : Inst) (param : Param)
    → 0 < param.lines
    → Fits param
    → IsCache param cache
    → (ls : Set) × (get_elem? cache (set_index param inst.addr) ≡ some ls)
      × IsGoodSet param.lines ls
indexed_set cache inst param pos fits c =
    let (ls, at) =
      get_elem?-some cache (set_index param inst.addr)
        (rw (c.sets) (set_index-lt param inst.addr fits)) in
    (ls, at, All-get (IsGoodSet param.lines) cache _ c.good at)

execute_inst-Counted :
    (cache : Cache) (inst : Inst) (param : Param) {cache' : Cache} {param' : Param} {state : State}
    → 0 < param.lines
    → Fits param
    → IsCache param cache
    → execute_inst cache inst param ≡ some (cache', param', state)
    → Counted (weight inst) param param'
execute_inst-Counted cache inst param {param'} pos fits c run =
    let (ls, at, good) = indexed_set cache inst param pos fits c in
    let (ls', param1, state1, e, counted) =
      Access-Counted _
        (access_set-Access (tag_of param inst.addr) inst ls param (rw (good.size) pos)) in
    let same : param1 ≡ param' = cc (execute_inst-access_set cache inst param at e) in
    subst (Counted (weight inst) param) same counted

Counted-trans :
    {m n k : ℕ} {p q r : Param} → Counted m p q → Counted n q r → k ≡ m + n → Counted k p r
Counted-trans a b e = omega arith

-- The replay of a trace from a well-formed cache ends, and accounts for every reference.
abbrev pub Replayed : ℕ → Param → Option (Cache × Param) → Type 0
Replayed n param r =
    (cache' : Cache) × (param' : Param) × (r ≡ some (cache', param'))
    × IsCache param' cache'
    × SameGeometry param param'
    × Counted n param param'

SameGeometry-trans : {p q r : Param} → SameGeometry p q → SameGeometry q r → SameGeometry p r
SameGeometry-trans a b = omega arith

module _ (scan : List ℕ → Inst) where
  -- One round of the loop on a reference.
  run_trace_reference :
      (x : ℕ) (line : List ℕ) (rest : List (List ℕ)) (cache : Cache) (param : Param)
      {cache' : Cache} {param' : Param} {state : State}
      → (x == b' ') ≡ true
      → execute_inst cache (scan (x ∷ line)) param ≡ some (cache', param', state)
      → run_trace scan ((x ∷ line) ∷ rest) cache param ≡ run_trace scan rest cache' param'
  unfolding run_trace
  run_trace_reference x line rest cache param h e = rw (h, run_trace) (rw e)

  pub run_trace-Replayed :
      (trace : List (List ℕ)) (cache : Cache) (param : Param)
      → 0 < param.lines
      → Fits param
      → IsCache param cache
      → Replayed (references scan trace) param (run_trace scan trace cache param)
  unfolding run_trace
  run_trace-Replayed [] cache param pos fits c = (cache, param, refl, c, omega arith, omega arith)
  run_trace-Replayed ([] ∷ rest) cache param pos fits c =
      run_trace-Replayed rest cache param pos fits c
  run_trace-Replayed ((x ∷ line) ∷ rest) cache param pos fits c = elim (Bool-cases (x == b' ')) [
    | inr other ↦ rw (other, run_trace) (run_trace-Replayed rest cache param pos fits c)
    | inl reference ↦
        let inst = scan (x ∷ line) in
        let (cache1, param1, state, e, c1, same) =
          execute_inst-IsCache cache inst param pos fits c in
        let (cache2, param2, e2, c2, same2, counted2) =
          run_trace-Replayed rest cache1 param1 (rw (same.same_lines) pos) (Fits-same same fits)
            c1 in
        rw reference (
          cache2,
          param2,
          run_trace_reference x line rest cache param reference e ∙ e2,
          c2,
          SameGeometry-trans same same2,
          Counted-trans (execute_inst-Counted cache inst param pos fits c e) counted2 refl,
        )
  ]

  -- A whole run of the simulator: the cache of `createCache`, counters at 0, any trace, at least one
  -- line in a set, 0 < s < 32 and s + b < 64. It reads inside its arrays throughout, hits and misses add up to the references (a modify counts
  -- twice), and there are at most as many evictions as misses.
  pub run_trace_total :
      (trace : List (List ℕ)) (param : Param)
      → 0 < param.lines
      → Fits param
      → param.hits ≡ 0
      → param.misses ≡ 0
      → param.evicts ≡ 0
      → (cache' : Cache) × (param' : Param) × (run_trace scan trace (create_cache param) param
          ≡ some (cache', param'))
        × (param'.hits + param'.misses ≡ references scan trace)
        × (param'.evicts ≤ param'.misses)
  run_trace_total trace param pos fits h m e =
      let (cache', param', run, c, same, counted) =
        run_trace-Replayed trace (create_cache param) param pos fits
          (create_cache-IsCache param fits) in
      (cache', param', run, omega arith, omega arith)
