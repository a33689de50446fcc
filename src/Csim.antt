-- ===== src/Csim.antt =====
-- The cache simulator, cache lab/cachelab-handout/csim.c.
-- A set is the list of its lines, a cache the list of its sets. The counters and the access marks
-- are C ints that the model does not bound: their overflow is undefined in C. `getopt`, `atoi` and
-- `sscanf` are the C library's, hence arguments.
pub mod Parse
pub mod Index
pub mod Scan
pub mod Shape
pub mod Invariant
pub mod Counts
pub mod Reuse
pub mod Recency
mod Tests
unfoldable pub use Parse.*
use computer_systems_practic.Prelude.{
  ℕ, zero, suc, ◌+◌, ◌-◌, ◌^◌, ◌/◌, ◌%◌, Bool, true, false, ◌&&◌, Option, none, some, List, [], ◌∷◌,
  ◌==◌, ltb, if◌then◌else◌, get_elem?, set, replicate, shl64, shr,
}

pub record Line : Type 0 where
  pub valid : ℕ
  pub tag : ℕ
  pub accessed : ℕ

abbrev pub Set : Type 0
Set = List Line

abbrev pub Cache : Type 0
Cache = List Set

pub data State : Type 0 where
  miss hit miss_evict miss_hit miss_evict_hit : State

-- The line that `createCache` writes, and the cache of 1 << s sets (an unsigned int) of E of them, where
-- malloc finds the memory. C does not define 1 << 31 on an int; it is 2 ^ 31 here, as gcc has it.
abbrev pub empty_line : Line
empty_line = record { valid = 0; tag = 0; accessed = 0 }

unfoldable pub create_cache : Param → Cache
create_cache param = replicate (2 ^ param.s % 2 ^ 32) (replicate param.lines empty_line)

-- What `sscanf` reads off a trace line; the size is not used.
pub record Inst : Type 0 where
  pub opt : ℕ
  pub addr : ℕ

-- tagBits, tag and setIdx of `executeInst`. C defines these shifts for counts below 64 only.
abbrev pub tag_bits : Param → ℕ
tag_bits param = 64 - param.s - param.b

unfoldable pub tag_of : Param → ℕ → ℕ
tag_of param addr = shr addr (param.s + param.b)

unfoldable pub set_index : Param → ℕ → ℕ
set_index param addr = shr (shl64 addr (tag_bits param)) (tag_bits param + param.b)

-- The variables of the search loop.
pub record Search : Type 0 where
  pub full : Bool
  pub empty_idx : ℕ
  pub evict_idx : ℕ
  pub max_access : ℕ
  pub min_access : ℕ

-- One round that is not a hit.
unfoldable pub search_step : ℕ → Line → Search → Search
search_step i l st =
    let st' =
      (if (l.valid == 0) && st.full then record st { full = false; empty_idx = i } else st) in
    if ltb l.accessed st'.min_access
    then record st' { min_access = l.accessed; evict_idx = i }
    else if ltb st'.max_access l.accessed
    then record st' { max_access = l.accessed }
    else st'

pub data Found : Type 0 where
  hit_at : ℕ → Found
  no_hit : Search → Found

-- The search loop from index i on.
pub search_lines : ℕ → ℕ → Search → Set → Found
search_lines tag i st [] = no_hit st
search_lines tag i st (l ∷ ls) =
    let rest = search_lines tag (i + 1) (search_step i l st) ls in
    if (l.valid == 1) && (l.tag == tag) then hit_at i else rest

abbrev pub is_modify : Inst → Bool
is_modify inst = inst.opt == b'M'

-- The three outcomes of `executeInst` on the current set: its new lines, the counters, the state.
unfoldable pub on_hit : ℕ → Inst → Set → Param → Option (Set × Param × State)
on_hit i inst ls param = elim (get_elem? ls i) [
  | none ↦ none
  | some l ↦ some (
    set ls i (record l { accessed = l.accessed + 1 }),
    record param { hits = if is_modify inst then param.hits + 2 else param.hits + 1 },
    hit,
  )
]

unfoldable pub on_miss : ℕ → Search → Inst → Set → Param → Option (Set × Param × State)
on_miss tag st inst ls param = some (
  set ls st.empty_idx (record { valid = 1; tag = tag; accessed = st.max_access + 1 }),
  record param {
    hits = if is_modify inst then param.hits + 1 else param.hits;
    misses = param.misses + 1;
  },
  if is_modify inst then miss_hit else miss,
)

unfoldable pub on_evict : ℕ → Search → Inst → Set → Param → Option (Set × Param × State)
on_evict tag st inst ls param = elim (get_elem? ls st.evict_idx) [
  | none ↦ none
  | some l ↦ some (
    set ls st.evict_idx (record l { tag = tag; accessed = st.max_access + 1 }),
    record param {
      hits = if is_modify inst then param.hits + 1 else param.hits;
      misses = param.misses + 1;
      evicts = param.evicts + 1;
    },
    if is_modify inst then miss_evict_hit else miss_evict,
  )
]

-- `none` is a read outside the set's lines: lines[0] of a set with no line.
unfoldable pub access_set : ℕ → Inst → Set → Param → Option (Set × Param × State)
unfolding search_lines
access_set tag inst [] param = none
access_set tag inst (l ∷ ls) param =
    let start : Search = record {
      full = true;
      empty_idx = 0;
      evict_idx = 0;
      max_access = l.accessed;
      min_access = l.accessed;
    } in
    elim (search_lines tag 0 start (l ∷ ls)) [
      | hit_at i ↦ on_hit i inst (l ∷ ls) param
      | no_hit st ↦
          if st.full
          then on_evict tag st inst (l ∷ ls) param
          else on_miss tag st inst (l ∷ ls) param
    ]

-- Put the new lines of the set back.
abbrev pub put_set : Cache → ℕ → Set × Param × State → Cache × Param × State
put_set cache i (ls, param, state) = (set cache i ls, param, state)

-- `none` is a read outside the cache.
unfoldable pub execute_inst : Cache → Inst → Param → Option (Cache × Param × State)
execute_inst cache inst param = elim (get_elem? cache (set_index param inst.addr)) [
  | none ↦ none
  | some ls ↦ elim (access_set (tag_of param inst.addr) inst ls param) [
    | none ↦ none
    | some r ↦ some (put_set cache (set_index param inst.addr) r)
  ]
]

-- The loop of `main` over the lines of the trace file; `scan` is the call of `sscanf`.
unfoldable pub run_trace :
    (scan : List ℕ → Inst) → List (List ℕ) → Cache → Param → Option (Cache × Param)
run_trace scan [] cache param = some (cache, param)
run_trace scan ([] ∷ rest) cache param = run_trace scan rest cache param
run_trace scan ((c ∷ line) ∷ rest) cache param = elim (c == b' ') [
  | false ↦ run_trace scan rest cache param
  | true ↦ elim (execute_inst cache (scan (c ∷ line)) param) [
    | none ↦ none
    | some (cache', param', state) ↦ run_trace scan rest cache' param'
  ]
]
