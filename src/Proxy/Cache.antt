-- ===== src/Proxy/Cache.antt =====
-- The cache of web objects, proxy lab/proxylab-handout/cache.c, without its locks. `Malloc` returns an
-- address that was not used before.
pub mod Chain
pub mod Unlink
pub mod Writes
pub mod Kept
pub mod Remove
pub mod Sizes
pub mod Free
pub mod Hit
pub mod Evict
pub mod Add
pub mod Lookup
pub mod Stale
mod Tests
use computer_systems_practic.Prelude.{
  ℕ, zero, suc, ◌+◌, ◌-◌, ◌%◌, ◌^◌, Bool, true, false, ◌&&◌, Option, none, some, List, [], ◌∷◌,
  ◌==◌, ltb, leb, if◌then◌else◌, str_beq, length,
}
use computer_systems_practic.Proxy.Request.{max_object_size}

-- A pointer to a line; NULL is none.
abbrev pub Ptr : Type 0
Ptr = Option ℕ

pub record CacheLine : Type 0 where
  pub prev : Ptr
  pub next : Ptr
  pub tag : List ℕ
  pub object : List ℕ
  pub length : ℕ

abbrev pub max_cache_size : ℕ
max_cache_size = 1049000

abbrev pub max_line : ℕ
max_line = 8192

-- The globals, the lines in memory by their address, and the address that `Malloc` returns next. An
-- address that was never allocated or is freed has no line.
pub record Cache : Type 0 where
  pub c_head : Ptr
  pub c_tail : Ptr
  pub remain_size : ℕ
  pub lines : ℕ → Option CacheLine
  pub next_free : ℕ

unfoldable pub init_cache : Cache → Cache
init_cache c = record c { c_head = none; c_tail = none; remain_size = max_cache_size }

abbrev pub is_ptr : Ptr → ℕ → Bool
is_ptr none a = false
is_ptr (some b) a = b == a

abbrev pub store : Cache → ℕ → Option CacheLine → Cache
store c a l = record c { lines = λ x. if x == a then l else c.lines x }

-- a->next = p and a->prev = p; `none` is an access to memory that holds no line.
unfoldable pub set_next : ℕ → Ptr → Cache → Option Cache
set_next a p c = elim (c.lines a) [
  | none ↦ none
  | some l ↦ some (store c a (some (record l { next = p })))
]

unfoldable pub set_prev : ℕ → Ptr → Cache → Option Cache
set_prev a p c = elim (c.lines a) [
  | none ↦ none
  | some l ↦ some (store c a (some (record l { prev = p })))
]

unfoldable pub insert_cache_line : ℕ → Cache → Option Cache
unfolding set_next set_prev
insert_cache_line target c = elim (c.c_head) [
  | none ↦ some (record c { c_head = some target; c_tail = some target })
  | some h ↦ elim (set_next target (some h) c) [
    | none ↦ none
    | some c1 ↦ elim (set_prev h (some target) c1) [
      | none ↦ none
      | some c2 ↦ some (record c2 { c_head = some target })
    ]
  ]
]

-- if (target->prev) target->prev->next = target->next; and the converse.
unfoldable pub unlink_prev : ℕ → Cache → Option Cache
unfolding set_next
unlink_prev target c = elim (c.lines target) [
  | none ↦ none
  | some l ↦ elim (l.prev) [ none ↦ some c | some p ↦ set_next p l.next c ]
]

unfoldable pub unlink_next : ℕ → Cache → Option Cache
unfolding set_prev
unlink_next target c = elim (c.lines target) [
  | none ↦ none
  | some l ↦ elim (l.next) [ none ↦ some c | some n ↦ set_prev n l.prev c ]
]

unfoldable pub remove_cache_line : ℕ → Cache → Option Cache
unfolding unlink_prev unlink_next
remove_cache_line target c = elim (c.lines target) [
  | none ↦ none
  | some l ↦
      let c1 = if is_ptr c.c_head target then record c { c_head = l.next } else c in
      let c2 = if is_ptr c1.c_tail target then record c1 { c_tail = l.prev } else c1 in
      elim (unlink_prev target c2) [ none ↦ none | some c3 ↦ unlink_next target c3 ]
]

-- How a walk through the list ends.
pub data Walk : Type 0 where
  found : ℕ → Walk
  absent : Walk
  bad_access : Walk
  out_of_fuel : Walk

-- The search loop of `get_object`, for a number of rounds.
unfoldable pub find_line : ℕ → List ℕ → Ptr → Cache → Walk
find_line fuel uri none c = absent
find_line zero uri (some a) c = out_of_fuel
find_line (suc fuel) uri (some a) c = elim (c.lines a) [
  | none ↦ bad_access
  | some l ↦ let rest = find_line fuel uri l.next c in if str_beq l.tag uri then found a else rest
]

-- What an operation with a loop returns: a result with the new state, an access to memory that holds
-- no line or that is past the end of an array, or no result within the rounds that it was given.
pub data Outcome : Type 0 where
  returned : Ptr → Cache → Outcome
  crashed : Outcome
  running : Outcome

abbrev pub move_to_head : ℕ → Cache → Outcome
move_to_head a c = elim (remove_cache_line a c) [
  | none ↦ crashed
  | some c1 ↦ elim (insert_cache_line a c1) [ none ↦ crashed | some c2 ↦ returned (some a) c2 ]
]

unfoldable pub get_object : ℕ → List ℕ → Cache → Outcome
unfolding find_line remove_cache_line insert_cache_line
get_object fuel uri c = elim (find_line fuel uri c.c_head c) [
  | absent ↦ returned none c
  | found a ↦ move_to_head a c
  | bad_access ↦ crashed
  | out_of_fuel ↦ running
]

unfoldable pub free_cache_line : ℕ → Cache → Cache
free_cache_line a c = store c a none

-- One round of `evict_cache_line`: the length of the line that is removed and freed.
unfoldable pub evict_one : ℕ → Cache → Option (ℕ × Cache)
unfolding remove_cache_line free_cache_line
evict_one a c = elim (c.lines a) [
  | none ↦ none
  | some l ↦ elim (remove_cache_line a c) [
    | none ↦ none
    | some c1 ↦ some (l.length, free_cache_line a c1)
  ]
]

-- Its loop, with `temp_size`, an unsigned int; sizes are not negative. One round, and `next` for the
-- rounds after it.
unfoldable pub evict_round : (next : ℕ → Cache → Outcome) → (size temp_size : ℕ) → Cache → Outcome
unfolding evict_one
evict_round next size temp_size c = elim (c.c_tail) [
  | none ↦ returned none (record c { remain_size = temp_size })
  | some a ↦ elim (ltb temp_size size) [
    | false ↦ returned none (record c { remain_size = temp_size })
    | true ↦ elim (evict_one a c) [
      | none ↦ crashed
      | some (length, c1) ↦ next ((temp_size + length) % 2 ^ 32) c1
    ]
  ]
]

unfoldable pub evict_lines : ℕ → (size temp_size : ℕ) → Cache → Outcome
unfolding evict_round
evict_lines zero size temp_size c = evict_round (λ t c'. running) size temp_size c
evict_lines (suc fuel) size temp_size c = evict_round (evict_lines fuel size) size temp_size c

-- strncpy(dst, src, n): at most n characters of src, and zeros from the first zero on.
unfoldable pub strncpy : ℕ → List ℕ → List ℕ
strncpy zero src = []
strncpy (suc n) [] = 0 ∷ strncpy n []
strncpy (suc n) (x ∷ src) =
    let stop = 0 ∷ strncpy n [] in let go = x ∷ strncpy n src in if x == 0 then stop else go

-- The array for the tag has MAXLINE characters, which is csapp.h's, and the one for the object
-- MAX_OBJECT_SIZE: is there room for the uri with its NUL, and for as many characters as the length?
abbrev pub fits_line : (uri : List ℕ) → (size : ℕ) → Bool
fits_line uri size = ltb (length uri) max_line && leb size max_object_size

-- The line that `add_object` fills in where it fits, and its last two steps.
abbrev pub new_line : (uri object : List ℕ) → (length : ℕ) → CacheLine
new_line uri object length = record {
  prev = none;
  next = none;
  tag = uri;
  object = strncpy length object;
  length = length;
}

abbrev pub place_line : (length target : ℕ) → Outcome → Outcome
place_line length target crashed = crashed
place_line length target running = running
place_line length target (returned p c) =
    elim (insert_cache_line target
      (record c { remain_size = (c.remain_size + 2 ^ 32 - length) % 2 ^ 32 })) [
        | none ↦ crashed
        | some c1 ↦ returned none c1
      ]

-- From the filled line on.
unfoldable pub add_line : ℕ → (uri object : List ℕ) → (length : ℕ) → Cache → Outcome
unfolding strncpy insert_cache_line evict_lines
add_line fuel uri object length c =
    let target = c.next_free in
    let c1 = record (store c target (some (new_line uri object length))) {
      next_free = target + 1;
    } in
    let evicted =
      if ltb c1.remain_size length
      then evict_lines fuel length c1.remain_size c1
      else returned none c1 in
    place_line length target evicted

-- `crashed` is a write past the end of the tag or of the object.
unfoldable pub add_object : ℕ → (uri object : List ℕ) → (length : ℕ) → Cache → Outcome
unfolding add_line
add_object fuel uri object length c =
    if fits_line uri length then add_line fuel uri object length c else crashed

-- `free_cache`: head by head, for a number of rounds.
unfoldable pub free_lines : ℕ → Ptr → Cache → Outcome
unfolding free_cache_line
free_lines fuel none c = returned none (record c { c_tail = none })
free_lines zero (some a) c = running
free_lines (suc fuel) (some a) c = elim (c.lines a) [
  | none ↦ crashed
  | some l ↦ free_lines fuel l.next (free_cache_line a (record c { c_head = l.next }))
]

unfoldable pub free_cache : ℕ → Cache → Outcome
unfolding free_lines
free_cache fuel c = free_lines fuel c.c_head c
