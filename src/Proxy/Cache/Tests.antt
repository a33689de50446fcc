-- ===== src/Proxy/Cache/Tests.antt =====
-- Runs of the cache.
use computer_systems_practic.Prelude.{
  ℕ, ◌<◌, ◌⊎◌, ◌≤◌, Option, arith, ◌≡◌, refl, none, some, List, [], ◌∷◌, ◌==◌, if◌then◌else◌,
}
use computer_systems_practic.Proxy.Cache.Chain.{IsCache}
use computer_systems_practic.Proxy.Cache.Stale.{get_object_lost}
use computer_systems_practic.Proxy.Cache.Add.{Added, add_object-Added}
use computer_systems_practic.Proxy.Cache.Remove.{Kept, remove_cache_line-IsCache}
use computer_systems_practic.Proxy.Cache.Free.{Freed, free_cache-Freed}
use computer_systems_practic.Proxy.Cache.{
  free_cache, CacheLine, Ptr, Cache, Outcome, returned, crashed, running, add_object, add_line,
  max_line, get_object, new_line, find_line, remove_cache_line, insert_cache_line, set_next,
  set_prev, unlink_prev, unlink_next, strncpy,
}

abbrev and_then : Outcome → (Cache → Outcome) → Outcome
and_then crashed f = crashed
and_then running f = running
and_then (returned p c) f = f c

abbrev empty : Cache
empty = record {
  c_head = none;
  c_tail = none;
  remain_size = 1049000;
  lines = λ a. none;
  next_free = 0;
}

empty-IsCache : IsCache empty []
empty-IsCache = record { chain = refl; tail = refl; distinct = tt; allocated = tt }

abbrev a_object : List ℕ
a_object = b'x' ∷ []

abbrev with_two : Outcome
with_two =
    and_then (add_object 1 (b'a' ∷ []) a_object 1 empty) (add_object 1 (b'b' ∷ []) a_object 1)

abbrev result : Outcome → Ptr
result crashed = none
result running = none
result (returned p c) = p

hit_tail : result (and_then with_two (get_object 2 (b'a' ∷ []))) ≡ some 0
unfolding add_object add_line get_object find_line remove_cache_line insert_cache_line set_next
    set_prev unlink_prev unlink_next strncpy
hit_tail = refl

lost :
    and_then
      (and_then (and_then with_two (get_object 2 (b'a' ∷ []))) (get_object 2 (b'a' ∷ [])))
      (get_object 5 (b'c' ∷ []))
    ≡ running
unfolding add_object add_line get_object find_line remove_cache_line insert_cache_line set_next
    set_prev unlink_prev unlink_next strncpy
lost = refl

-- One line, with uri a.
abbrev one : Cache
one = record {
  c_head = some 0;
  c_tail = some 0;
  remain_size = 1048999;
  next_free = 1;
  lines = λ x. if x == 0 then some (new_line (b'a' ∷ []) a_object 1) else none;
}

one-IsCache : IsCache one (0 ∷ [])
one-IsCache = record {
  chain = (refl, new_line (b'a' ∷ []) a_object 1, refl, refl, refl);
  tail = refl;
  distinct = (tt, tt);
  allocated = (omega arith, tt);
}

-- The lines of the cache with b before a.
abbrev pair : ℕ → Option CacheLine
pair x =
    if x == 0
    then some
        (record { prev = some 1; next = none; tag = b'a' ∷ []; object = a_object; length = 1 })
    else if x == 1
    then some
        (record { prev = none; next = some 0; tag = b'b' ∷ []; object = a_object; length = 1 })
    else none

abbrev two : Cache
two = record { c_head = some 1; c_tail = some 0; remain_size = 9; lines = pair; next_free = 2 }

get_object_lost_example :
    (c1 : Cache) × (c2 : Cache) × (get_object 2 (b'a' ∷ []) two ≡ returned (some 0) c1)
    × (get_object 1 (b'a' ∷ []) c1 ≡ returned (some 0) c2)
    × ((fuel : ℕ) → get_object fuel (b'c' ∷ []) c2 ≡ running)
get_object_lost_example =
    get_object_lost 0 1 (omega arith) (b'a' ∷ []) (b'b' ∷ []) a_object a_object 1 1 9 2 pair
      (b'a' ∷ []) (b'c' ∷ []) refl refl refl refl refl refl

-- Two lines that leave little room.
abbrev first_line : CacheLine
first_line = record { prev = none; next = some 1; tag = b'a' ∷ []; object = []; length = 1048000 }

abbrev last_line : CacheLine
last_line = record { prev = some 0; next = none; tag = b'b' ∷ []; object = []; length = 900 }

abbrev full : Cache
full = record {
  c_head = some 0;
  c_tail = some 1;
  remain_size = 100;
  next_free = 2;
  lines = λ x. if x == 0 then some first_line else if x == 1 then some last_line else none;
}

full-IsCache : IsCache full (0 ∷ 1 ∷ [])
full-IsCache = record {
  chain = (refl, first_line, refl, refl, (refl, last_line, refl, refl, refl));
  tail = refl;
  distinct = ((omega arith, tt), (tt, tt));
  allocated = (omega arith, (omega arith, tt));
}

add_object-Added_example :
    (1 < max_line)
      × (1000 ≤ 102400)
      × ((kept : List ℕ) × (gone : List ℕ) × (c1 : Cache) × (add_object 2
              (b'c' ∷ [])
              a_object
              1000
              full
            ≡ returned none c1)
          × Added 2 (new_line (b'c' ∷ []) a_object 1000) full c1 (0 ∷ 1 ∷ []) kept gone)
    ⊎ ((max_line ≤ 1) ⊎ (102400 < 1000)) × (add_object 2 (b'c' ∷ []) a_object 1000 full ≡ crashed)
add_object-Added_example =
    add_object-Added 2 (b'c' ∷ []) a_object 1000 full (0 ∷ 1 ∷ []) full-IsCache refl (omega arith)

remove_cache_line-IsCache_example :
    (c1 : Cache) × (remove_cache_line 1 full ≡ some c1)
    × IsCache c1 (0 ∷ [])
    × Kept full c1 (0 ∷ 1 ∷ [])
    × (c1.lines 1 ≡ full.lines 1)
remove_cache_line-IsCache_example = remove_cache_line-IsCache 1 full (0 ∷ []) [] full-IsCache

free_cache-Freed_example :
    (c1 : Cache) × (free_cache 2 full ≡ returned none c1) × Freed full c1 (0 ∷ 1 ∷ [])
free_cache-Freed_example = free_cache-Freed 2 full (0 ∷ 1 ∷ []) full-IsCache (omega arith)
