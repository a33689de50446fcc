-- ===== src/Proxy/Threads.antt =====
-- The threads of proxy lab/proxylab-handout/proxy.c on the cache of cache.c, with its two locks. A
-- step of a thread is a call of the locks, the read of c_head before them, one line of the walk, one
-- round of the eviction, or the change of the list that a lock encloses. What a client's request
-- brings from its server is an argument.
pub mod Locks
pub mod Holders
pub mod Counts
pub mod Exclusion
pub mod Steady
pub mod Progress
pub mod Runs
pub mod GetAlone
pub mod AddAlone
pub mod Race
mod Tests
use computer_systems_practic.Prelude.{
  ℕ, suc, ◌+◌, ◌-◌, ◌%◌, ◌^◌, ◌≡◌, Bool, true, false, Option, none, some, List, [], ◌∷◌, ◌++◌, ltb,
  if◌then◌else◌, str_beq,
}
use computer_systems_practic.Proxy.Cache.{
  Ptr, CacheLine, Cache, store, remove_cache_line, insert_cache_line, fits_line, new_line,
  evict_one, returned, crashed, running, move_to_head,
}
use Locks.{RwLock}

-- Where a thread stands: before the named call or lines, with the locals that it still needs.
pub data Pc : Type 0 where
  lookup : (uri : List ℕ) → Pc
  rdlock_insert : (uri : List ℕ) → (cursor : Ptr) → Pc
  rdlock_update : (uri : List ℕ) → (cursor : Ptr) → Pc
  walk : (uri : List ℕ) → (cursor : Ptr) → Pc
  unlock_walk : (uri : List ℕ) → (cursor : Ptr) → Pc
  test_found : (uri : List ℕ) → (cursor : Ptr) → Pc
  move_up : (cursor : ℕ) → Pc
  unlock_update : (cursor : ℕ) → Pc
  unlock_insert : (cursor : ℕ) → Pc
  send : (cache_data : ℕ) → Pc
  fetch : (uri : List ℕ) → Pc
  wrlock_insert : (uri object : List ℕ) → (length : ℕ) → Pc
  fill : (uri object : List ℕ) → (length : ℕ) → Pc
  evict : (target length temp_size : ℕ) → Pc
  place : (target length : ℕ) → Pc
  unlock_added : Pc
  done : Pc

-- What the threads share.
pub record Shared (locks : RwLock) : Type 0 where
  pub cache : Cache
  pub insert_lock : locks.Lock
  pub update_lock : locks.Lock

-- A thread waits for a lock, accesses memory that holds no line or that is past the end of an array, is
-- at its end, or goes on.
pub data Turn (locks : RwLock) : Type 0 where
  blocked : Turn locks
  faults : Turn locks
  ended : Turn locks
  goes : Pc → Shared locks → Turn locks

module _ (locks : RwLock) where
  open locks use {Lock, rdlock, wrlock, unlock}

  -- The call of a lock, by what it gives.
  abbrev pub acquire_insert : Pc → Shared locks → Option Lock → Turn locks
  acquire_insert p m none = blocked
  acquire_insert p m (some l) = goes p (record m { insert_lock = l })

  abbrev pub acquire_update : Pc → Shared locks → Option Lock → Turn locks
  acquire_update p m none = blocked
  acquire_update p m (some l) = goes p (record m { update_lock = l })

  -- while (cursor != NULL) { if (strcmp(cursor->tag, uri) == 0) break; cursor = cursor->next; }
  abbrev pub walk_on : (uri : List ℕ) → ℕ → Shared locks → Option CacheLine → Turn locks
  walk_on uri a m none = faults
  walk_on uri a m (some l) =
      if str_beq l.tag uri then goes (unlock_walk uri (some a)) m else goes (walk uri l.next) m

  -- A change of the list by the thread that may change it.
  abbrev pub changed : Pc → Shared locks → Option Cache → Turn locks
  changed p m none = faults
  changed p m (some c) = goes p (record m { cache = c })

  abbrev pub moved : ℕ → Shared locks → Option Cache → Turn locks
  moved a m none = faults
  moved a m (some c) = changed (unlock_update a) m (insert_cache_line a c)

  -- A round of `evict_cache_line`, by what the tail is and by what the round gives.
  abbrev pub evicted :
      (target length temp_size : ℕ) → Shared locks → Option (ℕ × Cache) → Turn locks
  evicted target length temp_size m none = faults
  evicted target length temp_size m (some (n, c)) =
      goes (evict target length ((temp_size + n) % 2 ^ 32)) (record m { cache = c })

  abbrev pub evict_tail : (target length temp_size : ℕ) → Shared locks → Ptr → Turn locks
  evict_tail target length temp_size m none =
      goes (place target length) (record m { cache = record (m.cache) { remain_size = temp_size } })
  evict_tail target length temp_size m (some a) =
      if ltb temp_size length
      then evicted target length temp_size m (evict_one a m.cache)
      else goes (place target length)
          (record m { cache = record (m.cache) { remain_size = temp_size } })

  -- `forward_request` calls `add_object` or not.
  abbrev pub fetched : (uri : List ℕ) → Shared locks → Option (List ℕ × ℕ) → Turn locks
  fetched uri m none = goes done m
  fetched uri m (some (object, length)) = goes (wrlock_insert uri object length) m

  abbrev pub filled : (uri object : List ℕ) → (length : ℕ) → Cache → Cache
  filled uri object length c = record (store c c.next_free (some (new_line uri object length))) {
    next_free = c.next_free + 1;
  }

  abbrev pub after_fill : (uri object : List ℕ) → (length : ℕ) → Shared locks → Turn locks
  after_fill uri object length m =
      let m1 = record m { cache = filled uri object length m.cache } in
      if ltb m.cache.remain_size length
      then goes (evict m.cache.next_free length m.cache.remain_size) m1
      else goes (place m.cache.next_free length) m1

  module _ (server : List ℕ → Option (List ℕ × ℕ)) where
    unfoldable pub advance : Pc → Shared locks → Turn locks
    unfolding remove_cache_line insert_cache_line evict_one
    advance (lookup uri) m = goes (rdlock_insert uri m.cache.c_head) m
    advance (rdlock_insert uri cursor) m =
        acquire_insert (rdlock_update uri cursor) m (rdlock m.insert_lock)
    advance (rdlock_update uri cursor) m = acquire_update (walk uri cursor) m (rdlock m.update_lock)
    advance (walk uri none) m = goes (unlock_walk uri none) m
    advance (walk uri (some a)) m = walk_on uri a m (m.cache.lines a)
    advance (unlock_walk uri cursor) m =
        goes (test_found uri cursor) (record m { update_lock = unlock m.update_lock })
    advance (test_found uri none) m =
        goes (fetch uri) (record m { insert_lock = unlock m.insert_lock })
    advance (test_found uri (some a)) m = acquire_update (move_up a) m (wrlock m.update_lock)
    advance (move_up a) m = moved a m (remove_cache_line a m.cache)
    advance (unlock_update a) m =
        goes (unlock_insert a) (record m { update_lock = unlock m.update_lock })
    advance (unlock_insert a) m = goes (send a) (record m { insert_lock = unlock m.insert_lock })
    advance (send a) m = elim (m.cache.lines a) [ none ↦ faults | some l ↦ goes done m ]
    advance (fetch uri) m = fetched uri m (server uri)
    advance (wrlock_insert uri object length) m =
        acquire_insert (fill uri object length) m (wrlock m.insert_lock)
    advance (fill uri object length) m =
        if fits_line uri length then after_fill uri object length m else faults
    advance (evict target length temp_size) m = evict_tail target length temp_size m m.cache.c_tail
    advance (place target length) m = changed unlock_added m (
        insert_cache_line target
          (record (m.cache) { remain_size = (m.cache.remain_size + 2 ^ 32 - length) % 2 ^ 32 }))
    advance unlock_added m = goes done (record m { insert_lock = unlock m.insert_lock })
    advance done m = ended

  -- All threads, and what they share.
  pub record System : Type 0 where
    pub shared : Shared locks
    pub threads : List Pc

  module _ (server : List ℕ → Option (List ℕ × ℕ)) where
    -- One of the threads takes a step.
    pub data Step (s : System) : System → Type 0 where
      turn :
          (before after : List Pc) (p p' : Pc) (m : Shared locks)
          → s.threads ≡ before ++ p ∷ after
          → advance server p s.shared ≡ goes p' m
          → Step s (record { shared = m; threads = before ++ p' ∷ after })

    -- From a state on, what any order of the threads leads to.
    pub data Reach (s : System) : System → Type 0 where
      here : Reach s s
      later : {t u : System} → Reach s t → Step t u → Reach s u
