-- ===== src/Proxy/Threads/Steady.antt =====
-- What a thread that holds a lock of cache.c can count on while the others run.
use mathlib.Core.Path.{subst}
use mathlib.Core.List.{Mem}
use computer_systems_practic.Prelude.{
  ℕ, ◌+◌, ◌≤◌, ◌≡◌, refl, sym, ap, ◌∙◌, Bool, Bool-cases, Option, none, some, List, ◌∷◌, ◌++◌,
  arith, ltb, str_beq, inl, inr,
}
use computer_systems_practic.Proxy.Cache.{CacheLine, Cache, insert_cache_line}
use computer_systems_practic.Proxy.Cache.Writes.{data_of, insert_cache_line-data}
use computer_systems_practic.Proxy.Cache.Kept.{HasData, remove_cache_line-HasData}
use computer_systems_practic.Proxy.Threads.{
  Pc, lookup, rdlock_insert, rdlock_update, walk, unlock_walk, test_found, move_up, unlock_update,
  unlock_insert, send, fetch, wrlock_insert, fill, evict, place, unlock_added, done, Shared, Turn,
  goes, acquire_insert, acquire_update, walk_on, changed, moved, fetched, advance, System, Reach,
}
use computer_systems_practic.Proxy.Threads.Holders.{
  bit, reads_insert, writes_insert, reads_update, writes_update, total, IsHeld, IsCounted,
}
use computer_systems_practic.Proxy.Threads.Exclusion.{
  le_of_mem, IsStart, start-IsLocked, IsLocked-split, Reach-IsLocked,
}
use computer_systems_practic.Proxy.Threads.Locks.{RwLock}

-- A thread that holds no lock as the writer.
abbrev writes : Pc → ℕ
writes p = writes_insert p + writes_update p

-- A thread that walks through the list or may change it.
abbrev pub uses_list : Pc → ℕ
uses_list p = reads_update p + writes_update p + writes_insert p

-- A thread between its first lock and its last release.
abbrev pub inside : Pc → ℕ
inside p = reads_insert p + writes_insert p

-- Who uses the list holds the insert lock.
uses_list-inside : (q : Pc) → uses_list q ≤ inside q
uses_list-inside q = ground arith

writes_update_reads : (p : Pc) → writes_update p ≤ reads_insert p
writes_update_reads p = ground arith

bit_le : (b : Bool) → bit b ≤ 1
bit_le b = ground arith

module _ (locks : RwLock) (server : List ℕ → Option (List ℕ × ℕ)) where
  -- The cache after a step is the one before it.
  abbrev Keeps : Cache → Turn locks → Type 0
  Keeps c (goes p m) = m.cache ≡ c
  Keeps c _ = Unit

  acquire_insert-Keeps :
      (p : Pc) (m : Shared locks) (o : Option locks.Lock)
      → Keeps m.cache (acquire_insert locks p m o)
  acquire_insert-Keeps p m none = tt
  acquire_insert-Keeps p m (some l) = refl

  acquire_update-Keeps :
      (p : Pc) (m : Shared locks) (o : Option locks.Lock)
      → Keeps m.cache (acquire_update locks p m o)
  acquire_update-Keeps p m none = tt
  acquire_update-Keeps p m (some l) = refl

  walk_on-Keeps :
      (uri : List ℕ) (a : ℕ) (m : Shared locks) (o : Option CacheLine)
      → Keeps m.cache (walk_on locks uri a m o)
  walk_on-Keeps uri a m none = tt
  walk_on-Keeps uri a m (some l) = elim (Bool-cases (str_beq l.tag uri)) [
    | inl e ↦ rw e refl
    | inr e ↦ rw e refl
  ]

  send-Keeps :
      (m : Shared locks) (o : Option CacheLine)
      → Keeps m.cache (elim o [ none ↦ Turn.faults | some l ↦ goes done m ])
  send-Keeps m none = tt
  send-Keeps m (some l) = refl

  fetched-Keeps :
      (uri : List ℕ) (m : Shared locks) (o : Option (List ℕ × ℕ))
      → Keeps m.cache (fetched locks uri m o)
  fetched-Keeps uri m none = refl
  fetched-Keeps uri m (some (object, length)) = refl

  -- Only a writer changes the cache.
  advance-Keeps :
      (p : Pc) (m : Shared locks) → writes p ≡ 0 → Keeps m.cache (advance locks server p m)
  unfolding advance
  advance-Keeps (lookup uri) m h = refl
  advance-Keeps (rdlock_insert uri cursor) m h = acquire_insert-Keeps _ m _
  advance-Keeps (rdlock_update uri cursor) m h = acquire_update-Keeps _ m _
  advance-Keeps (walk uri none) m h = refl
  advance-Keeps (walk uri (some a)) m h = walk_on-Keeps uri a m _
  advance-Keeps (unlock_walk uri cursor) m h = refl
  advance-Keeps (test_found uri none) m h = refl
  advance-Keeps (test_found uri (some a)) m h = acquire_update-Keeps _ m _
  advance-Keeps (unlock_update a) m h = refl
  advance-Keeps (unlock_insert a) m h = refl
  advance-Keeps (send a) m h = send-Keeps m (m.cache.lines a)
  advance-Keeps (fetch uri) m h = fetched-Keeps uri m (server uri)
  advance-Keeps (wrlock_insert uri object length) m h = acquire_insert-Keeps _ m _
  advance-Keeps unlock_added m h = refl
  advance-Keeps done m h = tt
  advance-Keeps _ m h = absurd (omega arith)

  -- Each line has the data that it had.
  abbrev KeepsData : Cache → Turn locks → Type 0
  KeepsData c (goes p m) = (x : ℕ) → data_of (m.cache.lines x) ≡ data_of (c.lines x)
  KeepsData c _ = Unit

  Keeps-KeepsData : (c : Cache) (t : Turn locks) → Keeps c t → KeepsData c t
  Keeps-KeepsData c Turn.blocked h = tt
  Keeps-KeepsData c Turn.faults h = tt
  Keeps-KeepsData c Turn.ended h = tt
  Keeps-KeepsData c (goes p m) h = λ x. ap (λ k. data_of (k.lines x)) h

  moved-KeepsData :
      (a : ℕ) (m : Shared locks) (o : Option Cache)
      → HasData m.cache o
      → KeepsData m.cache (moved locks a m o)
  moved-KeepsData a m none h = tt
  moved-KeepsData a m (some c) h = go (insert_cache_line a c) refl
    where
      go :
          (o : Option Cache)
          → insert_cache_line a c ≡ o
          → KeepsData m.cache (changed locks (unlock_update a) m o)
      go none e = tt
      go (some c1) e = λ x. insert_cache_line-data a c c1 e x ∙ h x

  -- Only a writer of the insert lock changes the data of a line, or frees one.
  advance-KeepsData :
      (p : Pc) (m : Shared locks)
      → writes_insert p ≡ 0
      → KeepsData m.cache (advance locks server p m)
  unfolding advance
  advance-KeepsData (move_up a) m h = moved-KeepsData a m _ (remove_cache_line-HasData a m.cache)
  advance-KeepsData (unlock_update a) m h = λ x. refl
  advance-KeepsData (fill uri object length) m h = absurd (omega arith)
  advance-KeepsData (evict target length temp_size) m h = absurd (omega arith)
  advance-KeepsData (place target length) m h = absurd (omega arith)
  advance-KeepsData unlock_added m h = absurd (omega arith)
  advance-KeepsData p m h =
      Keeps-KeepsData m.cache (advance locks server p m) (advance-Keeps p m refl)

  module _ (start s : System locks) (uris : List (List ℕ)) (before after : List Pc) (p q p' : Pc)
      (m : Shared locks) (idle : IsStart locks start uris) (run : Reach locks server start s)
      (at : s.threads ≡ before ++ p ∷ after) (other : Mem q (before ++ after)) where
    counted :
        IsCounted locks s.shared
          (total reads_insert (before ++ after))
          (total writes_insert (before ++ after))
          (total reads_update (before ++ after))
          (total writes_update (before ++ after))
          p
    counted =
        IsLocked-split locks s before after p at
          (Reach-IsLocked locks server run (start-IsLocked locks start uris idle))

    -- Where another thread holds a lock, p does not hold it as the writer.
    one_writer :
        (l : locks.Lock) (r w r' w' : ℕ) → IsHeld locks l (r + r') (w + w') → 1 ≤ r + w → w' ≡ 0
    one_writer l r w r' w' h o =
        let one : w + w' ≤ 1 = rw (sym h.written) (bit_le (locks.writer l)) in
        let alone = h.alone in ground arith

    no_insert : inside q ≡ 1 → writes_insert p ≡ 0
    no_insert h =
        let r = le_of_mem reads_insert q (before ++ after) other in
        let w = le_of_mem writes_insert q (before ++ after) other in
        one_writer _ _ _ _ _ counted.insert_held (omega arith)

    no_write : uses_list q ≡ 1 → writes p ≡ 0
    no_write h =
        let inside_p = writes_update_reads p in
        let inside_q = uses_list-inside q in
        let in_le : inside q ≤ 1 = ground arith in
        let none_inserts = no_insert (omega arith) in
        let r = le_of_mem reads_update q (before ++ after) other in
        let w = le_of_mem writes_update q (before ++ after) other in
        let i = le_of_mem writes_insert q (before ++ after) other in
        let alone = counted.insert_held.alone in
        elim (Bool-cases (ltb 0 (writes_insert q))) [
          | inl e ↦ ground arith
          | inr e ↦
              let none_moves = one_writer _ _ _ _ _ counted.update_held (ground arith) in
              omega arith
        ]

    -- While a thread walks through the list or may change it, no step of another thread changes the
    -- cache.
    pub list_kept :
        uses_list q ≡ 1 → advance locks server p s.shared ≡ goes p' m → m.cache ≡ s.shared.cache
    list_kept h e = subst (Keeps s.shared.cache) e (advance-Keeps p s.shared (no_write h))

    -- From the first lock of a thread to its last release, no step of another thread changes the data
    -- of a line or frees one.
    pub lines_kept :
        inside q ≡ 1
        → advance locks server p s.shared ≡ goes p' m
        → (x : ℕ) → data_of (m.cache.lines x) ≡ data_of (s.shared.cache.lines x)
    lines_kept h e = subst (KeepsData s.shared.cache) e (advance-KeepsData p s.shared (no_insert h))
