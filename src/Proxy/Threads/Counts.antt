-- ===== src/Proxy/Threads/Counts.antt =====
-- Every step of a thread of the proxy keeps the count of the holders of the two locks.
use computer_systems_practic.Prelude.{
  ℕ, ◌+◌, ◌-◌, ◌%◌, ◌^◌, ◌≡◌, refl, Option, none, some, List, Bool-cases, ltb, str_beq, inl, inr,
}
use computer_systems_practic.Proxy.Cache.{
  Ptr, CacheLine, Cache, remove_cache_line, insert_cache_line, evict_one, fits_line,
}
use computer_systems_practic.Proxy.Threads.{
  Pc, lookup, rdlock_insert, rdlock_update, walk, unlock_walk, test_found, move_up, unlock_update,
  unlock_insert, send, fetch, wrlock_insert, fill, evict, place, unlock_added, done, Shared, Turn,
  goes, acquire_insert, acquire_update, walk_on, changed, moved, evicted, evict_tail, fetched,
  advance,
}
use computer_systems_practic.Proxy.Threads.Locks.{RwLock}
use computer_systems_practic.Proxy.Threads.Holders.{
  IsCounted, rdlock-IsHeld, wrlock-IsHeld, unlock-read, unlock-write,
}

module _ (locks : RwLock) where
  open locks use {Lock, rdlock, wrlock, unlock}

  module _ (server : List ℕ → Option (List ℕ × ℕ)) (ri wi ru wu : ℕ) where
    -- What follows from a step of the thread.
    abbrev pub Next : Turn locks → Type 0
    Next (goes p m) = IsCounted locks m ri wi ru wu p
    Next _ = Unit

    -- A step that leaves the locks and their holders alone.
    walk_on-Next :
        (uri : List ℕ) (a : ℕ) (m : Shared locks) (o : Option CacheLine)
        → IsCounted locks m ri wi ru wu (walk uri (some a))
        → Next (walk_on locks uri a m o)
    walk_on-Next uri a m none h = tt
    walk_on-Next uri a m (some l) h = elim (Bool-cases (str_beq l.tag uri)) [
      | inl e ↦ rw e (record { insert_held = h.insert_held; update_held = h.update_held })
      | inr e ↦ rw e (record { insert_held = h.insert_held; update_held = h.update_held })
    ]

    moved-Next :
        (a : ℕ) (m : Shared locks) (o : Option Cache)
        → IsCounted locks m ri wi ru wu (move_up a)
        → Next (moved locks a m o)
    moved-Next a m none h = tt
    moved-Next a m (some c) h = go (insert_cache_line a c)
      where
        go : (o : Option Cache) → Next (changed locks (unlock_update a) m o)
        go none = tt
        go (some c1) = record { insert_held = h.insert_held; update_held = h.update_held }

    evict_tail-Next :
        (target length temp_size : ℕ) (m : Shared locks) (tail : Ptr)
        → IsCounted locks m ri wi ru wu (evict target length temp_size)
        → Next (evict_tail locks target length temp_size m tail)
    evict_tail-Next target length temp_size m none h = record {
      insert_held = h.insert_held;
      update_held = h.update_held;
    }
    evict_tail-Next target length temp_size m (some a) h =
        elim (Bool-cases (ltb temp_size length)) [
          | inl e ↦ rw e (go (evict_one a m.cache))
          | inr e ↦ rw e (record { insert_held = h.insert_held; update_held = h.update_held })
        ]
      where
        go : (o : Option (ℕ × Cache)) → Next (evicted locks target length temp_size m o)
        go none = tt
        go (some (n, c)) = record { insert_held = h.insert_held; update_held = h.update_held }

    -- Every step keeps the count.
    pub advance-Next :
        (p : Pc) (m : Shared locks)
        → IsCounted locks m ri wi ru wu p
        → Next (advance locks server p m)
    unfolding advance
    advance-Next (lookup uri) m h = record {
      insert_held = h.insert_held;
      update_held = h.update_held;
    }
    advance-Next (rdlock_insert uri cursor) m h = go (rdlock m.insert_lock) refl
      where
        go :
            (o : Option Lock)
            → rdlock m.insert_lock ≡ o
            → Next (acquire_insert locks (rdlock_update uri cursor) m o)
        go none e = tt
        go (some l) e = record {
          insert_held = rdlock-IsHeld locks m.insert_lock l ri wi h.insert_held e;
          update_held = h.update_held;
        }
    advance-Next (rdlock_update uri cursor) m h = go (rdlock m.update_lock) refl
      where
        go :
            (o : Option Lock)
            → rdlock m.update_lock ≡ o
            → Next (acquire_update locks (walk uri cursor) m o)
        go none e = tt
        go (some l) e = record {
          insert_held = h.insert_held;
          update_held = rdlock-IsHeld locks m.update_lock l ru wu h.update_held e;
        }
    advance-Next (walk uri none) m h = record {
      insert_held = h.insert_held;
      update_held = h.update_held;
    }
    advance-Next (walk uri (some a)) m h = walk_on-Next uri a m (m.cache.lines a) h
    advance-Next (unlock_walk uri cursor) m h = record {
      insert_held = h.insert_held;
      update_held = unlock-read locks m.update_lock ru wu h.update_held;
    }
    advance-Next (test_found uri none) m h = record {
      insert_held = unlock-read locks m.insert_lock ri wi h.insert_held;
      update_held = h.update_held;
    }
    advance-Next (test_found uri (some a)) m h = go (wrlock m.update_lock) refl
      where
        go :
            (o : Option Lock)
            → wrlock m.update_lock ≡ o
            → Next (acquire_update locks (move_up a) m o)
        go none e = tt
        go (some l) e = record {
          insert_held = h.insert_held;
          update_held = wrlock-IsHeld locks m.update_lock l ru wu h.update_held e;
        }
    advance-Next (move_up a) m h = moved-Next a m (remove_cache_line a m.cache) h
    advance-Next (unlock_update a) m h = record {
      insert_held = h.insert_held;
      update_held = unlock-write locks m.update_lock ru wu h.update_held;
    }
    advance-Next (unlock_insert a) m h = record {
      insert_held = unlock-read locks m.insert_lock ri wi h.insert_held;
      update_held = h.update_held;
    }
    advance-Next (send a) m h = go (m.cache.lines a)
      where
        go : (o : Option CacheLine) → Next (elim o [ none ↦ Turn.faults | some l ↦ goes done m ])
        go none = tt
        go (some l) = record { insert_held = h.insert_held; update_held = h.update_held }
    advance-Next (fetch uri) m h = go (server uri)
      where
        go : (o : Option (List ℕ × ℕ)) → Next (fetched locks uri m o)
        go none = record { insert_held = h.insert_held; update_held = h.update_held }
        go (some (object, length)) = record {
          insert_held = h.insert_held;
          update_held = h.update_held;
        }
    advance-Next (wrlock_insert uri object length) m h = go (wrlock m.insert_lock) refl
      where
        go :
            (o : Option Lock)
            → wrlock m.insert_lock ≡ o
            → Next (acquire_insert locks (fill uri object length) m o)
        go none e = tt
        go (some l) e = record {
          insert_held = wrlock-IsHeld locks m.insert_lock l ri wi h.insert_held e;
          update_held = h.update_held;
        }
    advance-Next (fill uri object length) m h = elim (Bool-cases (fits_line uri length)) [
      | inr past ↦ rw past tt
      | inl fits ↦ elim (Bool-cases (ltb m.cache.remain_size length)) [
        | inl e ↦ rw (fits, e) (record { insert_held = h.insert_held; update_held = h.update_held })
        | inr e ↦ rw (fits, e) (record { insert_held = h.insert_held; update_held = h.update_held })
      ]
    ]
    advance-Next (evict target length temp_size) m h =
        evict_tail-Next target length temp_size m m.cache.c_tail h
    advance-Next (place target length) m h = go (
        insert_cache_line target
          (record (m.cache) { remain_size = (m.cache.remain_size + 2 ^ 32 - length) % 2 ^ 32 }))
      where
        go : (o : Option Cache) → Next (changed locks unlock_added m o)
        go none = tt
        go (some c) = record { insert_held = h.insert_held; update_held = h.update_held }
    advance-Next unlock_added m h = record {
      insert_held = unlock-write locks m.insert_lock ri wi h.insert_held;
      update_held = h.update_held;
    }
    advance-Next done m h = tt
