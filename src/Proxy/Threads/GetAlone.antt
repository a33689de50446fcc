-- ===== src/Proxy/Threads/GetAlone.antt =====
-- A thread of the proxy that runs without the others does what `get_object` of cache.c does.
use mathlib.Core.Path.{subst}
use computer_systems_practic.Prelude.{
  ℕ, zero, suc, ◌≡◌, refl, ap, ◌∙◌, Bool-cases, Option, none, some, List, str_beq, inl, inr,
}
use computer_systems_practic.Proxy.Cache.{
  Ptr, CacheLine, Cache, returned, crashed, running, Walk, found, absent, bad_access, out_of_fuel,
  find_line, move_to_head, get_object, remove_cache_line, insert_cache_line,
}
use computer_systems_practic.Proxy.Threads.{
  Pc, lookup, rdlock_update, walk, unlock_walk, move_up, unlock_update, send, fetch, Shared, goes,
  acquire_insert, acquire_update, changed, moved, advance,
}
use computer_systems_practic.Proxy.Threads.Progress.{IsFree}
use computer_systems_practic.Proxy.Threads.Locks.{RwLock}
use computer_systems_practic.Proxy.Threads.Runs.{
  read_cycle, write_cycle, IsIdle, Run, stop, go, Run-trans, Ends, Ends-go,
}

module _ (locks : RwLock) where
  open locks use {Lock, rdlock, wrlock, unlock}

  module _ (server : List ℕ → Option (List ℕ × ℕ)) where
    -- Where a thread is when its `get_object` has returned.
    abbrev pub after_get : (uri : List ℕ) → Ptr → Pc
    after_get uri none = fetch uri
    after_get uri (some a) = send a

    -- How the walk of a thread goes on where the search loop ends.
    abbrev Walked : (uri : List ℕ) → Shared locks → Pc → Walk → Type 0
    Walked uri m p (found a) = Run locks server (unlock_walk uri (some a)) m p m
    Walked uri m p absent = Run locks server (unlock_walk uri none) m p m
    Walked uri m p _ = Unit

    Walked-go :
        (uri : List ℕ) (m : Shared locks) (p q : Pc) (w : Walk)
        → advance locks server p m ≡ goes q m
        → Walked uri m q w
        → Walked uri m p w
    Walked-go uri m p q (found a) e h = go e h
    Walked-go uri m p q absent e h = go e h
    Walked-go uri m p q bad_access e h = tt
    Walked-go uri m p q out_of_fuel e h = tt

    find_line-Walked :
        (fuel : ℕ) (uri : List ℕ) (cursor : Ptr) (m : Shared locks)
        → Walked uri m (walk uri cursor) (find_line fuel uri cursor m.cache)
    unfolding find_line advance
    find_line-Walked zero uri none m = go refl stop
    find_line-Walked (suc fuel) uri none m = go refl stop
    find_line-Walked zero uri (some a) m = tt
    find_line-Walked (suc fuel) uri (some a) m =
        at (m.cache.lines a) refl (λ next. find_line-Walked fuel uri next m)
      where
        at :
            (o : Option CacheLine)
            → m.cache.lines a ≡ o
            → ((next : Ptr) → Walked uri m (walk uri next) (find_line fuel uri next m.cache))
            → Walked uri m (walk uri (some a)) (find_line (suc fuel) uri (some a) m.cache)
        at none e on = rw (find_line, e) tt
        at (some l) e on = elim (Bool-cases (str_beq l.tag uri)) [
          | inl same ↦ rw (find_line, e, same) (go (rw (advance, e, same) refl) stop)
          | inr other ↦
              rw (find_line, e, other)
                (Walked-go uri m (walk uri (some a)) (walk uri l.next) _
                  (rw (advance, e, other) refl) (on l.next))
        ]

    -- The hit: from the release of the read lock on.
    move_to_head-Ends :
        (uri : List ℕ) (a : ℕ) (m : Shared locks)
        → IsFree locks (unlock m.insert_lock)
        → IsFree locks (unlock m.update_lock)
        → Ends locks server (after_get uri) (unlock_walk uri (some a)) m (move_to_head a m.cache)
    unfolding advance
    move_to_head-Ends uri a m free_insert free_update =
        let (l, e, end) = write_cycle locks (unlock m.update_lock) free_update in
        at l e end (remove_cache_line a m.cache) refl
      where
        at_head :
            (l : Lock)
            → wrlock (unlock m.update_lock) ≡ some l
            → IsFree locks (unlock l)
            → (c1 : Cache) → remove_cache_line a m.cache ≡ some c1
            → (o : Option Cache) → insert_cache_line a c1 ≡ o
            → Ends locks server
                (after_get uri)
                (unlock_walk uri (some a))
                m
                (elim o [ none ↦ crashed | some c2 ↦ returned (some a) c2 ])
        at_head l e end c1 r none i = tt
        at_head l e end c1 r (some c2) i =
            let m1 = record m { update_lock = unlock m.update_lock } in
            let m2 = record m1 { update_lock = l } in
            (
              record { cache = c2; insert_lock = unlock m.insert_lock; update_lock = unlock l },
              go refl (
                  go (ap (acquire_update locks (move_up a) m1) e) (
                    go (ap (moved locks a m2) r ∙ ap (changed locks (unlock_update a) m2) i)
                      (go refl (go refl stop)))),
              record { holds = refl; insert_free = free_insert; update_free = end },
            )

        at :
            (l : Lock)
            → wrlock (unlock m.update_lock) ≡ some l
            → IsFree locks (unlock l)
            → (o : Option Cache) → remove_cache_line a m.cache ≡ o
            → Ends locks server (after_get uri) (unlock_walk uri (some a)) m (elim o [
              | none ↦ crashed
              | some c1 ↦ elim (insert_cache_line a c1) [
                | none ↦ crashed
                | some c2 ↦ returned (some a) c2
              ]
            ])
        at l e end none r = tt
        at l e end (some c1) r = at_head l e end c1 r (insert_cache_line a c1) refl

    get_object-Ends :
        (fuel : ℕ) (uri : List ℕ) (m : Shared locks)
        → IsIdle locks m m.cache
        → Ends locks server (after_get uri) (lookup uri) m (get_object fuel uri m.cache)
    unfolding get_object advance
    get_object-Ends fuel uri m idle =
        let (l1, e1, f1) = read_cycle locks m.insert_lock idle.insert_free in
        let (l2, e2, f2) = read_cycle locks m.update_lock idle.update_free in
        let m1 = record m { insert_lock = l1 } in
        let m2 = record m1 { update_lock = l2 } in
        let run : Run locks server (walk uri m.cache.c_head) m2 (lookup uri) m = go refl (
          go (ap (acquire_insert locks (rdlock_update uri m.cache.c_head) m) e1)
            (go (ap (acquire_update locks (walk uri m.cache.c_head) m1) e2) stop)) in
        at m2 f1 f2 run (find_line fuel uri m.cache.c_head m.cache)
          (find_line-Walked fuel uri m.cache.c_head m2)
      where
        at :
            (m2 : Shared locks)
            → IsFree locks (unlock m2.insert_lock)
            → IsFree locks (unlock m2.update_lock)
            → Run locks server (walk uri m.cache.c_head) m2 (lookup uri) m
            → (w : Walk) → Walked uri m2 (walk uri m.cache.c_head) w
            → Ends locks server (after_get uri) (lookup uri) m (elim w [
              | absent ↦ returned none m2.cache
              | found a ↦ move_to_head a m2.cache
              | bad_access ↦ crashed
              | out_of_fuel ↦ running
            ])
        at m2 f1 f2 run absent walked = (
          record m2 { insert_lock = unlock m2.insert_lock; update_lock = unlock m2.update_lock },
          Run-trans locks server run (Run-trans locks server walked (go refl (go refl stop))),
          record { holds = refl; insert_free = f1; update_free = f2 },
        )
        at m2 f1 f2 run (found a) walked =
            Ends-go locks server (after_get uri) (move_to_head a m2.cache)
              (Run-trans locks server run walked) (move_to_head-Ends uri a m2 f1 f2)
        at m2 f1 f2 run bad_access walked = tt
        at m2 f1 f2 run out_of_fuel walked = tt

    -- A thread that runs alone from free locks: its lookup ends where `get_object` ends, when that
    -- returns, with the same cache and free locks, before it sends the line or asks the server.
    pub get_object_alone :
        (fuel : ℕ) (uri : List ℕ) (m : Shared locks) (r : Ptr) (c : Cache)
        → IsFree locks m.insert_lock
        → IsFree locks m.update_lock
        → get_object fuel uri m.cache ≡ returned r c
        → (m' : Shared locks) × Run locks server (after_get uri r) m' (lookup uri) m
          × IsIdle locks m' c
    get_object_alone fuel uri m r c f g e =
        subst (Ends locks server (after_get uri) (lookup uri) m) e
          (get_object-Ends fuel uri m (record { holds = refl; insert_free = f; update_free = g }))
