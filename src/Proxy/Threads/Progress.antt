-- ===== src/Proxy/Threads/Progress.antt =====
-- The two locks of cache.c do not block all threads.
use computer_systems_practic.Prelude.{
  ℕ, ◌+◌, ◌<◌, ◌≡◌, ◌≢◌, refl, ap, ◌∙◌, Bool-cases, false, Option, none, some, List, [], ◌∷◌, ◌++◌,
  arith, ltb, str_beq, ◌⊎◌, inl, inr,
}
use computer_systems_practic.Proxy.Cache.{
  Ptr, CacheLine, Cache, remove_cache_line, insert_cache_line, evict_one, fits_line,
}
use computer_systems_practic.Proxy.Threads.{
  Pc, lookup, rdlock_insert, rdlock_update, walk, unlock_walk, test_found, move_up, unlock_update,
  unlock_insert, send, fetch, wrlock_insert, fill, evict, place, unlock_added, done, Shared, Turn,
  faults, goes, acquire_insert, acquire_update, walk_on, changed, moved, evicted, evict_tail,
  fetched, advance, System, Reach,
}
use computer_systems_practic.Proxy.Threads.Holders.{
  bit-false, reads_insert, writes_insert, reads_update, writes_update, total, IsHeld,
}
use computer_systems_practic.Proxy.Threads.Exclusion.{IsStart, start-IsLocked, Reach-IsLocked}
use computer_systems_practic.Proxy.Threads.Locks.{RwLock}

-- The calls that may block.
abbrev waits_insert : Pc → ℕ
waits_insert (rdlock_insert uri cursor) = 1
waits_insert (wrlock_insert uri object length) = 1
waits_insert _ = 0

abbrev waits_update : Pc → ℕ
waits_update (rdlock_update uri cursor) = 1
waits_update (test_found uri (some a)) = 1
waits_update _ = 0

abbrev holds_insert : Pc → ℕ
holds_insert p = reads_insert p + writes_insert p

abbrev holds_update : Pc → ℕ
holds_update p = reads_update p + writes_update p

-- Who has the update lock waits for nothing, and who has the insert lock only for the other one.
holds_update_goes :
    (p : Pc) → 0 < holds_update p → (waits_insert p ≡ 0) × (waits_update p ≡ 0) × (p ≢ done)
holds_update_goes p h = ground arith

holds_insert_goes : (p : Pc) → 0 < holds_insert p → (waits_insert p ≡ 0) × (p ≢ done)
holds_insert_goes p h = ground arith

total-sum : (v w : Pc → ℕ) (ps : List Pc) → total (λ p. v p + w p) ps ≡ total v ps + total w ps
total-sum v w [] = omega arith
total-sum v w (p ∷ ps) = let f = total-sum v w ps in omega arith

-- A thread of the list, with those before and after it.
abbrev pub Place : List Pc → (Pc → Type 0) → Type 0
Place ps P = (before : List Pc) × (after : List Pc) × (p : Pc) × (ps ≡ before ++ p ∷ after) × P p

find_holder : (w : Pc → ℕ) (ps : List Pc) → 0 < total w ps → Place ps (λ p. 0 < w p)
find_holder w [] h = absurd (omega arith)
find_holder w (p ∷ ps) h = elim (Bool-cases (ltb 0 (w p))) [
  | inl e ↦ ([], ps, p, refl, ground arith)
  | inr e ↦
      let (before, after, q, at, more) = find_holder w ps (ground arith) in
      (p ∷ before, after, q, ap (λ l. p ∷ l) at, more)
]

module _ (locks : RwLock) where
  open locks use {Lock, rdlock, wrlock, readers, writer, rdlock_free, wrlock_free}

  abbrev pub IsFree : Lock → Type 0
  IsFree l = (writer l ≡ false) × (readers l ≡ 0)

  IsHeld-IsFree : (l : Lock) (r w : ℕ) → IsHeld locks l r w → r ≡ 0 → w ≡ 0 → IsFree l
  IsHeld-IsFree l r w h e f = (bit-false (writer l) (h.written ∙ f), h.read ∙ e)

  abbrev Proceeds : Turn locks → Type 0
  Proceeds Turn.faults = Unit
  Proceeds (goes p m) = Unit
  Proceeds _ = ⊥

  abbrev pub Goes : Turn locks → Type 0
  Goes t = (t ≡ faults) ⊎ (p : Pc) × (m : Shared locks) × (t ≡ goes p m)

  Proceeds-Goes : (t : Turn locks) → Proceeds t → Goes t
  Proceeds-Goes Turn.blocked h = absurd h
  Proceeds-Goes Turn.ended h = absurd h
  Proceeds-Goes Turn.faults h = inl refl
  Proceeds-Goes (goes p m) h = inr (p, m, refl)

  acquire_insert-Proceeds :
      (p : Pc) (m : Shared locks) (o : Option Lock)
      → (l : Lock) × (o ≡ some l)
      → Proceeds (acquire_insert locks p m o)
  acquire_insert-Proceeds p m none (l, e) = absurd cc
  acquire_insert-Proceeds p m (some x) h = tt

  acquire_update-Proceeds :
      (p : Pc) (m : Shared locks) (o : Option Lock)
      → (l : Lock) × (o ≡ some l)
      → Proceeds (acquire_update locks p m o)
  acquire_update-Proceeds p m none (l, e) = absurd cc
  acquire_update-Proceeds p m (some x) h = tt

  walk_on-Proceeds :
      (uri : List ℕ) (a : ℕ) (m : Shared locks) (o : Option CacheLine)
      → Proceeds (walk_on locks uri a m o)
  walk_on-Proceeds uri a m none = tt
  walk_on-Proceeds uri a m (some l) = elim (Bool-cases (str_beq l.tag uri)) [
    | inl e ↦ rw e tt
    | inr e ↦ rw e tt
  ]

  changed-Proceeds : (p : Pc) (m : Shared locks) (o : Option Cache) → Proceeds (changed locks p m o)
  changed-Proceeds p m none = tt
  changed-Proceeds p m (some c) = tt

  moved-Proceeds : (a : ℕ) (m : Shared locks) (o : Option Cache) → Proceeds (moved locks a m o)
  moved-Proceeds a m none = tt
  moved-Proceeds a m (some c) = changed-Proceeds _ m (insert_cache_line a c)

  evicted-Proceeds :
      (target length temp_size : ℕ) (m : Shared locks) (o : Option (ℕ × Cache))
      → Proceeds (evicted locks target length temp_size m o)
  evicted-Proceeds target length temp_size m none = tt
  evicted-Proceeds target length temp_size m (some (n, c)) = tt

  evict_tail-Proceeds :
      (target length temp_size : ℕ) (m : Shared locks) (tail : Ptr)
      → Proceeds (evict_tail locks target length temp_size m tail)
  evict_tail-Proceeds target length temp_size m none = tt
  evict_tail-Proceeds target length temp_size m (some a) =
      elim (Bool-cases (ltb temp_size length)) [
        | inl e ↦ rw e (evicted-Proceeds target length temp_size m (evict_one a m.cache))
        | inr e ↦ rw e tt
      ]

  fetched-Proceeds :
      (uri : List ℕ) (m : Shared locks) (o : Option (List ℕ × ℕ)) → Proceeds (fetched locks uri m o)
  fetched-Proceeds uri m none = tt
  fetched-Proceeds uri m (some (object, length)) = tt

  send-Proceeds :
      (m : Shared locks) (o : Option CacheLine)
      → Proceeds (elim o [ none ↦ Turn.faults | some l ↦ goes done m ])
  send-Proceeds m none = tt
  send-Proceeds m (some l) = tt

  module _ (server : List ℕ → Option (List ℕ × ℕ)) where
    -- A thread goes on when the lock that it waits for is free.
    advance-Proceeds :
        (p : Pc) (m : Shared locks)
        → p ≢ done
        → (waits_insert p ≡ 0) ⊎ IsFree m.insert_lock
        → (waits_update p ≡ 0) ⊎ IsFree m.update_lock
        → Proceeds (advance locks server p m)
    unfolding advance
    advance-Proceeds (rdlock_insert uri cursor) m h (inl e) g = absurd (omega arith)
    advance-Proceeds (rdlock_insert uri cursor) m h (inr (w, r)) g =
        acquire_insert-Proceeds _ m _ (rdlock_free m.insert_lock w r)
    advance-Proceeds (wrlock_insert uri object length) m h (inl e) g = absurd (omega arith)
    advance-Proceeds (wrlock_insert uri object length) m h (inr (w, r)) g =
        acquire_insert-Proceeds _ m _ (wrlock_free m.insert_lock w r)
    advance-Proceeds (rdlock_update uri cursor) m h f (inl e) = absurd (omega arith)
    advance-Proceeds (rdlock_update uri cursor) m h f (inr (w, r)) =
        acquire_update-Proceeds _ m _ (rdlock_free m.update_lock w r)
    advance-Proceeds (test_found uri (some a)) m h f (inl e) = absurd (omega arith)
    advance-Proceeds (test_found uri (some a)) m h f (inr (w, r)) =
        acquire_update-Proceeds _ m _ (wrlock_free m.update_lock w r)
    advance-Proceeds (test_found uri none) m h f g = tt
    advance-Proceeds (lookup uri) m h f g = tt
    advance-Proceeds (walk uri none) m h f g = tt
    advance-Proceeds (walk uri (some a)) m h f g = walk_on-Proceeds uri a m (m.cache.lines a)
    advance-Proceeds (unlock_walk uri cursor) m h f g = tt
    advance-Proceeds (move_up a) m h f g = moved-Proceeds a m (remove_cache_line a m.cache)
    advance-Proceeds (unlock_update a) m h f g = tt
    advance-Proceeds (unlock_insert a) m h f g = tt
    advance-Proceeds (send a) m h f g = send-Proceeds m (m.cache.lines a)
    advance-Proceeds (fetch uri) m h f g = fetched-Proceeds uri m (server uri)
    advance-Proceeds (fill uri object length) m h f g = elim (Bool-cases (fits_line uri length)) [
      | inr past ↦ rw past tt
      | inl fits ↦ elim (Bool-cases (ltb m.cache.remain_size length)) [
        | inl e ↦ rw (fits, e) tt
        | inr e ↦ rw (fits, e) tt
      ]
    ]
    advance-Proceeds (evict target length temp_size) m h f g =
        evict_tail-Proceeds target length temp_size m m.cache.c_tail
    advance-Proceeds (place target length) m h f g = changed-Proceeds unlock_added m _
    advance-Proceeds unlock_added m h f g = tt
    advance-Proceeds done m h f g = absurd (h refl)

    -- From threads at their start, in every order of their steps: while a thread is not at its end,
    -- some thread can go on, to its next step or to an access of memory that holds no line. The locks
    -- never block all of them.
    pub no_deadlock :
        (start s : System locks) (uris : List (List ℕ)) (before after : List Pc) (q : Pc)
        → IsStart locks start uris
        → Reach locks server start s
        → s.threads ≡ before ++ q ∷ after
        → q ≢ done
        → Place s.threads (λ p. Goes (advance locks server p s.shared))
    no_deadlock start s uris before after q idle run at live =
        let counted = Reach-IsLocked locks server run (start-IsLocked locks start uris idle) in
        let sum_update = total-sum reads_update writes_update s.threads in
        let sum_insert = total-sum reads_insert writes_insert s.threads in
        elim (Bool-cases (ltb 0 (total holds_update s.threads))) [
          | inl e ↦
              let (b, a, p, at_p, holds) = find_holder holds_update s.threads (ground arith) in
              let (wi, wu, here) = holds_update_goes p holds in
              (b, a, p, at_p, Proceeds-Goes _ (advance-Proceeds p s.shared here (inl wi) (inl wu)))
          | inr e ↦
              let free_update =
                IsHeld-IsFree s.shared.update_lock _ _ counted.update_held (ground arith)
                  (ground arith) in
              elim (Bool-cases (ltb 0 (total holds_insert s.threads))) [
                | inl f ↦
                    let (b, a, p, at_p, holds) =
                      find_holder holds_insert s.threads (ground arith) in
                    let (wi, here) = holds_insert_goes p holds in
                    (
                      b,
                      a,
                      p,
                      at_p,
                      Proceeds-Goes _ (advance-Proceeds p s.shared here (inl wi) (inr free_update)),
                    )
                | inr f ↦
                    let free_insert =
                      IsHeld-IsFree s.shared.insert_lock _ _ counted.insert_held (ground arith)
                        (ground arith) in
                    (
                      before,
                      after,
                      q,
                      at,
                      Proceeds-Goes _
                          (advance-Proceeds q s.shared live (inr free_insert) (inr free_update)),
                    )
              ]
        ]
