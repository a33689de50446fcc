-- ===== src/Proxy/Threads/AddAlone.antt =====
-- A thread of the proxy that runs without the others does what `add_object` of cache.c does.
use mathlib.Core.Path.{subst}
use computer_systems_practic.Prelude.{
  ℕ, zero, suc, ◌+◌, ◌-◌, ◌%◌, ◌^◌, ◌≡◌, refl, sym, ap, ◌∙◌, Bool, Bool-cases, true, false, Option,
  none, some, List, ltb, inl, inr,
}
use computer_systems_practic.Proxy.Cache.{
  Ptr, Cache, Outcome, returned, crashed, running, insert_cache_line, evict_one, evict_round,
  evict_lines, place_line, fits_line, add_line, add_object,
}
use computer_systems_practic.Proxy.Threads.{
  wrlock_insert, fill, evict, place, unlock_added, done, Shared, goes, acquire_insert, changed,
  evicted, evict_tail, filled, advance,
}
use computer_systems_practic.Proxy.Threads.Progress.{IsFree}
use computer_systems_practic.Proxy.Threads.Locks.{RwLock}
use computer_systems_practic.Proxy.Threads.Runs.{write_cycle, IsIdle, Run, stop, go, Ends, Ends-go}

-- `evict_round` with its tests as arguments.
abbrev pub round_one : (ℕ → Cache → Outcome) → ℕ → Option (ℕ × Cache) → Outcome
round_one next temp_size none = crashed
round_one next temp_size (some (n, c1)) = next ((temp_size + n) % 2 ^ 32) c1

abbrev pub round_if : (ℕ → Cache → Outcome) → ℕ → Cache → Option (ℕ × Cache) → Bool → Outcome
round_if next temp_size c o false = returned none (record c { remain_size = temp_size })
round_if next temp_size c o true = round_one next temp_size o

abbrev pub round_at : (ℕ → Cache → Outcome) → (size temp_size : ℕ) → Cache → Ptr → Outcome
round_at next size temp_size c none = returned none (record c { remain_size = temp_size })
round_at next size temp_size c (some a) =
    round_if next temp_size c (evict_one a c) (ltb temp_size size)

pub evict_round-round_at :
    (next : ℕ → Cache → Outcome) (size temp_size : ℕ) (c : Cache)
    → evict_round next size temp_size c ≡ round_at next size temp_size c c.c_tail
unfolding evict_round
evict_round-round_at next size temp_size c = refl

module _ (locks : RwLock) where
  open locks use {Lock, rdlock, wrlock, unlock}

  module _ (server : List ℕ → Option (List ℕ × ℕ)) where
    -- The insertion and the release.
    place-Ends :
        (target length : ℕ) (m : Shared locks)
        → IsFree locks (unlock m.insert_lock)
        → IsFree locks m.update_lock
        → Ends locks server
            (λ r. done)
            (place target length)
            m
            (place_line length target (returned none m.cache))
    unfolding advance
    place-Ends target length m f g =
        at
          (insert_cache_line target
            (record (m.cache) { remain_size = (m.cache.remain_size + 2 ^ 32 - length) % 2 ^ 32 }))
          refl
      where
        at :
            (o : Option Cache)
            → insert_cache_line target (record (m.cache) {
              remain_size = (m.cache.remain_size + 2 ^ 32 - length) % 2 ^ 32;
            })
              ≡ o
            → Ends locks server
                (λ r. done)
                (place target length)
                m
                (elim o [ none ↦ crashed | some c1 ↦ returned none c1 ])
        at none e = tt
        at (some c1) e = (
          record { cache = c1; insert_lock = unlock m.insert_lock; update_lock = m.update_lock },
          go (ap (changed locks unlock_added m) e) (go refl stop),
          record { holds = refl; insert_free = f; update_free = g },
        )

    -- A round of the eviction, and what follows it.
    evict_round-Ends :
        (next : ℕ → Cache → Outcome) (target length temp_size : ℕ) (m : Shared locks)
        → IsFree locks (unlock m.insert_lock)
        → IsFree locks m.update_lock
        → ((t : ℕ) (c : Cache)
            → Ends locks server
                (λ r. done)
                (evict target length t)
                (record m { cache = c })
                (place_line length target (next t c)))
        → Ends locks server
            (λ r. done)
            (evict target length temp_size)
            m
            (place_line length target (evict_round next length temp_size m.cache))
    unfolding evict_round advance
    evict_round-Ends next target length temp_size m f g on =
        subst
          (λ o.
            Ends locks server (λ r. done) (evict target length temp_size) m
              (place_line length target o))
          (sym (evict_round-round_at next length temp_size m.cache)) (at m.cache.c_tail refl)
      where
        Goal : Outcome → Type 0
        Goal o =
            Ends locks server (λ r. done) (evict target length temp_size) m
              (place_line length target o)

        m1 : Shared locks
        m1 = record m { cache = record (m.cache) { remain_size = temp_size } }

        stops :
            advance locks server (evict target length temp_size) m ≡ goes (place target length) m1
            → Goal (returned none m1.cache)
        stops e =
            Ends-go locks server (λ r. done) (place_line length target (returned none m1.cache))
              (go e stop) (place-Ends target length m1 f g)

        evicts :
            (o : Option (ℕ × Cache))
            → advance locks server (evict target length temp_size) m
              ≡ evicted locks target length temp_size m o
            → Goal (round_one next temp_size o)
        evicts none e = tt
        evicts (some (n, c)) e =
            Ends-go locks server (λ r. done)
              (place_line length target (next ((temp_size + n) % 2 ^ 32) c)) (go e stop)
              (on ((temp_size + n) % 2 ^ 32) c)

        at :
            (tail : Ptr)
            → m.cache.c_tail ≡ tail
            → Goal (round_at next length temp_size m.cache tail)
        at none e = stops (ap (evict_tail locks target length temp_size m) e)
        at (some a) e = elim (Bool-cases (ltb temp_size length)) [
          | inl t ↦ rw t (
              evicts (evict_one a m.cache)
                (ap (evict_tail locks target length temp_size m) e ∙ rw t refl))
          | inr t ↦ rw t (stops (ap (evict_tail locks target length temp_size m) e ∙ rw t refl))
        ]

    -- The rounds.
    evict_lines-Ends :
        (fuel target length temp_size : ℕ) (m : Shared locks)
        → IsFree locks (unlock m.insert_lock)
        → IsFree locks m.update_lock
        → Ends locks server
            (λ r. done)
            (evict target length temp_size)
            m
            (place_line length target (evict_lines fuel length temp_size m.cache))
    unfolding evict_lines
    evict_lines-Ends zero target length temp_size m f g =
        evict_round-Ends (λ t c. running) target length temp_size m f g (λ t c. tt)
    evict_lines-Ends (suc fuel) target length temp_size m f g =
        evict_round-Ends (evict_lines fuel length) target length temp_size m f g
          (λ t c. evict_lines-Ends fuel target length t (record m { cache = c }) f g)

    add_line-Ends :
        (fuel : ℕ) (uri object : List ℕ) (length : ℕ) (m : Shared locks)
        → fits_line uri length ≡ true
        → IsIdle locks m m.cache
        → Ends locks server
            (λ r. done)
            (wrlock_insert uri object length)
            m
            (add_line fuel uri object length m.cache)
    unfolding add_line advance
    add_line-Ends fuel uri object length m fits idle =
        let (l, e, f) = write_cycle locks m.insert_lock idle.insert_free in
        let c = m.cache in
        let m1 = record m { insert_lock = l } in
        let m2 = record m1 { cache = filled locks uri object length c } in
        let starts = ap (acquire_insert locks (fill uri object length) m) e in
        elim (Bool-cases (ltb m.cache.remain_size length)) [
          | inl t ↦ rw t (
              Ends-go locks server (λ r. done) _ (go starts (go (rw (fits, t) refl) stop))
                (evict_lines-Ends fuel c.next_free length c.remain_size m2 f idle.update_free))
          | inr t ↦ rw t (
              Ends-go locks server (λ r. done) _ (go starts (go (rw (fits, t) refl) stop))
                (place-Ends c.next_free length m2 f idle.update_free))
        ]

    add_object-Ends :
        (fuel : ℕ) (uri object : List ℕ) (length : ℕ) (m : Shared locks)
        → IsIdle locks m m.cache
        → Ends locks server
            (λ r. done)
            (wrlock_insert uri object length)
            m
            (add_object fuel uri object length m.cache)
    unfolding add_object
    add_object-Ends fuel uri object length m idle = elim (Bool-cases (fits_line uri length)) [
      | inr past ↦ rw past tt
      | inl fits ↦ rw fits (add_line-Ends fuel uri object length m fits idle)
    ]

    -- A thread that runs alone from free locks, with what it got from the server: it ends where
    -- `add_object` ends, when that returns, with the same cache and free locks.
    pub add_object_alone :
        (fuel : ℕ) (uri object : List ℕ) (length : ℕ) (m : Shared locks) (r : Ptr) (c : Cache)
        → IsFree locks m.insert_lock
        → IsFree locks m.update_lock
        → add_object fuel uri object length m.cache ≡ returned r c
        → (m' : Shared locks) × Run locks server done m' (wrlock_insert uri object length) m
          × IsIdle locks m' c
    add_object_alone fuel uri object length m r c f g e =
        subst (Ends locks server (λ r'. done) (wrlock_insert uri object length) m) e (
          add_object-Ends fuel uri object length m
            (record { holds = refl; insert_free = f; update_free = g }))
