-- ===== src/Proxy/Threads/Runs.antt =====
-- Steps of one thread of the proxy while the others stand still.
use computer_systems_practic.Prelude.{ℕ, suc, ◌≡◌, refl, ap, ◌∙◌, Option, some, List, ◌∷◌, ◌++◌}
use computer_systems_practic.Proxy.Cache.{Ptr, Cache, Outcome, returned, crashed, running}
use computer_systems_practic.Proxy.Threads.{Pc, Shared, goes, advance, System, turn, Reach, later}
use computer_systems_practic.Proxy.Threads.Progress.{IsFree}
use computer_systems_practic.Proxy.Threads.Locks.{RwLock}

module _ (locks : RwLock) where
  open locks use {
    Lock, rdlock, wrlock, unlock, readers, writer, rdlock_free, wrlock_free, rdlock_shares,
    wrlock_excludes, unlock_reader, unlock_writer,
  }

  -- A free lock can be taken, and is free again after the release.
  pub read_cycle :
      (l : Lock) → IsFree locks l → (l' : Lock) × (rdlock l ≡ some l') × IsFree locks (unlock l')
  read_cycle l (w, r) =
      let (l', e) = rdlock_free l w r in
      let (free, more, still) = rdlock_shares l l' e in
      (l', e, unlock_reader l' 0 still (more ∙ ap suc r))

  pub write_cycle :
      (l : Lock) → IsFree locks l → (l' : Lock) × (wrlock l ≡ some l') × IsFree locks (unlock l')
  write_cycle l (w, r) =
      let (l', e) = wrlock_free l w r in
      let (free, nobody, none_reads, now) = wrlock_excludes l l' e in
      let (end, same) = unlock_writer l' now in (l', e, (end, same ∙ none_reads))

  -- Both locks are free, and the cache is c.
  pub record IsIdle (m : Shared locks) (c : Cache) : Type 0 where
    pub holds : m.cache ≡ c
    pub insert_free : IsFree locks m.insert_lock
    pub update_free : IsFree locks m.update_lock

  module _ (server : List ℕ → Option (List ℕ × ℕ)) where
    -- Steps of one thread, the others standing still.
    pub data Run (p' : Pc) (m' : Shared locks) : Pc → Shared locks → Type 0 where
      stop : Run p' m' p' m'
      go :
          {p q : Pc} {m n : Shared locks}
          → advance locks server p m ≡ goes q n
          → Run p' m' q n
          → Run p' m' p m

    pub Run-Reach :
        (before after : List Pc) {start : System locks} {p' : Pc} {m' : Shared locks} {p : Pc}
        {m : Shared locks}
        → Run p' m' p m
        → Reach locks server start (record { shared = m; threads = before ++ p ∷ after })
        → Reach locks server start (record { shared = m'; threads = before ++ p' ∷ after })
    Run-Reach before after stop r = r
    Run-Reach before after (go e run) r =
        Run-Reach before after run (later r (turn before after _ _ _ refl e))

    pub Run-trans :
        {q o : Pc} {n k : Shared locks} {p : Pc} {m : Shared locks}
        → Run q n p m
        → Run o k q n
        → Run o k p m
    Run-trans stop r = r
    Run-trans (go e run) r = go e (Run-trans run r)

    -- A thread that ends where an operation of cache.c ends, with free locks.
    abbrev pub Ends : (Ptr → Pc) → (p : Pc) → Shared locks → Outcome → Type 0
    Ends to p m (returned r c) = (m' : Shared locks) × Run (to r) m' p m × IsIdle m' c
    Ends to p m _ = Unit

    pub Ends-go :
        (to : Ptr → Pc) (o : Outcome) {p q : Pc} {m n : Shared locks}
        → Run q n p m
        → Ends to q n o
        → Ends to p m o
    Ends-go to (returned r c) run (m', rest, idle) = (m', Run-trans run rest, idle)
    Ends-go to crashed run h = tt
    Ends-go to running run h = tt
