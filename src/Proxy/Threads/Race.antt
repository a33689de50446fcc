-- ===== src/Proxy/Threads/Race.antt =====
-- Two threads of the proxy: what the locks of cache.c do not cover.
use computer_systems_practic.Prelude.{
  ℕ, ◌+◌, ◌-◌, ◌%◌, ◌^◌, ◌<◌, ◌≡◌, true, false, Option, none, some, List, [], ◌∷◌, ltb, str_beq,
  if◌then◌else◌, ◌==◌,
}
use computer_systems_practic.Proxy.Cache.{CacheLine, Cache, fits_line, new_line}
use computer_systems_practic.Proxy.Threads.{lookup, Shared, System}
use computer_systems_practic.Proxy.Threads.Locks.{RwLock}

module _ (a n r nl : ℕ) (old : a < n) (tag object : List ℕ) (m : ℕ → Option CacheLine)
    (at : m a
      ≡ some (record { prev = none; next = none; tag = tag; object = object; length = nl })) where
  -- A cache with one line, at the address a.
  abbrev pub one_line : Cache
  one_line = record { c_head = some a; c_tail = some a; remain_size = r; lines = m; next_free = n }

  module _ (uri new : List ℕ) (len : ℕ) where
    abbrev with_new : ℕ → Option CacheLine
    with_new x = if x == n then some (new_line uri new len) else m x

    abbrev added : Cache
    added = record {
      c_head = some n;
      c_tail = some n;
      remain_size = ((r + nl) % 2 ^ 32 + 2 ^ 32 - len) % 2 ^ 32;
      lines = λ x. if x == a then none else with_new x;
      next_free = n + 1;
    }

    abbrev filled_in : Cache
    filled_in = record {
      c_head = some a;
      c_tail = some a;
      remain_size = r;
      lines = with_new;
      next_free = n + 1;
    }

    abbrev emptied : Cache
    emptied = record {
      c_head = none;
      c_tail = none;
      remain_size = (r + nl) % 2 ^ 32;
      lines = λ x. if x == a then none else with_new x;
      next_free = n + 1;
    }

  module _ (locks : RwLock) (server : List ℕ → Option (List ℕ × ℕ)) (uri uri' new : List ℕ)
      (len : ℕ) (cached : str_beq tag uri ≡ true) (other : str_beq tag uri' ≡ false)
      (brings : server uri' ≡ some (new, len)) (full : ltb r len ≡ true)
      (fits : fits_line uri' len ≡ true) where
    abbrev both : Shared locks → System locks
    both k = record { shared = k; threads = lookup uri ∷ lookup uri' ∷ [] }
