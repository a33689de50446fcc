-- ===== src/Proxy/Threads/Tests.antt =====
-- Threads of the proxy at concrete inputs.
use mathlib.Core.List.{mem-cons_self}
use computer_systems_practic.Prelude.{
  ℕ, suc, ◌-◌, ◌≡◌, refl, Bool, true, false, ◌||◌, Option, none, some, List, [], ◌∷◌, arith, ◌==◌,
  if◌then◌else◌, ltb,
}
use computer_systems_practic.Proxy.Cache.{
  add_line, CacheLine, Cache, find_line, get_object, remove_cache_line, insert_cache_line,
  unlink_prev, unlink_next, evict_lines, evict_round, evict_one, free_cache_line, add_object,
  strncpy,
}
use computer_systems_practic.Proxy.Cache.Writes.{data_of}
use computer_systems_practic.Proxy.Threads.{
  Pc, lookup, rdlock_insert, walk, test_found, move_up, send, wrlock_insert, done, Shared, advance,
  System, Reach, here,
}
use computer_systems_practic.Proxy.Threads.Locks.{RwLock}
use computer_systems_practic.Proxy.Threads.Exclusion.{IsStart}
use computer_systems_practic.Proxy.Threads.Steady.{list_kept, lines_kept}
use computer_systems_practic.Proxy.Threads.Progress.{no_deadlock, Place, Goes}
use computer_systems_practic.Proxy.Threads.Runs.{Run, stop, go, Run-Reach, IsIdle}
use computer_systems_practic.Proxy.Threads.GetAlone.{get_object_alone}
use computer_systems_practic.Proxy.Threads.AddAlone.{add_object_alone}

-- A lock that counts: its readers, and whether it has a writer.
record Counter : Type 0 where
  count : ℕ
  owned : Bool

unfoldable share : Counter → Option Counter
share l = if l.owned then none else some (record { count = suc l.count; owned = false })

unfoldable own : Counter → Option Counter
own l = if l.owned || ltb 0 l.count then none else some (record { count = 0; owned = true })

unfoldable leave : Counter → Counter
leave l =
    if l.owned
    then record { count = l.count; owned = false }
    else record { count = l.count - 1; owned = false }

share-shares :
    (l l' : Counter)
    → share l ≡ some l'
    → (l.owned ≡ false) × (l'.count ≡ suc l.count) × (l'.owned ≡ false)
unfolding share
share-shares l l' e = ground arith

own-excludes :
    (l l' : Counter)
    → own l ≡ some l'
    → (l.owned ≡ false) × (l.count ≡ 0) × (l'.count ≡ 0) × (l'.owned ≡ true)
unfolding own
own-excludes l l' e = ground arith

leave-owned :
    (l : Counter) → l.owned ≡ true → ((leave l).owned ≡ false) × ((leave l).count ≡ l.count)
unfolding leave
leave-owned l e = ground arith

leave-shared :
    (l : Counter) (r : ℕ)
    → l.owned ≡ false
    → l.count ≡ suc r
    → ((leave l).owned ≡ false) × ((leave l).count ≡ r)
unfolding leave
leave-shared l r e f = ground arith

share_free : (l : Counter) → l.owned ≡ false → l.count ≡ 0 → (l' : Counter) × (share l ≡ some l')
unfolding share
share_free l e f = (record { count = suc l.count; owned = false }, rw e refl)

own_free : (l : Counter) → l.owned ≡ false → l.count ≡ 0 → (l' : Counter) × (own l ≡ some l')
unfolding own
own_free l e f = (record { count = 0; owned = true }, rw (e, f) refl)

abbrev counters : RwLock
counters = record {
  Lock = Counter;
  rdlock = share;
  wrlock = own;
  unlock = leave;
  readers = λ l. l.count;
  writer = λ l. l.owned;
  rdlock_shares = share-shares;
  wrlock_excludes = own-excludes;
  unlock_writer = leave-owned;
  unlock_reader = leave-shared;
  rdlock_free = share_free;
  wrlock_free = own_free;
}

abbrev idle_lock : Counter
idle_lock = record { count = 0; owned = false }

-- A server that has one object, and a cache with one line at the address 0, of the uri a.
abbrev web : List ℕ → Option (List ℕ × ℕ)
web uri = some (b'z' ∷ b'z' ∷ [], 2)

abbrev page : CacheLine
page = record { prev = none; next = none; tag = b'a' ∷ []; object = b'y' ∷ []; length = 1 }

abbrev only : ℕ → Option CacheLine
only x = if x == 0 then some page else none

abbrev cached : Cache
cached = record { c_head = some 0; c_tail = some 0; remain_size = 1; lines = only; next_free = 1 }

abbrev at_rest : Shared counters
at_rest = record { cache = cached; insert_lock = idle_lock; update_lock = idle_lock }

abbrev two_clients : System counters
two_clients = record { shared = at_rest; threads = lookup (b'a' ∷ []) ∷ lookup (b'a' ∷ []) ∷ [] }

two_clients-IsStart : IsStart counters two_clients ((b'a' ∷ []) ∷ (b'a' ∷ []) ∷ [])
two_clients-IsStart = record {
  waiting = refl;
  insert_readers = refl;
  insert_writer = refl;
  update_readers = refl;
  update_writer = refl;
}

-- The first thread walks.
abbrev while_walking : Shared counters
while_walking = record at_rest {
  insert_lock = record { count = 1; owned = false };
  update_lock = record { count = 1; owned = false };
}

walking-Run :
    Run counters web (walk (b'a' ∷ []) (some 0)) while_walking (lookup (b'a' ∷ [])) at_rest
unfolding advance share
walking-Run = go refl (go refl (go refl stop))

abbrev a_walks : System counters
a_walks = record {
  shared = while_walking;
  threads = walk (b'a' ∷ []) (some 0) ∷ lookup (b'a' ∷ []) ∷ [];
}

a_walks-Reach : Reach counters web two_clients a_walks
a_walks-Reach = Run-Reach counters web [] (lookup (b'a' ∷ []) ∷ []) walking-Run here

list_kept_example : while_walking.cache ≡ a_walks.shared.cache
unfolding advance
list_kept_example =
    list_kept counters web two_clients a_walks ((b'a' ∷ []) ∷ (b'a' ∷ []) ∷ [])
      (walk (b'a' ∷ []) (some 0) ∷ []) [] (lookup (b'a' ∷ [])) (walk (b'a' ∷ []) (some 0))
      (rdlock_insert (b'a' ∷ []) (some 0)) while_walking two_clients-IsStart a_walks-Reach refl
      mem-cons_self refl refl

-- The first thread has found the line, and the second one is about to move it.
abbrev found_by_one : Shared counters
found_by_one = record at_rest { insert_lock = record { count = 1; owned = false } }

abbrev found_by_two : Shared counters
found_by_two = record at_rest {
  insert_lock = record { count = 2; owned = false };
  update_lock = record { count = 0; owned = true };
}

one-Run :
    Run counters web (test_found (b'a' ∷ []) (some 0)) found_by_one (lookup (b'a' ∷ [])) at_rest
unfolding advance share leave
one-Run = go refl (go refl (go refl (go refl (go refl stop))))

two-Run : Run counters web (move_up 0) found_by_two (lookup (b'a' ∷ [])) found_by_one
unfolding advance share leave own
two-Run = go refl (go refl (go refl (go refl (go refl (go refl stop)))))

abbrev b_moves : System counters
b_moves = record {
  shared = found_by_two;
  threads = test_found (b'a' ∷ []) (some 0) ∷ move_up 0 ∷ [];
}

b_moves-Reach : Reach counters web two_clients b_moves
b_moves-Reach =
    Run-Reach counters web (test_found (b'a' ∷ []) (some 0) ∷ []) [] two-Run
      (Run-Reach counters web [] (lookup (b'a' ∷ []) ∷ []) one-Run here)

lines_kept_example : data_of (found_by_two.cache.lines 0) ≡ data_of (b_moves.shared.cache.lines 0)
unfolding advance remove_cache_line insert_cache_line unlink_prev unlink_next
lines_kept_example =
    lines_kept counters web two_clients b_moves ((b'a' ∷ []) ∷ (b'a' ∷ []) ∷ [])
      (test_found (b'a' ∷ []) (some 0) ∷ []) [] (move_up 0) (test_found (b'a' ∷ []) (some 0))
      (Pc.unlock_update 0) found_by_two two_clients-IsStart b_moves-Reach refl mem-cons_self refl
      refl 0

-- The first thread waits for the update lock, which the second one has.
no_deadlock_example :
    Place b_moves.threads (λ p. Goes counters (advance counters web p b_moves.shared))
no_deadlock_example =
    no_deadlock counters web two_clients b_moves ((b'a' ∷ []) ∷ (b'a' ∷ []) ∷ []) []
      (move_up 0 ∷ []) (test_found (b'a' ∷ []) (some 0)) two_clients-IsStart b_moves-Reach refl
      (λ e. cc)

get_object_alone_example :
    (m' : Shared counters) × Run counters web (send 0) m' (lookup (b'a' ∷ [])) at_rest
    × IsIdle counters m' cached
unfolding get_object find_line remove_cache_line insert_cache_line unlink_prev unlink_next
get_object_alone_example =
    get_object_alone counters web 1 (b'a' ∷ []) at_rest (some 0) cached (refl, refl) (refl, refl)
      refl

-- The object needs the room of the line.
abbrev with_new : Cache
with_new = record {
  c_head = some 1;
  c_tail = some 1;
  remain_size = 0;
  lines = λ x.
      if x == 0
      then none
      else if x == 1
      then some (record {
        prev = none;
        next = none;
        tag = b'b' ∷ [];
        object = b'z' ∷ b'z' ∷ [];
        length = 2;
      })
      else only x;
  next_free = 2;
}

add_object_alone_example :
    (m' : Shared counters) × Run counters web done m'
      (wrlock_insert (b'b' ∷ []) (b'z' ∷ b'z' ∷ []) 2)
      at_rest
    × IsIdle counters m' with_new
unfolding add_object add_line evict_lines evict_round evict_one free_cache_line remove_cache_line
    insert_cache_line unlink_prev unlink_next strncpy
add_object_alone_example =
    add_object_alone counters web 1 (b'b' ∷ []) (b'z' ∷ b'z' ∷ []) 2 at_rest none with_new
      (refl, refl) (refl, refl) refl

abbrev a_client_each : System counters
a_client_each = record { shared = at_rest; threads = lookup (b'a' ∷ []) ∷ lookup (b'b' ∷ []) ∷ [] }
