-- ===== src/Proxy/Threads/Holders.antt =====
-- Which thread of the proxy holds which lock, and that the locks count their holders.
use computer_systems_practic.Prelude.{
  ℕ, ◌+◌, ◌<◌, ◌≡◌, refl, sym, ap, ◌∙◌, Bool, true, false, some, List, [], ◌∷◌, ◌++◌, arith,
}
use computer_systems_practic.Proxy.Threads.{
  Pc, rdlock_update, walk, unlock_walk, test_found, move_up, unlock_update, unlock_insert, fill,
  evict, place, unlock_added, Shared,
}
use computer_systems_practic.Proxy.Threads.Locks.{RwLock}

-- How often a thread holds a lock as a reader or as the writer.
abbrev pub reads_insert : Pc → ℕ
reads_insert (rdlock_update uri cursor) = 1
reads_insert (walk uri cursor) = 1
reads_insert (unlock_walk uri cursor) = 1
reads_insert (test_found uri cursor) = 1
reads_insert (move_up a) = 1
reads_insert (unlock_update a) = 1
reads_insert (unlock_insert a) = 1
reads_insert _ = 0

abbrev pub writes_insert : Pc → ℕ
writes_insert (fill uri object length) = 1
writes_insert (evict target length temp_size) = 1
writes_insert (place target length) = 1
writes_insert unlock_added = 1
writes_insert _ = 0

abbrev pub reads_update : Pc → ℕ
reads_update (walk uri cursor) = 1
reads_update (unlock_walk uri cursor) = 1
reads_update _ = 0

abbrev pub writes_update : Pc → ℕ
writes_update (move_up a) = 1
writes_update (unlock_update a) = 1
writes_update _ = 0

-- The sum of a weight over the threads.
abbrev pub total : (Pc → ℕ) → List Pc → ℕ
total w [] = 0
total w (p ∷ ps) = w p + total w ps

pub total-append : (w : Pc → ℕ) (ps qs : List Pc) → total w (ps ++ qs) ≡ total w ps + total w qs
total-append w [] qs = omega arith
total-append w (p ∷ ps) qs = omega (arith, total-append w ps qs)

pub total-split :
    (w : Pc → ℕ) (before after : List Pc) (p : Pc)
    → total w (before ++ p ∷ after) ≡ total w (before ++ after) + w p
total-split w before after p =
    omega (arith, total-append w before (p ∷ after), total-append w before after)

abbrev pub bit : Bool → ℕ
bit true = 1
bit false = 0

pub bit-false : (b : Bool) → bit b ≡ 0 → b ≡ false
bit-false false e = refl
bit-false true e = absurd (omega arith)

module _ (locks : RwLock) where
  open locks use {
    Lock, rdlock, wrlock, unlock, readers, writer, rdlock_shares, wrlock_excludes, unlock_writer,
    unlock_reader,
  }

  -- A lock with r readers and w writers.
  pub record IsHeld (l : Lock) (r w : ℕ) : Type 0 where
    pub read : readers l ≡ r
    pub written : bit (writer l) ≡ w
    pub alone : 0 < w → r ≡ 0

  pub rdlock-IsHeld :
      (l l' : Lock) (r w : ℕ)
      → IsHeld l (r + 0) (w + 0)
      → rdlock l ≡ some l'
      → IsHeld l' (r + 1) (w + 0)
  rdlock-IsHeld l l' r w h e =
      let (free, more, still) = rdlock_shares l l' e in
      let none_writes : w + 0 ≡ 0 = sym (h.written) ∙ ap bit free in
      let f = h.read in
      record {
        read = omega arith;
        written = ap bit still ∙ omega arith;
        alone = λ q. absurd (omega arith);
      }

  pub wrlock-IsHeld :
      (l l' : Lock) (r w : ℕ)
      → IsHeld l (r + 0) (w + 0)
      → wrlock l ≡ some l'
      → IsHeld l' (r + 0) (w + 1)
  wrlock-IsHeld l l' r w h e =
      let (free, nobody, none_reads, now) = wrlock_excludes l l' e in
      let none_writes : w + 0 ≡ 0 = sym (h.written) ∙ ap bit free in
      let f = h.read in
      record { read = omega arith; written = ap bit now ∙ omega arith; alone = λ q. omega arith }

  bit-true : (b : Bool) (n : ℕ) → bit b ≡ n → 0 < n → b ≡ true
  bit-true true n e h = refl
  bit-true false n e h = absurd (omega arith)

  pub unlock-read :
      (l : Lock) (r w : ℕ) → IsHeld l (r + 1) (w + 0) → IsHeld (unlock l) (r + 0) (w + 0)
  unlock-read l r w h =
      let alone = h.alone in
      let read = h.read in
      let idle : w ≡ 0 = ground arith in
      let no_writer = bit-false (writer l) (h.written ∙ omega arith) in
      let (still, fewer) = unlock_reader l r no_writer (read ∙ omega arith) in
      record {
        read = omega arith;
        written = ap bit still ∙ omega arith;
        alone = λ q. absurd (omega arith);
      }

  pub unlock-write :
      (l : Lock) (r w : ℕ) → IsHeld l (r + 0) (w + 1) → IsHeld (unlock l) (r + 0) (w + 0)
  unlock-write l r w h =
      let owned = bit-true (writer l) (w + 1) h.written (omega arith) in
      let (free, same) = unlock_writer l owned in
      let one : 1 ≡ w + 1 = sym (ap bit owned) ∙ h.written in
      let read = h.read in
      record {
        read = omega arith;
        written = ap bit free ∙ omega arith;
        alone = λ q. absurd (omega arith);
      }

  -- Both locks count their holders: those of the thread p, and those of the other threads.
  pub record IsCounted (m : Shared locks) (ri wi ru wu : ℕ) (p : Pc) : Type 0 where
    pub insert_held : IsHeld m.insert_lock (ri + reads_insert p) (wi + writes_insert p)
    pub update_held : IsHeld m.update_lock (ru + reads_update p) (wu + writes_update p)
