-- ===== src/Proxy/Threads/Locks.antt =====
-- A read-write lock of the threads library, as the proxy uses it: an argument of the model.
use computer_systems_practic.Prelude.{ℕ, suc, ◌≡◌, Bool, true, false, Option, some}

-- A call that gives `none` blocks. `readers` and `writer` say who holds the lock.
pub record RwLock : Type 1 where
  pub Lock : Type 0
  pub rdlock : Lock → Option Lock
  pub wrlock : Lock → Option Lock
  pub unlock : Lock → Lock
  pub readers : Lock → ℕ
  pub writer : Lock → Bool
  -- A reader gets the lock only while no writer has it, a writer only while nobody has it.
  pub rdlock_shares :
      (l l' : Lock)
      → rdlock l ≡ some l'
      → (writer l ≡ false) × (readers l' ≡ suc (readers l)) × (writer l' ≡ false)
  pub wrlock_excludes :
      (l l' : Lock)
      → wrlock l ≡ some l'
      → (writer l ≡ false) × (readers l ≡ 0) × (readers l' ≡ 0) × (writer l' ≡ true)
  -- The release by the writer, and by one of the readers.
  pub unlock_writer :
      (l : Lock) → writer l ≡ true → (writer (unlock l) ≡ false) × (readers (unlock l) ≡ readers l)
  pub unlock_reader :
      (l : Lock) (r : ℕ)
      → writer l ≡ false
      → readers l ≡ suc r
      → (writer (unlock l) ≡ false) × (readers (unlock l) ≡ r)
  -- Nobody waits for a lock that nobody has.
  pub rdlock_free :
      (l : Lock) → writer l ≡ false → readers l ≡ 0 → (l' : Lock) × (rdlock l ≡ some l')
  pub wrlock_free :
      (l : Lock) → writer l ≡ false → readers l ≡ 0 → (l' : Lock) × (wrlock l ≡ some l')
