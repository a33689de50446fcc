-- ===== src/Proxy/Threads/Exclusion.antt =====
-- What the two locks of cache.c keep apart.
use mathlib.Core.Logic.Or
use mathlib.Core.Path.{subst}
use mathlib.Core.List.{Mem, mem-cons, not-mem-nil}
use native.Mathlib.Bridge.{le_prop}
use computer_systems_practic.Prelude.{
  ℕ, ◌+◌, ◌≤◌, ◌≡◌, refl, sym, ap, ◌∙◌, false, Option, List, [], ◌∷◌, ◌++◌, map, arith,
}
use computer_systems_practic.Proxy.Threads.{
  Pc, lookup, Shared, System, Step, turn, Reach, here, later,
}
use computer_systems_practic.Proxy.Threads.Holders.{
  bit, reads_insert, writes_insert, reads_update, writes_update, total, total-split, IsHeld,
  IsCounted,
}
use computer_systems_practic.Proxy.Threads.Counts.{Next, advance-Next}
use computer_systems_practic.Proxy.Threads.Locks.{RwLock}

pub le_of_mem : (w : Pc → ℕ) (q : Pc) (ps : List Pc) → Mem q ps → w q ≤ total w ps
le_of_mem w q [] m = absurd (not-mem-nil m)
le_of_mem w q (p ∷ ps) m =
    Or.elim le_prop (mem-cons.0 m) (λ e. let f : w q ≡ w p = ap w e in omega arith)
      (λ r. let f = le_of_mem w q ps r in omega arith)

total-lookup :
    (w : Pc → ℕ) (uris : List (List ℕ))
    → ((uri : List ℕ) → w (lookup uri) ≡ 0)
    → total w (map lookup uris) ≡ 0
total-lookup w [] z = refl
total-lookup w (uri ∷ uris) z = let f = z uri in let g = total-lookup w uris z in omega arith

module _ (locks : RwLock) where
  open locks use {readers, writer}

  -- The clients' threads, before their first step, with locks that nobody holds.
  pub record IsStart (s : System locks) (uris : List (List ℕ)) : Type 0 where
    pub waiting : s.threads ≡ map lookup uris
    pub insert_readers : readers s.shared.insert_lock ≡ 0
    pub insert_writer : writer s.shared.insert_lock ≡ false
    pub update_readers : readers s.shared.update_lock ≡ 0
    pub update_writer : writer s.shared.update_lock ≡ false

  -- Both locks count the threads that hold them.
  pub record IsLocked (s : System locks) : Type 0 where
    pub insert_held :
        IsHeld locks s.shared.insert_lock
          (total reads_insert s.threads)
          (total writes_insert s.threads)
    pub update_held :
        IsHeld locks s.shared.update_lock
          (total reads_update s.threads)
          (total writes_update s.threads)

  pub start-IsLocked : (s : System locks) (uris : List (List ℕ)) → IsStart s uris → IsLocked s
  start-IsLocked s uris h =
      let none_of : (w : Pc → ℕ) → ((uri : List ℕ) → w (lookup uri) ≡ 0) → total w s.threads ≡ 0 =
        λ w z. ap (total w) h.waiting ∙ total-lookup w uris z in
      record {
        insert_held = record {
          read = h.insert_readers ∙ sym (none_of reads_insert (λ u. refl));
          written = ap bit h.insert_writer ∙ sym (none_of writes_insert (λ u. refl));
          alone = λ q. none_of reads_insert (λ u. refl);
        };
        update_held = record {
          read = h.update_readers ∙ sym (none_of reads_update (λ u. refl));
          written = ap bit h.update_writer ∙ sym (none_of writes_update (λ u. refl));
          alone = λ q. none_of reads_update (λ u. refl);
        };
      }

  IsHeld-same :
      (l : locks.Lock) (r r' w w' : ℕ) → r ≡ r' → w ≡ w' → IsHeld locks l r w → IsHeld locks l r' w'
  IsHeld-same l r r' w w' e f h = rw (sym e, sym f) h

  -- The same for a thread and the others.
  pub IsLocked-split :
      (s : System locks) (before after : List Pc) (p : Pc)
      → s.threads ≡ before ++ p ∷ after
      → IsLocked s
      → IsCounted locks s.shared
          (total reads_insert (before ++ after))
          (total writes_insert (before ++ after))
          (total reads_update (before ++ after))
          (total writes_update (before ++ after))
          p
  IsLocked-split s before after p e h =
      let part : (w : Pc → ℕ) → total w s.threads ≡ total w (before ++ after) + w p =
        λ w. ap (total w) e ∙ total-split w before after p in
      record {
        insert_held = IsHeld-same _ _ _ _ _ (part reads_insert) (part writes_insert) h.insert_held;
        update_held = IsHeld-same _ _ _ _ _ (part reads_update) (part writes_update) h.update_held;
      }

  IsLocked-join :
      (m : Shared locks) (before after : List Pc) (p : Pc)
      → IsCounted locks m
          (total reads_insert (before ++ after))
          (total writes_insert (before ++ after))
          (total reads_update (before ++ after))
          (total writes_update (before ++ after))
          p
      → IsLocked (record { shared = m; threads = before ++ p ∷ after })
  IsLocked-join m before after p h =
      let part : (w : Pc → ℕ) → total w (before ++ after) + w p ≡ total w (before ++ p ∷ after) =
        λ w. sym (total-split w before after p) in
      record {
        insert_held = IsHeld-same _ _ _ _ _ (part reads_insert) (part writes_insert) h.insert_held;
        update_held = IsHeld-same _ _ _ _ _ (part reads_update) (part writes_update) h.update_held;
      }

  module _ (server : List ℕ → Option (List ℕ × ℕ)) where
    Step-IsLocked : (s t : System locks) → Step locks server s t → IsLocked s → IsLocked t
    Step-IsLocked s t (turn before after p p' m at e) h = IsLocked-join m before after p' (
        subst (Next locks server _ _ _ _) e
          (advance-Next locks server _ _ _ _ p s.shared (IsLocked-split s before after p at h)))

    pub Reach-IsLocked : {s t : System locks} → Reach locks server s t → IsLocked s → IsLocked t
    Reach-IsLocked here h = h
    Reach-IsLocked (later r st) h = Step-IsLocked _ _ st (Reach-IsLocked r h)
