-- ===== src/Malloc/Rings.antt =====
-- The segregated free lists of mm.c as lists of blocks.
use computer_systems_practic.Prelude.{
  ℕ, zero, suc, ◌+◌, ◌-◌, ◌*◌, ◌≡◌, ◌≢◌, List, [], ◌∷◌, arith, length, drop, All,
}
use computer_systems_practic.Malloc.{Mem, next_empt_blkp}

module _ (first : ℕ) (m : Mem) where
  -- From a block on, the offsets lead through the blocks bs to the list head.
  abbrev pub IsRing : (head bp : ℕ) → List ℕ → Type 0
  IsRing head bp [] = bp ≡ head
  IsRing head bp (b ∷ bs) = (bp ≡ b) × (b ≢ head) × IsRing head (next_empt_blkp first m b) bs

  -- The lists of the table from one head on hold these blocks.
  abbrev pub IsTable : (head : ℕ) → List (List ℕ) → Type 0
  IsTable head [] = Unit
  IsTable head (bs ∷ rings) =
      IsRing head (next_empt_blkp first m head) bs × IsTable (head + 8) rings

  pub IsTable-drop :
      (n head : ℕ) (rings : List (List ℕ))
      → IsTable head rings
      → IsTable (head + n * 8) (drop n rings)
  IsTable-drop zero head rings t = let e : head + 0 * 8 ≡ head = omega arith in rw e t
  IsTable-drop (suc n) head [] t = tt
  IsTable-drop (suc n) head (bs ∷ rings) (r, t) =
      let e : head + suc n * 8 ≡ (head + 8) + n * 8 = omega arith in
      rw e (IsTable-drop n (head + 8) rings t)

pub length-drop : {A : Type 0} → (n : ℕ) (xs : List A) → length (drop n xs) ≡ length xs - n
length-drop zero xs = omega arith
length-drop (suc n) [] = omega arith
length-drop (suc n) (x ∷ xs) = omega (arith, length-drop n xs)

pub All-drop_n :
    {A : Type 0} → (P : A → Type 0) (n : ℕ) (xs : List A) → All P xs → All P (drop n xs)
All-drop_n P zero xs a = a
All-drop_n P (suc n) [] a = tt
All-drop_n P (suc n) (x ∷ xs) (p, a) = All-drop_n P n xs a
