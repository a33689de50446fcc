-- ===== src/Malloc/Heaps.antt =====
-- A well-formed heap of mm.c: a row of blocks with their tags, and free blocks that are linked.
pub mod Links
mod Tests
use computer_systems_practic.Prelude.{
  ℕ, zero, suc, ◌+◌, ◌-◌, ◌*◌, ◌%◌, ◌^◌, ◌≤◌, ◌<◌, ◌≡◌, ◌≢◌, refl, sym, ap, ◌∙◌, true, false, List,
  [], ◌∷◌, ◌++◌, arith, ◌⊎◌, inl, inr, ◌==◌, if◌then◌else◌, Bool-cases,
}
use computer_systems_practic.Malloc.{
  Mem, put, prev_sect, next_empt_blkp, prev_empt_blkp, ins_free_blk, del_free_blk,
}
use computer_systems_practic.Malloc.Cycle.{
  IsCycle, IsCycle-same, IsListed, IsListed-same, IsListed-remove, IsListed-insert, IsCycle-remove,
  IsCycle-insert,
}
use computer_systems_practic.Malloc.Lists.{ins_free_blk_words}
use computer_systems_practic.Malloc.Row.{
  Tag, IsTag, IsPart, TagAt, FreeAt, IsPart-le, IsPart-same, TagAt-bounds, FreeAt-bounds,
  FreeAt-off,
}
use computer_systems_practic.Malloc.Words.{
  IsWords, put-IsWords, ins_free_blk-IsWords, del_free_blk-IsWords,
}

module _ (first : ℕ) where
  -- An entry of the table of the lists, or a free block behind the prologue.
  abbrev pub IsPlace : List Tag → ℕ → Type 0
  IsPlace ts x = (x % 8 ≡ 0) × (first ≤ x) × (x < first + 80) ⊎ FreeAt (first + 96) ts x

  -- The tags are ts, the words of the tags are at their places, and the blocks of N are linked.
  pub record IsHeap (m : Mem) (brk : ℕ) (ts : List Tag) (N : ℕ → Type 0) : Type 0 where
    pub aligned : first % 8 ≡ 0
    pub small : brk ≤ first + 2 ^ 32
    pub words : IsWords m
    pub prologue : (m (first + 84) ≡ 9) × (m (first + 88) ≡ 9)
    pub row : IsPart m (first + 96) ts brk
    pub epilogue : m (brk - 4) ≡ 1
    pub nodes : (x : ℕ) → N x → IsPlace ts x
    pub table : (x : ℕ) → x % 8 ≡ 0 → first ≤ x → x < first + 80 → N x
    pub cycle : IsCycle N (next_empt_blkp first m) (prev_empt_blkp first m)
    pub lists : IsListed first N (next_empt_blkp first m)

  -- The words beside the links: the prologue, the tags, the epilogue.
  abbrev pub IsTagWord : (brk : ℕ) → List Tag → ℕ → Type 0
  IsTagWord brk ts x =
      (x ≡ first + 84) ⊎ ((x ≡ first + 88) ⊎ ((x + 4 ≡ brk) ⊎ TagAt (first + 96) ts x))

  -- All places are linked; and all but one block.
  abbrev pub IsHealthy : Mem → (brk : ℕ) → List Tag → Type 0
  IsHealthy m brk ts = IsHeap m brk ts (IsPlace ts)

  abbrev pub IsOpen : Mem → (brk : ℕ) → List Tag → (b : ℕ) → Type 0
  IsOpen m brk ts b = IsHeap m brk ts (λ x. IsPlace ts x × (x ≢ b))

  pub IsHeap-same :
      (m : Mem) (brk : ℕ) (ts : List Tag) (N N' : ℕ → Type 0)
      → ((x : ℕ) → N x → N' x)
      → ((x : ℕ) → N' x → N x)
      → IsHeap m brk ts N
      → IsHeap m brk ts N'
  IsHeap-same m brk ts N N' to from h = record {
    aligned = h.aligned;
    small = h.small;
    words = h.words;
    prologue = h.prologue;
    row = h.row;
    epilogue = h.epilogue;
    nodes = λ x n. h.nodes x (from x n);
    table = λ x a lo hi. to x (h.table x a lo hi);
    cycle = IsCycle-same N N' _ _ to from h.cycle;
    lists = IsListed-same first N N' _ _ from (λ x n. refl) h.lists;
  }

  module _ (m : Mem) (brk : ℕ) (ts : List Tag) (N : ℕ → Type 0) (h : IsHeap m brk ts N) where
    pub IsPlace-bounds :
        (x : ℕ) → IsPlace ts x → (x % 8 ≡ 0) × (first ≤ x) × (x < first + 2 ^ 32) × (x + 16 ≤ brk)
    IsPlace-bounds x (inl (a, lo, hi)) =
        let le = IsPart-le m (first + 96) ts brk h.row in (a, lo, omega arith, omega arith)
    IsPlace-bounds x (inr f) =
        let al = h.aligned in
        let small = h.small in
        let (lo, hi, a) = FreeAt-bounds m (first + 96) ts brk x (omega arith) h.row f in
        (a, omega arith, omega arith, hi)

    pub IsPlace-off : (b x : ℕ) → IsPlace ts b → IsTagWord brk ts x → (x ≢ b) × (x ≢ b + 4)
    IsPlace-off b x (inl (a, lo, hi)) (inl e) = let al = h.aligned in (omega arith, omega arith)
    IsPlace-off b x (inl (a, lo, hi)) (inr (inl e)) = (omega arith, omega arith)
    IsPlace-off b x (inl (a, lo, hi)) (inr (inr (inl e))) =
        let le = IsPart-le m (first + 96) ts brk h.row in (omega arith, omega arith)
    IsPlace-off b x (inl (a, lo, hi)) (inr (inr (inr t))) =
        let (l, r) = TagAt-bounds m (first + 96) ts brk x h.row t in (omega arith, omega arith)
    IsPlace-off b x (inr f) (inl e) =
        let al = h.aligned in
        let (lo, hi, a) = FreeAt-bounds m (first + 96) ts brk b (omega arith) h.row f in
        (omega arith, omega arith)
    IsPlace-off b x (inr f) (inr (inl e)) =
        let al = h.aligned in
        let (lo, hi, a) = FreeAt-bounds m (first + 96) ts brk b (omega arith) h.row f in
        (omega arith, omega arith)
    IsPlace-off b x (inr f) (inr (inr (inl e))) =
        let al = h.aligned in
        let (lo, hi, a) = FreeAt-bounds m (first + 96) ts brk b (omega arith) h.row f in
        (omega arith, omega arith)
    IsPlace-off b x (inr f) (inr (inr (inr t))) =
        let al = h.aligned in FreeAt-off m (first + 96) ts brk b x (omega arith) h.row f t

    -- Another memory with the same tags, whose links run through N'.
    pub IsHeap-links :
        (m1 : Mem) (N' : ℕ → Type 0)
        → IsWords m1
        → ((x : ℕ) → IsTagWord brk ts x → m1 x ≡ m x)
        → ((x : ℕ) → N' x → IsPlace ts x)
        → ((x : ℕ) → x % 8 ≡ 0 → first ≤ x → x < first + 80 → N' x)
        → IsCycle N' (next_empt_blkp first m1) (prev_empt_blkp first m1)
        → IsListed first N' (next_empt_blkp first m1)
        → IsHeap m1 brk ts N'
    IsHeap-links m1 N' w same places table c l =
        let le = IsPart-le m (first + 96) ts brk h.row in
        record {
          aligned = h.aligned;
          small = h.small;
          words = w;
          prologue = (
            same (first + 84) (inl refl) ∙ h.prologue.0,
            same (first + 88) (inr (inl refl)) ∙ h.prologue.1,
          );
          row =
              IsPart-same m m1 (first + 96) ts brk (omega arith) (λ x t. same x (inr (inr (inr t))))
                h.row;
          epilogue = same (brk - 4) (inr (inr (inl (omega arith)))) ∙ h.epilogue;
          nodes = places;
          table = table;
          cycle = c;
          lists = l;
        }
