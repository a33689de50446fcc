-- ===== src/Malloc/Extended.antt =====
-- `extend_heap` of mm.c on a well-formed heap.
pub mod Returned
use mathlib.Core.Path.{subst}
use computer_systems_practic.Prelude.{
  ℕ, ◌+◌, ◌-◌, ◌*◌, ◌%◌, ◌^◌, ◌≤◌, ◌<◌, ◌≡◌, ◌≢◌, refl, sym, ap, ◌∙◌, Bool, true, false, Option,
  none, some, List, [], ◌∷◌, ◌++◌, arith, inl, inr, ◌==◌, if◌then◌else◌, Bool-cases,
}
use computer_systems_practic.Malloc.{
  Mem, put, pack, put_tags, get_size, hdrp, next_blkp, next_empt_blkp, prev_empt_blkp, coalesce,
  Heap, extend_heap,
}
use computer_systems_practic.Malloc.Cycle.{IsCycle-agree, IsCycle-same, IsListed-same}
use computer_systems_practic.Malloc.Row.{
  Tag, IsTag, IsPart, IsPart-le, IsPart-append, IsPart-same, TagAt-bounds, FreeAt-left,
  FreeAt-split,
}
use computer_systems_practic.Malloc.Used.{UsedAt-split, UsedAt-left}
use computer_systems_practic.Malloc.Heaps.{IsPlace, IsHealthy, IsOpen, IsPlace-bounds}
use computer_systems_practic.Malloc.Retag.{get_size-word, put_tags_words, put_tags-IsPart}
use computer_systems_practic.Malloc.Settle.{free_tag}
use computer_systems_practic.Malloc.Merge.{Coalesced}
use computer_systems_practic.Malloc.Coalesce.{coalesce-Joins}
use computer_systems_practic.Malloc.Words.{put-IsWords, put_tags-IsWords}

module _ (first : ℕ) where
  module _ (m : Mem) (brk size : ℕ) (ts : List Tag) (h : IsHealthy first m brk ts)
      (multiple : size % 8 ≡ 0) (least : 16 ≤ size) (limit : brk + size ≤ first + 2 ^ 32) where
    low : first + 96 ≤ brk
    low = IsPart-le m (first + 96) ts brk h.row

    pub new_IsTag : IsTag (free_tag size)
    new_IsTag =
        let lo = low in
        record { multiple = multiple; least = least; small = omega arith; bit = omega arith }

    -- The block, then the new epilogue.
    abbrev pub grown : Mem
    grown = put (put_tags first m brk size 0) (brk + size - 4) 1

    grown_words :
        (x : ℕ)
        → grown x ≡ (
            if x == brk + size - 4
            then 1
            else if x == brk + size - 8
            then size + 0
            else if x == brk - 4
            then size + 0
            else m x)
    grown_words x = elim (Bool-cases (x == brk + size - 4)) [
      | inl e ↦ rw e refl
      | inr e ↦ rw e (put_tags_words first m brk (free_tag size) new_IsTag x)
    ]

    grown_below : (x : ℕ) → x + 4 < brk → grown x ≡ m x
    grown_below x below =
        let lo = low in
        let e : x == brk + size - 4 ≡ false = ground arith in
        let f : x == brk + size - 8 ≡ false = ground arith in
        let g : x == brk - 4 ≡ false = ground arith in grown_words x ∙ rw (e, f, g) refl

    at_old : IsPart grown (first + 96) ts brk
    at_old =
        let lo = low in
        IsPart-same m grown (first + 96) ts brk (omega arith)
          (λ x t. let (a, b) = TagAt-bounds m (first + 96) ts brk x h.row t in grown_below x b)
          h.row

    at_grown : IsPart grown brk (free_tag size ∷ []) (brk + size)
    at_grown =
        let lo = low in
        let e : brk - 4 == brk + size - 4 ≡ false = ground arith in
        let f : brk - 4 == brk + size - 8 ≡ false = ground arith in
        let g : brk - 4 == brk - 4 ≡ true = ground arith in
        let e' : brk + size - 8 == brk + size - 4 ≡ false = ground arith in
        let f' : brk + size - 8 == brk + size - 8 ≡ true = ground arith in
        (
          new_IsTag,
          grown_words (brk - 4) ∙ rw (e, f, g) refl,
          grown_words (brk + size - 8) ∙ rw (e', f') refl,
          refl,
        )

    stays : (x : ℕ) → IsPlace first ts x → (grown x ≡ m x) × (grown (x + 4) ≡ m (x + 4))
    stays x p =
        let (a, lo, hi, end) = IsPlace-bounds first m brk ts (IsPlace first ts) h x p in
        (grown_below x (omega arith), grown_below (x + 4) (omega arith))

    IsPlace-new :
        (x : ℕ) → IsPlace first ts x → IsPlace first (ts ++ (free_tag size ∷ [])) x × (x ≢ brk)
    IsPlace-new x p =
        let (a, lo, hi, end) = IsPlace-bounds first m brk ts (IsPlace first ts) h x p in
        (
          elim p [
            | inl t ↦ inl t
            | inr f ↦ inr (FreeAt-left (first + 96) x ts (free_tag size ∷ []) f)
          ],
          omega arith,
        )

    IsPlace-old :
        (x : ℕ) → IsPlace first (ts ++ (free_tag size ∷ [])) x × (x ≢ brk) → IsPlace first ts x
    IsPlace-old x (inl t, ne) = inl t
    IsPlace-old x (inr f, ne) =
        elim (FreeAt-split m (first + 96) brk x ts (free_tag size ∷ []) h.row f) [
          | inl g ↦ inr g
          | inr (inl (e, z)) ↦ absurd (ne e)
          | inr (inr nil) ↦ absurd nil
        ]

    grown-IsOpen : IsOpen first grown (brk + size) (ts ++ (free_tag size ∷ [])) brk
    grown-IsOpen =
        let lo = low in
        let e : brk + size - 4 == brk + size - 4 ≡ true = ground arith in
        let next = next_empt_blkp first m in
        let next' = next_empt_blkp first grown in
        let same_next : (x : ℕ) → IsPlace first ts x → next' x ≡ next x =
          λ x n. ap (λ v. first + v) (stays x n).0 in
        record {
          aligned = h.aligned;
          small = limit;
          words = put-IsWords _ (brk + size - 4) 1 (put_tags-IsWords first m brk size 0 h.words);
          prologue = (
            grown_below (first + 84) (omega arith) ∙ h.prologue.0,
            grown_below (first + 88) (omega arith) ∙ h.prologue.1,
          );
          row =
              IsPart-append grown (first + 96) brk (brk + size) ts (free_tag size ∷ []) at_old
                at_grown;
          epilogue = rw e refl;
          nodes = λ x n. n.0;
          table = λ x a lo hi. IsPlace-new x (inl (a, lo, hi));
          cycle = IsCycle-same (IsPlace first ts) _ _ _ IsPlace-new IsPlace-old (
              IsCycle-agree (IsPlace first ts) next (prev_empt_blkp first m) next'
                (prev_empt_blkp first grown) same_next (λ x n. ap (λ v. first + v) (stays x n).1)
                h.cycle);
          lists =
              IsListed-same first (IsPlace first ts) _ next next' IsPlace-old
                (λ x n. same_next x (IsPlace-old x n)) h.lists;
        }

    -- The new block, merged with a free one before it.
    pub grown-Coalesced :
        Coalesced first
          (ts ++ (free_tag size ∷ []))
          size
          (coalesce first grown brk).0
          (brk + size)
          (coalesce first grown brk).1
    grown-Coalesced = coalesce-Joins first grown (brk + size) brk size ts [] grown-IsOpen at_old
