-- ===== src/Malloc/Settle.antt =====
-- A free block of mm.c that is put together from a part of the row and goes to its list.
use computer_systems_practic.Prelude.{
  ℕ, ◌+◌, ◌%◌, ◌^◌, ◌≤◌, ◌<◌, ◌≡◌, ◌≢◌, refl, List, [], ◌∷◌, ◌++◌, arith, ◌⊎◌, inl, inr,
}
use computer_systems_practic.Malloc.{Mem, put_tags, list_index, ins_free_blk}
use computer_systems_practic.Malloc.Sizes.{list_index_lem}
use computer_systems_practic.Malloc.Row.{
  Tag, IsTag, IsPart, FreeAt, IsPart-le, IsPart-aligned, FreeAt-bounds, FreeAt-right,
}
use computer_systems_practic.Malloc.Heaps.{IsPlace, IsHeap, IsHealthy, IsHeap-same}
use computer_systems_practic.Malloc.Heaps.Links.{ins-IsHeap}
use computer_systems_practic.Malloc.Retag.{
  put_tags-IsPart, put_tags-outside, places, stays, retag-IsHeap,
}
use computer_systems_practic.Malloc.Words.{put_tags-IsWords}

pub list_index_few : (size : ℕ) → size < 2 ^ 64 → list_index size < 10
list_index_few size h = elim (list_index_lem size h) [
  | inl (e, big) ↦ omega arith
  | inr (few, power, rest) ↦ omega arith
]

abbrev pub free_tag : ℕ → Tag
free_tag size = record { size = size; alloc = 0 }

module _ (first : ℕ) where
  module _ (m : Mem) (brk b size : ℕ) (pre old post : List Tag) (N : ℕ → Type 0)
      (h : IsHeap first m brk (pre ++ (old ++ post)) N) (at_pre : IsPart m (first + 96) pre b)
      (at_old : IsPart m b old (b + size)) (at_post : IsPart m (b + size) post brk)
      (k : IsTag (free_tag size)) (out : (x : ℕ) → N x → FreeAt b old x → ⊥)
      (full : (x : ℕ) → IsPlace first (pre ++ (old ++ post)) x → FreeAt b old x ⊎ N x) where
    abbrev tagged : Mem
    tagged = put_tags first m b size 0

    low : first + 96 ≤ b
    low = IsPart-le m (first + 96) pre b at_pre

    at_new : IsPart tagged b (free_tag size ∷ []) (b + size)
    at_new = let le = low in put_tags-IsPart first m b (free_tag size) k (omega arith)

    away : (x : ℕ) → (x + 4 < b) ⊎ (b + size ≤ x + 4) → tagged x ≡ m x
    away x o = let le = low in put_tags-outside first m b (free_tag size) k x (omega arith) o

    retagged : IsHeap first tagged brk (pre ++ ((free_tag size ∷ []) ++ post)) N
    retagged =
        retag-IsHeap first m tagged brk b (b + size) pre old (free_tag size ∷ []) post N h at_pre
          at_old at_post away at_new out (put_tags-IsWords first m b size 0 h.words)

    -- Such a block is in its list, and all the others are in theirs.
    pub settle-IsHealthy :
        IsHealthy first
          (ins_free_blk first tagged b (list_index size))
          brk
          (pre ++ (free_tag size ∷ post))
    settle-IsHealthy =
        let small = k.small in
        let least = k.least in
        let start : (first + 96) % 8 ≡ 0 = let al = h.aligned in omega arith in
        let free : FreeAt (first + 96) (pre ++ (free_tag size ∷ post)) b =
          FreeAt-right m (first + 96) b b pre (free_tag size ∷ post) at_pre (inl (refl, refl)) in
        let apart : (x : ℕ) → N x → x ≢ b = λ x n.
          elim (stays first m tagged brk b (b + size) pre old (free_tag size ∷ []) post N h at_pre
            at_old at_post away at_new out x n).1 [
              | inl below ↦ omega arith
              | inr above ↦ omega arith
            ] in
        IsHeap-same first (ins_free_blk first tagged b (list_index size)) brk
          (pre ++ (free_tag size ∷ post)) (λ x. N x ⊎ (x ≡ b))
          (IsPlace first (pre ++ (free_tag size ∷ post)))
          (λ x n. elim n [ inl q ↦ retagged.nodes x q | inr e ↦ rw e (inr free) ])
          (λ x p.
            elim (places first m tagged m m brk b (b + size) x pre (free_tag size ∷ []) old post
              start at_pre at_new at_post at_old p) [
                | inl (inl (e, z)) ↦ inr e
                | inl (inr none) ↦ absurd none
                | inr (q, side) ↦ elim (full x q) [
                  | inr n ↦ inl n
                  | inl inside ↦
                      let ab = IsPart-aligned m (first + 96) pre b start at_pre in
                      let (lo, hi, al) = FreeAt-bounds m b old (b + size) x ab at_old inside in
                      absurd (elim side [ inl below ↦ omega arith | inr above ↦ omega arith ])
                ]
              ])
          (ins-IsHeap first tagged brk (pre ++ (free_tag size ∷ post)) N retagged b
            (list_index size) free apart (list_index_few size (omega arith)))
