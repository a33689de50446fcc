-- ===== src/Malloc/Merge.antt =====
-- `coalesce` of mm.c on a well-formed heap.
pub mod Cases
use computer_systems_practic.Prelude.{
  ℕ, ◌+◌, ◌-◌, ◌≤◌, ◌<◌, ◌≡◌, ◌≢◌, refl, sym, List, [], ◌∷◌, ◌++◌, arith, ◌⊎◌, inl, inr, ◌↔◌, ◌==◌,
  Bool-cases,
}
use computer_systems_practic.Malloc.{
  Mem, put_tags, get_size, hdrp, list_index, ins_free_blk, del_free_blk, merge_prev, merge_next,
  merge_both,
}
use computer_systems_practic.Malloc.Row.{
  Tag, IsTag, IsPart, FreeAt, IsPart-le, IsPart-move, FreeAt-right,
}
use computer_systems_practic.Malloc.Used.{UsedAt, UsedAt-swap}
use computer_systems_practic.Malloc.Heaps.{IsPlace, IsHeap, IsHealthy, IsOpen, IsHeap-same}
use computer_systems_practic.Malloc.Heaps.Links.{ins-IsHeap, del-IsHeap}
use computer_systems_practic.Malloc.Retag.{get_size-word}
use computer_systems_practic.Malloc.Settle.{list_index_few, free_tag, settle-IsHealthy}

module _ (first : ℕ) where
  -- A well-formed heap with a free block at b of at least the size s, and the allocated blocks of the
  -- row ts.
  pub record Coalesced (ts : List Tag) (s : ℕ) (m : Mem) (brk b : ℕ) : Type 0 where
    pub pre : List Tag
    pub size : ℕ
    pub post : List Tag
    pub healthy : IsHealthy first m brk (pre ++ (free_tag size ∷ post))
    pub at : IsPart m (first + 96) pre b
    pub room : s ≤ size
    pub used :
        (x v : ℕ)
        → UsedAt (first + 96) ts x v ↔ UsedAt (first + 96) (pre ++ (free_tag size ∷ post)) x v

  -- The part `old`, whose blocks are free and not linked, becomes one block.
  pub settled :
      (m : Mem) (brk b size s : ℕ) (pre old post : List Tag) (N : ℕ → Type 0)
      → IsHeap first m brk (pre ++ (old ++ post)) N
      → IsPart m (first + 96) pre b
      → IsPart m b old (b + size)
      → IsPart m (b + size) post brk
      → IsTag (free_tag size)
      → ((x : ℕ) → N x → FreeAt b old x → ⊥)
      → ((x : ℕ) → IsPlace first (pre ++ (old ++ post)) x → FreeAt b old x ⊎ N x)
      → ((x v : ℕ) → UsedAt b old x v → ⊥)
      → s ≤ size
      → Coalesced
          (pre ++ (old ++ post))
          s
          (ins_free_blk first (put_tags first m b size 0) b (list_index size))
          brk
          b
  settled m brk b size s pre old post N h at_pre at_old at_post k out full unused room =
      let r =
        settle-IsHealthy first m brk b size pre old post N h at_pre at_old at_post k out full in
      let m1 = ins_free_blk first (put_tags first m b size 0) b (list_index size) in
      let (new_pre, (k', hd, ft, rest)) =
        IsPart-move m m1 (first + 96) b brk pre (free_tag size ∷ post) at_pre r.row in
      let at_new : IsPart m1 b (free_tag size ∷ []) (b + size) = (k', hd, ft, refl) in
      record {
        pre = pre;
        size = size;
        post = post;
        healthy = r;
        at = new_pre;
        room = room;
        used = λ x v. (
          (λ a.
              elim (UsedAt-swap m m m1 (first + 96) b (b + size) x v pre old (free_tag size ∷ [])
                post at_pre at_old at_new a) [
                  | inl inside ↦ absurd (unused x v inside)
                  | inr kept ↦ kept
                ]),
          (λ a.
              elim (UsedAt-swap m m1 m (first + 96) b (b + size) x v pre (free_tag size ∷ []) old
                post at_pre at_new at_old a) [
                  | inl (inl (e, z, g)) ↦ absurd (omega arith)
                  | inl (inr none) ↦ absurd none
                  | inr kept ↦ kept
                ]),
        );
      }

  -- A heap in which only the free block b is not linked.
  module _ (m : Mem) (brk b s : ℕ) (pre post : List Tag)
      (h : IsOpen first m brk (pre ++ (free_tag s ∷ post)) b)
      (at_pre : IsPart m (first + 96) pre b) where
    pub at_rest : IsPart m b (free_tag s ∷ post) brk
    at_rest = (IsPart-move m m (first + 96) b brk pre (free_tag s ∷ post) at_pre h.row).1

    pub size_here : get_size m (hdrp b) ≡ s
    size_here = get_size-word m (b - 4) (free_tag s) at_rest.0 (at_rest.1)

    free_here : FreeAt (first + 96) (pre ++ (free_tag s ∷ post)) b
    free_here = FreeAt-right m (first + 96) b b pre (free_tag s ∷ post) at_pre (inl (refl, refl))

    pub alone :
        Coalesced
          (pre ++ (free_tag s ∷ post))
          s
          (ins_free_blk first m b (list_index (get_size m (hdrp b))))
          brk
          b
    alone =
        let k = at_rest.0 in
        let small = k.small in
        let m1 = ins_free_blk first m b (list_index (get_size m (hdrp b))) in
        let few : list_index (get_size m (hdrp b)) < 10 =
          rw size_here (list_index_few s (omega arith)) in
        let r =
          ins-IsHeap first m brk (pre ++ (free_tag s ∷ post)) _ h b _ free_here (λ x n. n.1) few in
        record {
          pre = pre;
          size = s;
          post = post;
          healthy =
              IsHeap-same first m1 brk (pre ++ (free_tag s ∷ post)) _
                (IsPlace first (pre ++ (free_tag s ∷ post)))
                (λ x n. elim n [ inl p ↦ p.0 | inr e ↦ rw e (inr free_here) ])
                (λ x p. elim (Bool-cases (x == b)) [
                  | inl e ↦ inr (ground arith)
                  | inr e ↦ inl (p, ground arith)
                ])
                r;
          at = (IsPart-move m m1 (first + 96) b brk pre (free_tag s ∷ post) at_pre r.row).0;
          room = omega arith;
          used = λ x v. (λ a. a, λ a. a);
        }

  -- Two free blocks, one behind the other, of which at least one is not linked, and none is any more
  -- in the memory m.
  pub pair :
      (m : Mem) (brk b s r : ℕ) (pre post : List Tag) (N : ℕ → Type 0)
      → IsHeap first m brk (pre ++ (free_tag s ∷ (free_tag r ∷ post))) N
      → IsPart m (first + 96) pre b
      → ((x : ℕ) → N x → (x ≢ b) × (x ≢ b + s))
      → ((x : ℕ)
          → IsPlace first (pre ++ (free_tag s ∷ (free_tag r ∷ post))) x
          → x ≢ b
          → x ≢ b + s
          → N x)
      → (o : ℕ) → o ≤ s + r
      → Coalesced
          (pre ++ (free_tag s ∷ (free_tag r ∷ post)))
          o
          (ins_free_blk first (put_tags first m b (s + r) 0) b (list_index (s + r)))
          brk
          b
  pair m brk b s r pre post N h at_pre out full o room =
      let (k, hd, ft, (k', hd', ft', rest)) =
        (IsPart-move m m (first + 96) b brk pre (free_tag s ∷ (free_tag r ∷ post)) at_pre
          h.row).1 in
      let lo = IsPart-le m (first + 96) pre b at_pre in
      let hi = IsPart-le m (b + s + r) post brk rest in
      let limit = h.small in
      let least = k.least in
      let twice = k.multiple in
      let twice' = k'.multiple in
      let e : b + s + r ≡ b + (s + r) = omega arith in
      settled m brk b (s + r) o pre (free_tag s ∷ (free_tag r ∷ [])) post N h at_pre
        (k, hd, ft, (k', hd', ft', e)) (rw (sym e) rest)
        (record {
          multiple = omega arith;
          least = omega arith;
          small = omega arith;
          bit = omega arith;
        })
        (λ x n inside. elim inside [
          | inl (same, z) ↦ (out x n).0 same
          | inr (inl (same, z)) ↦ (out x n).1 same
          | inr (inr none) ↦ none
        ])
        (λ x p. elim (Bool-cases (x == b)) [
          | inl same ↦ inl (inl (ground arith, refl))
          | inr other ↦ elim (Bool-cases (x == b + s)) [
            | inl same ↦ inl (inr (inl (ground arith, refl)))
            | inr other' ↦ inr (full x p (ground arith) (ground arith))
          ]
        ])
        (λ x v inside. elim inside [
          | inl (same, z, g) ↦ absurd (omega arith)
          | inr (inl (same, z, g)) ↦ absurd (omega arith)
          | inr (inr none) ↦ none
        ])
        room
