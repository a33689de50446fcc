-- ===== src/Malloc/Freed.antt =====
-- `free` of mm.c on a well-formed heap.
use mathlib.Core.Path.{subst}
use computer_systems_practic.Prelude.{
  ℕ, ◌+◌, ◌-◌, ◌%◌, ◌≤◌, ◌<◌, ◌≡◌, ◌≢◌, refl, sym, false, List, [], ◌∷◌, ◌++◌, arith, ◌⊎◌, inl, inr,
  ◌↔◌, ◌==◌,
}
use computer_systems_practic.Malloc.{Mem, put_tags, get_size, coalesce, Heap, free}
use computer_systems_practic.Malloc.Row.{Tag, IsTag, IsPart, FreeAt, IsPart-le, IsPart-move}
use computer_systems_practic.Malloc.Used.{UsedAt, UsedAt-swap, UsedAt-find, UsedAt-other}
use computer_systems_practic.Malloc.Heaps.{IsPlace, IsHealthy, IsOpen, IsHeap-same}
use computer_systems_practic.Malloc.Retag.{
  get_size-word, put_tags-IsPart, put_tags-outside, places, stays, retag-IsHeap,
}
use computer_systems_practic.Malloc.Settle.{free_tag}
use computer_systems_practic.Malloc.Coalesce.{coalesce-Joins}
use computer_systems_practic.Malloc.Words.{put_tags-IsWords}

module _ (first : ℕ) where
  module _ (m : Mem) (brk b : ℕ) (t : Tag) (pre post : List Tag)
      (h : IsHealthy first m brk (pre ++ (t ∷ post))) (at_pre : IsPart m (first + 96) pre b)
      (allocated : t.alloc ≡ 1) where
    abbrev cleared : Mem
    cleared = put_tags first m b t.size 0

    at_block : IsPart m b (t ∷ post) brk
    at_block = (IsPart-move m m (first + 96) b brk pre (t ∷ post) at_pre h.row).1

    free_IsTag : IsTag (free_tag t.size)
    free_IsTag =
        let k = at_block.0 in
        record { multiple = k.multiple; least = k.least; small = k.small; bit = omega arith }

    -- Its tags say that the block is free, but it is in no list.
    pub clear-IsOpen : IsOpen first cleared brk (pre ++ (free_tag t.size ∷ post)) b
    clear-IsOpen =
        let (k, hd, ft, rest) = at_block in
        let lo = IsPart-le m (first + 96) pre b at_pre in
        let least = k.least in
        let start : (first + 96) % 8 ≡ 0 = let al = h.aligned in omega arith in
        let at_old : IsPart m b (t ∷ []) (b + t.size) = (k, hd, ft, refl) in
        let at_new = put_tags-IsPart first m b (free_tag t.size) free_IsTag (omega arith) in
        let away : (x : ℕ) → (x + 4 < b) ⊎ (b + t.size ≤ x + 4) → cleared x ≡ m x =
          λ x o. put_tags-outside first m b (free_tag t.size) free_IsTag x (omega arith) o in
        let out : (x : ℕ) → IsPlace first (pre ++ (t ∷ post)) x → FreeAt b (t ∷ []) x → ⊥ =
          λ x n inside. elim inside [ inl (e, z) ↦ absurd (omega arith) | inr none ↦ none ] in
        let r =
          retag-IsHeap first m cleared brk b (b + t.size) pre (t ∷ []) (free_tag t.size ∷ []) post _
            h at_pre at_old rest away at_new out (put_tags-IsWords first m b t.size 0 h.words) in
        IsHeap-same first cleared brk (pre ++ (free_tag t.size ∷ post))
          (IsPlace first (pre ++ (t ∷ post))) _
          (λ x n.
            let (q, side) =
              stays first m cleared brk b (b + t.size) pre (t ∷ []) (free_tag t.size ∷ []) post _ h
                at_pre at_old rest away at_new out x n in
            (q, elim side [ inl below ↦ omega arith | inr above ↦ omega arith ]))
          (λ x q.
            elim (places first m cleared m m brk b (b + t.size) x pre (free_tag t.size ∷ [])
              (t ∷ []) post start at_pre at_new rest at_old q.0) [
                | inl (inl (e, z)) ↦ absurd (q.1 e)
                | inl (inr none) ↦ absurd none
                | inr (kept, side) ↦ kept
              ])
          r

  -- A well-formed heap whose allocated blocks are those of the row ts but for the block at b.
  pub record Freed (ts : List Tag) (m : Mem) (brk b : ℕ) : Type 0 where
    pub row : List Tag
    pub healthy : IsHealthy first m brk row
    pub used : (x v : ℕ) → UsedAt (first + 96) row x v ↔ (UsedAt (first + 96) ts x v × (x ≢ b))

  free_lem :
      (h : Heap first) (b size : ℕ)
      → 0 < b
      → get_size h.mem (b - 4) ≡ size
      → free first h b ≡ record h { mem = (coalesce first (put_tags first h.mem b size 0) b).0 }
  unfolding free
  free_lem h b size pos e = let n : b == 0 ≡ false = ground arith in rw (free, n, e) refl

  -- `free` of an allocated block of a well-formed heap: the heap is well-formed again, and of its
  -- allocated blocks it has lost exactly this one.
  pub free-Freed :
      (h : Heap first) (ts : List Tag) (b v : ℕ)
      → IsHealthy first h.mem h.brk ts
      → UsedAt (first + 96) ts b v
      → Freed ts (free first h b).mem (free first h b).brk b
  free-Freed h ts b v healthy at_b =
      let (pre, t, post, e, at_pre, one, g) =
        UsedAt-find h.mem (first + 96) ts h.brk b v healthy.row at_b in
      let whole : IsHealthy first h.mem h.brk (pre ++ (t ∷ post)) =
        subst (λ l. IsHealthy first h.mem h.brk l) e healthy in
      let lo = IsPart-le h.mem (first + 96) pre b at_pre in
      let start : (first + 96) % 8 ≡ 0 = let al = healthy.aligned in omega arith in
      let (k, hd, ft, rest) = at_block h.mem h.brk b t pre post whole at_pre one in
      let size_is = get_size-word h.mem (b - 4) t k hd in
      let opened = clear-IsOpen h.mem h.brk b t pre post whole at_pre one in
      let m1 = put_tags first h.mem b t.size 0 in
      let (at_pre1, (k1, hd1, ft1, rest1)) =
        IsPart-move h.mem m1 (first + 96) b h.brk pre (free_tag t.size ∷ post) at_pre opened.row in
      let at_old : IsPart h.mem b (t ∷ []) (b + t.size) = (k, hd, ft, refl) in
      let at_new : IsPart m1 b (free_tag t.size ∷ []) (b + t.size) = (k1, hd1, ft1, refl) in
      let c = coalesce-Joins first m1 h.brk b t.size pre post opened at_pre1 in
      let r : Freed ts (coalesce first m1 b).0 h.brk b = record {
        row = c.pre ++ (free_tag c.size ∷ c.post);
        healthy = c.healthy;
        used = λ x w. (
          (λ a.
              let a1 = (c.used x w).1 a in
              let other =
                UsedAt-other m1 (first + 96) b h.brk x w pre (free_tag t.size) post start refl
                  at_pre1 opened.row a1 in
              (
                elim (UsedAt-swap m1 m1 h.mem (first + 96) b (b + t.size) x w pre
                    (free_tag t.size ∷ []) (t ∷ []) post at_pre1 at_new at_old a1) [
                      | inl (inl (same, z, g')) ↦ absurd (omega arith)
                      | inl (inr none) ↦ absurd none
                      | inr kept ↦ rw e kept
                    ],
                other,
              )),
          (λ a.
              let a1 : UsedAt (first + 96) (pre ++ (t ∷ post)) x w = rw (sym e) a.0 in
              (c.used x w).0
                (elim (UsedAt-swap h.mem h.mem m1 (first + 96) b (b + t.size) x w pre (t ∷ [])
                  (free_tag t.size ∷ []) post at_pre at_old at_new a1) [
                    | inl (inl (same, z, g')) ↦ absurd (a.1 same)
                    | inl (inr none) ↦ absurd none
                    | inr kept ↦ kept
                  ])),
        );
      } in
      subst (λ k'. Freed ts k'.mem k'.brk b) (sym (free_lem h b t.size (omega arith) size_is)) r
