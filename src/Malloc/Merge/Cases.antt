-- ===== src/Malloc/Merge/Cases.antt =====
-- The branches of `coalesce` of mm.c on a well-formed heap.
use computer_systems_practic.Prelude.{
  ℕ, ◌+◌, ◌-◌, ◌≡◌, ◌≢◌, refl, sym, List, [], ◌∷◌, ◌++◌, arith, inl, inr, ◌==◌, Bool-cases,
}
use computer_systems_practic.Malloc.{
  Mem, get_size, del_free_blk, merge_prev, merge_next, merge_both,
}
use computer_systems_practic.Malloc.Row.{Tag, IsPart, IsPart-le, IsPart-move, FreeAt-right}
use computer_systems_practic.Malloc.Heaps.{IsPlace, IsOpen}
use computer_systems_practic.Malloc.Heaps.Links.{del-IsHeap}
use computer_systems_practic.Malloc.Retag.{get_size-word}
use computer_systems_practic.Malloc.Settle.{free_tag}
use computer_systems_practic.Malloc.Merge.{Coalesced, size_here, at_rest, settled, pair}

module _ (first : ℕ) where
  -- The next block is free.
  pub with_next :
      (m : Mem) (brk b s r : ℕ) (pre post : List Tag)
      → IsOpen first m brk (pre ++ (free_tag s ∷ (free_tag r ∷ post))) b
      → IsPart m (first + 96) pre b
      → Coalesced first
          (pre ++ (free_tag s ∷ (free_tag r ∷ post)))
          s
          (merge_next first m b).0
          brk
          (merge_next first m b).1
  with_next m brk b s r pre post h at_pre =
      let row = pre ++ (free_tag s ∷ (free_tag r ∷ post)) in
      let here = size_here first m brk b s pre (free_tag r ∷ post) h at_pre in
      let (k, hd, ft, rest) = at_rest first m brk b s pre (free_tag r ∷ post) h at_pre in
      let least = k.least in
      let lo = IsPart-le m (first + 96) pre b at_pre in
      let place : IsPlace first row (b + s) = inr (
        FreeAt-right m (first + 96) b (b + s) pre (free_tag s ∷ (free_tag r ∷ post)) at_pre
          (inr (inl (refl, refl)))) in
      let d =
        del-IsHeap first m brk row (λ x. IsPlace first row x × (x ≢ b)) h (b + s)
          (place, omega arith) (omega arith) in
      let m1 = del_free_blk first m (b + s) in
      let (at_pre1, (k1, hd1, ft1, (k2, hd2, ft2, rest2))) =
        IsPart-move m m1 (first + 96) b brk pre (free_tag s ∷ (free_tag r ∷ post)) at_pre d.row in
      let here1 : get_size m1 (b - 4) ≡ s = get_size-word m1 (b - 4) (free_tag s) k1 hd1 in
      let there1 : get_size m1 (b + s - 4) ≡ r = get_size-word m1 (b + s - 4) (free_tag r) k2 hd2 in
      let p =
        pair first m1 brk b s r pre post _ d at_pre1 (λ x n. (n.0.1, n.1))
          (λ x q ne ne'. ((q, ne), ne')) s (omega arith) in
      rw (here, here1, there1) p

  -- The previous block is free.
  pub with_prev :
      (m : Mem) (brk a r s : ℕ) (pre post : List Tag)
      → IsOpen first m brk (pre ++ (free_tag r ∷ (free_tag s ∷ post))) (a + r)
      → IsPart m (first + 96) pre a
      → Coalesced first
          (pre ++ (free_tag r ∷ (free_tag s ∷ post)))
          s
          (merge_prev first m (a + r)).0
          brk
          (merge_prev first m (a + r)).1
  with_prev m brk a r s pre post h at_pre =
      let row = pre ++ (free_tag r ∷ (free_tag s ∷ post)) in
      let (k, hd, ft, (k', hd', ft', rest)) =
        (IsPart-move m m (first + 96) a brk pre (free_tag r ∷ (free_tag s ∷ post)) at_pre
          h.row).1 in
      let least = k.least in
      let lo = IsPart-le m (first + 96) pre a at_pre in
      let here : get_size m (a + r - 4) ≡ s = get_size-word m (a + r - 4) (free_tag s) k' hd' in
      let before : get_size m (a + r - 8) ≡ r = get_size-word m (a + r - 8) (free_tag r) k ft in
      let back : a + r - r ≡ a = omega arith in
      let place : IsPlace first row a = inr (
        FreeAt-right m (first + 96) a a pre (free_tag r ∷ (free_tag s ∷ post)) at_pre
          (inl (refl, refl))) in
      let d =
        del-IsHeap first m brk row (λ x. IsPlace first row x × (x ≢ a + r)) h a (place, omega arith)
          (omega arith) in
      let m1 = del_free_blk first m a in
      let (at_pre1, (k1, hd1, ft1, (k2, hd2, ft2, rest2))) =
        IsPart-move m m1 (first + 96) a brk pre (free_tag r ∷ (free_tag s ∷ post)) at_pre d.row in
      let before1 : get_size m1 (a + r - 8) ≡ r =
        get_size-word m1 (a + r - 8) (free_tag r) k1 ft1 in
      let there1 : get_size m1 (a - 4) ≡ r = get_size-word m1 (a - 4) (free_tag r) k1 hd1 in
      let swap : s + r ≡ r + s = omega arith in
      let p =
        pair first m1 brk a r s pre post _ d at_pre1 (λ x n. (n.1, n.0.1))
          (λ x q ne ne'. ((q, ne'), ne)) s (omega arith) in
      rw (here, before, back, before1, back, there1, swap) p

  -- Both are free.
  pub with_both :
      (m : Mem) (brk a r s u : ℕ) (pre post : List Tag)
      → IsOpen first m brk (pre ++ (free_tag r ∷ (free_tag s ∷ (free_tag u ∷ post)))) (a + r)
      → IsPart m (first + 96) pre a
      → Coalesced first
          (pre ++ (free_tag r ∷ (free_tag s ∷ (free_tag u ∷ post))))
          s
          (merge_both first m (a + r)).0
          brk
          (merge_both first m (a + r)).1
  with_both m brk a r s u pre post h at_pre =
      let ts = free_tag r ∷ (free_tag s ∷ (free_tag u ∷ post)) in
      let row = pre ++ ts in
      let (k, hd, ft, (k', hd', ft', (k'', hd'', ft'', rest))) =
        (IsPart-move m m (first + 96) a brk pre ts at_pre h.row).1 in
      let least = k.least in
      let least' = k'.least in
      let lo = IsPart-le m (first + 96) pre a at_pre in
      let here : get_size m (a + r - 4) ≡ s = get_size-word m (a + r - 4) (free_tag s) k' hd' in
      let before : get_size m (a + r - 8) ≡ r = get_size-word m (a + r - 8) (free_tag r) k ft in
      let back : a + r - r ≡ a = omega arith in
      let place_a : IsPlace first row a =
        inr (FreeAt-right m (first + 96) a a pre ts at_pre (inl (refl, refl))) in
      let place_c : IsPlace first row (a + r + s) =
        inr (
          FreeAt-right m (first + 96) a (a + r + s) pre ts at_pre (inr (inr (inl (refl, refl))))) in
      let d =
        del-IsHeap first m brk row (λ x. IsPlace first row x × (x ≢ a + r)) h a
          (place_a, omega arith) (omega arith) in
      let m1 = del_free_blk first m a in
      let (at_pre1, (k1, hd1, ft1, (k1', hd1', ft1', rest1))) =
        IsPart-move m m1 (first + 96) a brk pre ts at_pre d.row in
      let here1 : get_size m1 (a + r - 4) ≡ s =
        get_size-word m1 (a + r - 4) (free_tag s) k1' hd1' in
      let d2 =
        del-IsHeap first m1 brk row _ d (a + r + s) ((place_c, omega arith), omega arith)
          (omega arith) in
      let m2 = del_free_blk first m1 (a + r + s) in
      let (at_pre2, (k2, hd2, ft2, (k2', hd2', ft2', (k2'', hd2'', ft2'', rest2)))) =
        IsPart-move m m2 (first + 96) a brk pre ts at_pre d2.row in
      let before2 : get_size m2 (a + r - 8) ≡ r =
        get_size-word m2 (a + r - 8) (free_tag r) k2 ft2 in
      let there2 : get_size m2 (a - 4) ≡ r = get_size-word m2 (a - 4) (free_tag r) k2 hd2 in
      let here2 : get_size m2 (a + r - 4) ≡ s =
        get_size-word m2 (a + r - 4) (free_tag s) k2' hd2' in
      let next2 : get_size m2 (a + r + s - 4) ≡ u =
        get_size-word m2 (a + r + s - 4) (free_tag u) k2'' hd2'' in
      let hi = IsPart-le m2 (a + r + s + u) post brk rest2 in
      let limit = h.small in
      let mul = k.multiple in
      let mul' = k'.multiple in
      let mul'' = k''.multiple in
      let e : a + r + s + u ≡ a + (s + r + u) = omega arith in
      let p =
        settled first m2 brk a (s + r + u) s pre (free_tag r ∷ (free_tag s ∷ (free_tag u ∷ [])))
          post _ d2 at_pre2 (k2, hd2, ft2, (k2', hd2', ft2', (k2'', hd2'', ft2'', e)))
          (rw (sym e) rest2)
          (record {
            multiple = omega arith;
            least = omega arith;
            small = omega arith;
            bit = omega arith;
          })
          (λ x n inside. elim inside [
            | inl (same, z) ↦ n.0.1 same
            | inr (inl (same, z)) ↦ n.0.0.1 same
            | inr (inr (inl (same, z))) ↦ n.1 same
            | inr (inr (inr none)) ↦ none
          ])
          (λ x q. elim (Bool-cases (x == a)) [
            | inl same ↦ inl (inl (ground arith, refl))
            | inr other ↦ elim (Bool-cases (x == a + r)) [
              | inl same ↦ inl (inr (inl (ground arith, refl)))
              | inr other' ↦ elim (Bool-cases (x == a + r + s)) [
                | inl same ↦ inl (inr (inr (inl (ground arith, refl))))
                | inr last ↦ inr (((q, ground arith), ground arith), ground arith)
              ]
            ]
          ])
          (λ x v inside. elim inside [
            | inl (same, z, g) ↦ absurd (omega arith)
            | inr (inl (same, z, g)) ↦ absurd (omega arith)
            | inr (inr (inl (same, z, g))) ↦ absurd (omega arith)
            | inr (inr (inr none)) ↦ none
          ])
          (omega arith) in
      rw (here, before, back, here1, before2, back, there2, here2, next2) p
