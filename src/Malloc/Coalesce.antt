-- ===== src/Malloc/Coalesce.antt =====
-- `coalesce` of mm.c on a heap in which one free block is not linked.
use mathlib.Core.Path.{subst}
use mathlib.Core.List.{append_assoc}
use computer_systems_practic.Prelude.{
  ℕ, ◌+◌, ◌-◌, ◌≤◌, ◌≡◌, refl, sym, ap, ◌∙◌, List, [], ◌∷◌, ◌++◌, arith, ◌⊎◌, inl, inr, ◌==◌,
  Bool-cases,
}
use computer_systems_practic.Malloc.{
  Mem, get_size, get_alloc, hdrp, ftrp, next_blkp, prev_blkp, merge_both, merge_next, coalesce,
}
use computer_systems_practic.Malloc.Row.{Tag, IsTag, IsPart, IsPart-le, IsPart-split, row_end}
use computer_systems_practic.Malloc.Heaps.{IsOpen}
use computer_systems_practic.Malloc.Retag.{get_size-word, get_alloc-word}
use computer_systems_practic.Malloc.Settle.{free_tag}
use computer_systems_practic.Malloc.Merge.{Coalesced, at_rest, size_here, alone}
use computer_systems_practic.Malloc.Merge.Cases.{with_next, with_prev, with_both}

free_tag_lem : (u : Tag) → u.alloc ≡ 0 → u ≡ free_tag u.size
free_tag_lem u z = ap (λ a. record { size = u.size; alloc = a }) z

alloc_cases : (t : Tag) → IsTag t → (t.alloc ≡ 0) ⊎ (t.alloc ≡ 1)
alloc_cases t k =
    let b = k.bit in
    elim (Bool-cases (t.alloc == 0)) [ inl e ↦ inl (ground arith) | inr e ↦ inr (ground arith) ]

module _ (first : ℕ) where
  -- The heap that `coalesce` leaves, with its block.
  abbrev pub Joins : (ts : List Tag) (s : ℕ) (m : Mem) (brk b : ℕ) → Type 0
  Joins ts s m brk b = Coalesced first ts s (coalesce first m b).0 brk (coalesce first m b).1

  module _ (m : Mem) (brk b s : ℕ) (pre post : List Tag)
      (h : IsOpen first m brk (pre ++ (free_tag s ∷ post)) b)
      (at_pre : IsPart m (first + 96) pre b) where
    here : get_size m (b - 4) ≡ s
    here = size_here first m brk b s pre post h at_pre

    low : first + 96 ≤ b
    low = IsPart-le m (first + 96) pre b at_pre

    next_cases :
        (get_alloc m (b + s - 4) ≡ 1)
        ⊎ (r : ℕ) × (post' : List Tag) × (post ≡ free_tag r ∷ post') × (get_alloc m (b + s - 4) ≡ 0)
    next_cases = go post (at_rest first m brk b s pre post h at_pre).3
      where
        go :
            (us : List Tag)
            → IsPart m (b + s) us brk
            → (get_alloc m (b + s - 4) ≡ 1)
              ⊎ (r : ℕ) × (post' : List Tag) × (us ≡ free_tag r ∷ post')
                × (get_alloc m (b + s - 4) ≡ 0)
        go [] e = inl (rw (e, h.epilogue) refl)
        go (u ∷ us) (k, hd, ft, rest) =
            let read = get_alloc-word m (b + s - 4) u k hd in
            elim (alloc_cases u k) [
              | inl z ↦ inr (u.size, us, ap (λ t. t ∷ us) (free_tag_lem u z), read ∙ z)
              | inr one ↦ inl (read ∙ one)
            ]

    prev_cases :
        (get_alloc m (ftrp m (prev_blkp m b)) ≡ 1)
        ⊎ (r : ℕ) × (a : ℕ) × (pre' : List Tag) × (pre ≡ pre' ++ (free_tag r ∷ []))
          × (b ≡ a + r)
          × IsPart m (first + 96) pre' a
          × (get_alloc m (ftrp m (prev_blkp m b)) ≡ 0)
    prev_cases = elim (row_end pre) [
      | inl none ↦
          let e : b ≡ first + 96 = sym (subst (λ l. IsPart m (first + 96) l b) none at_pre) in
          let at_footer : b - 8 ≡ first + 88 = omega arith in
          let f : get_size m (b - 8) ≡ 8 = rw (at_footer, h.prologue.1) refl in
          let at_block : b - 8 - 4 ≡ first + 84 = omega arith in
          let g : get_size m (b - 8 - 4) ≡ 8 = rw (at_block, h.prologue.0) refl in
          let at_end : b - 8 + 8 - 8 ≡ first + 88 = omega arith in
          inl (rw (f, g, at_end, h.prologue.1) refl)
      | inr (us, u, e) ↦
          let (a, at_us, (k, hd, ft, end)) =
            IsPart-split m (first + 96) b us (u ∷ [])
              (subst (λ l. IsPart m (first + 96) l b) e at_pre) in
          let least = k.least in
          let at_footer : b - 8 ≡ a + u.size - 8 = omega arith in
          let f : get_size m (b - 8) ≡ u.size =
            rw at_footer (get_size-word m (a + u.size - 8) u k ft) in
          let at_block : b - u.size ≡ a = omega arith in
          let g : get_size m (a - 4) ≡ u.size = get_size-word m (a - 4) u k hd in
          let read : get_alloc m (ftrp m (prev_blkp m b)) ≡ u.alloc =
            rw (f, at_block, g) (get_alloc-word m (a + u.size - 8) u k ft) in
          elim (alloc_cases u k) [
            | inl z ↦ inr (
              u.size,
              a,
              us,
              e ∙ ap (λ t. us ++ (t ∷ [])) (free_tag_lem u z),
              sym end,
              at_us,
              read ∙ z,
            )
            | inr one ↦ inl (read ∙ one)
          ]
    ]

  -- The two cases in which the previous block is free, at its address.
  coalesce_prev :
      (m : Mem) (brk a r s : ℕ) (pre post : List Tag)
      → IsOpen first m brk (pre ++ (free_tag r ∷ (free_tag s ∷ post))) (a + r)
      → IsPart m (first + 96) pre a
      → IsPart m (first + 96) (pre ++ (free_tag r ∷ [])) (a + r)
      → get_alloc m (ftrp m (prev_blkp m (a + r))) ≡ 0
      → Joins (pre ++ (free_tag r ∷ (free_tag s ∷ post))) s m brk (a + r)
  unfolding coalesce
  coalesce_prev m brk a r s pre post h at_pre at_both p =
      let same : pre ++ (free_tag r ∷ (free_tag s ∷ post))
          ≡ (pre ++ (free_tag r ∷ [])) ++ (free_tag s ∷ post) =
        sym (append_assoc pre (free_tag r ∷ []) (free_tag s ∷ post)) in
      let h' = subst (λ l. IsOpen first m brk l (a + r)) same h in
      let size_is = here m brk (a + r) s (pre ++ (free_tag r ∷ [])) post h' at_both in
      elim (next_cases m brk (a + r) s (pre ++ (free_tag r ∷ [])) post h' at_both) [
        | inl n ↦
            let n' : get_alloc m (hdrp (next_blkp m (a + r))) ≡ 1 = rw size_is n in
            rw (coalesce, n', p) (with_prev first m brk a r s pre post h at_pre)
        | inr (u, post', e, n) ↦
            let n' : get_alloc m (hdrp (next_blkp m (a + r))) ≡ 0 = rw size_is n in
            rw (coalesce, n', p)
              (subst
                (λ l.
                  Coalesced first (pre ++ (free_tag r ∷ (free_tag s ∷ l))) s
                    (merge_both first m (a + r)).0 brk (merge_both first m (a + r)).1)
                (sym e)
                (with_both first m brk a r s u pre post'
                  (subst (λ l. IsOpen first m brk (pre ++ (free_tag r ∷ (free_tag s ∷ l))) (a + r))
                    e h)
                  at_pre))
      ]

  -- `coalesce` of a free block that is not linked, in an otherwise well-formed heap.
  pub coalesce-Joins :
      (m : Mem) (brk b s : ℕ) (pre post : List Tag)
      → IsOpen first m brk (pre ++ (free_tag s ∷ post)) b
      → IsPart m (first + 96) pre b
      → Joins (pre ++ (free_tag s ∷ post)) s m brk b
  unfolding coalesce
  coalesce-Joins m brk b s pre post h at_pre =
      let size_is = here m brk b s pre post h at_pre in
      elim (prev_cases m brk b s pre post h at_pre) [
        | inl p ↦ elim (next_cases m brk b s pre post h at_pre) [
          | inl n ↦
              let n' : get_alloc m (hdrp (next_blkp m b)) ≡ 1 = rw size_is n in
              rw (coalesce, n', p) (alone first m brk b s pre post h at_pre)
          | inr (r, post', e, n) ↦
              let n' : get_alloc m (hdrp (next_blkp m b)) ≡ 0 = rw size_is n in
              rw (coalesce, n', p)
                (subst
                  (λ l.
                    Coalesced first (pre ++ (free_tag s ∷ l)) s (merge_next first m b).0 brk
                      (merge_next first m b).1)
                  (sym e)
                  (with_next first m brk b s r pre post'
                    (subst (λ l. IsOpen first m brk (pre ++ (free_tag s ∷ l)) b) e h) at_pre))
        ]
        | inr (r, a, pre', e, e', at_pre', p) ↦
            let same : pre ++ (free_tag s ∷ post) ≡ pre' ++ (free_tag r ∷ (free_tag s ∷ post)) =
              ap (λ l. l ++ (free_tag s ∷ post)) e
              ∙ append_assoc pre' (free_tag r ∷ []) (free_tag s ∷ post) in
            let h' : IsOpen first m brk (pre' ++ (free_tag r ∷ (free_tag s ∷ post))) (a + r) =
              rw (sym same, sym e') h in
            let at_both : IsPart m (first + 96) (pre' ++ (free_tag r ∷ [])) (a + r) =
              rw (sym e, sym e') at_pre in
            let p' : get_alloc m (ftrp m (prev_blkp m (a + r))) ≡ 0 = rw (sym e') p in
            subst (λ l. Joins l s m brk b) (sym same)
              (subst (λ x. Joins (pre' ++ (free_tag r ∷ (free_tag s ∷ post))) s m brk x) (sym e')
                (coalesce_prev m brk a r s pre' post h' at_pre' at_both p'))
      ]
