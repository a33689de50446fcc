-- ===== src/Malloc/Allocates.antt =====
-- `malloc` of mm.c on a well-formed heap.
use mathlib.Core.Path.{subst}
use computer_systems_practic.Prelude.{
  ℕ, ◌+◌, ◌-◌, ◌*◌, ◌/◌, ◌%◌, ◌^◌, ◌≤◌, ◌<◌, ◌≡◌, refl, sym, ap, ◌∙◌, Bool, true, Option, none,
  some, List, [], ◌∷◌, ◌++◌, arith, ◌⊎◌, inl, inr, ◌↔◌, ◌==◌, ltb, if◌then◌else◌, Bool-cases,
}
use computer_systems_practic.Malloc.{Mem, get_size, hdrp, adjust_size, place, Heap, extend_heap}
use computer_systems_practic.Malloc.Alloc.{Fit, block, no_block, out_of_fuel, find_fit, malloc}
use computer_systems_practic.Malloc.Sizes.{adjust_size_lem}
use computer_systems_practic.Malloc.Row.{Tag, IsPart, FreeAt}
use computer_systems_practic.Malloc.Used.{UsedAt, UsedAt-other, UsedAt-apart, UsedAt-bounds}
use computer_systems_practic.Malloc.Heaps.{IsHealthy}
use computer_systems_practic.Malloc.Retag.{get_size-word}
use computer_systems_practic.Malloc.Settle.{free_tag}
use computer_systems_practic.Malloc.Placed.{place-Placed}
use computer_systems_practic.Malloc.Found.{Ended, find_fit-Ended}
use computer_systems_practic.Malloc.Extended.Returned.{Extends, extend_heap-Extends}

module _ (first : ℕ) where
  -- A well-formed heap that has, beside the allocated blocks of the row ts, one new block at b, aligned,
  -- inside the heap, apart from the others, and with room for `size` bytes and its tags.
  pub record Allocated (ts : List Tag) (size : ℕ) (m : Mem) (brk b : ℕ) : Type 0 where
    pub row : List Tag
    pub block_size : ℕ
    pub healthy : IsHealthy first m brk row
    pub room : size + 8 ≤ block_size
    pub bounds : (b % 8 ≡ 0) × (first + 96 ≤ b) × (b + block_size ≤ brk)
    pub fresh : (v : ℕ) → UsedAt (first + 96) ts b v → ⊥
    pub apart : (x v : ℕ) → UsedAt (first + 96) ts x v → (x + v ≤ b) ⊎ (b + block_size ≤ x)
    pub used :
        (x v : ℕ)
        → UsedAt (first + 96) row x v ↔ (UsedAt (first + 96) ts x v ⊎ ((x ≡ b) × (v ≡ block_size)))

  -- A free block of the row, with the blocks before and behind it.
  FreeAt-find :
      (m : Mem) (bp : ℕ) (ts : List Tag) (end b : ℕ)
      → IsPart m bp ts end
      → FreeAt bp ts b
      → (pre : List Tag) × (s : ℕ) × (post : List Tag) × (ts ≡ pre ++ (free_tag s ∷ post))
        × IsPart m bp pre b
        × (get_size m (hdrp b) ≡ s)
  FreeAt-find m bp [] end b e f = absurd f
  FreeAt-find m bp (t ∷ ts) end b (k, h, f, r) (inl (e, z)) =
      let s : t ≡ free_tag t.size = ap (λ a. record { size = t.size; alloc = a }) z in
      ([], t.size, ts, ap (λ u. u ∷ ts) s, sym e, rw e (get_size-word m (bp - 4) t k h))
  FreeAt-find m bp (t ∷ ts) end b (k, h, f, r) (inr a) =
      let (pre, s, post, e, at, size_is) = FreeAt-find m (bp + t.size) ts end b r a in
      (t ∷ pre, s, post, ap (λ l. t ∷ l) e, (k, h, f, at), size_is)

  -- The block of a row that `place` allocates.
  placed :
      (m : Mem) (brk b s asize size : ℕ) (ts pre post : List Tag)
      → IsHealthy first m brk (pre ++ (free_tag s ∷ post))
      → IsPart m (first + 96) pre b
      → asize % 8 ≡ 0
      → 16 ≤ asize
      → asize ≤ s
      → size + 8 ≤ asize
      → ((x v : ℕ)
          → UsedAt (first + 96) ts x v ↔ UsedAt (first + 96) (pre ++ (free_tag s ∷ post)) x v)
      → Allocated ts size (place first m b asize) brk b
  placed m brk b s asize size ts pre post h at_pre multiple least fits room same =
      let p = place-Placed first m brk b s asize pre post h at_pre multiple least fits in
      let start : (first + 96) % 8 ≡ 0 = let al = h.aligned in omega arith in
      let more = p.room in
      let here : UsedAt (first + 96) p.row b p.size = (p.used b p.size).1 (inr (refl, refl)) in
      let (lo, hi, big, al) =
        UsedAt-bounds (place first m b asize) (first + 96) p.row brk b p.size start p.healthy.row
          here in
      let fresh : (v : ℕ) → UsedAt (first + 96) ts b v → ⊥ = λ v a.
        UsedAt-other m (first + 96) b brk b v pre (free_tag s) post start refl at_pre h.row
          ((same b v).0 a) refl in
      record {
        row = p.row;
        block_size = p.size;
        healthy = p.healthy;
        room = omega arith;
        bounds = (al, lo, hi);
        fresh = fresh;
        apart = λ x v a.
            UsedAt-apart (place first m b asize) (first + 96) p.row brk x v b p.size start
              p.healthy.row ((p.used x v).1 (inl ((same x v).0 a))) here
              (λ e. fresh v (subst (λ y. UsedAt (first + 96) ts y v) e a));
        used = λ x v. (
          (λ a. elim ((p.used x v).0 a) [ inl old ↦ inl ((same x v).1 old) | inr new ↦ inr new ]),
          (λ a. elim a [
            | inl old ↦ (p.used x v).1 (inl ((same x v).0 old))
            | inr new ↦ (p.used x v).1 (inr new)
          ]),
        );
      }

  -- What `malloc` answers: a new block, or NULL with the heap as it was.
  abbrev pub Answers : (ts : List Tag) (size : ℕ) → Heap first → Heap first × Fit → Type 0
  Answers ts size h (h1, block b) = Allocated ts size h1.mem h1.brk b
  Answers ts size h (h1, no_block) = h1 ≡ h
  Answers ts size h (h1, out_of_fuel) = ⊥

  module _ (grows : ℕ → ℕ → Bool) (fuel size : ℕ) (h : Heap first) (ts : List Tag)
      (healthy : IsHealthy first h.mem h.brk ts) where
    extends :
        (asize : ℕ) (o : Option (Heap first × ℕ)) (grown : ℕ)
        → asize % 8 ≡ 0
        → 16 ≤ asize
        → asize ≤ grown
        → size + 8 ≤ asize
        → Extends first ts grown o
        → Answers ts size h (elim o [
          | none ↦ (h, no_block)
          | some (h1, bp) ↦ (record h1 { mem = place first h1.mem bp asize }, block bp)
        ])
    extends asize none grown multiple least fits room e = refl
    extends asize (some (h1, bp)) grown multiple least fits room c =
        let more = c.room in
        placed h1.mem h1.brk bp c.size asize size ts c.pre c.post c.healthy c.at multiple least
          (omega arith) room c.used

    searched :
        (asize : ℕ) (r : Fit) (o : Heap first × Fit)
        → asize % 8 ≡ 0
        → 16 ≤ asize
        → size + 8 ≤ asize
        → Ended first h.mem h.brk ts healthy asize r
        → Answers ts size h o
        → Answers ts size h (elim r [
          | block bp ↦ (record h { mem = place first h.mem bp asize }, block bp)
          | out_of_fuel ↦ (h, out_of_fuel)
          | no_block ↦ o
        ])
    searched asize (block bp) o multiple least room (free, fits) a =
        let (pre, s, post, e, at_pre, size_is) =
          FreeAt-find h.mem (first + 96) ts h.brk bp healthy.row free in
        placed h.mem h.brk bp s asize size ts pre post
          (subst (λ l. IsHealthy first h.mem h.brk l) e healthy) at_pre multiple least (omega arith)
          room (λ x v. rw (sym e) (λ a'. a', λ a'. a'))
    searched asize no_block o multiple least room e a = a
    searched asize out_of_fuel o multiple least room e a = e

    abbrev asize : ℕ
    asize = adjust_size size

    abbrev extend_size : ℕ
    extend_size = if ltb 512 asize then asize else 512

    -- The search, and the extension where it finds no block.
    abbrev extension : Heap first × Fit
    extension = elim (extend_heap first grows h (extend_size / 4)) [
      | none ↦ (h, no_block)
      | some (h1, bp) ↦ (record h1 { mem = place first h1.mem bp asize }, block bp)
    ]

    abbrev search_or_extend : Heap first × Fit
    search_or_extend = elim (find_fit first fuel h.mem asize) [
      | block bp ↦ (record h { mem = place first h.mem bp asize }, block bp)
      | out_of_fuel ↦ (h, out_of_fuel)
      | no_block ↦ extension
    ]

    malloc_lem :
        malloc first grows fuel size h ≡ (if size == 0 then (h, no_block) else search_or_extend)
    unfolding malloc
    malloc_lem = refl

    -- `malloc` in a well-formed heap, for a request that is not within 15 of 2 ^ 64, where the heap
    -- never grows beyond 4 GB, and with enough rounds for the walks: it returns, either NULL with the
    -- heap as it was, or a block that was not allocated: aligned, inside the heap, apart from every
    -- allocated block, with room for the request and the tags. Then the heap is well-formed, and its
    -- allocated blocks are the old ones and this one.
    pub malloc-Answers :
        ((s : ℕ) → grows h.brk s ≡ true → h.brk + s ≤ first + 2 ^ 32)
        → size + 15 < 2 ^ 64
        → healthy.lists.limit < fuel
        → Answers ts size h (malloc first grows fuel size h)
    malloc-Answers bounded small enough = elim (Bool-cases (size == 0)) [
      | inl z ↦
          subst (Answers ts size h)
            (sym (malloc_lem ∙ ap (λ b. if b then (h, no_block) else search_or_extend) z)) refl
      | inr z ↦
          let (multiple, least, room, waste) = adjust_size_lem size (ground arith) small in
          let (even, four, more) : (extend_size / 4 % 2 ≡ 0)
              × (4 ≤ extend_size / 4)
              × (asize ≤ 4 * (extend_size / 4)) =
            elim (Bool-cases (ltb 512 asize)) [
              | inl e ↦ rw e (omega arith, omega arith, omega arith)
              | inr e ↦ rw e (omega arith, omega arith, ground arith)
            ] in
          let found = find_fit-Ended first h.mem h.brk ts healthy asize fuel enough (omega arith) in
          let e =
            extend_heap-Extends first grows h (extend_size / 4) ts healthy bounded even four in
          let extended =
            extends asize (extend_heap first grows h (extend_size / 4)) (4 * (extend_size / 4))
              multiple least more room e in
          subst (Answers ts size h)
            (sym (malloc_lem ∙ ap (λ b. if b then (h, no_block) else search_or_extend) z))
            (searched asize (find_fit first fuel h.mem asize) extension multiple least room found
              extended)
    ]
