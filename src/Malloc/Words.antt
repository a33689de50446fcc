-- ===== src/Malloc/Words.antt =====
-- The memory of mm.c has 32-bit words, before and after every operation.
use computer_systems_practic.Prelude.{
  ℕ, zero, suc, ◌+◌, ◌*◌, ◌/◌, ◌%◌, ◌^◌, ◌<◌, Bool, true, false, Option, none, some, ◌==◌, ltb,
  if◌then◌else◌, Bool-cases, inl, inr, arith,
}
use computer_systems_practic.Malloc.{
  Mem, pack, put, Heap, ins_free_blk, del_free_blk, put_tags, place, coalesce, extend_heap,
  adjust_size, get_alloc, hdrp, ftrp, prev_blkp, next_blkp,
}
use computer_systems_practic.Malloc.Alloc.{
  Fit, block, no_block, out_of_fuel, find_fit, malloc, init_table, mm_init,
}

-- Every word has 32 bits.
abbrev pub IsWords : Mem → Type 0
IsWords m = (x : ℕ) → m x < 2 ^ 32

pub put-IsWords : (m : Mem) (p v : ℕ) → IsWords m → IsWords (put m p v)
put-IsWords m p v h x = let k = h x in ground arith

module _ (first : ℕ) where
  pub ins_free_blk-IsWords :
      (m : Mem) (bp index : ℕ) → IsWords m → IsWords (ins_free_blk first m bp index)
  unfolding ins_free_blk
  ins_free_blk-IsWords m bp index h =
      put-IsWords _ _ _ (put-IsWords _ _ _ (put-IsWords _ _ _ (put-IsWords _ _ _ h)))

  pub del_free_blk-IsWords : (m : Mem) (bp : ℕ) → IsWords m → IsWords (del_free_blk first m bp)
  unfolding del_free_blk
  del_free_blk-IsWords m bp h = put-IsWords _ _ _ (put-IsWords _ _ _ h)

  pub put_tags-IsWords :
      (m : Mem) (bp size alloc : ℕ) → IsWords m → IsWords (put_tags first m bp size alloc)
  put_tags-IsWords m bp size alloc h = put-IsWords _ _ _ (put-IsWords _ _ _ h)

  if-IsWords : (b : Bool) (m m' : Mem) → IsWords m → IsWords m' → IsWords (if b then m else m')
  if-IsWords true m m' h h' = h
  if-IsWords false m m' h h' = h'

  place-IsWords : (m : Mem) (bp asize : ℕ) → IsWords m → IsWords (place first m bp asize)
  unfolding place
  place-IsWords m bp asize h =
      let d = del_free_blk-IsWords m bp h in
      if-IsWords _ _ _
        (ins_free_blk-IsWords _ _ _ (put_tags-IsWords _ _ _ _ (put_tags-IsWords _ _ _ _ d)))
        (put_tags-IsWords _ _ _ _ d)

  -- Tags on a merged block, which goes to its list.
  merged-IsWords :
      (m : Mem) (bp size index : ℕ)
      → IsWords m
      → IsWords (ins_free_blk first (put_tags first m bp size 0) bp index)
  merged-IsWords m bp size index h = ins_free_blk-IsWords _ _ _ (put_tags-IsWords _ _ _ _ h)

  coalesce-IsWords : (m : Mem) (bp : ℕ) → IsWords m → IsWords (coalesce first m bp).0
  unfolding coalesce
  coalesce-IsWords m bp h = elim (Bool-cases (get_alloc m (hdrp (next_blkp m bp)) == 0)) [
    | inl n ↦ elim (Bool-cases (get_alloc m (ftrp m (prev_blkp m bp)) == 0)) [
      | inl p ↦
          rw (coalesce, n, p)
            (merged-IsWords _ _ _ _ (del_free_blk-IsWords _ _ (del_free_blk-IsWords _ _ h)))
      | inr p ↦ rw (coalesce, n, p) (merged-IsWords _ _ _ _ (del_free_blk-IsWords _ _ h))
    ]
    | inr n ↦ elim (Bool-cases (get_alloc m (ftrp m (prev_blkp m bp)) == 0)) [
      | inl p ↦ rw (coalesce, n, p) (merged-IsWords _ _ _ _ (del_free_blk-IsWords _ _ h))
      | inr p ↦ rw (coalesce, n, p) (ins_free_blk-IsWords _ _ _ h)
    ]
  ]

  abbrev HasWords : Option (Heap first × ℕ) → Type 0
  HasWords none = Unit
  HasWords (some (h, bp)) = IsWords h.mem

  extend_heap-HasWords :
      (grows : ℕ → ℕ → Bool) (h : Heap first) (words : ℕ)
      → IsWords h.mem
      → HasWords (extend_heap first grows h words)
  unfolding extend_heap
  extend_heap-HasWords grows h words w =
      let size = if words % 2 == 0 then 4 * words else 4 * (words + 1) in
      let c =
        coalesce-IsWords _ h.brk
          (put-IsWords _ _ (pack 0 1) (put_tags-IsWords h.mem h.brk size 0 w)) in
      elim (Bool-cases (grows h.brk size)) [
        | inl g ↦ rw (extend_heap, g) c
        | inr g ↦ rw (extend_heap, g) tt
      ]

  -- What malloc does with a heap that was extended, and with what its search found.
  abbrev extended : (asize : ℕ) → Heap first → Option (Heap first × ℕ) → Heap first × Fit
  extended asize h none = (h, no_block)
  extended asize h (some (h1, bp)) = (record h1 { mem = place first h1.mem bp asize }, block bp)

  extended-IsWords :
      (asize : ℕ) (h : Heap first) (o : Option (Heap first × ℕ))
      → IsWords h.mem
      → HasWords o
      → IsWords (extended asize h o).0.mem
  extended-IsWords asize h none w wo = w
  extended-IsWords asize h (some (h1, bp)) w wo = place-IsWords h1.mem bp asize wo

  abbrev allocated : (asize : ℕ) → Heap first → Option (Heap first × ℕ) → Fit → Heap first × Fit
  allocated asize h o (block bp) = (record h { mem = place first h.mem bp asize }, block bp)
  allocated asize h o out_of_fuel = (h, out_of_fuel)
  allocated asize h o no_block = extended asize h o

  allocated-IsWords :
      (asize : ℕ) (h : Heap first) (o : Option (Heap first × ℕ)) (r : Fit)
      → IsWords h.mem
      → HasWords o
      → IsWords (allocated asize h o r).0.mem
  allocated-IsWords asize h o (block bp) w wo = place-IsWords h.mem bp asize w
  allocated-IsWords asize h o out_of_fuel w wo = w
  allocated-IsWords asize h o no_block w wo = extended-IsWords asize h o w wo

  -- `malloc` keeps the words 32 bits wide.
  pub malloc-IsWords :
      (grows : ℕ → ℕ → Bool) (fuel size : ℕ) (h : Heap first)
      → IsWords h.mem
      → IsWords (malloc first grows fuel size h).0.mem
  unfolding malloc
  malloc-IsWords grows fuel size h w =
      let asize = adjust_size size in
      let extend_size = if ltb 512 asize then asize else 512 in
      let o = extend_heap first grows h (extend_size / 4) in
      let found =
        allocated-IsWords asize h o (find_fit first fuel h.mem asize) w
          (extend_heap-HasWords grows h (extend_size / 4) w) in
      elim (Bool-cases (size == 0)) [ inl z ↦ rw (malloc, z) w | inr z ↦ rw (malloc, z) found ]

  pub init_table-IsWords :
      (lists offset : ℕ) (m : Mem) → IsWords m → IsWords (init_table first lists offset m)
  unfolding init_table
  init_table-IsWords zero offset m h = h
  init_table-IsWords (suc lists) offset m h =
      init_table-IsWords lists (offset + 8) _ (put-IsWords _ _ _ (put-IsWords _ _ _ h))

  -- The heap, where there is one.
  abbrev pub HeapWords : Option (Heap first) → Type 0
  HeapWords none = Unit
  HeapWords (some h) = IsWords h.mem

  HeapWords-of_extended :
      (o : Option (Heap first × ℕ))
      → HasWords o
      → HeapWords (elim o [ none ↦ none | some (h, bp) ↦ some h ])
  HeapWords-of_extended none w = w
  HeapWords-of_extended (some (h, bp)) w = w

  -- `mm_init` in words of 32 bits leaves such words.
  pub mm_init-HeapWords :
      (grows : ℕ → ℕ → Bool) (m : Mem) → IsWords m → HeapWords (mm_init first grows m)
  unfolding mm_init
  mm_init-HeapWords grows m w =
      let listp = first + 80 in
      let m1 = put (init_table first 10 0 m) listp 0 in
      let m2 = put m1 (listp + 4) (pack 8 1) in
      let m3 = put m2 (listp + 8) (pack 8 1) in
      let m4 = put m3 (listp + 12) (pack 0 1) in
      let w1 = put-IsWords _ listp 0 (init_table-IsWords 10 0 m w) in
      let w2 = put-IsWords m1 (listp + 4) (pack 8 1) w1 in
      let w3 = put-IsWords m2 (listp + 8) (pack 8 1) w2 in
      let w4 = put-IsWords m3 (listp + 12) (pack 0 1) w3 in
      let o = extend_heap first grows (record { mem = m4; brk = first + 96 }) 1024 in
      let r = HeapWords-of_extended o (extend_heap-HasWords grows _ 1024 w4) in
      elim (Bool-cases (grows first 96)) [ inl g ↦ rw (mm_init, g) r | inr g ↦ rw (mm_init, g) tt ]
