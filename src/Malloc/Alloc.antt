-- ===== src/Malloc/Alloc.antt =====
-- The search for a block, `mm_init` and `malloc` of mm.c.
use computer_systems_practic.Prelude.{
  ℕ, zero, suc, ◌+◌, ◌-◌, ◌*◌, ◌/◌, ◌^◌, Bool, ◌&&◌, Option, none, some, ◌==◌, ltb, leb,
  if◌then◌else◌,
}
use computer_systems_practic.Malloc.{
  Mem, put, pack, get_size, get_alloc, hdrp, list_index, adjust_size, next_empt_blkp, place, Heap,
  extend_heap,
}

-- What a search returns: a block, NULL, or no result within the rounds that it was given.
pub data Fit : Type 0 where
  block : ℕ → Fit
  no_block : Fit
  out_of_fuel : Fit

abbrev pub fits : Mem → (asize bp : ℕ) → Bool
fits m asize bp = (get_alloc m (hdrp bp) == 0) && leb asize (get_size m (hdrp bp))

-- The best block so far, and its size or the bound that it starts from.
pub record Best : Type 0 where
  pub best_bp : Option ℕ
  pub best_size : ℕ

abbrev pub better : Mem → (asize bp : ℕ) → Best → Best
better m asize bp best =
    let size = get_size m (hdrp bp) in
    let taken : Best = record { best_bp = some bp; best_size = size } in
    if fits m asize bp
    then elim (best.best_bp) [
      | none ↦ taken
      | some b ↦ if ltb size best.best_size then taken else best
    ]
    else best

module _ (first : ℕ) where
  -- The walk through one list for the first block that fits.
  unfoldable pub first_in_list : ℕ → Mem → (asize list_head bp : ℕ) → Fit
  first_in_list zero m asize list_head bp = if bp == list_head then no_block else out_of_fuel
  first_in_list (suc fuel) m asize list_head bp =
      let rest = first_in_list fuel m asize list_head (next_empt_blkp first m bp) in
      if bp == list_head then no_block else if fits m asize bp then block bp else rest

  -- The lists from one list on, `lists` of them.
  unfoldable pub first_fit : (fuel lists : ℕ) → Mem → (asize list_head : ℕ) → Fit
  unfolding first_in_list
  first_fit fuel zero m asize list_head = no_block
  first_fit fuel (suc lists) m asize list_head =
      elim (first_in_list fuel m asize list_head (next_empt_blkp first m list_head)) [
        | block bp ↦ block bp
        | out_of_fuel ↦ out_of_fuel
        | no_block ↦ first_fit fuel lists m asize (list_head + 8)
      ]

  unfoldable pub best_in_list : ℕ → Mem → (asize list_head bp : ℕ) → Best → Option Best
  best_in_list zero m asize list_head bp best = if bp == list_head then some best else none
  best_in_list (suc fuel) m asize list_head bp best =
      let rest =
        best_in_list fuel m asize list_head (next_empt_blkp first m bp) (better m asize bp best) in
      if bp == list_head then some best else rest

  unfoldable pub best_fit : (fuel lists : ℕ) → Mem → (asize list_head : ℕ) → Best → Fit
  unfolding best_in_list
  best_fit fuel zero m asize list_head best = elim (best.best_bp) [
    | none ↦ no_block
    | some bp ↦ block bp
  ]
  best_fit fuel (suc lists) m asize list_head best =
      elim (best_in_list fuel m asize list_head (next_empt_blkp first m list_head) best) [
        | none ↦ out_of_fuel
        | some best' ↦ best_fit fuel lists m asize (list_head + 8) best'
      ]

  unfoldable pub find_fit : (fuel : ℕ) → Mem → (asize : ℕ) → Fit
  unfolding list_index first_fit best_fit
  find_fit fuel m asize =
      let idx = list_index asize in
      let start = first + idx * 8 in
      if ltb idx 4
      then first_fit fuel (10 - idx) m asize start
      else best_fit fuel (10 - idx) m asize start
          (record { best_bp = none; best_size = 16 * 2 ^ idx })

  -- The table of the lists, for offset, offset + 8 and so on, `lists` of them.
  unfoldable pub init_table : (lists offset : ℕ) → Mem → Mem
  init_table zero offset m = m
  init_table (suc lists) offset m =
      init_table lists (offset + 8)
        (put (put m (first + offset) offset) (first + offset + 4) offset)

  -- `mm_init` with `first` what mem_sbrk returns: none is -1.
  unfoldable pub mm_init : (grows : ℕ → ℕ → Bool) → Mem → Option (Heap first)
  unfolding init_table extend_heap
  mm_init grows m =
      let listp = first + 80 in
      let m1 = put (init_table 10 0 m) listp 0 in
      let m2 = put m1 (listp + 4) (pack 8 1) in
      let m3 = put m2 (listp + 8) (pack 8 1) in
      let m4 = put m3 (listp + 12) (pack 0 1) in
      if grows first 96
      then elim (extend_heap first grows (record { mem = m4; brk = first + 96 }) 1024) [
        | none ↦ none
        | some (h, bp) ↦ some h
      ]
      else none

  -- `malloc`: a block, NULL, or no result, with the heap.
  unfoldable pub malloc : (grows : ℕ → ℕ → Bool) → (fuel size : ℕ) → Heap first → Heap first × Fit
  unfolding adjust_size find_fit place extend_heap
  malloc grows fuel size h =
      let asize = adjust_size size in
      let extend_size = if ltb 512 asize then asize else 512 in
      let found : Heap first × Fit = elim (find_fit fuel h.mem asize) [
        | block bp ↦ (record h { mem = place first h.mem bp asize }, block bp)
        | out_of_fuel ↦ (h, out_of_fuel)
        | no_block ↦ elim (extend_heap first grows h (extend_size / 4)) [
          | none ↦ (h, no_block)
          | some (h1, bp) ↦ (record h1 { mem = place first h1.mem bp asize }, block bp)
        ]
      ] in
      if size == 0 then (h, no_block) else found
