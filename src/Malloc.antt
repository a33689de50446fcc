-- ===== src/Malloc.antt =====
-- The memory allocator, malloc lab/mm.c: its blocks, its segregated free lists, and malloc and free.
-- Every word that mm.c reads or writes stands at a multiple of 4, so memory is a function from such
-- addresses to 32-bit words; addresses are natural numbers. `mem_sbrk` of the lab's memlib is an
-- argument: from the size of the heap and an increment it says whether the heap grows.
pub mod Alloc
pub mod Sizes
pub mod Fits
pub mod Lists
pub mod Rings
pub mod Linked
pub mod Inserted
pub mod Words
pub mod Bytes
pub mod Check
pub mod Search
pub mod Cycle
pub mod Row
pub mod Used
pub mod Heaps
pub mod Retag
pub mod Settle
pub mod Merge
pub mod Coalesce
pub mod Freed
pub mod Placed
pub mod Found
pub mod Extended
pub mod Allocates
pub mod Started
pub mod Tags
mod Tests
use Prim.Native.Nat.{bit_and, bit_or}
use computer_systems_practic.Prelude.{
  ℕ, zero, suc, ◌+◌, ◌-◌, ◌*◌, ◌/◌, ◌%◌, ◌^◌, Bool, true, false, ◌&&◌, Option, none, some, ◌==◌,
  ltb, leb, not, if◌then◌else◌,
}

abbrev pub Mem : Type 0
Mem = ℕ → ℕ

-- PUT, PACK, GET_SIZE and GET_ALLOC; GET is the application of the memory.
abbrev pub put : Mem → (p val : ℕ) → Mem
put m p val x = if x == p then val % 2 ^ 32 else m x

abbrev pub pack : (size alloc : ℕ) → ℕ
pack size alloc = bit_or size alloc

abbrev pub get_size : Mem → ℕ → ℕ
get_size m p = bit_and (m p) 0xFFFFFFF8

abbrev pub get_alloc : Mem → ℕ → ℕ
get_alloc m p = bit_and (m p) 1

-- HDRP, FTRP, PREV_SECT, NEXT_BLKP and PREV_BLKP; NEXT_SECT(bp) is bp.
abbrev pub hdrp : ℕ → ℕ
hdrp bp = bp - 4

abbrev pub ftrp : Mem → ℕ → ℕ
ftrp m bp = bp + get_size m (hdrp bp) - 8

abbrev pub prev_sect : ℕ → ℕ
prev_sect bp = bp + 4

abbrev pub next_blkp : Mem → ℕ → ℕ
next_blkp m bp = bp + get_size m (bp - 4)

abbrev pub prev_blkp : Mem → ℕ → ℕ
prev_blkp m bp = bp - get_size m (bp - 8)

-- The loop of `list_index`, at most as many rounds as a size_t has digits.
unfoldable pub count_shifts : ℕ → (size idx : ℕ) → ℕ
count_shifts zero size idx = idx
count_shifts (suc n) size idx =
    let rest = count_shifts n (size / 2) (idx + 1) in if ltb 0 size then rest else idx

unfoldable pub list_index : ℕ → ℕ
unfolding count_shifts
list_index size = let idx = count_shifts 64 (size / 2 ^ 4) 0 in if ltb 9 idx then 9 else idx

-- The size of the block that `malloc` looks for; a size_t wraps.
unfoldable pub adjust_size : ℕ → ℕ
adjust_size size = if leb size 8 then 16 else 8 * ((size + 15) % 2 ^ 64 / 8)

-- `first` is first_listp, the address of the table of the lists.
module _ (first : ℕ) where
  abbrev pub next_empt_blkp : Mem → ℕ → ℕ
  next_empt_blkp m bp = first + m bp

  abbrev pub prev_empt_blkp : Mem → ℕ → ℕ
  prev_empt_blkp m bp = first + m (prev_sect bp)

  unfoldable pub ins_free_blk : Mem → (bp index : ℕ) → Mem
  ins_free_blk m bp index =
      let target = first + index * 8 in
      let m1 = put m bp (m target) in
      let m2 = put m1 (prev_sect bp) (m1 (prev_sect (next_empt_blkp m1 bp))) in
      let m3 = put m2 target (bp - first) in put m3 (prev_sect (next_empt_blkp m3 bp)) (bp - first)

  unfoldable pub del_free_blk : Mem → (bp : ℕ) → Mem
  del_free_blk m bp =
      let m1 = put m (prev_sect (next_empt_blkp m bp)) (m (prev_sect bp)) in
      put m1 (prev_empt_blkp m1 bp) (m1 bp)

  -- Header, then footer, of a block of a size.
  abbrev pub put_tags : Mem → (bp size alloc : ℕ) → Mem
  put_tags m bp size alloc =
      let m1 = put m (hdrp bp) (pack size alloc) in put m1 (ftrp m1 bp) (pack size alloc)

  -- The rest of the block is a size_t.
  unfoldable pub place : Mem → (bp asize : ℕ) → Mem
  unfolding ins_free_blk del_free_blk list_index
  place m bp asize =
      let bsize = get_size m (hdrp bp) in
      let rest = (bsize + 2 ^ 64 - asize) % 2 ^ 64 in
      let m1 = del_free_blk m bp in
      let m2 = put_tags m1 bp asize 1 in
      let bp' = next_blkp m2 bp in
      let split = ins_free_blk (put_tags m2 bp' rest 0) bp' (list_index rest) in
      let whole = put_tags m1 bp bsize 1 in if leb 16 rest then split else whole

  -- The four cases of `coalesce`: the new block and the memory.
  abbrev pub merge_prev : Mem → ℕ → Mem × ℕ
  merge_prev m bp =
      let m1 = del_free_blk m (prev_blkp m bp) in
      let bp' = prev_blkp m1 bp in
      let size = get_size m (hdrp bp) + get_size m1 (hdrp bp') in
      (ins_free_blk (put_tags m1 bp' size 0) bp' (list_index size), bp')

  abbrev pub merge_next : Mem → ℕ → Mem × ℕ
  merge_next m bp =
      let m1 = del_free_blk m (next_blkp m bp) in
      let size = get_size m (hdrp bp) + get_size m1 (hdrp (next_blkp m1 bp)) in
      (ins_free_blk (put_tags m1 bp size 0) bp (list_index size), bp)

  abbrev pub merge_both : Mem → ℕ → Mem × ℕ
  merge_both m bp =
      let m1 = del_free_blk m (prev_blkp m bp) in
      let m2 = del_free_blk m1 (next_blkp m1 bp) in
      let size =
        get_size m (hdrp bp)
        + get_size m2 (hdrp (prev_blkp m2 bp))
        + get_size m2 (hdrp (next_blkp m2 bp)) in
      let bp' = prev_blkp m2 bp in
      (ins_free_blk (put_tags m2 bp' size 0) bp' (list_index size), bp')

  unfoldable pub coalesce : Mem → ℕ → Mem × ℕ
  unfolding ins_free_blk del_free_blk list_index
  coalesce m bp =
      let prev_alloc = get_alloc m (ftrp m (prev_blkp m bp)) in
      let next_alloc = get_alloc m (hdrp (next_blkp m bp)) in
      if next_alloc == 0
      then (if prev_alloc == 0 then merge_both m bp else merge_next m bp)
      else (if prev_alloc == 0
          then merge_prev m bp
          else (ins_free_blk m bp (list_index (get_size m (hdrp bp))), bp))

  -- The words, and the address behind the heap.
  pub record Heap : Type 0 where
    pub mem : Mem
    pub brk : ℕ

  -- `grows brk size`: mem_sbrk(size) succeeds; it then returns the old end of the heap.
  unfoldable pub extend_heap : (grows : ℕ → ℕ → Bool) → Heap → (words : ℕ) → Option (Heap × ℕ)
  unfolding coalesce
  extend_heap grows h words =
      let size = if words % 2 == 0 then 4 * words else 4 * (words + 1) in
      let bp = h.brk in
      let m1 = put_tags h.mem bp size 0 in
      let m2 = put m1 (hdrp (next_blkp m1 bp)) (pack 0 1) in
      let r = coalesce m2 bp in
      if grows h.brk size then some (record { mem = r.0; brk = h.brk + size }, r.1) else none

  unfoldable pub free : Heap → (ptr : ℕ) → Heap
  unfolding coalesce
  free h ptr =
      let size = get_size h.mem (hdrp ptr) in
      let m = put_tags h.mem ptr size 0 in
      if ptr == 0 then h else record h { mem = (coalesce m ptr).0 }
