-- ===== src/Malloc/Check.antt =====
-- The heap checker of mm.c. Its messages are values, in the order in which they are printed; the line
-- number that it is given is left out. `base` is heap_basep, and `lo` and `hi` are what mem_heap_lo and
-- mem_heap_hi of the lab's memlib return. The walks have a number of rounds, and are none without a
-- result.
pub mod Health
use Prim.Native.Nat.{bit_and}
use computer_systems_practic.Prelude.{
  ℕ, zero, suc, ◌+◌, ◌-◌, ◌%◌, ◌^◌, Bool, not, ◌&&◌, Option, none, some, List, [], ◌∷◌, ◌++◌, ◌==◌,
  leb, if◌then◌else◌, ◌>>=◌,
}
use computer_systems_practic.Malloc.{
  Mem, pack, get_size, get_alloc, hdrp, ftrp, next_blkp, list_index, next_empt_blkp, prev_empt_blkp,
}

pub data Complaint : Type 0 where
  not_initialized : Complaint
  base_misaligned : Complaint
  base_outside : Complaint
  prologue_header_error : Complaint
  prologue_footer_error : Complaint
  epilogue_error : Complaint
  prologue_header_outside : Complaint
  prologue_footer_outside : Complaint
  epilogue_outside : Complaint
  misaligned : (bp : ℕ) → Complaint
  tags_differ : (bp : ℕ) → Complaint
  consecutive_free : (bp next : ℕ) → Complaint
  free_outside : (bp : ℕ) → Complaint
  wrong_list : (bp : ℕ) → Complaint
  inconsistent : (bp next : ℕ) → Complaint
  counts_differ : Complaint

-- The message, unless all is well.
abbrev pub expect : Bool → Complaint → List Complaint
expect good c = if good then [] else c ∷ []

unfoldable pub aligned : ℕ → Bool
aligned p = bit_and ((p + 7) % 2 ^ 64) (2 ^ 64 - 8) == p

-- The messages on one block of the heap.
abbrev pub check_block : Mem → (bp : ℕ) → List Complaint
check_block m bp =
    expect (aligned bp) (misaligned bp)
    ++ (expect (m (hdrp bp) == m (ftrp m bp)) (tags_differ bp)
        ++ expect (not ((get_alloc m (hdrp bp) == 0) && (get_alloc m (hdrp (next_blkp m bp)) == 0)))
            (consecutive_free bp (next_blkp m bp)))

-- `check_each_block` from a header on: the messages, and the number of free blocks.
unfoldable pub check_each_block : (fuel : ℕ) → Mem → (iter : ℕ) → Option (List Complaint × ℕ)
unfolding aligned
check_each_block zero m iter = if m iter == pack 0 1 then some ([], 0) else none
check_each_block (suc fuel) m iter =
    let bp = iter + 4 in
    let rest = check_each_block fuel m (hdrp (next_blkp m bp)) >>= λ (cs, n).
    some (check_block m bp ++ cs, if get_alloc m (hdrp bp) == 0 then n + 1 else n) in
    if m iter == pack 0 1 then some ([], 0) else rest

module _ (first base lo hi : ℕ) where
  abbrev pub in_heap : ℕ → Bool
  in_heap p = leb p hi && leb lo p

  abbrev pub check_heap_init : List Complaint
  check_heap_init =
      expect (not (base == 0)) not_initialized
      ++ (expect (aligned base) base_misaligned ++ expect (in_heap base) base_outside)

  abbrev pub check_epi_and_pro : Mem → List Complaint
  check_epi_and_pro m =
      expect (m (hdrp base) == pack 8 1) prologue_header_error
      ++ (expect (m base == pack 8 1) prologue_footer_error
          ++ (expect (m (hi - 3) == pack 0 1) epilogue_error
              ++ (expect (in_heap (hdrp base)) prologue_header_outside
                  ++ (expect (in_heap base) prologue_footer_outside
                      ++ expect (in_heap (hi - 3)) epilogue_outside))))

  -- The messages on one block of a free list.
  abbrev pub check_free_block : Mem → (idx bp : ℕ) → List Complaint
  check_free_block m idx bp =
      expect (in_heap bp) (free_outside bp)
      ++ (expect (list_index (get_size m (hdrp bp)) == idx) (wrong_list bp)
          ++ expect
              ((bp == prev_empt_blkp first m (next_empt_blkp first m bp))
                && (next_empt_blkp first m bp == first + m bp))
              (inconsistent bp (next_empt_blkp first m bp)))

  -- One list, and `check_free_list` for a number of lists from one on.
  unfoldable pub check_list :
      (fuel : ℕ) → Mem → (idx list_head bp : ℕ) → Option (List Complaint × ℕ)
  unfolding list_index
  check_list zero m idx list_head bp = if bp == list_head then some ([], 0) else none
  check_list (suc fuel) m idx list_head bp =
      let rest = check_list fuel m idx list_head (next_empt_blkp first m bp) >>= λ (cs, n).
      some (check_free_block m idx bp ++ cs, n + 1) in
      if bp == list_head then some ([], 0) else rest

  unfoldable pub check_free_list :
      (fuel lists : ℕ) → Mem → (idx list_head : ℕ) → Option (List Complaint × ℕ)
  unfolding check_list
  check_free_list fuel zero m idx list_head = some ([], 0)
  check_free_list fuel (suc lists) m idx list_head =
      check_list fuel m idx list_head (next_empt_blkp first m list_head) >>= λ (cs, n).
      check_free_list fuel lists m (idx + 1) (list_head + 8) >>= λ (ds, k). some (cs ++ ds, n + k)

  unfoldable pub mm_checkheap : (fuel : ℕ) → Mem → Option (List Complaint)
  mm_checkheap fuel m = check_each_block fuel m (base + 4) >>= λ (cs, free_cnt1).
      check_free_list fuel 10 m 0 first >>= λ (ds, free_cnt2). some (
        check_heap_init
        ++ (check_epi_and_pro m ++ (cs ++ (ds ++ expect (free_cnt1 == free_cnt2) counts_differ))))
