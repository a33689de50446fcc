-- ===== src/Malloc/Tests.antt =====
-- A run of the allocator, and its theorems at concrete inputs.
-- The run: a block is allocated, freed, merged with what is left of the heap, and found again.
use computer_systems_practic.Prelude.{
  ℕ, List, [], ◌∷◌, All, length, concat, drop, leb, ltb, ◌&&◌, ◌-◌, ◌%◌, ◌≤◌, arith, ◌==◌,
  if◌then◌else◌, ◌≡◌, refl, true, false, none, some, Option,
}
use computer_systems_practic.Malloc.{
  next_empt_blkp, Mem, Heap, list_index, count_shifts, adjust_size, free, place, coalesce,
  extend_heap, ins_free_blk, del_free_blk,
}
use computer_systems_practic.Malloc.Sizes.{InList, list_index_lem}
use computer_systems_practic.Malloc.Search.{Searched, find_fit-Searched}
use computer_systems_practic.Malloc.Rings.{IsTable}
use computer_systems_practic.Malloc.Linked.{IsLinked, IsList, del_free_blk-IsList}
use computer_systems_practic.Malloc.Inserted.{ins_free_blk-IsList}
use computer_systems_practic.Malloc.Words.{IsWords, HeapWords, mm_init-HeapWords}
use computer_systems_practic.Malloc.Bytes.{get_byte, calloc}
use computer_systems_practic.Malloc.Bytes.Contents.{calloc-zeroed}
use computer_systems_practic.Malloc.Check.{
  Complaint, mm_checkheap, check_each_block, check_free_list, check_list, aligned,
}
use computer_systems_practic.Malloc.Check.Health.{
  Settles, IsBlocks, IsHealthy, mm_checkheap-Settles,
}
use computer_systems_practic.Malloc.Alloc.{
  Fit, block, malloc, mm_init, find_fit, first_fit, best_fit, init_table, best_in_list,
  first_in_list,
}

abbrev start : Option (Heap 8)
start = mm_init 8 (λ brk size. true) (λ a. 0)

abbrev malloc_twice : Option (Heap 8) → Option Fit
malloc_twice none = none
malloc_twice (some h) =
    let r = malloc 8 (λ brk size. false) 4 100 h in
    let r' = malloc 8 (λ brk size. false) 4 20 (free 8 r.0 104) in some r'.1

reused : malloc_twice start ≡ some (block 104)
unfolding mm_init malloc free init_table extend_heap coalesce ins_free_blk del_free_blk list_index
    count_shifts adjust_size find_fit first_fit best_fit place best_in_list first_in_list
reused = refl

list_index_lem_example : InList 100 (list_index 100)
list_index_lem_example = list_index_lem 100 (omega arith)

-- Empty lists: both sections of each table entry hold its own offset.
abbrev empty_lists : Mem
empty_lists a = if (a - 8) % 8 == 0 then a - 8 else a - 12

-- The words after `mm_init`, one free block of 4096 bytes among them.
abbrev words_of : Option (Heap 8) → Mem
words_of none = λ a. 0
words_of (some h) = h.mem

found_at_start : find_fit 8 3 (words_of start) 24 ≡ block 104
unfolding mm_init init_table extend_heap coalesce ins_free_blk list_index count_shifts find_fit
    first_fit first_in_list
found_at_start = refl

-- The lists after `mm_init`: only the last one has a block.
abbrev start_rings : List (List ℕ)
start_rings = [] ∷ [] ∷ [] ∷ [] ∷ [] ∷ [] ∷ [] ∷ [] ∷ [] ∷ (104 ∷ []) ∷ []

start-IsTable : IsTable 8 (words_of start) 8 start_rings
unfolding mm_init init_table extend_heap coalesce ins_free_blk list_index count_shifts
start-IsTable = (
  refl,
  (refl, (refl, (refl, (refl, (refl, (refl, (refl, (refl, ((refl, omega arith, refl), tt))))))))),
)

start_short : All (λ r. length r ≤ 1) start_rings
start_short = (
  omega arith,
  (
    omega arith,
    (
      omega arith,
      (
        omega arith,
        (
          omega arith,
          (omega arith, (omega arith, (omega arith, (omega arith, (omega arith, tt))))),
        ),
      ),
    ),
  ),
)

find_fit-Searched_example :
    Searched 8
      (words_of start)
      24
      (concat (drop (list_index 24) start_rings))
      (find_fit 8 1 (words_of start) 24)
find_fit-Searched_example =
    find_fit-Searched 8 (words_of start) 24 1 start_rings start-IsTable refl start_short

start-IsBlocks : IsBlocks (words_of start) 100 (104 ∷ [])
unfolding mm_init init_table extend_heap coalesce ins_free_blk list_index count_shifts
start-IsBlocks = (refl, omega arith, refl)

mm_checkheap-Settles_example :
    (cs : List Complaint) × (mm_checkheap 8 96 8 4199 1 (words_of start) ≡ some cs)
    × Settles cs (IsHealthy 8 96 8 4199 (words_of start) (104 ∷ []) start_rings)
mm_checkheap-Settles_example =
    mm_checkheap-Settles 8 96 8 4199 (words_of start) 1 (104 ∷ []) start_rings start-IsBlocks
      (omega arith) start-IsTable refl start_short

nothing_printed : mm_checkheap 8 96 8 4199 1 (words_of start) ≡ some []
unfolding mm_checkheap check_each_block check_free_list check_list aligned mm_init init_table
    extend_heap coalesce ins_free_blk list_index count_shifts
nothing_printed = refl

abbrev zero_words : Heap 8
zero_words = record { mem = λ a. 0; brk = 8 }

abbrev heap_of : Option (Heap 8) → Heap 8
heap_of none = zero_words
heap_of (some h) = h

-- A heap in which malloc finds a block.
abbrev start_heap : Heap 8
start_heap = heap_of start

heap_of-IsWords : (o : Option (Heap 8)) → HeapWords 8 o → IsWords (heap_of o).mem
heap_of-IsWords none w = λ x. omega arith
heap_of-IsWords (some h) w = w

start_malloc :
    malloc 8 (λ brk size. false) 1 12 start_heap
    ≡ ((malloc 8 (λ brk size. false) 1 12 start_heap).0, block 104)
unfolding mm_init malloc init_table extend_heap coalesce ins_free_blk del_free_blk list_index
    count_shifts adjust_size find_fit first_fit best_fit place best_in_list first_in_list
start_malloc = refl

start-IsWords : IsWords start_heap.mem
start-IsWords =
    heap_of-IsWords start (mm_init-HeapWords 8 (λ brk size. true) (λ a. 0) (λ x. omega arith))

calloc-zeroed_example :
    (h2 : Heap 8) × (calloc 8 (λ brk size. false) 1 3 4 start_heap ≡ some (h2, block 104))
    × ((y : ℕ)
        → get_byte h2.mem y ≡ (
            if leb 104 y && ltb y 116
            then 0
            else get_byte (malloc 8 (λ brk size. false) 1 12 start_heap).0.mem y))
calloc-zeroed_example =
    calloc-zeroed 8 (λ brk size. false) 1 3 4 start_heap
      (malloc 8 (λ brk size. false) 1 12 start_heap).0 104 start-IsWords start_malloc

-- The block at 104 of 24 bytes, and the same heap behind a malloc.
abbrev used_heap : Heap 8
used_heap = (malloc 8 (λ brk size. false) 1 12 start_heap).0

abbrev grown_heap : Heap 8
grown_heap = (malloc 8 (λ brk size. false) 1 40 used_heap).0

-- The last list after `mm_init`, and the third one, which is empty.
last_linked : IsLinked 8 (words_of start) 80 80 (next_empt_blkp 8 (words_of start) 80) (104 ∷ [])
unfolding mm_init init_table extend_heap coalesce ins_free_blk list_index count_shifts
last_linked = (refl, omega arith, refl, (refl, refl))

last-IsList : IsList 8 (words_of start) 80 (104 ∷ [])
last-IsList = record {
  linked = last_linked;
  nodes = ((refl, omega arith, omega arith), ((refl, omega arith, omega arith), tt));
  distinct = ((omega arith, tt), (tt, tt));
}

third_linked : IsLinked 8 (words_of start) 24 24 (next_empt_blkp 8 (words_of start) 24) []
unfolding mm_init init_table extend_heap coalesce ins_free_blk list_index count_shifts
third_linked = (refl, refl)

third-IsList : IsList 8 (words_of start) 24 []
third-IsList = record {
  linked = third_linked;
  nodes = ((refl, omega arith, omega arith), tt);
  distinct = (tt, tt);
}

words_of-IsWords : (o : Option (Heap 8)) → HeapWords 8 o → IsWords (words_of o)
words_of-IsWords none w = λ x. omega arith
words_of-IsWords (some h) w = w

initial-IsWords : IsWords (words_of start)
initial-IsWords =
    words_of-IsWords start (mm_init-HeapWords 8 (λ brk size. true) (λ a. 0) (λ x. omega arith))

del_free_blk-IsList_example : IsList 8 (del_free_blk 8 (words_of start) 104) 80 []
del_free_blk-IsList_example =
    del_free_blk-IsList 8 (words_of start) 80 104 [] [] initial-IsWords last-IsList

ins_free_blk-IsList_example : IsList 8 (ins_free_blk 8 (words_of start) 112 2) 24 (112 ∷ [])
ins_free_blk-IsList_example =
    ins_free_blk-IsList 8 (words_of start) 112 2 [] initial-IsWords third-IsList
      (refl, omega arith, omega arith) (omega arith, tt)
