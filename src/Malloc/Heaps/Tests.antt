-- ===== src/Malloc/Heaps/Tests.antt =====
-- A heap of mm.c at the address 0, from its start.
use computer_systems_practic.Prelude.{ℕ, ◌+◌, refl, Bool, List, [], ◌∷◌, ◌++◌, arith, inr, leb}
use computer_systems_practic.Malloc.{Mem, place, coalesce, Heap, free}
use computer_systems_practic.Malloc.Alloc.{malloc, mm_init}
use computer_systems_practic.Malloc.Row.{Tag}
use computer_systems_practic.Malloc.Heaps.{IsHealthy}
use computer_systems_practic.Malloc.Settle.{free_tag}
use computer_systems_practic.Malloc.Merge.{Coalesced}
use computer_systems_practic.Malloc.Placed.{Placed, place-Placed}
use computer_systems_practic.Malloc.Freed.{Freed, free-Freed}
use computer_systems_practic.Malloc.Extended.{grown, grown-Coalesced}
use computer_systems_practic.Malloc.Allocates.{Answers, malloc-Answers}
use computer_systems_practic.Malloc.Started.{prepared, prepared-IsHealthy, Starts, mm_init-Starts}

abbrev blank : Mem
blank x = 0

-- A heap of at most 1 MB.
abbrev one_mega : ℕ → ℕ → Bool
one_mega brk size = leb (brk + size) 0x100000

abbrev started : Heap 0
started = record { mem = prepared 0 refl blank; brk = 96 }

mm_init-Starts_example : Starts 0 refl (mm_init 0 one_mega blank)
mm_init-Starts_example =
    mm_init-Starts 0 refl one_mega blank (λ x. omega arith) (λ s e. ground arith)

started-IsHealthy : IsHealthy 0 started.mem 96 []
started-IsHealthy = prepared-IsHealthy 0 refl blank (λ x. omega arith)

malloc-Answers_example :
    Answers 0 [] 10 started (malloc 0 one_mega (started-IsHealthy.lists.limit + 1) 10 started)
malloc-Answers_example =
    malloc-Answers 0 one_mega (started-IsHealthy.lists.limit + 1) 10 started [] started-IsHealthy
      (λ s e. ground arith) (omega arith) (omega arith)

-- The heap with one more page, of which the block takes 16 bytes.
abbrev page : Mem × ℕ
page =
    coalesce 0 (grown 0 started.mem 96 4096 [] started-IsHealthy refl (omega arith) (omega arith))
      96

page-Coalesced : Coalesced 0 (free_tag 4096 ∷ []) 4096 page.0 4192 page.1
page-Coalesced =
    grown-Coalesced 0 started.mem 96 4096 [] started-IsHealthy refl (omega arith) (omega arith)

abbrev row : List Tag
row = page-Coalesced.pre ++ (free_tag page-Coalesced.size ∷ page-Coalesced.post)

abbrev with_block : Heap 0
with_block = record { mem = place 0 page.0 page.1 16; brk = 4192 }

block-Placed : Placed 0 row with_block.mem 4192 page.1 16
block-Placed =
    let room = page-Coalesced.room in
    place-Placed 0 page.0 4192 page.1 page-Coalesced.size 16 page-Coalesced.pre page-Coalesced.post
      page-Coalesced.healthy page-Coalesced.at refl (omega arith) (omega arith)

free-Freed_example :
    Freed 0 block-Placed.row (free 0 with_block page.1).mem (free 0 with_block page.1).brk page.1
free-Freed_example =
    free-Freed 0 with_block block-Placed.row page.1 block-Placed.size block-Placed.healthy
      ((block-Placed.used page.1 block-Placed.size).1 (inr (refl, refl)))
