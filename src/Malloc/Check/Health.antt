-- ===== src/Malloc/Check/Health.antt =====
-- What it means that the heap checker of mm.c prints nothing.
use computer_systems_practic.Prelude.{
  ℕ, zero, suc, ◌+◌, ◌-◌, ◌≤◌, ◌≡◌, ◌≢◌, refl, sym, Bool, true, false, not, ◌&&◌, Option, some,
  List, [], ◌∷◌, ◌++◌, arith, ◌==◌, leb, if◌then◌else◌, Bool-cases, ◌⊎◌, inl, inr, length,
  length-append, concat, All,
}
use computer_systems_practic.Malloc.{
  Mem, pack, get_size, get_alloc, hdrp, ftrp, next_blkp, list_index, next_empt_blkp, prev_empt_blkp,
}
use computer_systems_practic.Malloc.Rings.{IsRing, IsTable}
use computer_systems_practic.Malloc.Check.{
  Complaint, counts_differ, expect, aligned, check_block, check_each_block, in_heap,
  check_heap_init, check_epi_and_pro, check_free_block, check_list, check_free_list, mm_checkheap,
}

-- There is no message and P holds, or there is one and P does not hold.
abbrev pub Settles : List Complaint → Type 0 → Type 0
Settles cs P = (cs ≡ []) × P ⊎ (cs ≢ []) × (P → ⊥)

-- A test that decides P.
abbrev Decides : Bool → Type 0 → Type 0
Decides b P = (b ≡ true) × P ⊎ (b ≡ false) × (P → ⊥)

expect-Settles : (b : Bool) (c : Complaint) (P : Type 0) → Decides b P → Settles (expect b c) P
expect-Settles b c P (inl (e, p)) = inl (rw e refl, p)
expect-Settles b c P (inr (e, n)) = inr (rw e (λ q. cc), n)

append-Settles :
    (cs ds : List Complaint) (P Q : Type 0)
    → Settles cs P
    → Settles ds Q
    → Settles (cs ++ ds) (P × Q)
append-Settles cs ds P Q (inl (e, p)) (inl (f, q)) = inl (rw (e, f) refl, (p, q))
append-Settles cs ds P Q (inl (e, p)) (inr (f, q)) = inr (rw e f, λ pq. q pq.1)
append-Settles [] ds P Q (inr (e, p)) s = absurd (e refl)
append-Settles (c ∷ cs) ds P Q (inr (e, p)) s = inr (λ f. cc, λ pq. p pq.0)

is_true : (b : Bool) → Decides b (b ≡ true)
is_true true = inl (refl, refl)
is_true false = inr (refl, λ e. cc)

is_equal : (a b : ℕ) → Decides (a == b) (a ≡ b)
is_equal a b = elim (Bool-cases (a == b)) [
  | inl e ↦ inl (e, ground arith)
  | inr e ↦ inr (e, ground arith)
]

is_both : (a b : Bool) (P Q : Type 0) → Decides a P → Decides b Q → Decides (a && b) (P × Q)
is_both a b P Q (inl (e, p)) (inl (f, q)) = inl (rw (e, f) refl, (p, q))
is_both a b P Q (inl (e, p)) (inr (f, q)) = inr (rw (e, f) refl, λ pq. q pq.1)
is_both a b P Q (inr (e, p)) s = inr (rw e refl, λ pq. p pq.0)

and_true : (a b : Bool) (P : Type 0) → Decides a P → b ≡ true → Decides (a && b) P
and_true a b P (inl (e, p)) f = inl (rw (e, f) refl, p)
and_true a b P (inr (e, n)) f = inr (rw e refl, n)

is_not : (b : Bool) (P : Type 0) → Decides b P → Decides (not b) (P → ⊥)
is_not b P (inl (e, p)) = inr (rw e refl, λ n. n p)
is_not b P (inr (e, n)) = inl (rw e refl, n)

is_at_most : (a b : ℕ) → Decides (leb a b) (a ≤ b)
is_at_most a b = elim (Bool-cases (leb a b)) [
  | inl e ↦ inl (e, ground arith)
  | inr e ↦ inr (e, ground arith)
]

-- The blocks of the heap from a header on, up to the epilogue.
abbrev pub IsBlocks : Mem → (iter : ℕ) → List ℕ → Type 0
IsBlocks m iter [] = m iter ≡ pack 0 1
IsBlocks m iter (b ∷ bs) =
    (b ≡ iter + 4) × (m iter ≢ pack 0 1) × IsBlocks m (hdrp (next_blkp m b)) bs

-- A block is aligned, its tags agree, and it is not free together with the next one.
abbrev pub IsSound : Mem → ℕ → Type 0
IsSound m b =
    (aligned b ≡ true)
    × ((m (hdrp b) ≡ m (ftrp m b))
        × (((get_alloc m (hdrp b) ≡ 0) × (get_alloc m (hdrp (next_blkp m b)) ≡ 0)) → ⊥))

check_block-Settles : (m : Mem) (b : ℕ) → Settles (check_block m b) (IsSound m b)
check_block-Settles m b = append-Settles _ _ _ _ (expect-Settles _ _ _ (is_true (aligned b))) (
    append-Settles _ _ _ _ (expect-Settles _ _ _ (is_equal (m (hdrp b)) (m (ftrp m b)))) (
      expect-Settles _ _ _ (
        is_not _ _ (
          is_both _ _ _ _ (is_equal (get_alloc m (hdrp b)) 0)
            (is_equal (get_alloc m (hdrp (next_blkp m b))) 0)))))

abbrev pub free_blocks : Mem → List ℕ → ℕ
free_blocks m [] = 0
free_blocks m (b ∷ bs) =
    if get_alloc m (hdrp b) == 0 then free_blocks m bs + 1 else free_blocks m bs

-- The walk returns messages that settle P, and a number.
abbrev Walks : Option (List Complaint × ℕ) → Type 0 → ℕ → Type 0
Walks o P n = (cs : List Complaint) × (o ≡ some (cs, n)) × Settles cs P

check_each_block-Walks :
    (fuel : ℕ) (m : Mem) (iter : ℕ) (bs : List ℕ)
    → IsBlocks m iter bs
    → length bs ≤ fuel
    → Walks (check_each_block fuel m iter) (All (IsSound m) bs) (free_blocks m bs)
unfolding check_each_block
check_each_block-Walks zero m iter [] e n = ([], rw e refl, inl (refl, tt))
check_each_block-Walks (suc fuel) m iter [] e n = ([], rw e refl, inl (refl, tt))
check_each_block-Walks zero m iter (b ∷ bs) h n = absurd (omega arith)
check_each_block-Walks (suc fuel) m iter (b ∷ bs) (e, ne, h) n =
    let other : m iter == pack 0 1 ≡ false = ground arith in
    let (cs, walked, s) = check_each_block-Walks fuel m (hdrp (next_blkp m b)) bs h (omega arith) in
    (
      check_block m b ++ cs,
      rw (other, sym e, walked) refl,
      append-Settles _ _ _ _ (check_block-Settles m b) s,
    )

module _ (first base lo hi : ℕ) (m : Mem) where
  abbrev pub IsInHeap : ℕ → Type 0
  IsInHeap p = (p ≤ hi) × (lo ≤ p)

  in_heap_decides : (p : ℕ) → Decides (in_heap first base lo hi p) (IsInHeap p)
  in_heap_decides p = is_both _ _ _ _ (is_at_most p hi) (is_at_most lo p)

  -- A block of list idx is in the heap, in the list for its size, and its successor points back to it.
  abbrev pub IsListed : (idx b : ℕ) → Type 0
  IsListed idx b =
      IsInHeap b
      × ((list_index (get_size m (hdrp b)) ≡ idx)
          × (b ≡ prev_empt_blkp first m (next_empt_blkp first m b)))

  check_free_block-Settles :
      (idx b : ℕ) → Settles (check_free_block first base lo hi m idx b) (IsListed idx b)
  check_free_block-Settles idx b =
      append-Settles _ _ _ _ (expect-Settles _ _ _ (in_heap_decides b)) (
        append-Settles _ _ _ _
          (expect-Settles _ _ _ (is_equal (list_index (get_size m (hdrp b))) idx))
          (expect-Settles _ _ _ (
            and_true _ _ _ (is_equal b (prev_empt_blkp first m (next_empt_blkp first m b)))
              (let e : next_empt_blkp first m b == first + m b ≡ true = ground arith in e))))

  check_list-Walks :
      (fuel idx head bp : ℕ) (bs : List ℕ)
      → IsRing first m head bp bs
      → length bs ≤ fuel
      → Walks (check_list first base lo hi fuel m idx head bp) (All (IsListed idx) bs) (length bs)
  unfolding check_list
  check_list-Walks zero idx head bp [] e n =
      let s : bp == head ≡ true = ground arith in ([], rw s refl, inl (refl, tt))
  check_list-Walks (suc fuel) idx head bp [] e n =
      let s : bp == head ≡ true = ground arith in ([], rw s refl, inl (refl, tt))
  check_list-Walks zero idx head bp (b ∷ bs) h n = absurd (omega arith)
  check_list-Walks (suc fuel) idx head bp (b ∷ bs) (e, ne, r) n =
      let other : b == head ≡ false = ground arith in
      let (cs, walked, s) =
        check_list-Walks fuel idx head (next_empt_blkp first m b) bs r (omega arith) in
      let more : length bs + 1 ≡ suc (length bs) = omega arith in
      (
        check_free_block first base lo hi m idx b ++ cs,
        rw (e, other, walked, more) refl,
        append-Settles _ _ _ _ (check_free_block-Settles idx b) s,
      )

  -- The blocks of the lists from list idx on.
  abbrev pub AllListed : (idx : ℕ) → List (List ℕ) → Type 0
  AllListed idx [] = Unit
  AllListed idx (bs ∷ rings) = All (IsListed idx) bs × AllListed (idx + 1) rings

  check_free_list-Walks :
      (fuel idx head : ℕ) (rings : List (List ℕ))
      → IsTable first m head rings
      → All (λ r. length r ≤ fuel) rings
      → Walks
          (check_free_list first base lo hi fuel (length rings) m idx head)
          (AllListed idx rings)
          (length (concat rings))
  unfolding check_free_list
  check_free_list-Walks fuel idx head [] t n = ([], refl, inl (refl, tt))
  check_free_list-Walks fuel idx head (bs ∷ rings) (r, t) (n, ns) =
      let (cs, one, s) = check_list-Walks fuel idx head (next_empt_blkp first m head) bs r n in
      let (ds, two, s') = check_free_list-Walks fuel (idx + 1) (head + 8) rings t ns in
      (cs ++ ds, rw (one, two, length-append bs (concat rings)) refl, append-Settles _ _ _ _ s s')

  -- The prologue and the epilogue.
  abbrev pub IsInit : Type 0
  IsInit = (base ≢ 0) × ((aligned base ≡ true) × IsInHeap base)

  abbrev pub IsFramed : Type 0
  IsFramed =
      (m (hdrp base) ≡ pack 8 1)
      × ((m base ≡ pack 8 1)
          × ((m (hi - 3) ≡ pack 0 1)
              × (IsInHeap (hdrp base) × (IsInHeap base × IsInHeap (hi - 3)))))

  -- A sound heap: the globals and the frame are right, every block is sound, every block of a list
  -- belongs there, and there are as many free blocks in the heap as in the lists.
  abbrev pub IsHealthy : (blocks : List ℕ) → (rings : List (List ℕ)) → Type 0
  IsHealthy blocks rings =
      IsInit
      × (IsFramed
          × (All (IsSound m) blocks
              × (AllListed 0 rings × (free_blocks m blocks ≡ length (concat rings)))))

  check_heap_init-Settles : Settles (check_heap_init first base lo hi) IsInit
  check_heap_init-Settles =
      append-Settles _ _ _ _ (expect-Settles _ _ _ (is_not _ _ (is_equal base 0))) (
        append-Settles _ _ _ _ (expect-Settles _ _ _ (is_true (aligned base)))
          (expect-Settles _ _ _ (in_heap_decides base)))

  check_epi_and_pro-Settles : Settles (check_epi_and_pro first base lo hi m) IsFramed
  check_epi_and_pro-Settles =
      append-Settles _ _ _ _ (expect-Settles _ _ _ (is_equal (m (hdrp base)) (pack 8 1))) (
        append-Settles _ _ _ _ (expect-Settles _ _ _ (is_equal (m base) (pack 8 1))) (
          append-Settles _ _ _ _ (expect-Settles _ _ _ (is_equal (m (hi - 3)) (pack 0 1))) (
            append-Settles _ _ _ _ (expect-Settles _ _ _ (in_heap_decides (hdrp base))) (
              append-Settles _ _ _ _ (expect-Settles _ _ _ (in_heap_decides base))
                (expect-Settles _ _ _ (in_heap_decides (hi - 3)))))))

  -- Where the heap is a row of blocks up to the epilogue, the ten lists are rings of blocks, and there
  -- are as many rounds as blocks in the heap and in each list: `mm_checkheap` ends, and it prints nothing
  -- when the heap is sound, and something when it is not. Sound: the globals and the frame are right,
  -- every block is aligned, has equal tags and is not free together with the next one, every block of a
  -- list is in the heap, in the list for its size and has a successor that points back to it, and there
  -- are as many free blocks in the heap as in the lists.
  pub mm_checkheap-Settles :
      (fuel : ℕ) (blocks : List ℕ) (rings : List (List ℕ))
      → IsBlocks m (base + 4) blocks
      → length blocks ≤ fuel
      → IsTable first m first rings
      → length rings ≡ 10
      → All (λ r. length r ≤ fuel) rings
      → (cs : List Complaint) × (mm_checkheap first base lo hi fuel m ≡ some cs)
        × Settles cs (IsHealthy blocks rings)
  unfolding mm_checkheap
  mm_checkheap-Settles fuel blocks rings hb nb t ten n =
      let (cs, one, s) = check_each_block-Walks fuel m (base + 4) blocks hb nb in
      let (ds, two, s') = check_free_list-Walks fuel 0 first rings t n in
      let two' : check_free_list first base lo hi fuel 10 m 0 first
          ≡ some (ds, length (concat rings)) =
        rw (sym ten) two in
      (
        check_heap_init first base lo hi
            ++ (check_epi_and_pro first base lo hi m
                ++ (cs
                    ++ (ds
                        ++ expect (free_blocks m blocks == length (concat rings)) counts_differ))),
        rw (mm_checkheap, one, two') refl,
        append-Settles _ _ _ _ check_heap_init-Settles (
            append-Settles _ _ _ _ check_epi_and_pro-Settles (
              append-Settles _ _ _ _ s (
                append-Settles _ _ _ _ s' (
                  expect-Settles _ _ _
                    (is_equal (free_blocks m blocks) (length (concat rings))))))),
      )
