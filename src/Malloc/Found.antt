-- ===== src/Malloc/Found.antt =====
-- `find_fit` of mm.c on a well-formed heap.
use computer_systems_practic.Prelude.{
  ℕ, zero, suc, ◌+◌, ◌-◌, ◌*◌, ◌/◌, ◌^◌, ◌≤◌, ◌<◌, ◌≡◌, refl, sym, ap, ◌∙◌, true, Option, none,
  some, List, arith, ◌⊎◌, inl, inr, ◌==◌, if◌then◌else◌, Bool-cases, ltb,
}
use computer_systems_practic.Malloc.{Mem, get_size, hdrp, list_index, next_empt_blkp}
use computer_systems_practic.Malloc.Alloc.{
  Fit, block, no_block, out_of_fuel, fits, Best, better, first_in_list, first_fit, best_in_list,
  best_fit, find_fit,
}
use computer_systems_practic.Malloc.Row.{Tag, FreeAt, FreeAt-bounds}
use computer_systems_practic.Malloc.Heaps.{IsPlace, IsHealthy}
use computer_systems_practic.Malloc.Settle.{list_index_few}

module _ (first : ℕ) (m : Mem) (brk : ℕ) (ts : List Tag) (h : IsHealthy first m brk ts)
    (asize : ℕ) where
  -- A free block of the row that is large enough.
  abbrev pub Suits : ℕ → Type 0
  Suits bp = FreeAt (first + 96) ts bp × (asize ≤ get_size m (hdrp bp))

  -- A search that has ended, with a block that suits or with none.
  abbrev pub Ended : Fit → Type 0
  Ended (block bp) = Suits bp
  Ended no_block = Unit
  Ended out_of_fuel = ⊥

  abbrev Node : ℕ → Type 0
  Node = IsPlace first ts

  -- A node of the list i is its entry or a free block.
  node_cases :
      (i x : ℕ)
      → i < 10
      → Node x
      → h.lists.list x ≡ i
      → (x ≡ first + i * 8) ⊎ FreeAt (first + 96) ts x
  node_cases i x few (inl (a, lo, hi)) e =
      let al = h.aligned in
      let j = (x - first) / 8 in
      let at : x ≡ first + j * 8 = omega arith in
      let same : h.lists.list x ≡ j = ap h.lists.list at ∙ h.lists.heads j (omega arith) in
      let ij : j ≡ i = sym same ∙ e in inl (at ∙ rw ij refl)
  node_cases i x few (inr f) e = inr f

  block_above : (x : ℕ) → FreeAt (first + 96) ts x → first + 80 ≤ x
  block_above x f =
      let al = h.aligned in
      let (lo, hi, a) = FreeAt-bounds m (first + 96) ts brk x (omega arith) h.row f in omega arith

  next_left :
      (fuel x : ℕ)
      → Node x
      → FreeAt (first + 96) ts x
      → h.lists.steps x < suc fuel
      → h.lists.steps (next_empt_blkp first m x) < fuel
  next_left fuel x at f less = let down = h.lists.falls x at (block_above x f) in omega arith

  fits_lem : (bp : ℕ) → fits m asize bp ≡ true → asize ≤ get_size m (hdrp bp)
  fits_lem bp e = ground arith

  first_in_list-Ended :
      (fuel i bp : ℕ)
      → i < 10
      → Node bp
      → h.lists.list bp ≡ i
      → (h.lists.steps bp < fuel) ⊎ (bp ≡ first + i * 8)
      → Ended (first_in_list first fuel m asize (first + i * 8) bp)
  unfolding first_in_list
  first_in_list-Ended zero i bp few at same (inl less) = absurd (omega arith)
  first_in_list-Ended zero i bp few at same (inr e) =
      let s : bp == first + i * 8 ≡ true = ground arith in rw s tt
  first_in_list-Ended (suc fuel) i bp few at same left = elim (Bool-cases (bp == first + i * 8)) [
    | inl s ↦ rw s tt
    | inr s ↦
        let f : FreeAt (first + 96) ts bp = elim (node_cases i bp few at same) [
          | inl e ↦ absurd (ground arith)
          | inr f ↦ f
        ] in
        let less : h.lists.steps bp < suc fuel = elim left [
          | inl less ↦ less
          | inr e ↦ absurd (ground arith)
        ] in
        let rest =
          first_in_list-Ended fuel i (next_empt_blkp first m bp) few (h.cycle bp at).0
            (h.lists.same_list bp at ∙ same) (inl (next_left fuel bp at f less)) in
        elim (Bool-cases (fits m asize bp)) [
          | inl fit ↦ rw (s, fit) (f, fits_lem bp fit)
          | inr no_fit ↦ rw (s, no_fit) rest
        ]
  ]

  -- The best block so far suits.
  abbrev BestSuits : Best → Type 0
  BestSuits best = elim (best.best_bp) [ none ↦ Unit | some bp ↦ Suits bp ]

  better-BestSuits :
      (bp : ℕ) (best : Best)
      → FreeAt (first + 96) ts bp
      → BestSuits best
      → BestSuits (better m asize bp best)
  better-BestSuits bp best f s = elim (Bool-cases (fits m asize bp)) [
    | inl fit ↦ rw fit (chosen (best.best_bp) (f, fits_lem bp fit))
    | inr no_fit ↦ rw no_fit s
  ]
    where
      taken : Best
      taken = record { best_bp = some bp; best_size = get_size m (hdrp bp) }

      chosen :
          (o : Option ℕ)
          → Suits bp
          → BestSuits (elim o [
            | none ↦ taken
            | some b ↦ if ltb (get_size m (hdrp bp)) best.best_size then taken else best
          ])
      chosen none new = new
      chosen (some b) new = elim (Bool-cases (ltb (get_size m (hdrp bp)) best.best_size)) [
        | inl less ↦ rw less new
        | inr more ↦ rw more s
      ]

  abbrev EndedBest : Option Best → Type 0
  EndedBest none = ⊥
  EndedBest (some best) = BestSuits best

  best_in_list-EndedBest :
      (fuel i bp : ℕ) (best : Best)
      → i < 10
      → Node bp
      → h.lists.list bp ≡ i
      → (h.lists.steps bp < fuel) ⊎ (bp ≡ first + i * 8)
      → BestSuits best
      → EndedBest (best_in_list first fuel m asize (first + i * 8) bp best)
  unfolding best_in_list
  best_in_list-EndedBest zero i bp best few at same (inl less) b = absurd (omega arith)
  best_in_list-EndedBest zero i bp best few at same (inr e) b =
      let s : bp == first + i * 8 ≡ true = ground arith in rw s b
  best_in_list-EndedBest (suc fuel) i bp best few at same left b =
      elim (Bool-cases (bp == first + i * 8)) [
        | inl s ↦ rw s b
        | inr s ↦
            let f : FreeAt (first + 96) ts bp = elim (node_cases i bp few at same) [
              | inl e ↦ absurd (ground arith)
              | inr f ↦ f
            ] in
            let less : h.lists.steps bp < suc fuel = elim left [
              | inl less ↦ less
              | inr e ↦ absurd (ground arith)
            ] in
            let rest =
              best_in_list-EndedBest fuel i (next_empt_blkp first m bp) (better m asize bp best) few
                (h.cycle bp at).0 (h.lists.same_list bp at ∙ same)
                (inl (next_left fuel bp at f less)) (better-BestSuits bp best f b) in
            rw s rest
      ]

  module _ (fuel : ℕ) (enough : h.lists.limit < fuel) where
    entry : (i : ℕ) → i < 10 → Node (first + i * 8)
    entry i few =
        let al = h.aligned in h.table (first + i * 8) (omega arith) (omega arith) (omega arith)

    first_list :
        (i : ℕ)
        → i < 10
        → Ended (
            first_in_list first fuel m asize
              (first + i * 8)
              (next_empt_blkp first m (first + i * 8)))
    first_list i few =
        let at = entry i few in
        let next = (h.cycle (first + i * 8) at).0 in
        let up = h.lists.bounded (next_empt_blkp first m (first + i * 8)) next in
        first_in_list-Ended fuel i _ few next
          (h.lists.same_list (first + i * 8) at ∙ h.lists.heads i few) (inl (omega arith))

    best_list :
        (i : ℕ) (best : Best)
        → i < 10
        → BestSuits best
        → EndedBest (
            best_in_list first fuel m asize
              (first + i * 8)
              (next_empt_blkp first m (first + i * 8))
              best)
    best_list i best few b =
        let at = entry i few in
        let next = (h.cycle (first + i * 8) at).0 in
        let up = h.lists.bounded (next_empt_blkp first m (first + i * 8)) next in
        best_in_list-EndedBest fuel i _ best few next
          (h.lists.same_list (first + i * 8) at ∙ h.lists.heads i few) (inl (omega arith)) b

    first_fit-Ended :
        (lists i : ℕ) → i + lists ≤ 10 → Ended (first_fit first fuel lists m asize (first + i * 8))
    unfolding first_fit
    first_fit-Ended zero i few = tt
    first_fit-Ended (suc lists) i few =
        let next : first + suc i * 8 ≡ first + i * 8 + 8 = omega arith in
        go _ (first_list i (omega arith))
          (rw (sym next) (first_fit-Ended lists (suc i) (omega arith)))
      where
        go :
            (r : Fit)
            → Ended r
            → Ended (first_fit first fuel lists m asize (first + i * 8 + 8))
            → Ended (elim r [
              | block bp ↦ block bp
              | out_of_fuel ↦ out_of_fuel
              | no_block ↦ first_fit first fuel lists m asize (first + i * 8 + 8)
            ])
        go (block bp) e on = e
        go no_block e on = on
        go out_of_fuel e on = e

    best_fit-Ended :
        (lists i : ℕ) (best : Best)
        → i + lists ≤ 10
        → BestSuits best
        → Ended (best_fit first fuel lists m asize (first + i * 8) best)
    unfolding best_fit
    best_fit-Ended zero i best few b = go best.best_bp b
      where
        go :
            (o : Option ℕ)
            → elim o as (λ x. Type 0) [ none ↦ Unit | some bp ↦ Suits bp ]
            → Ended (elim o [ none ↦ no_block | some bp ↦ block bp ])
        go none e = tt
        go (some bp) e = e
    best_fit-Ended (suc lists) i best few b =
        let next : first + suc i * 8 ≡ first + i * 8 + 8 = omega arith in
        go _ (best_list i best (omega arith) b)
          (λ best' b'. rw (sym next) (best_fit-Ended lists (suc i) best' (omega arith) b'))
      where
        go :
            (o : Option Best)
            → EndedBest o
            → ((best' : Best)
                → BestSuits best'
                → Ended (best_fit first fuel lists m asize (first + i * 8 + 8) best'))
            → Ended (elim o [
              | none ↦ out_of_fuel
              | some best' ↦ best_fit first fuel lists m asize (first + i * 8 + 8) best'
            ])
        go none e on = absurd e
        go (some best') e on = on best' e

    -- With enough rounds the search ends, and what it finds is a free block that is large enough.
    pub find_fit-Ended : asize < 2 ^ 64 → Ended (find_fit first fuel m asize)
    unfolding find_fit
    find_fit-Ended small =
        let few = list_index_few asize small in
        let i = list_index asize in
        elim (Bool-cases (ltb i 4)) [
          | inl e ↦ rw (find_fit, e) (first_fit-Ended (10 - i) i (omega arith))
          | inr e ↦
              rw (find_fit, e)
                (best_fit-Ended (10 - i) i (record { best_bp = none; best_size = 16 * 2 ^ i })
                  (omega arith) tt)
        ]
