-- ===== src/Malloc/Placed.antt =====
-- `place` of mm.c on a well-formed heap.
use computer_systems_practic.Prelude.{
  ℕ, ◌+◌, ◌-◌, ◌%◌, ◌^◌, ◌≤◌, ◌<◌, ◌≡◌, ◌≢◌, refl, ◌∙◌, List, [], ◌∷◌, ◌++◌, arith, ◌⊎◌, inl, inr,
  ◌↔◌, Bool-cases, leb,
}
use computer_systems_practic.Malloc.{
  Mem, put_tags, get_size, list_index, ins_free_blk, del_free_blk, place,
}
use computer_systems_practic.Malloc.Row.{
  Tag, IsTag, IsPart, FreeAt, IsPart-le, IsPart-move, FreeAt-right,
}
use computer_systems_practic.Malloc.Used.{UsedAt, UsedAt-swap, UsedAt-left, UsedAt-right}
use computer_systems_practic.Malloc.Heaps.{IsPlace, IsHeap, IsHealthy, IsOpen, IsHeap-same}
use computer_systems_practic.Malloc.Heaps.Links.{del-IsHeap, ins-IsHeap}
use computer_systems_practic.Malloc.Retag.{
  get_size-word, put_tags-IsPart, put_tags-outside, places, stays, retag-IsHeap,
}
use computer_systems_practic.Malloc.Settle.{free_tag, list_index_few}
use computer_systems_practic.Malloc.Words.{IsWords, put_tags-IsWords}

abbrev pub used_tag : ℕ → Tag
used_tag size = record { size = size; alloc = 1 }

module _ (first : ℕ) where
  -- A well-formed heap with the allocated blocks of the row ts and one more at b, of at least asize.
  pub record Placed (ts : List Tag) (m : Mem) (brk b asize : ℕ) : Type 0 where
    pub row : List Tag
    pub size : ℕ
    pub healthy : IsHealthy first m brk row
    pub room : asize ≤ size
    pub used :
        (x v : ℕ)
        → UsedAt (first + 96) row x v ↔ (UsedAt (first + 96) ts x v ⊎ ((x ≡ b) × (v ≡ size)))

  -- A free block that is taken out of its list, and new tags for it.
  module _ (m : Mem) (brk b s asize : ℕ) (pre post : List Tag)
      (h : IsHealthy first m brk (pre ++ (free_tag s ∷ post)))
      (at_pre : IsPart m (first + 96) pre b) (multiple : asize % 8 ≡ 0) (least : 16 ≤ asize)
      (fits : asize ≤ s) where
    abbrev row : List Tag
    row = pre ++ (free_tag s ∷ post)

    abbrev taken : Mem
    taken = del_free_blk first m b

    start : (first + 96) % 8 ≡ 0
    start = let al = h.aligned in omega arith

    low : first + 96 ≤ b
    low = IsPart-le m (first + 96) pre b at_pre

    taken-IsOpen : IsOpen first taken brk row b
    taken-IsOpen =
        let lo = low in
        del-IsHeap first m brk row (IsPlace first row) h b
          (inr (FreeAt-right m (first + 96) b b pre (free_tag s ∷ post) at_pre (inl (refl, refl))))
          (omega arith)

    parts : IsPart taken (first + 96) pre b × IsPart taken b (free_tag s ∷ post) brk
    parts = IsPart-move m taken (first + 96) b brk pre (free_tag s ∷ post) at_pre taken-IsOpen.row

    at_old : IsPart taken b (free_tag s ∷ []) (b + s)
    at_old = let (q, (k, hd, ft, rest)) = parts in (k, hd, ft, refl)

    out : (x : ℕ) → IsPlace first row x × (x ≢ b) → FreeAt b (free_tag s ∷ []) x → ⊥
    out x n (inl (e, z)) = n.1 e
    out x n (inr none) = none

    -- Whatever stands there instead, the others stay.
    used_swap :
        (m1 : Mem) (mid : List Tag) (size : ℕ)
        → IsPart m1 b mid (b + s)
        → ((x v : ℕ) → UsedAt b mid x v → (x ≡ b) × (v ≡ size))
        → UsedAt b mid b size
        → (x v : ℕ)
        → UsedAt (first + 96) (pre ++ (mid ++ post)) x v
          ↔ (UsedAt (first + 96) row x v ⊎ ((x ≡ b) × (v ≡ size)))
    used_swap m1 mid size at_mid only there x v = (
      (λ a.
          elim (UsedAt-swap taken m1 taken (first + 96) b (b + s) x v pre mid (free_tag s ∷ []) post
            parts.0 at_mid at_old a) [ inl inside ↦ inr (only x v inside) | inr kept ↦ inl kept ]),
      (λ a. elim a [
        | inl c ↦
            elim (UsedAt-swap taken taken m1 (first + 96) b (b + s) x v pre (free_tag s ∷ []) mid
              post parts.0 at_old at_mid c) [
                | inl (inl (e, z, g)) ↦ absurd (omega arith)
                | inl (inr none) ↦ absurd none
                | inr kept ↦ kept
              ]
        | inr (e, g) ↦
            rw (e, g)
              (UsedAt-right taken (first + 96) b b size pre (mid ++ post) parts.0
                (UsedAt-left b b size mid post there))
      ]),
    )

    module _ (m1 : Mem) (mid : List Tag) (at_mid : IsPart m1 b mid (b + s))
        (away : (x : ℕ) → (x + 4 < b) ⊎ (b + s ≤ x + 4) → m1 x ≡ taken x) (w : IsWords m1) where
      rest_part : IsPart taken (b + s) post brk
      rest_part = let (q, (k, hd, ft, rest)) = parts in rest

      carved : IsHeap first m1 brk (pre ++ (mid ++ post)) (λ x. IsPlace first row x × (x ≢ b))
      carved =
          retag-IsHeap first taken m1 brk b (b + s) pre (free_tag s ∷ []) mid post _ taken-IsOpen
            parts.0 at_old rest_part away at_mid out w

      carved_side :
          (x : ℕ)
          → IsPlace first row x × (x ≢ b)
          → IsPlace first (pre ++ (mid ++ post)) x × ((x + 8 < b) ⊎ (b + s ≤ x))
      carved_side =
          stays first taken m1 brk b (b + s) pre (free_tag s ∷ []) mid post _ taken-IsOpen parts.0
            at_old rest_part away at_mid out

      carved_from :
          (x : ℕ)
          → IsPlace first (pre ++ (mid ++ post)) x
          → FreeAt b mid x ⊎ (IsPlace first row x × (x ≢ b))
      carved_from x q =
          elim (places first taken m1 taken taken brk b (b + s) x pre mid (free_tag s ∷ []) post
            start parts.0 at_mid rest_part at_old q) [
              | inl inside ↦ inl inside
              | inr (kept, side) ↦
                  inr (kept, elim side [ inl below ↦ omega arith | inr above ↦ omega arith ])
            ]

    whole : Placed row (put_tags first taken b s 1) brk b asize
    whole =
        let (q, (k, hd, ft, rest)) = parts in
        let k' : IsTag (used_tag s) = record {
          multiple = k.multiple;
          least = k.least;
          small = k.small;
          bit = omega arith;
        } in
        let lo = low in
        let m1 = put_tags first taken b s 1 in
        let mid = used_tag s ∷ [] in
        let at_mid = put_tags-IsPart first taken b (used_tag s) k' (omega arith) in
        let away : (x : ℕ) → (x + 4 < b) ⊎ (b + s ≤ x + 4) → m1 x ≡ taken x =
          λ x o. put_tags-outside first taken b (used_tag s) k' x (omega arith) o in
        let w = put_tags-IsWords first taken b s 1 taken-IsOpen.words in
        record {
          row = pre ++ (mid ++ post);
          size = s;
          healthy =
              IsHeap-same first m1 brk (pre ++ (mid ++ post)) _ _
                (λ x n. (carved_side m1 mid at_mid away w x n).0)
                (λ x p. elim (carved_from m1 mid at_mid away w x p) [
                  | inl (inl (e, z)) ↦ absurd (omega arith)
                  | inl (inr none) ↦ absurd none
                  | inr kept ↦ kept
                ])
                (carved m1 mid at_mid away w);
          room = fits;
          used =
              used_swap m1 mid s at_mid
                (λ x v inside. elim inside [ inl (e, z, g) ↦ (e, g) | inr none ↦ absurd none ])
                (inl (refl, refl, refl));
        }

    module _ (rest : ℕ) (sum : asize + rest ≡ s) (enough : 16 ≤ rest) where
      abbrev halved : Mem
      halved = put_tags first (put_tags first taken b asize 1) (b + asize) rest 0

      abbrev halves : List Tag
      halves = used_tag asize ∷ (free_tag rest ∷ [])

      halves_tags : IsTag (used_tag asize) × IsTag (free_tag rest)
      halves_tags =
          let (q, (k, hd, ft, more)) = parts in
          let mul = k.multiple in
          let small = k.small in
          (
            record { multiple = multiple; least = least; small = omega arith; bit = omega arith },
            record {
              multiple = omega arith;
              least = enough;
              small = omega arith;
              bit = omega arith;
            },
          )

      at_halves : IsPart halved b halves (b + s)
      at_halves =
          let (ku, kf) = halves_tags in
          let lo = low in
          let m2 = put_tags first taken b asize 1 in
          let (k1, hd1, ft1, e1) =
            put_tags-IsPart first taken b (used_tag asize) ku (omega arith) in
          let (k2, hd2, ft2, e2) =
            put_tags-IsPart first m2 (b + asize) (free_tag rest) kf (omega arith) in
          let stay : (x : ℕ) → x + 4 < b + asize → halved x ≡ m2 x = λ x below.
            put_tags-outside first m2 (b + asize) (free_tag rest) kf x (omega arith) (inl below) in
          (
            ku,
            stay (b - 4) (omega arith) ∙ hd1,
            stay (b + asize - 8) (omega arith) ∙ ft1,
            (kf, hd2, ft2, omega arith),
          )

      away_halves : (x : ℕ) → (x + 4 < b) ⊎ (b + s ≤ x + 4) → halved x ≡ taken x
      away_halves x o =
          let (ku, kf) = halves_tags in
          let lo = low in
          let m2 = put_tags first taken b asize 1 in
          put_tags-outside first m2 (b + asize) (free_tag rest) kf x (omega arith)
            (elim o [ inl below ↦ inl (omega arith) | inr above ↦ inr (omega arith) ])
          ∙ put_tags-outside first taken b (used_tag asize) ku x (omega arith)
              (elim o [ inl below ↦ inl below | inr above ↦ inr (omega arith) ])

      split : Placed row (ins_free_blk first halved (b + asize) (list_index rest)) brk b asize
      split =
          let w =
            put_tags-IsWords first (put_tags first taken b asize 1) (b + asize) rest 0
              (put_tags-IsWords first taken b asize 1 taken-IsOpen.words) in
          let r = carved halved halves at_halves away_halves w in
          let small = halves_tags.1.small in
          let free : FreeAt (first + 96) (pre ++ (halves ++ post)) (b + asize) =
            FreeAt-right taken (first + 96) b (b + asize) pre (halves ++ post) parts.0
              (inr (inl (refl, refl))) in
          let apart : (x : ℕ) → IsPlace first row x × (x ≢ b) → x ≢ b + asize = λ x n.
            elim (carved_side halved halves at_halves away_halves w x n).1 [
              | inl below ↦ omega arith
              | inr above ↦ omega arith
            ] in
          let few = list_index_few rest (omega arith) in
          record {
            row = pre ++ (halves ++ post);
            size = asize;
            healthy =
                IsHeap-same first _ brk (pre ++ (halves ++ post)) _ _
                  (λ x n. elim n [
                    | inl q ↦ (carved_side halved halves at_halves away_halves w x q).0
                    | inr e ↦ rw e (inr free)
                  ])
                  (λ x p. elim (carved_from halved halves at_halves away_halves w x p) [
                    | inl (inl (e, z)) ↦ absurd (omega arith)
                    | inl (inr (inl (e, z))) ↦ inr e
                    | inl (inr (inr none)) ↦ absurd none
                    | inr kept ↦ inl kept
                  ])
                  (ins-IsHeap first halved brk (pre ++ (halves ++ post)) _ r (b + asize)
                    (list_index rest) free apart few);
            room = omega arith;
            used =
                used_swap halved halves asize at_halves
                  (λ x v inside. elim inside [
                    | inl (e, z, g) ↦ (e, g)
                    | inr (inl (e, z, g)) ↦ absurd (omega arith)
                    | inr (inr none) ↦ absurd none
                  ])
                  (inl (refl, refl, refl));
          }

    -- `place` in a free block that is large enough, of a well-formed heap: the heap is well-formed
    -- again, and has one allocated block more, at the address of the free one.
    pub place-Placed : Placed row (place first m b asize) brk b asize
    unfolding place
    place-Placed =
        let (q, (k, hd, ft, more)) =
          IsPart-move m m (first + 96) b brk pre (free_tag s ∷ post) at_pre h.row in
        let small = k.small in
        let size_is : get_size m (b - 4) ≡ s = get_size-word m (b - 4) (free_tag s) k hd in
        let diff : (s + 2 ^ 64 - asize) % 2 ^ 64 ≡ s - asize = omega arith in
        elim (Bool-cases (leb 16 (s - asize))) [
          | inl e ↦
              let enough : 16 ≤ s - asize = ground arith in
              let (ku, hd', ft', more') = at_halves (s - asize) (omega arith) enough in
              let lo = low in
              let (k1, hd1, ft1, e1) =
                put_tags-IsPart first taken b (used_tag asize) ku (omega arith) in
              let next_is : get_size (put_tags first taken b asize 1) (b - 4) ≡ asize =
                get_size-word (put_tags first taken b asize 1) (b - 4) (used_tag asize) ku hd1 in
              rw (place, size_is, diff, e, next_is) (split (s - asize) (omega arith) enough)
          | inr e ↦ rw (place, size_is, diff, e) whole
        ]
