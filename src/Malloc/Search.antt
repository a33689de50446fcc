-- ===== src/Malloc/Search.antt =====
-- What `find_fit` of mm.c finds in well-formed free lists.
use mathlib.Core.Path.{subst}
use mathlib.Core.List.{append_assoc, append-nil}
use computer_systems_practic.Prelude.{
  ltb→lt, ltb→ge, ℕ, zero, suc, ◌+◌, ◌-◌, ◌*◌, ◌<◌, ◌≤◌, ◌≡◌, refl, sym, ap, ◌∙◌, true, false,
  Option, none, some, List, [], ◌∷◌, ◌++◌, arith, ◌==◌, ltb, Bool-cases, inl, inr, length, drop,
  concat, All, All-append,
}
use computer_systems_practic.Malloc.{Mem, list_index, next_empt_blkp, get_size, hdrp}
use computer_systems_practic.Malloc.Alloc.{
  Fit, block, no_block, out_of_fuel, fits, Best, better, first_in_list, first_fit, best_in_list,
  best_fit, find_fit,
}
use computer_systems_practic.Malloc.Rings.{IsRing, IsTable, IsTable-drop, length-drop, All-drop_n}

module _ (first : ℕ) (m : Mem) (asize : ℕ) where
  abbrev pub Misfits : List ℕ → Type 0
  Misfits bs = All (λ y. fits m asize y ≡ false) bs

  abbrev pub size_at : ℕ → ℕ
  size_at bp = get_size m (hdrp bp)

  -- No block of the list fits, or the first one that does is found.
  pub data IsFirst (bs : List ℕ) : Fit → Type 0 where
    no_first : Misfits bs → IsFirst bs no_block
    a_first :
        (ys zs : List ℕ) (b : ℕ)
        → bs ≡ ys ++ b ∷ zs
        → Misfits ys
        → fits m asize b ≡ true
        → IsFirst bs (block b)

  IsFirst-skip :
      (x : ℕ) (bs : List ℕ) (r : Fit) → fits m asize x ≡ false → IsFirst bs r → IsFirst (x ∷ bs) r
  IsFirst-skip x bs _ f (no_first a) = no_first (f, a)
  IsFirst-skip x bs _ f (a_first ys zs b e a t) = a_first (x ∷ ys) zs b (ap (λ l. x ∷ l) e) (f, a) t

  IsFirst-after : (xs bs : List ℕ) (r : Fit) → Misfits xs → IsFirst bs r → IsFirst (xs ++ bs) r
  IsFirst-after [] bs r a h = h
  IsFirst-after (x ∷ xs) bs r (f, a) h = IsFirst-skip x (xs ++ bs) r f (IsFirst-after xs bs r a h)

  first_in_list-IsFirst :
      (fuel head bp : ℕ) (bs : List ℕ)
      → IsRing first m head bp bs
      → length bs ≤ fuel
      → IsFirst bs (first_in_list first fuel m asize head bp)
  unfolding first_in_list
  first_in_list-IsFirst zero head bp [] e n =
      let s : bp == head ≡ true = ground arith in rw s (no_first tt)
  first_in_list-IsFirst (suc fuel) head bp [] e n =
      let s : bp == head ≡ true = ground arith in rw s (no_first tt)
  first_in_list-IsFirst zero head bp (b ∷ bs) r n = absurd (omega arith)
  first_in_list-IsFirst (suc fuel) head bp (b ∷ bs) (e, ne, r) n =
      let s : bp == head ≡ false = ground arith in
      let ih = first_in_list-IsFirst fuel head (next_empt_blkp first m b) bs r (omega arith) in
      elim (Bool-cases (fits m asize b)) [
        | inl t ↦ rw (s, e, t) (a_first [] bs b refl tt t)
        | inr f ↦ rw (s, e, f) (IsFirst-skip b bs _ f ih)
      ]

  -- One list, and the lists behind it.
  IsFirst-next :
      (bs cs : List ℕ) (r next : Fit)
      → IsFirst bs r
      → IsFirst cs next
      → IsFirst
          (bs ++ cs)
          (elim r [ block bp ↦ block bp | out_of_fuel ↦ out_of_fuel | no_block ↦ next ])
  IsFirst-next bs cs _ next (no_first a) h = IsFirst-after bs cs next a h
  IsFirst-next bs cs _ next (a_first ys zs b e a t) h =
      a_first ys (zs ++ cs) b (ap (λ l. l ++ cs) e ∙ append_assoc ys (b ∷ zs) cs) a t

  first_fit-IsFirst :
      (fuel head : ℕ) (rings : List (List ℕ))
      → IsTable first m head rings
      → All (λ r. length r ≤ fuel) rings
      → IsFirst (concat rings) (first_fit first fuel (length rings) m asize head)
  unfolding first_fit
  first_fit-IsFirst fuel head [] t n = no_first tt
  first_fit-IsFirst fuel head (bs ∷ rings) (r, t) (n, ns) =
      IsFirst-next bs (concat rings) _ _
        (first_in_list-IsFirst fuel head (next_empt_blkp first m head) bs r n)
        (first_fit-IsFirst fuel (head + 8) rings t ns)

  -- b is a least one of the blocks that fit.
  abbrev pub Least : ℕ → List ℕ → Type 0
  Least b bs = All (λ y. fits m asize y ≡ true → size_at b ≤ size_at y) bs

  -- The best block of those that were seen.
  data IsBestOf (seen : List ℕ) : Best → Type 0 where
    best_none : (s : ℕ) → Misfits seen → IsBestOf seen (record { best_bp = none; best_size = s })
    best_some :
        (ys zs : List ℕ) (b : ℕ)
        → seen ≡ ys ++ b ∷ zs
        → fits m asize b ≡ true
        → Least b seen
        → IsBestOf seen (record { best_bp = some b; best_size = size_at b })

  Least-of_Misfits : (b : ℕ) (bs : List ℕ) → Misfits bs → Least b bs
  Least-of_Misfits b [] a = tt
  Least-of_Misfits b (x ∷ bs) (f, a) = (λ t. absurd cc, Least-of_Misfits b bs a)

  Least-less : (b c : ℕ) (bs : List ℕ) → size_at c ≤ size_at b → Least b bs → Least c bs
  Least-less b c [] h a = tt
  Least-less b c (x ∷ bs) h (l, a) = (λ t. let k = l t in omega arith, Least-less b c bs h a)

  better-IsBestOf :
      (seen : List ℕ) (x : ℕ) (best : Best)
      → IsBestOf seen best
      → IsBestOf (seen ++ x ∷ []) (better m asize x best)
  better-IsBestOf seen x _ (best_none s a) = elim (Bool-cases (fits m asize x)) [
    | inl t ↦ rw t (
        best_some seen [] x refl t
          (All-append _ seen (x ∷ []) (Least-of_Misfits x seen a) (λ u. omega arith, tt)))
    | inr f ↦ rw f (best_none s (All-append _ seen (x ∷ []) a (f, tt)))
  ]
  better-IsBestOf seen x _ (best_some ys zs b e t l) =
      let e' : seen ++ x ∷ [] ≡ ys ++ b ∷ (zs ++ x ∷ []) =
        ap (λ k. k ++ x ∷ []) e ∙ append_assoc ys (b ∷ zs) (x ∷ []) in
      elim (Bool-cases (fits m asize x)) [
        | inr f ↦
            rw f (
              best_some ys (zs ++ x ∷ []) b e' t
                (All-append _ seen (x ∷ []) l (λ u. absurd cc, tt)))
        | inl u ↦ elim (Bool-cases (ltb (size_at x) (size_at b))) [
          | inl less ↦
              rw (u, less)
                (best_some seen [] x refl u (
                  All-append _ seen (x ∷ []) (Least-less b x seen (ground arith) l)
                    (λ w. omega arith, tt)))
          | inr more ↦
              rw (u, more)
                (best_some ys (zs ++ x ∷ []) b e' t
                  (All-append _ seen (x ∷ []) l (λ w. ground arith, tt)))
        ]
      ]

  data IsBestResult (seen : List ℕ) : Option Best → Type 0 where
    walked : (best : Best) → IsBestOf seen best → IsBestResult seen (some best)

  best_in_list-IsBestOf :
      (fuel head bp : ℕ) (best : Best) (seen bs : List ℕ)
      → IsRing first m head bp bs
      → length bs ≤ fuel
      → IsBestOf seen best
      → IsBestResult (seen ++ bs) (best_in_list first fuel m asize head bp best)
  unfolding best_in_list
  best_in_list-IsBestOf zero head bp best seen [] e n h =
      let s : bp == head ≡ true = ground arith in rw (s, append-nil seen) (walked best h)
  best_in_list-IsBestOf (suc fuel) head bp best seen [] e n h =
      let s : bp == head ≡ true = ground arith in rw (s, append-nil seen) (walked best h)
  best_in_list-IsBestOf zero head bp best seen (b ∷ bs) r n h = absurd (omega arith)
  best_in_list-IsBestOf (suc fuel) head bp best seen (b ∷ bs) (e, ne, r) n h =
      let s : b == head ≡ false = ground arith in
      let ih =
        best_in_list-IsBestOf fuel head (next_empt_blkp first m b) (better m asize b best)
          (seen ++ b ∷ []) bs r (omega arith) (better-IsBestOf seen b best h) in
      let at_b : IsBestResult (seen ++ b ∷ bs) (best_in_list first (suc fuel) m asize head b best) =
        rw (s, sym (append_assoc seen (b ∷ []) bs)) ih in
      subst (λ x. IsBestResult (seen ++ b ∷ bs) (best_in_list first (suc fuel) m asize head x best))
        (sym e) at_b

  -- No block of the list fits, or a least one of those that do is found.
  pub data IsLeast (bs : List ℕ) : Fit → Type 0 where
    no_least : Misfits bs → IsLeast bs no_block
    a_least :
        (ys zs : List ℕ) (b : ℕ)
        → bs ≡ ys ++ b ∷ zs
        → fits m asize b ≡ true
        → Least b bs
        → IsLeast bs (block b)

  best_fit-IsLeast :
      (fuel head : ℕ) (rings : List (List ℕ)) (seen : List ℕ) (best : Best)
      → IsTable first m head rings
      → All (λ r. length r ≤ fuel) rings
      → IsBestOf seen best
      → IsLeast (seen ++ concat rings) (best_fit first fuel (length rings) m asize head best)
  unfolding best_fit
  best_fit-IsLeast fuel head [] seen best t n h = rw (append-nil seen) (chosen best h)
    where
      chosen :
          (best : Best)
          → IsBestOf seen best
          → IsLeast seen (elim (best.best_bp) [ none ↦ no_block | some bp ↦ block bp ])
      chosen _ (best_none s a) = no_least a
      chosen _ (best_some ys zs b e t l) = a_least ys zs b e t l
  best_fit-IsLeast fuel head (bs ∷ rings) seen best (r, t) (n, ns) h =
      rw (sym (append_assoc seen bs (concat rings))) (
        go (best_fit-IsLeast fuel (head + 8) rings (seen ++ bs)) _
          (best_in_list-IsBestOf fuel head (next_empt_blkp first m head) best seen bs r n h))
    where
      go :
          ((b : Best)
            → IsTable first m (head + 8) rings
            → All (λ r. length r ≤ fuel) rings
            → IsBestOf (seen ++ bs) b
            → IsLeast
                ((seen ++ bs) ++ concat rings)
                (best_fit first fuel (length rings) m asize (head + 8) b))
          → (r : Option Best) → IsBestResult (seen ++ bs) r
          → IsLeast ((seen ++ bs) ++ concat rings) (elim r [
            | none ↦ out_of_fuel
            | some best' ↦ best_fit first fuel (length rings) m asize (head + 8) best'
          ])
      go ih _ (walked b hb) = ih b t ns hb

  -- What a search among the blocks bs returns: NULL where no block is free and large enough; else such a
  -- block, for the four smallest lists the first one, for the others one of the least size.
  pub data Searched (bs : List ℕ) : Fit → Type 0 where
    nothing : Misfits bs → Searched bs no_block
    first_block :
        (ys zs : List ℕ) (b : ℕ)
        → list_index asize < 4
        → bs ≡ ys ++ b ∷ zs
        → Misfits ys
        → fits m asize b ≡ true
        → Searched bs (block b)
    least_block :
        (ys zs : List ℕ) (b : ℕ)
        → 4 ≤ list_index asize
        → bs ≡ ys ++ b ∷ zs
        → fits m asize b ≡ true
        → Least b bs
        → Searched bs (block b)

  Searched-of_IsFirst :
      (bs : List ℕ) (r : Fit) → list_index asize < 4 → IsFirst bs r → Searched bs r
  Searched-of_IsFirst bs _ h (no_first a) = nothing a
  Searched-of_IsFirst bs _ h (a_first ys zs b e a t) = first_block ys zs b h e a t

  Searched-of_IsLeast :
      (bs : List ℕ) (r : Fit) → 4 ≤ list_index asize → IsLeast bs r → Searched bs r
  Searched-of_IsLeast bs _ h (no_least a) = nothing a
  Searched-of_IsLeast bs _ h (a_least ys zs b e t l) = least_block ys zs b h e t l

  -- Where the ten lists of the table are rings of blocks, none longer than the rounds: `find_fit` looks
  -- at the blocks of the lists from `list_index` on, ends, and returns NULL where none is free and large
  -- enough, and else such a block, in the four smallest lists the first one and from the fifth on one of
  -- the least size.
  pub find_fit-Searched :
      (fuel : ℕ) (rings : List (List ℕ))
      → IsTable first m first rings
      → length rings ≡ 10
      → All (λ r. length r ≤ fuel) rings
      → Searched (concat (drop (list_index asize) rings)) (find_fit first fuel m asize)
  unfolding find_fit
  find_fit-Searched fuel rings t ten n =
      let idx = list_index asize in
      let rings' = drop idx rings in
      let t' = IsTable-drop first m idx first rings t in
      let n' = All-drop_n _ idx rings n in
      let count : 10 - idx ≡ length rings' = omega (arith, length-drop idx rings) in
      elim (Bool-cases (ltb idx 4)) [
        | inl small ↦
            rw (find_fit, small, count)
              (Searched-of_IsFirst (concat rings') _ (ltb→lt idx 4 small)
                (first_fit-IsFirst fuel (first + idx * 8) rings' t' n'))
        | inr large ↦
            rw (find_fit, large, count)
              (Searched-of_IsLeast (concat rings') _ (ltb→ge idx 4 large)
                (best_fit-IsLeast fuel (first + idx * 8) rings' [] _ t' n' (best_none _ tt)))
      ]
