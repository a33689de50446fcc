-- ===== src/Malloc/Fits.antt =====
-- The blocks that `find_fit` of mm.c returns.
use computer_systems_practic.Prelude.{
  ℕ, zero, suc, ◌+◌, ◌≡◌, true, Option, none, some, ◌==◌, ltb, if◌then◌else◌, Bool-cases, inl, inr,
}
use computer_systems_practic.Malloc.{Mem, list_index, next_empt_blkp}
use computer_systems_practic.Malloc.Alloc.{
  Fit, block, no_block, out_of_fuel, fits, Best, better, first_in_list, first_fit, best_in_list,
  best_fit, find_fit,
}

module _ (first : ℕ) (m : Mem) (asize : ℕ) where
  -- A block that is returned is free and large enough.
  pub data IsFit : Fit → Type 0 where
    fitting : (bp : ℕ) → fits m asize bp ≡ true → IsFit (block bp)
    none_fits : IsFit no_block
    unfinished : IsFit out_of_fuel

  first_in_list-IsFit : (fuel head bp : ℕ) → IsFit (first_in_list first fuel m asize head bp)
  unfolding first_in_list
  first_in_list-IsFit zero head bp = elim (Bool-cases (bp == head)) [
    | inl e ↦ rw e none_fits
    | inr e ↦ rw e unfinished
  ]
  first_in_list-IsFit (suc fuel) head bp = elim (Bool-cases (bp == head)) [
    | inl e ↦ rw e none_fits
    | inr e ↦ elim (Bool-cases (fits m asize bp)) [
      | inl t ↦ rw (e, t) (fitting bp t)
      | inr f ↦ rw (e, f) (first_in_list-IsFit fuel head (next_empt_blkp first m bp))
    ]
  ]

  next_list-IsFit :
      (r next : Fit)
      → IsFit r
      → IsFit next
      → IsFit (elim r [ block bp ↦ block bp | out_of_fuel ↦ out_of_fuel | no_block ↦ next ])
  next_list-IsFit _ next (fitting bp t) n = fitting bp t
  next_list-IsFit _ next none_fits n = n
  next_list-IsFit _ next unfinished n = unfinished

  first_fit-IsFit : (fuel lists head : ℕ) → IsFit (first_fit first fuel lists m asize head)
  unfolding first_fit
  first_fit-IsFit fuel zero head = none_fits
  first_fit-IsFit fuel (suc lists) head =
      next_list-IsFit _ _ (first_in_list-IsFit fuel head (next_empt_blkp first m head))
        (first_fit-IsFit fuel lists (head + 8))

  -- The best block so far, if there is one, fits.
  data IsBest : Option ℕ → Type 0 where
    no_best : IsBest none
    a_best : (bp : ℕ) → fits m asize bp ≡ true → IsBest (some bp)

  chosen-IsBest :
      (taken : Best) (bound size : ℕ) (o : Option ℕ)
      → IsBest taken.best_bp
      → IsBest o
      → IsBest
          (elim o as (λ _. Best) [
            | none ↦ taken
            | some b ↦ if ltb size bound then taken else record { best_bp = o; best_size = bound }
          ]).best_bp
  chosen-IsBest taken bound size none t h = t
  chosen-IsBest taken bound size (some b) t h = elim (Bool-cases (ltb size bound)) [
    | inl less ↦ rw less t
    | inr more ↦ rw more h
  ]

  better-IsBest :
      (bp : ℕ) (best : Best) → IsBest best.best_bp → IsBest (better m asize bp best).best_bp
  better-IsBest bp best h = elim (Bool-cases (fits m asize bp)) [
    | inl t ↦ rw t (chosen-IsBest _ best.best_size _ best.best_bp (a_best bp t) h)
    | inr f ↦ rw f h
  ]

  data IsBestResult : Option Best → Type 0 where
    walked : (best : Best) → IsBest best.best_bp → IsBestResult (some best)
    not_finished : IsBestResult none

  best_in_list-IsBest :
      (fuel head bp : ℕ) (best : Best)
      → IsBest best.best_bp
      → IsBestResult (best_in_list first fuel m asize head bp best)
  unfolding best_in_list
  best_in_list-IsBest zero head bp best h = elim (Bool-cases (bp == head)) [
    | inl e ↦ rw e (walked best h)
    | inr e ↦ rw e not_finished
  ]
  best_in_list-IsBest (suc fuel) head bp best h = elim (Bool-cases (bp == head)) [
    | inl e ↦ rw e (walked best h)
    | inr e ↦ rw e (
        best_in_list-IsBest fuel head (next_empt_blkp first m bp) (better m asize bp best)
          (better-IsBest bp best h))
  ]

  best-IsFit : (o : Option ℕ) → IsBest o → IsFit (elim o [ none ↦ no_block | some bp ↦ block bp ])
  best-IsFit none h = none_fits
  best-IsFit _ (a_best bp t) = fitting bp t

  best_fit-IsFit :
      (fuel lists head : ℕ) (best : Best)
      → IsBest best.best_bp
      → IsFit (best_fit first fuel lists m asize head best)
  unfolding best_fit
  best_fit-IsFit fuel zero head best h = best-IsFit best.best_bp h
  best_fit-IsFit fuel (suc lists) head best h =
      next_best (best_fit-IsFit fuel lists (head + 8)) _
        (best_in_list-IsBest fuel head (next_empt_blkp first m head) best h)
    where
      next_best :
          ((b : Best) → IsBest b.best_bp → IsFit (best_fit first fuel lists m asize (head + 8) b))
          → (r : Option Best) → IsBestResult r
          → IsFit (elim r [
            | none ↦ out_of_fuel
            | some best' ↦ best_fit first fuel lists m asize (head + 8) best'
          ])
      next_best ih _ (walked best' h') = ih best' h'
      next_best ih _ not_finished = unfinished

  -- A block that `find_fit` returns is free and at least as large as asked for, by the first fit of the
  -- small sizes and by the best fit of the large ones.
  pub find_fit-IsFit : (fuel : ℕ) → IsFit (find_fit first fuel m asize)
  unfolding find_fit
  find_fit-IsFit fuel = elim (Bool-cases (ltb (list_index asize) 4)) [
    | inl small ↦ rw (find_fit, small) (first_fit-IsFit fuel _ _)
    | inr large ↦ rw (find_fit, large) (best_fit-IsFit fuel _ _ _ no_best)
  ]
