-- ===== src/Trans/By64.antt =====
-- The case N == 64 of `transpose_submit`, which keeps elements of A in another part of B for a while.
use computer_systems_practic.Prelude.{
  ℕ, zero, suc, ◌+◌, ◌-◌, ◌*◌, ◌/◌, ◌≤◌, ◌≡◌, refl, Bool, true, false, ◌&&◌, arith, ltb, leb,
  if◌then◌else◌, ◌∙◌, Bool-cases, inl, inr,
}
use computer_systems_practic.Trans.{
  Mat, for_step, upper_row, move_row, lower_row, block8, transpose_64,
}
use computer_systems_practic.Trans.Region.{
  Writes, rect, any_round, for_step-Writes, Writes-region, any_round-true, any_round-false, Bool-eq,
}

-- lo ≤ x < hi
abbrev between : ℕ → ℕ → ℕ → Bool
between lo hi x = leb lo x && ltb x hi

module _ {V : Type 0} (a : Mat V) (i j : ℕ) where
  -- B after the upper rows k to k + n - 1 of the block of A: each goes half to its place and half to
  -- sub block 2 of B, four columns to the right of sub block 1.
  abbrev upper : (n k : ℕ) → Mat V → Mat V
  upper n k b r c =
      if between j (j + 4) r && between k (k + n) c
      then a c r
      else if between j (j + 4) r && between (k + 4) (k + 4 + n) c
      then a (c - 4) (r + 4)
      else b r c

  upper_row-upper : (k : ℕ) (b : Mat V) (r c : ℕ) → upper_row a i j k b r c ≡ upper 1 k b r c
  unfolding upper_row
  upper_row-upper k b r c = ground arith

  upper_rows :
      (n k : ℕ) (b : Mat V)
      → n ≤ 4
      → (r c : ℕ) → for_step 1 n k (upper_row a i j) b r c ≡ upper n k b r c
  unfolding for_step
  upper_rows zero k b h r c = ground arith
  upper_rows (suc n) k b h r c =
      upper_rows n (k + 1) (upper_row a i j k b) (omega arith) r c
      ∙ ground (arith, upper_row-upper k b r c)

  -- B after the rows k to k + n - 1 of the second loop.
  abbrev moved : (n k : ℕ) → Mat V → Mat V
  moved n k b r c =
      if between k (k + n) r && between (i + 4) (i + 8) c
      then a c r
      else if between (k + 4) (k + 4 + n) r && between i (i + 4) c
      then b (r - 4) (c + 4)
      else b r c

  move_row-moved : (k : ℕ) (b : Mat V) (r c : ℕ) → move_row a i j k b r c ≡ moved 1 k b r c
  unfolding move_row
  move_row-moved k b r c = ground arith

  move_left :
      (n k : ℕ) (b : Mat V) (r c : ℕ)
      → suc n ≤ 4
      → between (i + 4) (i + 8) c ≡ false
      → between i (i + 4) c ≡ true
      → (if between (k + 1) (k + 1 + n) r && false
          then a c r
          else if between (k + 1 + 4) (k + 1 + 4 + n) r && true
          then moved 1 k b (r - 4) (c + 4)
          else moved 1 k b r c)
        ≡ (if between k (k + suc n) r && false
            then a c r
            else if between (k + 4) (k + 4 + suc n) r && true
            then b (r - 4) (c + 4)
            else b r c)
  move_left n k b r c h other left = elim (Bool-cases (between (k + 1 + 4) (k + 1 + 4 + n) r)) [
    | inl later ↦
        let up : between k (k + 1) (r - 4) ≡ false = ground arith in
        let low : between (k + 4) (k + 4 + 1) (r - 4) ≡ false = ground arith in
        rw (later, up, low) (ground arith)
    | inr now ↦ rw (now, other, left) (ground arith)
  ]

  -- One row and then n more: the later rows read nothing that the first one wrote.
  move_next :
      (n k : ℕ) (b next : Mat V) (r c : ℕ)
      → suc n ≤ 4
      → next r c ≡ moved 1 k b r c
      → next (r - 4) (c + 4) ≡ moved 1 k b (r - 4) (c + 4)
      → moved n (k + 1) next r c ≡ moved (suc n) k b r c
  move_next n k b next r c h e e' = elim (Bool-cases (between (i + 4) (i + 8) c)) [
    | inl right ↦
        let left : between i (i + 4) c ≡ false = ground arith in
        rw (right, left) (rw e (rw (right, left) (ground arith)))
    | inr other ↦ elim (Bool-cases (between i (i + 4) c)) [
      | inl left ↦ rw (other, left) (rw (e, e') (move_left n k b r c h other left))
      | inr neither ↦ rw (other, neither) (rw e (rw (other, neither) (ground arith)))
    ]
  ]

  move_rows :
      (n k : ℕ) (b : Mat V)
      → n ≤ 4
      → (r c : ℕ) → for_step 1 n k (move_row a i j) b r c ≡ moved n k b r c
  unfolding for_step
  move_rows zero k b h r c = ground arith
  move_rows (suc n) k b h r c =
      move_rows n (k + 1) (move_row a i j k b) (omega arith) r c
      ∙ move_next n k b (move_row a i j k b) r c h (move_row-moved k b r c)
          (move_row-moved k b (r - 4) (c + 4))

  -- B after the rows k to k + n - 1 of the third loop.
  abbrev lower : (n k : ℕ) → Mat V → Mat V
  lower n k b r c = if between k (k + n) r && between (i + 4) (i + 8) c then a c r else b r c

  lower_row-lower : (k : ℕ) (b : Mat V) (r c : ℕ) → lower_row a i j k b r c ≡ lower 1 k b r c
  unfolding lower_row
  lower_row-lower k b r c = ground arith

  lower_rows :
      (n k : ℕ) (b : Mat V) (r c : ℕ) → for_step 1 n k (lower_row a i j) b r c ≡ lower n k b r c
  unfolding for_step
  lower_rows zero k b r c = ground arith
  lower_rows (suc n) k b r c =
      lower_rows n (k + 1) (lower_row a i j k b) r c ∙ ground (arith, lower_row-lower k b r c)

  -- B after the three loops, through what each of them leaves.
  block_stages : (b : Mat V) → Mat V
  block_stages b = lower 4 (j + 4) (moved 4 j (upper 4 i b))

  block8-stages : (b : Mat V) (r c : ℕ) → block8 a i j b r c ≡ block_stages b r c
  unfolding block8 block_stages
  block8-stages b r c =
      let b1 = for_step 1 4 i (upper_row a i j) b in
      let b2 = for_step 1 4 j (move_row a i j) b1 in
      lower_rows 4 (j + 4) b2 r c
      ∙ (rw
          (
            move_rows 4 j b1 (omega arith) r c,
            upper_rows 4 i b (omega arith) r c,
            upper_rows 4 i b (omega arith) (r - 4) (c + 4),
          )
          refl)

  -- The block that the three loops fill.
  abbrev block : ℕ → ℕ → Bool
  block r c = between j (j + 8) r && between i (i + 8) c

  stages-block : (b : Mat V) (r c : ℕ) → block_stages b r c ≡ (if block r c then a c r else b r c)
  unfolding block_stages
  stages-block b r c = elim (Bool-cases (between i (i + 4) c)) [
    | inl left ↦ elim (Bool-cases (between j (j + 4) r)) [
      | inl top ↦ ground arith
      | inr below ↦ ground arith
    ]
    | inr right ↦ elim (Bool-cases (between j (j + 4) r)) [
      | inl top ↦ ground arith
      | inr below ↦ ground arith
    ]
  ]

module _ {V : Type 0} (a : Mat V) where
  block8-Writes : (i j : ℕ) (b : Mat V) → Writes a (block a i j) b (block8 a i j b)
  block8-Writes i j b r c = block8-stages a i j b r c ∙ stages-block a i j b r c

  transpose_64-any :
      (b : Mat V)
      → Writes a (any_round 8 8 0 (λ i. any_round 8 8 0 (λ j. block a i j))) b (transpose_64 a b)
  unfolding transpose_64
  transpose_64-any b =
      for_step-Writes a 8 8 0 _ (λ i. for_step 8 8 0 (λ j. block8 a i j)) b
        (λ i s. for_step-Writes a 8 8 0 (block a i) (block8 a i) s (λ j. block8-Writes i j))

  -- The blocks of all rounds make up the 64 x 64 square.
  blocks_cover :
      (r c : ℕ) → any_round 8 8 0 (λ i. any_round 8 8 0 (λ j. block a i j)) r c ≡ rect 64 64 r c
  blocks_cover r c =
      Bool-eq _ _
        (λ inside.
          any_round-true 8 8 0 (c / 8) (λ i. any_round 8 8 0 (λ j. block a i j)) r c (ground arith)
            (any_round-true 8 8 0 (r / 8) (block a (0 + c / 8 * 8)) r c (ground arith)
              (ground arith)))
        (λ outside.
          any_round-false 8 8 0 (λ i. any_round 8 8 0 (λ j. block a i j)) r c
            (λ m l. any_round-false 8 8 0 (block a (0 + m * 8)) r c (λ m' l'. ground arith)))

-- For N == 64 the function writes the transpose of the 64 x 64 matrix A to B, and nothing outside,
-- although it parks elements in the wrong part of B on the way.
pub transpose_64_lem : {V : Type 0} (a b : Mat V) → Writes a (rect 64 64) b (transpose_64 a b)
transpose_64_lem a b = Writes-region a _ (rect 64 64) b _ (blocks_cover a) (transpose_64-any a b)
