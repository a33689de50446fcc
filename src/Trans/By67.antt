-- ===== src/Trans/By67.antt =====
-- The case N == 67 of `transpose_submit`, and the simple scan `trans`.
use computer_systems_practic.Prelude.{ℕ, ◌+◌, ◌-◌, ◌*◌, ◌/◌, ◌≡◌, Bool, ◌&&◌, arith, ◌==◌, ltb, leb}
use computer_systems_practic.Trans.{Mat, put, for_step, rounds, block17, transpose_67, trans}
use computer_systems_practic.Trans.Region.{
  Writes, rect, any_round, for_step-Writes, Writes-region, any_round-true, any_round-false, Bool-eq,
}

-- One element of B.
abbrev cell : ℕ → ℕ → ℕ → ℕ → Bool
cell k l r c = (r == l) && (c == k)

-- The part of B that the block from row i and column j covers.
abbrev block : ℕ → ℕ → ℕ → ℕ → Bool
block i j r c = (leb i r && ltb r (i + rounds i 61)) && (leb j c && ltb c (j + rounds j 67))

-- Rows lo to lo + n - 1 and columns lo' to lo' + n' - 1.
cells_cover :
    (n lo n' lo' r c : ℕ)
    → any_round 1 n' lo' (λ k. any_round 1 n lo (λ l. cell k l)) r c
      ≡ ((leb lo r && ltb r (lo + n)) && (leb lo' c && ltb c (lo' + n')))
cells_cover n lo n' lo' r c =
    Bool-eq _ _
      (λ inside.
        any_round-true 1 n' lo' (c - lo') (λ k. any_round 1 n lo (λ l. cell k l)) r c (ground arith)
          (any_round-true 1 n lo (r - lo) (cell (lo' + (c - lo') * 1)) r c (ground arith)
            (ground arith)))
      (λ outside.
        any_round-false 1 n' lo' (λ k. any_round 1 n lo (λ l. cell k l)) r c
          (λ m h. any_round-false 1 n lo (cell (lo' + m * 1)) r c (λ m' h'. ground arith)))

module _ {V : Type 0} (a : Mat V) where
  cells-Writes :
      (n lo n' lo' : ℕ) (b : Mat V)
      → Writes a
          (any_round 1 n' lo' (λ k. any_round 1 n lo (λ l. cell k l)))
          b
          (for_step 1 n' lo' (λ k. for_step 1 n lo (λ l b'. put b' l k (a k l))) b)
  cells-Writes n lo n' lo' b =
      for_step-Writes a 1 n' lo' _ (λ k. for_step 1 n lo (λ l b'. put b' l k (a k l))) b
        (λ k s.
          for_step-Writes a 1 n lo (cell k) (λ l b'. put b' l k (a k l)) s
            (λ l s' r c. ground arith))

  block17-Writes : (i j : ℕ) (b : Mat V) → Writes a (block i j) b (block17 a i j b)
  unfolding block17
  block17-Writes i j b =
      Writes-region a _ (block i j) b _ (cells_cover (rounds i 61) i (rounds j 67) j)
        (cells-Writes (rounds i 61) i (rounds j 67) j b)

  transpose_67-any :
      (b : Mat V)
      → Writes a (any_round 17 4 0 (λ i. any_round 17 4 0 (λ j. block i j))) b (transpose_67 a b)
  unfolding transpose_67
  transpose_67-any b =
      for_step-Writes a 17 4 0 _ (λ i. for_step 17 4 0 (λ j. block17 a i j)) b
        (λ i s. for_step-Writes a 17 4 0 (block i) (block17 a i) s (λ j s'. block17-Writes i j s'))

-- The scan of n rows of m elements covers the rectangle.
scan_cover :
    (m n r c : ℕ) → any_round 1 n 0 (λ k. any_round 1 m 0 (λ l. cell k l)) r c ≡ rect m n r c
scan_cover m n r c =
    Bool-eq _ _
      (λ inside.
        any_round-true 1 n 0 c (λ k. any_round 1 m 0 (λ l. cell k l)) r c (ground arith)
          (any_round-true 1 m 0 r (cell (0 + c * 1)) r c (ground arith) (ground arith)))
      (λ outside.
        any_round-false 1 n 0 (λ k. any_round 1 m 0 (λ l. cell k l)) r c
          (λ k h. any_round-false 1 m 0 (cell (0 + k * 1)) r c (λ l h'. ground arith)))

-- The blocks of all rounds make up the 61 x 67 rectangle.
blocks_cover :
    (r c : ℕ) → any_round 17 4 0 (λ i. any_round 17 4 0 (λ j. block i j)) r c ≡ rect 61 67 r c
blocks_cover r c =
    Bool-eq _ _
      (λ inside.
        any_round-true 17 4 0 (r / 17) (λ i. any_round 17 4 0 (λ j. block i j)) r c (ground arith)
          (any_round-true 17 4 0 (c / 17) (block (0 + r / 17 * 17)) r c (ground arith)
            (ground arith)))
      (λ outside.
        any_round-false 17 4 0 (λ i. any_round 17 4 0 (λ j. block i j)) r c
          (λ m l. any_round-false 17 4 0 (block (0 + m * 17)) r c (λ m' l'. ground arith)))

-- The simple scan writes the transpose of the N x M matrix A to B, and nothing outside.
pub trans_lem :
    {V : Type 0} (a : Mat V) (m n : ℕ) (b : Mat V) → Writes a (rect m n) b (trans m n a b)
unfolding trans
trans_lem a m n b = Writes-region a _ (rect m n) b _ (scan_cover m n) (
    for_step-Writes a 1 n 0 _ (λ i. for_step 1 m 0 (λ j b'. put b' j i (a i j))) b
      (λ i s.
        for_step-Writes a 1 m 0 (cell i) (λ j b'. put b' j i (a i j)) s (λ j s' r c. ground arith)))

-- For N == 67 the function writes the transpose of the 67 x 61 matrix A to B, and nothing outside.
pub transpose_67_lem : {V : Type 0} (a b : Mat V) → Writes a (rect 61 67) b (transpose_67 a b)
transpose_67_lem a b = Writes-region a _ (rect 61 67) b _ blocks_cover (transpose_67-any a b)
