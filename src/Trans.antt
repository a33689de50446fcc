-- ===== src/Trans.antt =====
-- The matrix transposition of cache lab/cachelab-handout/trans.c. A matrix is a function of row and
-- column; A is N x M and B is M x N, and the theorems say that B is written inside its bounds only.
pub mod Region
pub mod By32
pub mod By64
pub mod By67
pub mod Check
mod Tests
use computer_systems_practic.Prelude.{
  ℕ, zero, suc, ◌+◌, ◌-◌, Bool, true, false, ◌&&◌, ◌==◌, ltb, if◌then◌else◌,
}

abbrev pub Mat : Type 0 → Type 0
Mat V = ℕ → ℕ → V

-- The rounds that the conditions k < from + 17 && k < bound of the case N == 67 leave.
abbrev pub rounds : (from bound : ℕ) → ℕ
rounds k bound = if ltb (k + 17) bound then 17 else bound - k

module _ {V : Type 0} where
  -- B[r][c] = v;
  abbrev pub put : Mat V → ℕ → ℕ → V → Mat V
  put b r c v x y = if (x == r) && (y == c) then v else b x y

  -- for (k = from; n rounds; k += step) b = body k b;
  unfoldable pub for_step : ℕ → (n from : ℕ) → (ℕ → Mat V → Mat V) → Mat V → Mat V
  for_step step zero k body b = b
  for_step step (suc n) k body b = for_step step n (k + step) body (body k b)

  -- The body of the loops for N == 32: eight elements of column j.
  unfoldable pub column8 : Mat V → (i j : ℕ) → Mat V → Mat V
  column8 a i j b =
      let b0 = put b j i (a i j) in
      let b1 = put b0 j (i + 1) (a (i + 1) j) in
      let b2 = put b1 j (i + 2) (a (i + 2) j) in
      let b3 = put b2 j (i + 3) (a (i + 3) j) in
      let b4 = put b3 j (i + 4) (a (i + 4) j) in
      let b5 = put b4 j (i + 5) (a (i + 5) j) in
      let b6 = put b5 j (i + 6) (a (i + 6) j) in put b6 j (i + 7) (a (i + 7) j)

  unfoldable pub transpose_32 : Mat V → Mat V → Mat V
  unfolding for_step column8
  transpose_32 a b = for_step 8 4 0 (λ i. for_step 1 32 0 (λ j. column8 a i j)) b

  -- N == 64: sub blocks 1 and 2 of A go to sub blocks 1 and 2 of B; row k of A.
  unfoldable pub upper_row : Mat V → (i j k : ℕ) → Mat V → Mat V
  upper_row a i j k b =
      let b0 = put b j k (a k j) in
      let b1 = put b0 (j + 1) k (a k (j + 1)) in
      let b2 = put b1 (j + 2) k (a k (j + 2)) in
      let b3 = put b2 (j + 3) k (a k (j + 3)) in
      let b4 = put b3 j (k + 4) (a k (j + 4)) in
      let b5 = put b4 (j + 1) (k + 4) (a k (j + 5)) in
      let b6 = put b5 (j + 2) (k + 4) (a k (j + 6)) in put b6 (j + 3) (k + 4) (a k (j + 7))

  -- Sub block 2 of B moves to its sub block 3, and sub block 3 of A to sub block 2 of B; row k of B.
  unfoldable pub move_row : Mat V → (i j k : ℕ) → Mat V → Mat V
  move_row a i j k b =
      let b0 = put b k (i + 4) (a (i + 4) k) in
      let b1 = put b0 k (i + 5) (a (i + 5) k) in
      let b2 = put b1 k (i + 6) (a (i + 6) k) in
      let b3 = put b2 k (i + 7) (a (i + 7) k) in
      let b4 = put b3 (k + 4) i (b k (i + 4)) in
      let b5 = put b4 (k + 4) (i + 1) (b k (i + 5)) in
      let b6 = put b5 (k + 4) (i + 2) (b k (i + 6)) in put b6 (k + 4) (i + 3) (b k (i + 7))

  -- Sub block 4 of A goes to sub block 4 of B; row k of B.
  unfoldable pub lower_row : Mat V → (i j k : ℕ) → Mat V → Mat V
  lower_row a i j k b =
      let b0 = put b k (i + 4) (a (i + 4) k) in
      let b1 = put b0 k (i + 5) (a (i + 5) k) in
      let b2 = put b1 k (i + 6) (a (i + 6) k) in put b2 k (i + 7) (a (i + 7) k)

  -- One 8 x 8 block.
  unfoldable pub block8 : Mat V → (i j : ℕ) → Mat V → Mat V
  unfolding upper_row move_row lower_row
  block8 a i j b =
      let b1 = for_step 1 4 i (upper_row a i j) b in
      let b2 = for_step 1 4 j (move_row a i j) b1 in for_step 1 4 (j + 4) (lower_row a i j) b2

  unfoldable pub transpose_64 : Mat V → Mat V → Mat V
  unfolding for_step block8
  transpose_64 a b = for_step 8 8 0 (λ i. for_step 8 8 0 (λ j. block8 a i j)) b

  unfoldable pub block17 : Mat V → (i j : ℕ) → Mat V → Mat V
  block17 a i j b =
      for_step 1 (rounds j 67) j (λ k. for_step 1 (rounds i 61) i (λ l b'. put b' l k (a k l))) b

  unfoldable pub transpose_67 : Mat V → Mat V → Mat V
  unfolding for_step block17
  transpose_67 a b = for_step 17 4 0 (λ i. for_step 17 4 0 (λ j. block17 a i j)) b

  -- The function that is handed in; for any other N it does nothing.
  unfoldable pub transpose_submit : (m n : ℕ) → Mat V → Mat V → Mat V
  unfolding transpose_32 transpose_64 transpose_67
  transpose_submit m n a b =
      if n == 32
      then transpose_32 a b
      else if n == 64
      then transpose_64 a b
      else if n == 67
      then transpose_67 a b
      else b

  -- The simple row-wise scan.
  unfoldable pub trans : (m n : ℕ) → Mat V → Mat V → Mat V
  unfolding for_step
  trans m n a b = for_step 1 n 0 (λ i. for_step 1 m 0 (λ j b'. put b' j i (a i j))) b

-- The inner loop of `is_transpose` from column j, for n more columns, with its return 0.
unfoldable pub same_row : Mat ℕ → Mat ℕ → (i n j : ℕ) → ℕ
same_row a b i zero j = 1
same_row a b i (suc n) j = let rest = same_row a b i n (j + 1) in if a i j == b j i then rest else 0

-- The outer loop from row i, for n more rows.
unfoldable pub same_rows : (m : ℕ) → Mat ℕ → Mat ℕ → (n i : ℕ) → ℕ
unfolding same_row
same_rows m a b zero i = 1
same_rows m a b (suc n) i =
    let rest = same_rows m a b n (i + 1) in if same_row a b i m 0 == 0 then 0 else rest

-- The function that checks a transposition; an element is the bit pattern of its int.
unfoldable pub is_transpose : (m n : ℕ) → Mat ℕ → Mat ℕ → ℕ
unfolding same_rows
is_transpose m n a b = same_rows m a b n 0
