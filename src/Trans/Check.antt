-- ===== src/Trans/Check.antt =====
-- `is_transpose`, and the transposition functions under it.
use computer_systems_practic.Prelude.{
  ℕ, zero, suc, ◌+◌, ◌≤◌, ◌<◌, ◌≡◌, ◌≢◌, refl, arith, ◌==◌, Bool-cases, inl, inr,
}
use computer_systems_practic.Trans.{Mat, same_row, same_rows, is_transpose, transpose_submit, trans}
use computer_systems_practic.Trans.Region.{Writes, rect}
use computer_systems_practic.Trans.By32.{transpose_32_lem}
use computer_systems_practic.Trans.By64.{transpose_64_lem}
use computer_systems_practic.Trans.By67.{transpose_67_lem, trans_lem}

-- The matrix sizes that the lab assigns: A is N x M.
pub data Assigned : (m n : ℕ) → Type 0 where
  square_32 : Assigned 32 32
  square_64 : Assigned 64 64
  wide_67 : Assigned 61 67

-- For the assigned sizes, 32 x 32, 64 x 64 and N = 67 with M = 61, `transpose_submit` sets every
-- element B[r][c] with r < M and c < N to A[c][r] and changes no other element.
pub transpose_submit-Writes :
    {V : Type 0} (m n : ℕ)
    → Assigned m n
    → (a b : Mat V) → Writes a (rect m n) b (transpose_submit m n a b)
unfolding transpose_submit
transpose_submit-Writes _ _ square_32 a b = transpose_32_lem a b
transpose_submit-Writes _ _ square_64 a b = transpose_64_lem a b
transpose_submit-Writes _ _ wide_67 a b = transpose_67_lem a b

module _ (a b : Mat ℕ) where
  same_row-all :
      (i n j : ℕ) → ((d : ℕ) → j ≤ d → d < j + n → a i d ≡ b d i) → same_row a b i n j ≡ 1
  unfolding same_row
  same_row-all i zero j h = refl
  same_row-all i (suc n) j h =
      let rest = same_row-all i n (j + 1) (λ d l l'. h d (omega arith) (omega arith)) in
      let now = h j (omega arith) (omega arith) in ground arith

  same_row-1 : (i n j : ℕ) → same_row a b i n j ≢ 0 → (d : ℕ) → j ≤ d → d < j + n → a i d ≡ b d i
  unfolding same_row
  same_row-1 i zero j h d l l' = absurd (omega arith)
  same_row-1 i (suc n) j h d l l' = elim (Bool-cases (d == j)) [
    | inl now ↦ let e : d ≡ j = ground arith in rw e (ground arith)
    | inr later ↦ same_row-1 i n (j + 1) (ground arith) d (ground arith) (omega arith)
  ]

  same_rows-all :
      (m n i : ℕ)
      → ((d : ℕ) → i ≤ d → d < i + n → (j : ℕ) → j < m → a d j ≡ b j d)
      → same_rows m a b n i ≡ 1
  unfolding same_rows
  same_rows-all m zero i h = refl
  same_rows-all m (suc n) i h =
      let rest = same_rows-all m n (i + 1) (λ d l l'. h d (omega arith) (omega arith)) in
      let now = same_row-all i m 0 (λ j l l'. h i (omega arith) (omega arith) j (omega arith)) in
      ground arith

  same_rows-1 :
      (m n i : ℕ)
      → same_rows m a b n i ≢ 0
      → (d : ℕ) → i ≤ d
      → d < i + n
      → (j : ℕ) → j < m
      → a d j ≡ b j d
  unfolding same_rows
  same_rows-1 m zero i h d l l' j k = absurd (omega arith)
  same_rows-1 m (suc n) i h d l l' j k = elim (Bool-cases (d == i)) [
    | inl now ↦
        let e : d ≡ i = ground arith in
        rw e (same_row-1 i m 0 (ground arith) j (omega arith) (omega arith))
    | inr later ↦ same_rows-1 m n (i + 1) (ground arith) d (ground arith) (omega arith) j k
  ]

-- `is_transpose` returns 1 when A[i][j] equals B[j][i] for all i < N and j < M, and when it does not
-- return 0 they are all equal.
is_transpose-decides :
    (m n : ℕ) (a b : Mat ℕ)
    → (((i j : ℕ) → i < n → j < m → a i j ≡ b j i) → is_transpose m n a b ≡ 1)
      × (is_transpose m n a b ≢ 0 → (i j : ℕ) → i < n → j < m → a i j ≡ b j i)
unfolding is_transpose
is_transpose-decides m n a b = (
  (λ h. same_rows-all a b m n 0 (λ i l l' j k. h i j (omega arith) k)),
  (λ h i j l k. same_rows-1 a b m n 0 h i (omega arith) (omega arith) j k),
)

Writes-is_transpose :
    (m n : ℕ) (a b next : Mat ℕ) → Writes a (rect m n) b next → is_transpose m n a next ≡ 1
unfolding is_transpose
Writes-is_transpose m n a b next w =
    same_rows-all a next m n 0 (λ i l l' j k. ground (arith, w j i))

-- The check at the end of both functions succeeds: for the assigned sizes after `transpose_submit`,
-- and for every N and M after `trans`, `is_transpose` returns 1.
pub is_transpose-submit :
    (m n : ℕ)
    → Assigned m n
    → (k l : ℕ) (a b : Mat ℕ)
    → (is_transpose m n a (transpose_submit m n a b) ≡ 1) × (is_transpose k l a (trans k l a b) ≡ 1)
is_transpose-submit m n s k l a b = (
  Writes-is_transpose m n a b _ (transpose_submit-Writes m n s a b),
  Writes-is_transpose k l a b _ (trans_lem a k l b),
)
