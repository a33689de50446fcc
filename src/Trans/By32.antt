-- ===== src/Trans/By32.antt =====
-- The case N == 32 of `transpose_submit`.
use computer_systems_practic.Prelude.{ℕ, ◌+◌, ◌*◌, ◌/◌, ◌≡◌, Bool, ◌&&◌, arith, ◌==◌, ltb, leb}
use computer_systems_practic.Trans.{Mat, for_step, column8, transpose_32}
use computer_systems_practic.Trans.Region.{
  Writes, rect, any_round, for_step-Writes, Writes-region, any_round-true, any_round-false, Bool-eq,
}

-- Row j of B, columns i to i + 7.
abbrev strip : ℕ → ℕ → ℕ → ℕ → Bool
strip i j r c = (r == j) && (leb i c && ltb c (i + 8))

module _ {V : Type 0} (a : Mat V) where
  column8-Writes : (i j : ℕ) (b : Mat V) → Writes a (strip i j) b (column8 a i j b)
  unfolding column8
  column8-Writes i j b r c = ground arith

  transpose_32-any :
      (b : Mat V)
      → Writes a (any_round 8 4 0 (λ i. any_round 1 32 0 (λ j. strip i j))) b (transpose_32 a b)
  unfolding transpose_32
  transpose_32-any b =
      for_step-Writes a 8 4 0 _ (λ i. for_step 1 32 0 (λ j. column8 a i j)) b
        (λ i s. for_step-Writes a 1 32 0 (strip i) (column8 a i) s (λ j. column8-Writes i j))

-- The strips of all rounds make up the 32 x 32 square.
strips_cover :
    (r c : ℕ) → any_round 8 4 0 (λ i. any_round 1 32 0 (λ j. strip i j)) r c ≡ rect 32 32 r c
strips_cover r c =
    Bool-eq _ _
      (λ inside.
        any_round-true 8 4 0 (c / 8) (λ i. any_round 1 32 0 (λ j. strip i j)) r c (ground arith)
          (any_round-true 1 32 0 r (strip (0 + c / 8 * 8)) r c (ground arith) (ground arith)))
      (λ outside.
        any_round-false 8 4 0 (λ i. any_round 1 32 0 (λ j. strip i j)) r c
          (λ m l. any_round-false 1 32 0 (strip (0 + m * 8)) r c (λ m' l'. ground arith)))

-- For N == 32 the function writes the transpose of the 32 x 32 matrix A to B, and nothing outside.
pub transpose_32_lem : {V : Type 0} (a b : Mat V) → Writes a (rect 32 32) b (transpose_32 a b)
transpose_32_lem a b = Writes-region a _ (rect 32 32) b _ strips_cover (transpose_32-any a b)
