-- ===== src/Trans/Tests.antt =====
-- Runs of the transpositions, and their theorems at a concrete matrix.
use computer_systems_practic.Prelude.{ℕ, ◌+◌, ◌*◌, ◌≡◌, refl}
use computer_systems_practic.Trans.{
  Mat, transpose_submit, trans, is_transpose, same_row, same_rows, for_step,
}
use computer_systems_practic.Trans.Region.{Writes, rect}
use computer_systems_practic.Trans.Check.{
  square_32, wide_67, transpose_submit-Writes, is_transpose-submit,
}

-- The elements as initMatrix of the driver might fill them, and a matrix of nines.
abbrev numbered : Mat ℕ
numbered r c = r * 100 + c

abbrev nines : Mat ℕ
nines r c = 9

trans_2_3 : trans 2 3 numbered nines 1 2 ≡ 201
unfolding trans for_step
trans_2_3 = refl

not_transpose : is_transpose 2 3 numbered numbered ≡ 0
unfolding is_transpose same_rows same_row
not_transpose = refl

transpose_submit-Writes_example :
    Writes numbered (rect 61 67) nines (transpose_submit 61 67 numbered nines)
transpose_submit-Writes_example = transpose_submit-Writes 61 67 wide_67 numbered nines

is_transpose-submit_example :
    (is_transpose 32 32 numbered (transpose_submit 32 32 numbered nines) ≡ 1)
    × (is_transpose 2 3 numbered (trans 2 3 numbered nines) ≡ 1)
is_transpose-submit_example = is_transpose-submit 32 32 square_32 2 3 numbered nines
