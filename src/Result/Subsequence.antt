-- ===== src/Result/Subsequence.antt =====
-- `LongestCommonSubsequenceLength` of src/core/Result.cpp: two rows of the table, the shorter
-- sequence across. A row is a list of `shorter_len + 1` cells, the first always 0.
pub mod Laws
use ycmd_cpp.Base.{
  ℕ, zero, suc, ◌+◌, max, Bool, List, [], ◌∷◌, ltb, if◌then◌else◌, length, get_elem?, Option, none,
  some,
}
use ycmd_cpp.Character.{Character, equals_base}

-- The loop over `j`: `previous` is the row above from cell `j` on, `left` is `current[ j ]`.
unfoldable pub fill_row : Character → List Character → List ℕ → ℕ → List ℕ
fill_row c (s ∷ shorter) (diagonal ∷ above ∷ previous) left =
    let cell = if equals_base c s then diagonal + 1 else max left above in
    cell ∷ fill_row c shorter (above ∷ previous) cell
fill_row c _ _ left = []

-- The loop over `i`: the filled row is copied to `previous`.
unfoldable pub fill_rows : List Character → List Character → List ℕ → List ℕ
unfolding fill_row
fill_rows [] shorter row = row
fill_rows (c ∷ longer) shorter row = fill_rows longer shorter (0 ∷ fill_row c shorter row 0)

unfoldable pub zeros : ℕ → List ℕ
zeros zero = []
zeros (suc n) = 0 ∷ zeros n

-- `current[ shorter_len ]`, the last cell.
unfoldable pub last_cell : List ℕ → ℕ
last_cell [] = 0
last_cell (x ∷ []) = x
last_cell (x ∷ y ∷ row) = last_cell (y ∷ row)

unfoldable pub longest_common_subsequence_length : List Character → List Character → ℕ
unfolding fill_rows zeros last_cell
longest_common_subsequence_length first second =
    let longer = if ltb (length second) (length first) then first else second in
    let shorter = if ltb (length second) (length first) then second else first in
    last_cell (fill_rows longer shorter (zeros (suc (length shorter))))
