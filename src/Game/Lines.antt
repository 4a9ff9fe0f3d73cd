-- ===== src/Game/Lines.antt =====
-- `Game::Is_Increase_Score`: one pass over the rows from the bottom, which clears the first full
-- row that it meets and moves the rows above it down.
pub mod Plain
pub mod Rows
pub mod Refines
pub mod Count
pub mod Conserved
use russia_tetris.Base.{
  ℕ, zero, suc, ◌+◌, ◌*◌, ℤ, pos, Bool, true, false, Option, none, some, ltb, ◌==◌, if◌then◌else◌,
}
use russia_tetris.World.{World, Play, set_play}
use russia_tetris.Output.{color_of, color_white, square, blank}
use russia_tetris.Effect.{M, ◌>>=◌, ◌>>◌, return, modify, for_range, ◌⟫◌}
use russia_tetris.Game.Board.{get_data, get_color, set_data, set_color}
use russia_tetris.Game.Draw.{text}

-- The returned -1, 1 and 0.
pub data Pass : Type 0 where
  failed again finished : Pass

abbrev pub data_at : ℕ → ℕ → M ℕ
data_at i j w = elim (get_data w.play (pos i) (pos j)) [ none ↦ none | some d ↦ some (d, w) ]

abbrev pub color_at : ℕ → ℕ → M ℤ
color_at i j w = elim (get_color w.play (pos i) (pos j)) [ none ↦ none | some c ↦ some (c, w) ]

-- for (j = first; j < first + n; j++) sum += getData(i, j);
unfoldable pub sum_cols : ℕ → ℕ → ℕ → ℕ → M ℕ
sum_cols zero j i sum = return sum
sum_cols (suc n) j i sum = do d ← data_at i j; sum_cols n (j + 1) i (sum + d)

unfoldable pub clear_row : ℕ → M Bool
clear_row i =
    for_range 18 1
      λ j. do set_data (pos i) (pos j) 0; text (pos (i + 1)) (pos (2 * j + 1)) color_white blank

-- One column of the row that moves down from `m - 1` to `m`. `m1` is m - 1.
unfoldable pub copy_cell : ℕ → ℕ → ℕ → M Bool
copy_cell m1 m n = do
  above ← data_at m1 n
  set_data (pos m) (pos n) above
  colour ← color_at m1 n
  set_color (pos m) (pos n) colour
  here ← data_at m n
  shade ← color_at m n
  if here == 1
      then text (pos (m + 1)) (pos (2 * n + 1)) (color_of shade) square
      else text (pos (m + 1)) (pos (2 * n + 1)) color_white blank

-- The loop over the columns adds up the row above as it goes; `none` is `return -1`.
unfoldable pub copy_cols : ℕ → ℕ → ℕ → ℕ → ℕ → M (Option ℕ)
copy_cols zero n m1 m sum = return (some sum)
copy_cols (suc k) n m1 m sum = do
  d ← data_at m1 n
  drawn ← copy_cell m1 m n
  let rest = copy_cols k (n + 1) m1 m (sum + d)
  if drawn then rest else return none

-- for (int m = i; m > 1; m--): `none` is that the loop ran to its end.
unfoldable pub shift_rows : ℕ → M (Option Pass)
shift_rows zero = return none
shift_rows (suc zero) = return none
shift_rows (suc (suc k)) = do
  r ← copy_cols 18 1 (suc k) (suc (suc k)) 0
  elim r [
    | none ↦ return (some failed)
    | some sum ↦ let rest = shift_rows (suc k) in if sum == 0 then return (some again) else rest
  ]

abbrev add_line : M Bool
add_line = modify λ w. set_play w (record w.play { line = w.line + 1 })

-- A full row: it is counted and cleared, and the rows above it move down. When the loop that moves
-- them runs to its end, the pass goes on with `next`.
unfoldable pub full_row : ℕ → M Pass → M Pass
full_row i next = do
  cleared ← add_line ⟫ clear_row i
  shifted ← if cleared then shift_rows i else return (some failed)
  elim shifted [ none ↦ next | some result ↦ return result ]

-- One round at row `i`.
unfoldable pub scan_row : ℕ → M Pass → M Pass
scan_row i next = do
  sum ← sum_cols 18 1 i 0
  if sum == 0 then return finished else if sum == 18 then full_row i next else next

-- for (i = WINDOW_ROW_COUNT - 2; i > 4; i--)
unfoldable pub scan_rows : ℕ → M Pass
scan_rows zero = return finished
scan_rows (suc i) =
    let next = scan_rows i in if ltb 4 (suc i) then scan_row (suc i) next else return finished

unfoldable pub is_increase_score : M Pass
is_increase_score = scan_rows 22
