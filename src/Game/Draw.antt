-- ===== src/Game/Draw.antt =====
-- `Game::DrawBlock`, `Game::DrawSpace`, `Game::RedrawWalls` and `Game::UpdateCurrentScore`.
pub mod Drawn
use russia_tetris.Base.{
  ℕ, ◌+◌, ◌*◌, ℤ, pos, ◌+ℤ◌, ◌-ℤ◌, List, [], ◌∷◌, Bool, true, ◌==◌, leb, if◌then◌else◌, Option,
  none, some,
}
use russia_tetris.World.{World, set_play}
use russia_tetris.Output.{output_text, color_of, color_white, square, blank}
use russia_tetris.Effect.{M, lift, modify, return, for_range, ◌⟫◌}
use russia_tetris.Game.Blocks.{space}

-- outputText(user, row, col, color, text)
abbrev pub text : ℤ → ℤ → ℕ → List ℕ → M Bool
text row col color s = lift (output_text row col color s (pos 0))

-- 2 * (col + j) - 1
abbrev pub screen_col : ℤ → ℕ → ℤ
screen_col col j = col +ℤ pos j +ℤ (col +ℤ pos j) -ℤ pos 1

draw_square : ℕ → List ℕ → ℕ → ℕ → ℤ → ℤ → ℕ → ℕ → M Bool
draw_square color s shape form row col i j w = elim (space shape form i j) [
  | none ↦ none
  | some v ↦ if v == 1 then text (row +ℤ pos i) (screen_col col j) color s w else some (true, w)
]

draw_squares : ℕ → List ℕ → ℕ → ℕ → ℤ → ℤ → M Bool
unfolding draw_square
draw_squares color s shape form row col =
    for_range 4 0 λ i. for_range 4 0 λ j. draw_square color s shape form row col i j

unfoldable pub draw_block : ℕ → ℕ → ℤ → ℤ → M Bool
unfolding draw_squares
draw_block shape form row col = draw_squares (color_of (pos shape)) square shape form row col

unfoldable pub draw_space : ℕ → ℕ → ℤ → ℤ → M Bool
unfolding draw_squares
draw_space shape form row col = draw_squares color_white blank shape form row col

-- The current piece, at its place.
abbrev pub draw_current : M Bool
draw_current w = draw_block w.shape w.form w.row w.col w

abbrev pub erase_current : M Bool
erase_current w = draw_space w.shape w.form w.row w.col w

-- The squares of the left wall, of the right wall and of the panel's right side.
unfoldable pub wall_row : ℤ → M Bool
wall_row row =
    text row (pos 1) color_white square
    ⟫ text row (pos 39) color_white square
    ⟫ text row (pos 59) color_white square

unfoldable pub redraw_walls : M Bool
unfolding wall_row
redraw_walls = for_range 24 0 λ i. wall_row (pos (i + 1))

-- "Score: "
abbrev pub score_label : List ℕ
score_label = 83 ∷ 99 ∷ 111 ∷ 114 ∷ 101 ∷ 58 ∷ 32 ∷ []

abbrev pub draw_score : M Bool
draw_score w = lift (output_text (pos 14) (pos 42) color_white score_label (pos w.score)) w

-- What the lines of one lock add to the score: nothing, 10, or ten times one more than their number.
unfoldable pub gain : ℕ → ℕ
gain line = if leb 2 line then (line + 1) * 10 else line * 10

unfoldable pub update_current_score : M Bool
unfolding gain
update_current_score =
    modify (λ w. set_play w (record w.play { score = w.score + gain w.line })) ⟫ draw_score
