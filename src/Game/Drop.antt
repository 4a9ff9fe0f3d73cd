-- ===== src/Game/Drop.antt =====
-- `Game::IsOver` and `Game::processBlockDown`: gravity, the lock of a piece and what follows it.
pub mod Locked
pub mod Cleared
pub mod Settle
pub mod Dropped
pub mod Kept
use russia_tetris.Base.{
  ℕ, zero, suc, ◌+◌, ◌%◌, ℤ, pos, ◌+ℤ◌, List, [], ◌∷◌, ◌++◌, Bool, true, false, Option, none, some,
  ◌==◌, if◌then◌else◌,
}
use russia_tetris.Status.{over_confirming}
use russia_tetris.World.{World, WriteTask, update_top_score_recent_score, set_play, set_status}
use russia_tetris.Output.{output, color_white}
use russia_tetris.Effect.{M, ◌>>=◌, ◌>>◌, return, modify, lift, for_range, ◌⟫◌}
use russia_tetris.Game.Blocks.{space}
use russia_tetris.Game.Board.{cell_row, set_data, set_color, is_legal}
use russia_tetris.Game.Draw.{
  text, draw_block, draw_space, draw_current, erase_current, redraw_walls, update_current_score,
}
use russia_tetris.Game.Lines.{Pass, failed, again, finished, is_increase_score, data_at}

-- Square [i][j] of the piece becomes part of the board.
unfoldable pub write_square : ℕ → ℕ → M Bool
write_square i j w =
    (do
      set_data (cell_row w.row i) (cell_row w.col j) 1
      set_color (cell_row w.row i) (cell_row w.col j) (pos w.shape)
      return true)
      w

unfoldable pub lock_square : ℕ → ℕ → M Bool
unfolding write_square
lock_square i j w = elim (space w.shape w.form i j) [
  | none ↦ none
  | some v ↦ if v == 1 then write_square i j w else some (true, w)
]

unfoldable pub lock_piece : M Bool
lock_piece = for_range 4 0 λ i. for_range 4 0 λ j. lock_square i j

-- while (1): `none` is that the fuel ran out. `some false` is `return`, after a failed output.
unfoldable pub clear_lines : ℕ → M (Option Bool)
clear_lines zero = return none
clear_lines (suc fuel) = do
  result ← is_increase_score
  let rest = clear_lines fuel
  elim result [ again ↦ rest | finished ↦ return (some true) | failed ↦ return (some false) ]

-- for (int j = first; j < first + n; j++) if (getData(1, j) == 1) return true
unfoldable pub any_in_row : ℕ → ℕ → M Bool
any_in_row zero j = return false
any_in_row (suc n) j = do
  d ← data_at 1 j
  let rest = any_in_row n (j + 1)
  if d == 1 then return true else rest

unfoldable pub is_over : M Bool
unfolding any_in_row
is_over = do
  over ← any_in_row 18 1
  if over then modify (λ w. set_status w over_confirming) else return false

-- "GAME OVER" and "Start Again ? (y/n):" of `UImanage::showover`, and the cursor.
abbrev pub game_over : List ℕ
game_over = 71 ∷ 65 ∷ 77 ∷ 69 ∷ 32 ∷ 79 ∷ 86 ∷ 69 ∷ 82 ∷ []

abbrev pub start_again : List ℕ
start_again =
    83 ∷ 116 ∷ 97 ∷ 114 ∷ 116 ∷ 32 ∷ 65 ∷ 103 ∷ 97 ∷ 105 ∷ 110 ∷ 32 ∷ 63 ∷ 32 ∷ 40 ∷ 121 ∷ 47 ∷ 110
    ∷ 41 ∷ 58 ∷ []

abbrev pub show_cursor : List ℕ
show_cursor = 27 ∷ 91 ∷ 63 ∷ 50 ∷ 53 ∷ 104 ∷ []

unfoldable pub show_over : M Bool
show_over =
    text (pos 12) (pos 12) color_white game_over
    ⟫ text (pos 15) (pos 12) color_white start_again
    ⟫ lift (λ w. output w show_cursor)

-- Filedata::update_TopScore_RecentScoreAsync
abbrev pub saving : World → World
saving w = record w { write_queue = w.write_queue ++ update_top_score_recent_score ∷ [] }

unfoldable pub save_score : M Bool
save_score = modify saving

-- The piece after the next one is drawn by lot, and the next one is at the top.
abbrev pub coming : ℕ → ℕ → World → World
coming r r' w =
    set_play w (record w.play { next_shape = r % 7; next_form = r' % 4; row = pos 1; col = pos 9 })

-- The next piece takes the place of the locked one; `r` and `r'` are the two calls of rand().
unfoldable pub next_piece : ℕ → ℕ → M Bool
next_piece r r' =
    modify (λ w. set_play w (record w.play { shape = w.next_shape; form = w.next_form }))
    ⟫ (λ w. draw_space w.next_shape w.next_form (pos 3) (pos 23) w)
    ⟫ modify (coming r r')
    ⟫ (λ w. draw_block w.next_shape w.next_form (pos 3) (pos 23) w)
    ⟫ draw_current

unfoldable pub settle : ℕ → ℕ → M Bool
unfolding next_piece save_score
settle r r' = do over ← is_over; if over then save_score ⟫ show_over else next_piece r r'

-- Everything after the loop over the lines.
unfoldable pub after_lines : ℕ → ℕ → M Bool
unfolding settle
after_lines r r' = update_current_score ⟫ redraw_walls ⟫ settle r r'

abbrev complete : M Bool → M (Option Bool)
complete m = do done ← m; return (some done)

-- More rounds of the loop over the lines than the field has rows.
abbrev pub line_rounds : ℕ
line_rounds = 23

-- What follows the loop over the lines.
unfoldable pub then_settle : ℕ → ℕ → Option Bool → M (Option Bool)
unfolding after_lines
then_settle r r' none = return none
then_settle r r' (some false) = return (some false)
then_settle r r' (some true) = complete (after_lines r r')

unfoldable pub lock : ℕ → ℕ → M (Option Bool)
unfolding then_settle
lock r r' = do
  placed ← lock_piece ⟫ modify (λ w. set_play w (record w.play { line = 0 }))
  cleared ← clear_lines line_rounds
  then_settle r r' cleared

unfoldable pub fall : M Bool
fall =
    erase_current ⟫ modify (λ w. set_play w (record w.play { row = w.row +ℤ pos 1 })) ⟫ draw_current

-- The function returns nothing: `some b` says whether it ran to its end, `none` that the fuel of
-- the loop over the lines ran out.
unfoldable pub process_block_down : ℕ → ℕ → M (Option Bool)
unfolding lock fall
process_block_down r r' w = elim (is_legal w.play w.shape w.form (w.row +ℤ pos 1) w.col) [
  | none ↦ none
  | some legal ↦ elim legal [ true ↦ complete fall w | false ↦ lock r r' w ]
]
