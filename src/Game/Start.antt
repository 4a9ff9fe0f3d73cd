-- ===== src/Game/Start.antt =====
-- `Game::InitInterface` and `Game::InitGameFace`: the board and the first piece.
pub mod Framing
pub mod Ready
use russia_tetris.Base.{
  ℕ, ◌+◌, ◌*◌, ◌%◌, ℤ, pos, List, [], ◌∷◌, Bool, true, ◌||◌, ◌==◌, if◌then◌else◌,
}
use russia_tetris.World.{World, set_play}
use russia_tetris.Output.{output, color_white, square}
use russia_tetris.Effect.{M, ◌>>=◌, ◌>>◌, return, modify, lift, for_range, ◌⟫◌}
use russia_tetris.Game.Board.{set_data}
use russia_tetris.Game.Draw.{text, draw_block, draw_current, score_label}

-- The walls and the side of the panel, and the floor.
abbrev pub wall : ℕ → ℕ → Bool
wall i j = j == 0 || j == 19 || j == 29 || i == 23

unfoldable pub init_cell : ℕ → ℕ → M Bool
init_cell i j =
    if wall i j
    then (do set_data (pos i) (pos j) 1; text (pos (i + 1)) (pos (2 * j + 1)) color_white square)
    else (do set_data (pos i) (pos j) 0; return true)

unfoldable pub panel_cell : ℕ → M Bool
panel_cell j = do set_data (pos 11) (pos j) 1; text (pos 12) (pos (2 * j + 1)) color_white square

-- "Next:"
abbrev pub next_label : List ℕ
next_label = 78 ∷ 101 ∷ 120 ∷ 116 ∷ 58 ∷ []

unfoldable pub init_interface : M Bool
unfolding init_cell panel_cell
init_interface =
    for_range 24 0 (λ i. for_range 30 0 λ j. init_cell i j)
    ⟫ for_range 10 20 panel_cell
    ⟫ text (pos 2) (pos 42) color_white next_label
    ⟫ text (pos 14) (pos 42) color_white score_label

-- The bytes of `UImanage::clear` and of `UImanage::hideCursor`.
abbrev pub clear_screen : List ℕ
clear_screen =
    27 ∷ 91 ∷ 63 ∷ 50 ∷ 53 ∷ 104 ∷ 27 ∷ 91 ∷ 63 ∷ 55 ∷ 108 ∷ 27 ∷ 91 ∷ 50 ∷ 74 ∷ 27 ∷ 91 ∷ 72 ∷ []

abbrev pub hide_cursor : List ℕ
hide_cursor = 27 ∷ 91 ∷ 63 ∷ 50 ∷ 53 ∷ 108 ∷ []

-- The four calls of rand(), in their order.
abbrev pub first_pieces : ℕ → ℕ → ℕ → ℕ → World → World
first_pieces r0 r1 r2 r3 w = set_play w (record w.play {
  shape = r0 % 7;
  form = r1 % 4;
  next_shape = r2 % 7;
  next_form = r3 % 4;
  row = pos 1;
  col = pos 9;
})

-- `InitBlockInfo` fills a table that never changes afterwards, `block_defines`.
unfoldable pub init_game_face : ℕ → ℕ → ℕ → ℕ → M Bool
unfolding init_interface
init_game_face r0 r1 r2 r3 =
    lift (λ w. output w clear_screen)
    ⟫ lift (λ w. output w hide_cursor)
    ⟫ init_interface
    ⟫ modify (first_pieces r0 r1 r2 r3)
    ⟫ (λ w. draw_block w.next_shape w.next_form (pos 3) (pos 23) w)
    ⟫ draw_current
