-- ===== src/Game/Moves.antt =====
-- The keys: `handleMoveDown`, `handleMoveLeft`, `handleMoveRight`, `handleRotation`.
pub mod Tried
use russia_tetris.Base.{ℕ, ◌+◌, ◌%◌, ℤ, pos, ◌+ℤ◌, ◌-ℤ◌, Bool, true, false, Option, none, some}
use russia_tetris.World.{World, Play, set_play}
use russia_tetris.Effect.{M, modify, ◌⟫◌}
use russia_tetris.Game.Board.{is_legal}
use russia_tetris.Game.Draw.{draw_current, erase_current}

-- Where a key would take the piece.
pub data Key : Type 0 where
  down left right rotation : Key

abbrev pub moved : Key → Play → Play
moved down p = record p { row = p.row +ℤ pos 1 }
moved left p = record p { col = p.col -ℤ pos 1 }
moved right p = record p { col = p.col +ℤ pos 1 }
moved rotation p = record p { row = p.row +ℤ pos 1; form = (p.form + 1) % 4 }

-- if (IsLegal(...) == 1) { DrawSpace; set the place; DrawBlock; } return true;
-- The four handlers differ only in the place that they try, which is the place that they set.
unfoldable pub handle : Key → M Bool
handle k w =
    let p = moved k w.play in
    elim (is_legal w.play p.shape p.form p.row p.col) [
      | none ↦ none
      | some legal ↦ elim legal [
        | true ↦ (erase_current ⟫ modify (λ w'. set_play w' (moved k w'.play)) ⟫ draw_current) w
        | false ↦ some (true, w)
      ]
    ]

unfoldable pub handle_move_down : M Bool
unfolding handle
handle_move_down = handle down

unfoldable pub handle_move_left : M Bool
unfolding handle
handle_move_left = handle left

unfoldable pub handle_move_right : M Bool
unfolding handle
handle_move_right = handle right

unfoldable pub handle_rotation : M Bool
unfolding handle
handle_rotation = handle rotation
